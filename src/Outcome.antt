-- ===== src/Outcome.antt =====
-- Results of the memory package's fallible functions (internal/memory): a value, or the error that
-- the function returns. One constructor stands for each error message of the code;
-- `nil_dereference` is a panic, and `constraint_failed` the database's refusal of a row.
use grasshopper.Base.{if◌then◌else◌, Bool, true, false, ◌≡◌, refl, ℕ}

pub data Error : Type 0 where
  -- Scope.Key, durableProject, applicableKeys
  legacy_dimensions invalid_identifier unsanitized_project invalid_platform : Error
  undurable_project legacy_review : Error
  -- validateProvenance, checkRequestID, replay, getInTx
  unbounded_provenance invalid_request_id idempotency_conflict : Error
  revision_scope_mismatch undecodable_scope : Error
  -- Write, Archive and Move
  legacy_write invalid_purpose invalid_key invalid_embedding : Error
  memory_not_found confirmation_conflict immutable_key missing_record : Error
  restore_with_content revision_not_found invalid_content metadata_too_large : Error
  invalid_memory_type dedup_key_conflict concurrent_update nil_dereference : Error
  invalid_move move_to_same_place move_target_exists : Error
  revision_conflict duplicate_conflict : ℕ → Error
  -- a UNIQUE constraint of the database
  constraint_failed : Error
  -- client tokens and searches
  invalid_device device_not_found invalid_token_id invalid_label invalid_query
        invalid_visualizer_scope :
      Error

pub data Result {ℓ} (T : Type ℓ) : Type ℓ where
  ok : T → Result T
  err : Error → Result T

-- `if !holds { return errors.New(e) }`
abbrev pub guard : Bool → Error → Result (Unit {0})
guard holds e = if holds then ok tt else err e

infixl 5 ◌>>=◌
abbrev pub ◌>>=◌ {ℓ κ} : {A : Type ℓ} {B : Type κ} → Result A → (A → Result B) → Result B
ok value >>= next = next value
err e >>= next = err e

-- A check, and what follows it.
infixl 5 ◌>>◌
abbrev pub ◌>>◌ {κ} : {B : Type κ} → Result (Unit {0}) → Result B → Result B
checked >> rest = checked >>= λ _. rest

pub bind_ok {ℓ κ} :
    {A : Type ℓ} {B : Type κ} (r : Result A) (next : A → Result B) {end : B}
    → (r >>= next) ≡ ok end
    → (value : A) × (r ≡ ok value) × (next value ≡ ok end)
bind_ok (ok value) next h = (value, refl, h)
bind_ok (err e) next h = cc

pub guard_ok {ℓ} :
    {A : Type ℓ} (b : Bool) (e : Error) (k : Result A) {a : A}
    → (guard b e >> k) ≡ ok a
    → (b ≡ true) × (k ≡ ok a)
guard_ok true e k h = (refl, h)
guard_ok false e k h = cc
