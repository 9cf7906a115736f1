-- ===== src/Scope.antt =====
-- Scopes of memories (internal/memory/reader.go): their validation, their database keys, and the
-- keys that apply to a caller.
pub mod Applies
mod Tests
-- The text column `memory_scope` holds "legacy" or the JSON document of a scope; the model keeps
-- the document's value (`ScopeKey`).
use Prim.Native.String.{len}
use grasshopper.Base.{
  ℕ, ◌/◌, ◌%◌, ◌≡◌, ◌↔◌, Bool, true, false, not, ◌&&◌, ◌||◌, Option, none, some, List, [], ◌∷◌,
  ◌++◌, String, arith, Eq, ◌==◌, nat_eq, string_eq, option_eq, option_beq_iff, if◌then◌else◌, ltb,
  is_blank, has_control, contains, contains_any, has_prefix, any,
}
use grasshopper.Outcome.{
  Result, ok, err, guard, ◌>>=◌, ◌>>◌, legacy_dimensions, invalid_identifier, unsanitized_project,
  invalid_platform, undurable_project, legacy_review,
}

pub record Scope : Type 0 where
  pub project : Option String
  pub device : Option String
  pub platform : Option String
  pub legacy : Bool

pub data ScopeKey : Type 0 where
  legacy_key : ScopeKey
  document : Scope → ScopeKey

abbrev pub bool_beq : Bool → Bool → Bool
bool_beq true b = b
bool_beq false b = not b

abbrev pub scope_beq : Scope → Scope → Bool
scope_beq a b =
    a.project == b.project
    && (a.device == b.device && (a.platform == b.platform && bool_beq a.legacy b.legacy))

pub scope_beq_iff : (a b : Scope) → (scope_beq a b ≡ true) ↔ (a ≡ b)
scope_beq_iff a b = ground (
  arith,
  option_beq_iff a.project b.project,
  option_beq_iff a.device b.device,
  option_beq_iff a.platform b.platform,
)

instance abbrev pub scope_eq : Eq Scope
scope_eq = record { beq = scope_beq; beq_iff = scope_beq_iff }

abbrev pub scope_key_beq : ScopeKey → ScopeKey → Bool
scope_key_beq legacy_key legacy_key = true
scope_key_beq (document a) (document b) = scope_beq a b
scope_key_beq _ _ = false

pub scope_key_beq_iff : (a b : ScopeKey) → (scope_key_beq a b ≡ true) ↔ (a ≡ b)
scope_key_beq_iff legacy_key legacy_key = ground arith
scope_key_beq_iff legacy_key (document b) = ground arith
scope_key_beq_iff (document a) legacy_key = ground arith
scope_key_beq_iff (document a) (document b) = ground (arith, scope_beq_iff a b)

instance abbrev pub scope_key_eq : Eq ScopeKey
scope_key_eq = record { beq = scope_key_beq; beq_iff = scope_key_beq_iff }

abbrev pub on_some : (String → Bool) → Option String → Bool
on_some p none = true
on_some p (some v) = p v

abbrev pub is_identifier : String → Bool
is_identifier v = not (is_blank v) && (not (ltb 512 (len v)) && not (has_control v))

abbrev pub is_sanitized : String → Bool
is_sanitized p = not (contains_any p "@?#\\") && not (contains p "://")

abbrev pub is_platform : String → Bool
is_platform p = p == "macos" || (p == "windows" || p == "linux")

unfoldable pub key : Scope → Result ScopeKey
key s =
    if s.legacy
    then (do
      guard (s.project == none && (s.device == none && s.platform == none)) legacy_dimensions
      ok legacy_key)
    else do
      guard (on_some is_identifier s.project && on_some is_identifier s.device) invalid_identifier
      guard (on_some is_sanitized s.project) unsanitized_project
      guard (on_some is_platform s.platform) invalid_platform
      ok (document s)

unfoldable pub durable_project : Scope → Result (Unit {0})
durable_project s = elim s.project [
  | none ↦ ok tt
  | some p ↦
      if has_prefix p "id:" && ltb 3 (len p)
      then ok tt
      else if has_prefix p "git:" && (ltb 4 (len p) && contains p "/")
      then ok tt
      else err undurable_project
]

-- The scope that keeps the dimensions whose bit the mask holds.
unfoldable pub masked : Scope → ℕ → Scope
masked s mask = record {
  project = if mask % 2 == 1 then s.project else none;
  device = if mask / 2 % 2 == 1 then s.device else none;
  platform = if mask / 4 % 2 == 1 then s.platform else none;
  legacy = false;
}

-- `seen` and `keys` of the loop hold the same keys.
unfoldable pub collect_keys : Scope → List ℕ → List ScopeKey → Result (List ScopeKey)
unfolding masked key
collect_keys s [] keys = ok keys
collect_keys s (mask ∷ masks) keys = do
  next ← key (masked s mask)
  collect_keys s masks (if any (λ k. k == next) keys then keys else keys ++ next ∷ [])

unfoldable pub applicable_keys : Scope → Result (List ScopeKey)
unfolding collect_keys key
applicable_keys s = do
  _ ← key s
  guard (not s.legacy) legacy_review
  collect_keys s (0 ∷ 1 ∷ 2 ∷ 3 ∷ 4 ∷ 5 ∷ 6 ∷ 7 ∷ []) []
