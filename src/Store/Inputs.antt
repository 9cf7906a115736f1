-- ===== src/Store/Inputs.antt =====
-- The inputs of the writer (internal/memory/writer.go) and their validation.
-- SHA-256 over the canonical JSON of a value is a parameter: what the store relies on is that equal
-- values have equal digests, and theorems that need more name it.
use Prim.Native.String.{len}
use Prim.Native.Nat.{◌/◌, ◌%◌, ◌^◌}
use grasshopper.Base.{
  ℕ, Bool, true, false, not, ◌&&◌, ◌||◌, Option, none, some, List, [], ◌∷◌, String, ◌==◌, nat_eq,
  string_eq, ltb, is_blank, any, if◌then◌else◌, zero, suc,
}
use grasshopper.Outcome.{Result, guard, unbounded_provenance, invalid_request_id}
use grasshopper.Scope.{Scope}
use grasshopper.Store.{Provenance}

pub record WriteInput : Type 0 where
  pub scope : Scope
  pub content : String
  pub title : Option String
  pub tags : Option String
  pub memory_type : Option String
  pub purpose : String
  pub confirmed : Bool
  pub provenance : Provenance
  pub request_id : String
  pub key : Option String
  pub id : Option ℕ
  pub expected_revision : Option ℕ
  pub restore_revision : Option ℕ

pub record ArchiveInput : Type 0 where
  pub scope : Scope
  pub id : ℕ
  pub expected_revision : ℕ
  pub archived : Bool
  pub request_id : String
  pub provenance : Provenance

pub record MoveInput : Type 0 where
  pub id : ℕ
  pub expected_revision : ℕ
  pub project : Option String
  pub device : Option String
  pub platform : Option String
  pub request_id : String
  pub provenance : Provenance

-- `digest` at each type of value that the writer digests.
pub record Digests : Type 0 where
  pub of_write : WriteInput → String
  pub of_archive : ArchiveInput → String
  pub of_move : MoveInput → String
  pub of_content : String → String → String → String

-- The times that one call reads: for its own row, and for the handoffs that it retires.
pub record Clock : Type 0 where
  pub now : String
  pub retired_at : String

is_bounded : String → Bool
is_bounded v = not (is_blank v) && not (ltb 2048 (len v))

unfoldable pub validate_provenance : Provenance → Result (Unit {0})
unfolding is_bounded
validate_provenance p =
    guard (is_bounded p.harness && (is_bounded p.device && is_bounded p.source))
      unbounded_provenance

unfoldable pub check_request_id : String → Result (Unit {0})
check_request_id request =
    guard (not (is_blank request) && not (ltb 128 (len request))) invalid_request_id

abbrev pub is_purpose : String → Bool
is_purpose p =
    p == "preference"
    || (p == "decision" || (p == "lesson" || (p == "handoff" || p == "observation")))

abbrev pub is_memory_type : String → Bool
is_memory_type t = t == "identity" || (t == "knowledge" || (t == "episode" || t == "procedure"))

abbrev pub is_key : Option String → Bool
is_key none = true
is_key (some k) = not (is_blank k) && not (ltb 128 (len k))

-- A float32 by its bit pattern: NaN and the infinities have all exponent bits set.
abbrev pub is_finite : ℕ → Bool
is_finite bits = not (bits / 2 ^ 23 % 256 == 255)

abbrev pub is_vector : Option (List ℕ) → String → Bool
is_vector none model = true
is_vector (some []) model = false
is_vector (some (v ∷ vs)) model = not (model == "") && not (any (λ b. not (is_finite b)) (v ∷ vs))

-- Little-endian float32 values.
unfoldable pub vector_blob : List ℕ → List ℕ
vector_blob [] = []
vector_blob (v ∷ vs) =
    (v % 256) ∷ (v / 2 ^ 8 % 256) ∷ (v / 2 ^ 16 % 256) ∷ (v / 2 ^ 24 % 256) ∷ vector_blob vs

rune_count : String → ℕ
rune_count String.[] = 0
rune_count (String.◌∷◌ c s) = suc (rune_count s)

-- The loop of firstRunes: what stands before the rune at which `count` has run out.
runes_before : String → ℕ → String
runes_before String.[] n = String.[]
runes_before (String.◌∷◌ c s) zero = String.[]
runes_before (String.◌∷◌ c s) (suc n) = String.◌∷◌ c (runes_before s n)

unfoldable pub first_runes : String → ℕ → String
unfolding rune_count runes_before
first_runes value n = if ltb n (rune_count value) then runes_before value n else value
