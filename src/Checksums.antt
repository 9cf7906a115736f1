-- ===== src/Checksums.antt =====
-- checksumFor, the same function in upgrade.go (cmd/grasshopper-server) and update.go
-- (internal/client), on the code points of the file SHA256SUMS.
use grasshopper.Base.{
  ℕ, ◌+◌, Bool, ◌&&◌, ◌||◌, Option, none, some, List, [], ◌∷◌, ◌==◌, nat_eq, list_eq, if◌then◌else◌,
  leb, nat_beq, all, length, map, is_space, true, string_eq, option_eq, false,
}
use grasshopper.Versions.{extend, split_on}

-- A new field starts where a space ended the last one.
abbrev add_field : ℕ → Bool → List (List ℕ) → List (List ℕ)
add_field c true fields = (c ∷ []) ∷ fields
add_field c false fields = extend c fields

abbrev pub ends_field : List ℕ → Bool
ends_field [] = true
ends_field (c ∷ cs) = is_space c

-- strings.Fields
unfoldable pub fields_of : List ℕ → List (List ℕ)
fields_of [] = []
fields_of (c ∷ cs) =
    let rest = fields_of cs in if is_space c then rest else add_field c (ends_field cs) rest

abbrev pub is_hex : ℕ → Bool
is_hex c = (leb 48 c && leb c 57) || (leb 97 c && leb c 102) || (leb 65 c && leb c 70)

-- hex.DecodeString succeeds with the 32 bytes of a SHA-256 sum.
abbrev pub is_sum : List ℕ → Bool
is_sum text = all is_hex text && nat_beq (length text) 64

-- strings.ToLower on hexadecimal digits
abbrev pub lower_code : ℕ → ℕ
lower_code c = if leb 65 c && leb c 90 then c + 32 else c

-- strings.TrimPrefix(field, "*")
abbrev pub trim_star : List ℕ → List ℕ
trim_star [] = []
trim_star (c ∷ cs) = if nat_beq c 42 then cs else c ∷ cs

abbrev pub sum_in : List ℕ → List (List ℕ) → Option (List ℕ)
sum_in name (sum ∷ file ∷ []) =
    if trim_star file == name && is_sum sum then some (map lower_code sum) else none
sum_in name _ = none

unfoldable pub checksum_among : List ℕ → List (List ℕ) → Option (List ℕ)
unfolding fields_of
checksum_among name [] = none
checksum_among name (line ∷ lines) = elim (sum_in name (fields_of line)) [
  | some sum ↦ some sum
  | none ↦ checksum_among name lines
]

-- The scanner's lines end with a line feed; a carriage return before it is space.
unfoldable pub checksum_for : List ℕ → List ℕ → Option (List ℕ)
unfolding split_on checksum_among
checksum_for sums name = checksum_among name (split_on 10 sums)
