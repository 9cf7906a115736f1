-- ===== src/Versions.antt =====
-- Release versions: parseVersion (cmd/grasshopper-server/upgrade.go), ParseVersion and CompareVersions
-- (internal/client/update.go), on the code points of a text.
pub mod Digits
pub mod RoundTrip
pub mod Compare
mod Tests
use grasshopper.Base.{
  ℕ, zero, suc, ◌+◌, ◌-◌, ◌*◌, ◌/◌, ◌%◌, ◌^◌, Bool, true, false, not, ◌&&◌, ◌||◌, Option, none,
  some, List, [], ◌∷◌, ◌++◌, String, if◌then◌else◌, ltb, leb, nat_beq, codes, all, ◌==◌, nat_eq,
  list_eq,
}

-- The first part gets one more code point in front.
abbrev pub extend : ℕ → List (List ℕ) → List (List ℕ)
extend c [] = (c ∷ []) ∷ []
extend c (part ∷ parts) = (c ∷ part) ∷ parts

-- strings.Split by one separator
unfoldable pub split_on : ℕ → List ℕ → List (List ℕ)
split_on sep [] = [] ∷ []
split_on sep (c ∷ cs) =
    let rest = split_on sep cs in if nat_beq c sep then [] ∷ rest else extend c rest

abbrev pub is_digit : ℕ → Bool
is_digit c = leb 48 c && leb c 57

-- The value of decimal digits after those that gave `n`.
abbrev pub value_from : ℕ → List ℕ → ℕ
value_from n [] = n
value_from n (c ∷ cs) = value_from (n * 10 + (c - 48)) cs

abbrev pub max_int : ℕ
max_int = 9223372036854775807

-- The digits after an optional sign, as a number that fits the type `int`.
unfoldable pub unsigned : List ℕ → Option ℕ
unsigned [] = none
unsigned (c ∷ cs) =
    if all is_digit (c ∷ cs) && leb (value_from 0 (c ∷ cs)) max_int
    then some (value_from 0 (c ∷ cs))
    else none

-- The version's number in a part: strconv.Atoi succeeds, the number is not negative, and it is
-- written as strconv.Itoa writes it. A sign passes Atoi and is never written by Itoa, so a part with
-- a sign fails in any case.
unfoldable pub digits_from : ℕ → ℕ → List ℕ → List ℕ
digits_from zero n acc = acc
digits_from (suc fuel) n acc =
    let rest = digits_from fuel (n / 10) ((48 + n % 10) ∷ acc) in
    if ltb n 10 then (48 + n) ∷ acc else rest

-- strconv.Itoa of a number that is not negative. The fuel is enough, since ten divides it down.
unfoldable pub itoa : ℕ → List ℕ
unfolding digits_from
itoa n = digits_from (suc n) n []

unfoldable pub parse_part : List ℕ → Option ℕ
unfolding unsigned itoa
parse_part part = elim (unsigned part) [
  | none ↦ none
  | some n ↦ if itoa n == part then some n else none
]

pub record Version : Type 0 where
  pub major : ℕ
  pub minor : ℕ
  pub patch : ℕ

abbrev pub three : Option ℕ → Option ℕ → Option ℕ → Option Version
three (some a) (some b) (some c) = some (record { major = a; minor = b; patch = c })
three _ _ _ = none

abbrev pub of_parts : List (List ℕ) → Option Version
of_parts (a ∷ b ∷ c ∷ []) = three (parse_part a) (parse_part b) (parse_part c)
of_parts _ = none

unfoldable pub parse_codes : List ℕ → Option Version
unfolding split_on parse_part
parse_codes text = of_parts (split_on 46 text)

-- strings.TrimPrefix(version, "v")
abbrev pub trim_v : List ℕ → List ℕ
trim_v [] = []
trim_v (c ∷ cs) = if nat_beq c 118 then cs else c ∷ cs

-- parseVersion of the server
unfoldable pub parse_version : String → Option Version
unfolding parse_codes
parse_version version = parse_codes (codes version)

-- ParseVersion of the client
unfoldable pub parse_client_version : String → Option Version
unfolding parse_codes
parse_client_version version = parse_codes (trim_v (codes version))

pub data Order : Type 0 where
  older same newer : Order

abbrev pub compare_numbers : ℕ → ℕ → Order → Order
compare_numbers a b rest = if nat_beq a b then rest else if ltb a b then older else newer

-- The loop of CompareVersions, and slices.Compare on the three numbers.
unfoldable pub compare_parsed : Version → Version → Order
compare_parsed left right =
    compare_numbers left.major right.major
      (compare_numbers left.minor right.minor (compare_numbers left.patch right.patch same))

abbrev pub compare_both : Option Version → Option Version → Option Order
unfolding compare_parsed
compare_both (some left) (some right) = some (compare_parsed left right)
compare_both _ _ = none

unfoldable pub compare_versions : String → String → Option Order
unfolding parse_client_version compare_both
compare_versions a b = compare_both (parse_client_version a) (parse_client_version b)

-- A version as releases write it.
unfoldable pub print_codes : Version → List ℕ
unfolding itoa
print_codes v = itoa v.major ++ (46 ∷ (itoa v.minor ++ (46 ∷ itoa v.patch)))
