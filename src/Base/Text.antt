-- ===== src/Base/Text.antt =====
-- What the program uses of Go's `strings` and `unicode` packages, on the code points of a text.
-- `len` of the prelude counts the bytes of UTF-8, as Go's `len` does.
use Prim.Native.Nat.{ℕ, zero, suc, ◌/◌, ◌%◌}
use Prim.Native.Char.{code}
use Prim.Native.String.{String, ◌++◌}
use mathlib.Core.Bool.{Bool, true, false, ◌&&◌, ◌||◌}
use mathlib.Core.Option.{Option, none, some}
use mathlib.Core.List.{List, [], ◌∷◌}
use grasshopper.Base.Tests.{leb, ltb, nat_beq, if◌then◌else◌}
use grasshopper.Base.Lists.{any}

-- The code points of a text. `String` has its own `[]` and `∷`.
abbrev pub codes : String → List ℕ
codes String.[] = []
codes (String.◌∷◌ c s) = code c ∷ codes s

-- unicode.IsSpace
abbrev pub is_space : ℕ → Bool
is_space c =
    (leb 9 c && leb c 13)
    || nat_beq c 32
    || nat_beq c 0x85
    || nat_beq c 0xA0
    || nat_beq c 0x1680
    || (leb 0x2000 c && leb c 0x200A)
    || nat_beq c 0x2028
    || nat_beq c 0x2029
    || nat_beq c 0x202F
    || nat_beq c 0x205F
    || nat_beq c 0x3000

-- unicode.IsControl
abbrev pub is_control : ℕ → Bool
is_control c = leb c 31 || (leb 127 c && leb c 159)

all_space : List ℕ → Bool
all_space [] = true
all_space (c ∷ cs) = is_space c && all_space cs

-- strings.TrimSpace(s) == ""
unfoldable pub is_blank : String → Bool
unfolding all_space
is_blank s = all_space (codes s)

-- strings.IndexFunc(s, unicode.IsControl) >= 0
unfoldable pub has_control : String → Bool
has_control s = any is_control (codes s)

starts_with_codes : List ℕ → List ℕ → Bool
starts_with_codes s [] = true
starts_with_codes [] (p ∷ ps) = false
starts_with_codes (c ∷ s) (p ∷ ps) = nat_beq c p && starts_with_codes s ps

-- strings.Contains on code points
contains_codes : List ℕ → List ℕ → Bool
unfolding starts_with_codes
contains_codes [] p = starts_with_codes [] p
contains_codes (c ∷ s) p = starts_with_codes (c ∷ s) p || contains_codes s p

unfoldable pub has_prefix : String → String → Bool
unfolding starts_with_codes
has_prefix s p = starts_with_codes (codes s) (codes p)

-- strings.CutPrefix: what follows the prefix, if it is one
abbrev pub cut_prefix : String → String → Option String
cut_prefix s String.[] = some s
cut_prefix String.[] (String.◌∷◌ p ps) = none
cut_prefix (String.◌∷◌ c s) (String.◌∷◌ p ps) =
    if nat_beq (code c) (code p) then cut_prefix s ps else none

-- strings.TrimPrefix
abbrev pub trim_prefix : String → String → String
trim_prefix s p = elim (cut_prefix s p) [ none ↦ s | some rest ↦ rest ]

unfoldable pub contains : String → String → Bool
unfolding contains_codes
contains s p = contains_codes (codes s) (codes p)

-- strings.ContainsAny
unfoldable pub contains_any : String → String → Bool
contains_any s chars = any (λ c. any (nat_beq c) (codes chars)) (codes s)

abbrev digit : ℕ → String
digit d =
    if nat_beq d 0
    then "0"
    else if nat_beq d 1
    then "1"
    else if nat_beq d 2
    then "2"
    else if nat_beq d 3
    then "3"
    else if nat_beq d 4
    then "4"
    else if nat_beq d 5
    then "5"
    else if nat_beq d 6
    then "6"
    else if nat_beq d 7
    then "7"
    else if nat_beq d 8
    then "8"
    else "9"

decimal_digits : ℕ → ℕ → String
decimal_digits zero n = digit (n % 10)
decimal_digits (suc fuel) n =
    let front = decimal_digits fuel (n / 10) in
    if ltb n 10 then digit n else front ++ digit (n % 10)

-- The verb %d. The fuel is enough, since each digit divides the number by ten.
unfoldable pub decimal : ℕ → String
unfolding decimal_digits
decimal n = decimal_digits n n
