-- ===== src/Versions/RoundTrip.antt =====
-- A release version has one text: printing and parsing are inverse to each other.
use grasshopper.Versions.Digits.{all-itoa, parse_part-itoa, itoa-parse_part}
use grasshopper.Versions.{
  extend, split_on, is_digit, max_int, itoa, parse_part, three, of_parts, parse_codes, print_codes,
  Version,
}
use grasshopper.Base.{
  nat_beq, nat_beq_iff, Bool-cases, and-left, and-right, some_inj, all, ℕ, ◌≤◌, ◌≡◌, refl, sym, ap,
  ◌∙◌, subst, ◌↔◌, inl, inr, true, false, Option, none, some, List, [], ◌∷◌, ◌++◌, arith,
}

is_digit-ne : (c : ℕ) → is_digit c ≡ true → nat_beq c 46 ≡ false
is_digit-ne c h = ground arith

split_on-part :
    (part rest : List ℕ)
    → all is_digit part ≡ true
    → split_on 46 (part ++ (46 ∷ rest)) ≡ part ∷ split_on 46 rest
unfolding split_on
split_on-part [] rest h = refl
split_on-part (c ∷ cs) rest h =
    rw (is_digit-ne c (and-left (is_digit c) _ h))
      (ap (extend c) (split_on-part cs rest (and-right (is_digit c) _ h)))

split_on-last : (part : List ℕ) → all is_digit part ≡ true → split_on 46 part ≡ part ∷ []
unfolding split_on
split_on-last [] h = refl
split_on-last (c ∷ cs) h =
    rw (is_digit-ne c (and-left (is_digit c) _ h))
      (ap (extend c) (split_on-last cs (and-right (is_digit c) _ h)))

join : List (List ℕ) → List ℕ
join [] = []
join (part ∷ []) = part
join (part ∷ (next ∷ parts)) = part ++ (46 ∷ join (next ∷ parts))

join-extend : (c : ℕ) (parts : List (List ℕ)) → join (extend c parts) ≡ c ∷ join parts
unfolding join
join-extend c [] = refl
join-extend c (part ∷ []) = refl
join-extend c (part ∷ (next ∷ parts)) = refl

split_on-cons :
    (text : List ℕ) → (part : List ℕ) × (parts : List (List ℕ)) × (split_on 46 text ≡ part ∷ parts)
unfolding split_on
split_on-cons [] = ([], [], refl)
split_on-cons (c ∷ cs) = elim (Bool-cases (nat_beq c 46)) [
  | inl dot ↦ ([], split_on 46 cs, rw dot refl)
  | inr other ↦
      let (part, parts, e) = split_on-cons cs in (c ∷ part, parts, rw other (ap (extend c) e))
]

join-split_on : (text : List ℕ) → join (split_on 46 text) ≡ text
unfolding split_on join
join-split_on [] = refl
join-split_on (c ∷ cs) = elim (Bool-cases (nat_beq c 46)) [
  | inl dot ↦
      let (part, parts, e) = split_on-cons cs in
      rw (dot, e)
        (ap (λ x. 46 ∷ x) (ap join (sym e) ∙ join-split_on cs)
          ∙ ap (λ x. x ∷ cs) (sym ((nat_beq_iff c 46).0 dot)))
  | inr other ↦ rw other (join-extend c (split_on 46 cs) ∙ ap (λ x. c ∷ x) (join-split_on cs))
]

three-some :
    (a b c : Option ℕ) (v : Version)
    → three a b c ≡ some v
    → (x : ℕ) × (y : ℕ) × (z : ℕ) × (a ≡ some x)
      × (b ≡ some y)
      × (c ≡ some z)
      × (record { major = x; minor = y; patch = z } ≡ v)
three-some (some x) (some y) (some z) v h = (x, y, z, refl, refl, refl, some_inj _ _ h)
three-some none b c v h = cc
three-some (some x) none c v h = cc
three-some (some x) (some y) none v h = cc

-- Parsing what is printed gives the version, where its numbers fit the type `int`.
pub parse_codes-print_codes :
    (v : Version)
    → v.major ≤ max_int
    → v.minor ≤ max_int
    → v.patch ≤ max_int
    → parse_codes (print_codes v) ≡ some v
unfolding parse_codes print_codes
parse_codes-print_codes v a b c =
    let e : split_on 46 (itoa v.major ++ (46 ∷ (itoa v.minor ++ (46 ∷ itoa v.patch))))
        ≡ itoa v.major ∷ (itoa v.minor ∷ (itoa v.patch ∷ [])) =
      split_on-part (itoa v.major) _ (all-itoa v.major)
      ∙ ap (λ x. itoa v.major ∷ x) (split_on-part (itoa v.minor) _ (all-itoa v.minor))
      ∙ ap (λ x. itoa v.major ∷ (itoa v.minor ∷ x))
          (split_on-last (itoa v.patch) (all-itoa v.patch)) in
    ap of_parts e
    ∙ rw (parse_part-itoa v.major a, parse_part-itoa v.minor b, parse_part-itoa v.patch c) refl

-- A text that parses is what is printed for its version: no two texts are the same release.
pub print_codes-parse_codes :
    (text : List ℕ) (v : Version) → parse_codes text ≡ some v → print_codes v ≡ text
unfolding parse_codes print_codes join
print_codes-parse_codes text v h = split (split_on 46 text) refl h
  where
    split :
        (parts : List (List ℕ))
        → split_on 46 text ≡ parts
        → of_parts parts ≡ some v
        → print_codes v ≡ text
    split [] e k = cc
    split (a ∷ []) e k = cc
    split (a ∷ (b ∷ [])) e k = cc
    split (a ∷ (b ∷ (c ∷ (d ∷ ds)))) e k = cc
    split (a ∷ (b ∷ (c ∷ []))) e k =
        let (x, y, z, ea, eb, ec, ev) =
          three-some (parse_part a) (parse_part b) (parse_part c) v k in
        let printed : print_codes (record { major = x; minor = y; patch = z })
            ≡ join (a ∷ (b ∷ (c ∷ []))) =
          rw ((itoa-parse_part a x ea).0, (itoa-parse_part b y eb).0, (itoa-parse_part c z ec).0)
            refl in
        ap print_codes (sym ev) ∙ printed ∙ ap join (sym e) ∙ join-split_on text

-- The numbers fit the type `int`.
abbrev pub Fits : Version → Type 0
Fits v = (v.major ≤ max_int) × (v.minor ≤ max_int) × (v.patch ≤ max_int)

parse_codes-Fits : (text : List ℕ) (v : Version) → parse_codes text ≡ some v → Fits v
unfolding parse_codes
parse_codes-Fits text v h = by_parts (split_on 46 text) h
  where
    by_parts : (parts : List (List ℕ)) → of_parts parts ≡ some v → Fits v
    by_parts [] k = absurd cc
    by_parts (a ∷ []) k = absurd cc
    by_parts (a ∷ (b ∷ [])) k = absurd cc
    by_parts (a ∷ (b ∷ (c ∷ (d ∷ ds)))) k = absurd cc
    by_parts (a ∷ (b ∷ (c ∷ []))) k =
        let (x, y, z, ea, eb, ec, ev) =
          three-some (parse_part a) (parse_part b) (parse_part c) v k in
        subst Fits ev
          ((itoa-parse_part a x ea).1, (itoa-parse_part b y eb).1, (itoa-parse_part c z ec).1)

-- A text parses as a version exactly when it is what is printed for it and the numbers fit.
pub parse_codes_iff :
    (text : List ℕ) (v : Version) → (parse_codes text ≡ some v) ↔ ((print_codes v ≡ text) × Fits v)
parse_codes_iff text v = (
  λ h. (print_codes-parse_codes text v h, parse_codes-Fits text v h),
  λ (e, (a, b, c)). subst (λ t. parse_codes t ≡ some v) e (parse_codes-print_codes v a b c),
)
