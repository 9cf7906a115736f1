-- ===== src/Versions/Digits.antt =====
-- A part of a version is the decimal text of its number.
use grasshopper.Versions.{is_digit, value_from, max_int, unsigned, digits_from, itoa, parse_part}
use grasshopper.Base.{
  ltb, leb, if◌then◌else◌, leb→le, le→leb, Bool-cases, and-right, Option-cases, some_inj, all, ◌==◌,
  eq_of_test, test_self, nat_eq, string_eq, option_eq, list_eq, ℕ, zero, suc, ◌+◌, ◌/◌, ◌%◌, ◌≤◌,
  ◌<◌, ◌≡◌, refl, sym, ap, ◌∙◌, subst, inl, inr, true, ◌&&◌, none, some, List, [], ◌∷◌, arith,
}

-- What is printed before the digits that are there counts in front of them.
pub value_from-digits_from :
    (fuel n : ℕ) (acc : List ℕ)
    → n < fuel
    → value_from 0 (digits_from fuel n acc) ≡ value_from n acc
unfolding digits_from
value_from-digits_from zero n acc h = absurd (omega arith)
value_from-digits_from (suc fuel) n acc h = elim (Bool-cases (ltb n 10)) [
  | inl small ↦ rw small (ap (λ m. value_from m acc) (omega arith))
  | inr large ↦
      let ge : 10 ≤ n = ground arith in
      rw large (
        value_from-digits_from fuel (n / 10) ((48 + n % 10) ∷ acc) (omega arith)
        ∙ ap (λ m. value_from m acc) (omega arith))
]

pub all-digits_from :
    (fuel n : ℕ) (acc : List ℕ)
    → all is_digit acc ≡ true
    → all is_digit (digits_from fuel n acc) ≡ true
unfolding digits_from
all-digits_from zero n acc h = h
all-digits_from (suc fuel) n acc h = elim (Bool-cases (ltb n 10)) [
  | inl small ↦ rw small (ground arith)
  | inr large ↦ rw large (all-digits_from fuel (n / 10) ((48 + n % 10) ∷ acc) (ground arith))
]

-- There is a first digit.
pub digits_from-cons :
    (fuel n d : ℕ) (acc : List ℕ)
    → (c : ℕ) × (cs : List ℕ) × (digits_from fuel n (d ∷ acc) ≡ c ∷ cs)
unfolding digits_from
digits_from-cons zero n d acc = (d, acc, refl)
digits_from-cons (suc fuel) n d acc = elim (Bool-cases (ltb n 10)) [
  | inl small ↦ (48 + n, d ∷ acc, rw small refl)
  | inr large ↦
      let (c, cs, e) = digits_from-cons fuel (n / 10) (48 + n % 10) (d ∷ acc) in (c, cs, rw large e)
]

pub itoa-cons : (n : ℕ) → (c : ℕ) × (cs : List ℕ) × (itoa n ≡ c ∷ cs)
unfolding itoa
itoa-cons n = elim (Bool-cases (ltb n 10)) [
  | inl small ↦ (48 + n, [], rw small refl)
  | inr large ↦ let (c, cs, e) = digits_from-cons n (n / 10) (48 + n % 10) [] in (c, cs, rw large e)
]

pub value_from-itoa : (n : ℕ) → value_from 0 (itoa n) ≡ n
unfolding itoa
value_from-itoa n = value_from-digits_from (suc n) n [] (omega arith)

pub all-itoa : (n : ℕ) → all is_digit (itoa n) ≡ true
unfolding itoa
all-itoa n = all-digits_from (suc n) n [] refl

pub unsigned-cons :
    (c : ℕ) (cs : List ℕ)
    → unsigned (c ∷ cs) ≡ (
        if all is_digit (c ∷ cs) && leb (value_from 0 (c ∷ cs)) max_int
        then some (value_from 0 (c ∷ cs))
        else none)
unfolding unsigned
unsigned-cons c cs = refl

pub unsigned-itoa : (n : ℕ) → n ≤ max_int → unsigned (itoa n) ≡ some n
unsigned-itoa n h =
    let (c, cs, e) = itoa-cons n in
    let digits : all is_digit (c ∷ cs) ≡ true = subst (λ t. all is_digit t ≡ true) e (all-itoa n) in
    let value : value_from 0 (c ∷ cs) ≡ n = ap (value_from 0) (sym e) ∙ value_from-itoa n in
    let fits : leb (value_from 0 (c ∷ cs)) max_int ≡ true =
      ap (λ m. leb m max_int) value ∙ le→leb n max_int h in
    ap unsigned e ∙ unsigned-cons c cs ∙ rw (digits, fits) (ap some value)

pub unsigned-max_int : (part : List ℕ) (n : ℕ) → unsigned part ≡ some n → n ≤ max_int
unfolding unsigned
unsigned-max_int [] n h = cc
unsigned-max_int (c ∷ cs) n h =
    elim (Bool-cases (all is_digit (c ∷ cs) && leb (value_from 0 (c ∷ cs)) max_int)) [
      | inl fits ↦
          let e : value_from 0 (c ∷ cs) ≡ n = some_inj _ _ (rw fits at h) in
          subst (λ m. m ≤ max_int) e (leb→le _ _ (and-right (all is_digit (c ∷ cs)) _ fits))
      | inr over ↦ cc (rw over at h)
    ]

pub parse_part-itoa : (n : ℕ) → n ≤ max_int → parse_part (itoa n) ≡ some n
unfolding parse_part
parse_part-itoa n h = rw (parse_part, unsigned-itoa n h, test_self (itoa n)) refl

-- A part that parses is the printed number.
pub itoa-parse_part :
    (part : List ℕ) (n : ℕ) → parse_part part ≡ some n → (itoa n ≡ part) × (n ≤ max_int)
unfolding parse_part
itoa-parse_part part n h = elim (Option-cases (unsigned part)) [
  | inl bad ↦ cc (rw (parse_part, bad) at h)
  | inr (m, e) ↦ elim (Bool-cases (itoa m == part)) [
    | inl printed ↦
        let same : m ≡ n = some_inj m n (rw (parse_part, e, printed) at h) in
        (
          ap itoa (sym same) ∙ eq_of_test (itoa m) part printed,
          subst (λ k. k ≤ max_int) same (unsigned-max_int part m e),
        )
    | inr other ↦ cc (rw (parse_part, e, other) at h)
  ]
]
