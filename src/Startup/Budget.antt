-- ===== src/Startup/Budget.antt =====
-- The size budget (boundRecords).
use grasshopper.Base.{
  ℕ, suc, ◌+◌, ◌≤◌, Bool, false, not, ◌&&◌, ◌||◌, ◌≡◌, refl, ap, List, [], ◌∷◌, arith, inl, inr,
  Bool-cases, count, length, ltb, ltb→lt, if◌then◌else◌,
}
use grasshopper.Store.{Record}
use grasshopper.Startup.{Page, snoc, reference, omit, fill, clamp_budget, empty_page, bound_records}

abbrev pub total : (Record → ℕ) → List Record → ℕ
total size [] = 0
total size (r ∷ rs) = size r + total size rs

total-snoc :
    (size : Record → ℕ) (rs : List Record) (r : Record)
    → total size (snoc rs r) ≡ total size rs + size r
total-snoc size [] r = omega arith
total-snoc size (x ∷ rs) r = omega (arith, total-snoc size rs r)

pub length-snoc {ℓ} : {A : Type ℓ} (xs : List A) (a : A) → length (snoc xs a) ≡ suc (length xs)
length-snoc [] a = refl
length-snoc (x ∷ xs) a = ap suc (length-snoc xs a)

count-snoc :
    (p : Record → Bool) (rs : List Record) (r : Record)
    → count p (snoc rs r) ≡ count p rs + (if p r then 1 else 0)
count-snoc p [] r = omega arith
count-snoc p (x ∷ rs) r = omega (arith, count-snoc p rs r)

-- What holds of a page while it is filled from records.
record Fits (size : Record → ℕ) (budget used : ℕ) (page : Page) : Type 0 where
  sized : total size page.records ≡ used
  within : used ≤ budget
  named : length page.omitted_records ≤ 100

Fits-omit :
    (size : Record → ℕ) (budget used : ℕ) (page : Page) (r : Record)
    → Fits size budget used page
    → Fits size budget used (omit page r)
unfolding omit
Fits-omit size budget used page r f = record {
  sized = f.sized;
  within = f.within;
  named = elim (Bool-cases (ltb (length page.omitted_records) 100)) [
    | inl room ↦ rw room (
        omega (
          arith,
          length-snoc page.omitted_records (reference r),
          ltb→lt (length page.omitted_records) 100 room,
        ))
    | inr full ↦ rw full f.named
  ];
}

Fits-take :
    (size : Record → ℕ) (budget used : ℕ) (page : Page) (r : Record)
    → used + size r ≤ budget
    → Fits size budget used page
    → Fits size budget (used + size r) (record page { records = snoc page.records r })
Fits-take size budget used page r le f = record {
  sized = omega (arith, total-snoc size page.records r, f.sized);
  within = le;
  named = f.named;
}

fits_budget : (budget n : ℕ) (b : Bool) → (ltb budget n || b) ≡ false → n ≤ budget
fits_budget budget n b h = ground arith

module _ (size : Record → ℕ) (budget limit : ℕ) where
  fill-Fits :
      (rs : List Record) (used : ℕ) (page : Page)
      → Fits size budget used page
      → (n : ℕ) × Fits size budget n (fill size rs budget limit used page)
  unfolding fill
  fill-Fits [] used page f = (used, f)
  fill-Fits (r ∷ rs) used page f =
      elim (Bool-cases
        (ltb budget (used + size r) || (ltb 0 limit && not (ltb (length page.records) limit)))) [
          | inl over ↦
              rw over (fill-Fits rs used (omit page r) (Fits-omit size budget used page r f))
          | inr room ↦ rw room (
              fill-Fits rs (used + size r) (record page { records = snoc page.records r })
                (Fits-take size budget used page r (fits_budget budget (used + size r) _ room) f))
        ]

  fill-length :
      (rs : List Record) (used : ℕ) (page : Page)
      → length (fill size rs budget limit used page).records
          + (fill size rs budget limit used page).omitted
        ≡ length page.records + page.omitted + length rs
  unfolding fill omit
  fill-length [] used page = omega arith
  fill-length (r ∷ rs) used page =
      let a = fill-length rs used (omit page r) in
      let b = fill-length rs (used + size r) (record page { records = snoc page.records r }) in
      ground (arith, a, b, length-snoc page.records r)

  fill-count :
      (p : Record → Bool) (rs : List Record) (used : ℕ) (page : Page)
      → count p (fill size rs budget limit used page).records ≤ count p page.records + count p rs
  unfolding fill omit
  fill-count p [] used page = omega arith
  fill-count p (r ∷ rs) used page =
      let a = fill-count p rs used (omit page r) in
      let b = fill-count p rs (used + size r) (record page { records = snoc page.records r }) in
      ground (arith, a, b, count-snoc p page.records r)

-- A page holds records of the list only, no more often than they are there.
pub bound_records-count :
    (size : Record → ℕ) (p : Record → Bool) (rs : List Record) (budget limit : ℕ)
    → count p (bound_records size rs budget limit).records ≤ count p rs
unfolding bound_records
bound_records-count size p rs budget limit =
    omega (arith, fill-count size (clamp_budget budget) limit p rs 0 empty_page)

-- A page's records take no more than the budget, which is held between 1024 and 65536; every record of
-- the list is on the page or counted as omitted, and no more than a hundred omitted ones are named.
pub bound_records-bounds :
    (size : Record → ℕ) (rs : List Record) (budget limit : ℕ)
    → (total size (bound_records size rs budget limit).records ≤ clamp_budget budget)
      × (length (bound_records size rs budget limit).records
            + (bound_records size rs budget limit).omitted
          ≡ length rs)
      × (length (bound_records size rs budget limit).omitted_records ≤ 100)
unfolding bound_records
bound_records-bounds size rs budget limit =
    let (n, f) =
      fill-Fits size (clamp_budget budget) limit rs 0 empty_page
        (record { sized = refl; within = omega arith; named = omega arith }) in
    (
      omega (arith, f.sized, f.within),
      omega (arith, fill-length size (clamp_budget budget) limit rs 0 empty_page),
      f.named,
    )
