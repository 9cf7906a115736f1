-- ===== src/Startup/Context.antt =====
-- The whole selection (contextKeys), from the records of its query.
use grasshopper.Base.{
  ℕ, ◌+◌, ◌≤◌, Bool, true, ◌≡◌, refl, sym, subst, ap, List, [], ◌∷◌, ◌==◌, nat_eq, arith, count,
  length, inl, inr, Bool-cases, all, string_eq, option_eq, list_eq,
}
use grasshopper.Store.{Record}
use grasshopper.Startup.{
  Page, is_handoff, omit, omit_all, choose_handoff, clamp_budget, bound_records,
  balance_startup_scopes, bound_startup_records, context_page,
}
use grasshopper.Startup.Handoff.{choose_handoff-divides}
use grasshopper.Startup.Budget.{total, bound_records-count, bound_records-bounds}
use grasshopper.Startup.Balance.{balance_startup_scopes-count}

length-count {ℓ} : {A : Type ℓ} (xs : List A) → length xs ≡ count (λ _. true) xs
length-count [] = refl
length-count (x ∷ xs) = omega (arith, length-count xs)

module _ (size : Record → ℕ) (sort : List Record → List Record)
    (permutes : (p : Record → Bool) (rs : List Record) → count p (sort rs) ≡ count p rs) where
  omit_all-records :
      (page : Page) (rs : List Record) → (omit_all size sort page rs).records ≡ page.records
  unfolding omit
  omit_all-records page [] = refl
  omit_all-records page (r ∷ rs) = omit_all-records (omit page r) rs

  omit_all-omitted :
      (page : Page) (rs : List Record)
      → (omit_all size sort page rs).omitted ≡ page.omitted + length rs
  unfolding omit
  omit_all-omitted page [] = omega arith
  omit_all-omitted page (r ∷ rs) = omega (arith, omit_all-omitted (omit page r) rs)

  pub bound_startup-facts :
      (p : Record → Bool) (rs : List Record) (budget : ℕ)
      → (count p (bound_startup_records size sort rs budget).records ≤ count p rs)
        × (total size (bound_startup_records size sort rs budget).records ≤ clamp_budget budget)
        × (length (bound_startup_records size sort rs budget).records
              + (bound_startup_records size sort rs budget).omitted
            ≡ length rs)
  unfolding bound_startup_records
  bound_startup-facts p rs budget =
      elim (Bool-cases ((bound_records size rs budget 0).omitted == 0)) [
        | inl whole ↦
            let (a, b, _) = bound_records-bounds size rs budget 0 in
            rw whole (bound_records-count size p rs budget 0, a, b)
        | inr left_out ↦
            let balanced = balance_startup_scopes sort rs in
            let (a, b, _) = bound_records-bounds size balanced budget 0 in
            let same = balance_startup_scopes-count sort permutes (λ _. true) rs in
            rw left_out (
              omega (
                arith,
                bound_records-count size p balanced budget 0,
                balance_startup_scopes-count sort permutes p rs,
              ),
              a,
              omega (arith, b, same, length-count balanced, length-count rs),
            )
      ]

  -- Where the sort only reorders, the startup context holds one handoff at most, takes no more than
  -- the budget, and each eligible record is in it or counted as omitted.
  pub context_page-bounds :
      (rs : List Record) (budget : ℕ)
      → (count is_handoff (context_page size sort rs budget).records ≤ 1)
        × (total size (context_page size sort rs budget).records ≤ clamp_budget budget)
        × (length (context_page size sort rs budget).records
              + (context_page size sort rs budget).omitted
            ≡ length rs)
  unfolding context_page
  context_page-bounds rs budget =
      let chosen = choose_handoff rs in
      let page = bound_startup_records size sort chosen.0 budget in
      let (few, fits, all) = bound_startup-facts is_handoff chosen.0 budget in
      let (parts, _, one) = choose_handoff-divides (λ _. true) rs in
      let same = omit_all-records page chosen.1 in
      (
        subst (λ xs. count is_handoff xs ≤ 1) (sym same) (omega (arith, few, one)),
        subst (λ xs. total size xs ≤ clamp_budget budget) (sym same) fits,
        omega (
          arith,
          ap length same,
          omit_all-omitted page chosen.1,
          all,
          parts,
          length-count chosen.0,
          length-count chosen.1,
          length-count rs,
        ),
      )
