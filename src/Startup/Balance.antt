-- ===== src/Startup/Balance.antt =====
-- The alternation of global and project records (balanceStartupScopes).
use mathlib.Core.List.{◌++◌}
use grasshopper.Base.{
  ℕ, zero, suc, ◌+◌, ◌≤◌, Bool, true, false, not, ◌≡◌, refl, ap, List, [], ◌∷◌, arith, count,
  length, ◌-◌,
}
use grasshopper.Store.{Record}
use grasshopper.Startup.{group, pop_last, pop, alternate, balance_startup_scopes}

count-append :
    (p : Record → Bool) (xs ys : List Record) → count p (xs ++ ys) ≡ count p xs + count p ys
count-append p [] ys = omega arith
count-append p (x ∷ xs) ys = omega (arith, count-append p xs ys)

pop_last-count :
    (p : Record → Bool) (r : Record) (rs : List Record)
    → count p ((pop_last r rs).0 ∷ (pop_last r rs).1) ≡ count p (r ∷ rs)
pop_last-count p r [] = refl
pop_last-count p r (x ∷ xs) = omega (arith, pop_last-count p x xs)

pop_last-length : (r : Record) (rs : List Record) → length (pop_last r rs).1 ≡ length rs
pop_last-length r [] = refl
pop_last-length r (x ∷ xs) = ap suc (pop_last-length x xs)

pop-count :
    (p : Record → Bool) (oldest : Bool) (rs : List Record)
    → count p (pop oldest rs).0 + count p (pop oldest rs).1 ≡ count p rs
pop-count p oldest [] = refl
pop-count p true (r ∷ rs) = omega (arith, pop_last-count p r rs)
pop-count p false (r ∷ rs) = omega arith

pop-length : (oldest : Bool) (rs : List Record) → length (pop oldest rs).1 ≡ length rs - 1
pop-length oldest [] = refl
pop-length true (r ∷ rs) = omega (arith, pop_last-length r rs)
pop-length false (r ∷ rs) = omega arith

-- With fuel for every record, each record comes out as often as it went in.
alternate-count :
    (p : Record → Bool) (fuel : ℕ) (oldest : Bool) (gs ps : List Record)
    → length gs + length ps ≤ fuel
    → count p (alternate fuel oldest gs ps) ≡ count p gs + count p ps
unfolding alternate
alternate-count p zero oldest [] [] h = refl
alternate-count p zero oldest (g ∷ gs) ps h = absurd (omega arith)
alternate-count p zero oldest [] (x ∷ ps) h = absurd (omega arith)
alternate-count p (suc fuel) oldest gs ps h =
    let g = pop oldest gs in
    let q = pop oldest ps in
    let rest =
      alternate-count p fuel (not oldest) g.1 q.1
        (omega (arith, pop-length oldest gs, pop-length oldest ps)) in
    omega (
      arith,
      rest,
      count-append p g.0 (q.0 ++ alternate fuel (not oldest) g.1 q.1),
      count-append p q.0 (alternate fuel (not oldest) g.1 q.1),
      pop-count p oldest gs,
      pop-count p oldest ps,
    )

group-count :
    (p : Record → Bool) (rs : List Record)
    → count p (group rs).global + (count p (group rs).project + count p (group rs).handoffs)
      ≡ count p rs
unfolding group
group-count p [] = refl
group-count p (r ∷ rs) = let h = group-count p rs in ground (arith, h)

-- Where the sort only reorders, so does the balancing of the scopes: it loses and repeats no record.
pub balance_startup_scopes-count :
    (sort : List Record → List Record)
    (permutes : (p : Record → Bool) (rs : List Record) → count p (sort rs) ≡ count p rs)
    (p : Record → Bool) (rs : List Record)
    → count p (balance_startup_scopes sort rs) ≡ count p rs
unfolding balance_startup_scopes
balance_startup_scopes-count sort permutes p rs =
    let g = group rs in
    let gs = sort g.global in
    let ps = sort g.project in
    let n = length gs + length ps in
    omega (
      arith,
      count-append p (alternate n false gs ps) g.handoffs,
      alternate-count p n false gs ps (omega arith),
      permutes p g.global,
      permutes p g.project,
      group-count p rs,
    )
