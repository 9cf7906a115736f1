-- ===== src/Startup/Handoff.antt =====
-- The choice of one handoff (chooseHandoff).
use grasshopper.Base.{
  ℕ, suc, ◌+◌, ◌≤◌, ◌<◌, Bool, not, ◌≡◌, refl, Option, none, some, List, [], ◌∷◌, ◌==◌, nat_eq,
  string_eq, arith, inl, inr, Bool-cases, count, test_ne, eq_of_test,
}
use grasshopper.Store.{Record}
use grasshopper.Startup.{is_handoff, divide, choose_handoff, choose}

-- Every record is either selected or skipped, once.
divide-count :
    (p : Record → Bool) (best : Option (ℕ × Record)) (rs : List Record) (i : ℕ)
    → count p (divide best rs i).0 + count p (divide best rs i).1 ≡ count p rs
unfolding divide
divide-count p best [] i = refl
divide-count p best (r ∷ rs) i = let h = divide-count p best rs (suc i) in ground (arith, h)

-- Nothing but a handoff is skipped.
divide-skipped :
    (best : Option (ℕ × Record)) (rs : List Record) (i : ℕ)
    → count (λ r. not (is_handoff r)) (divide best rs i).1 ≡ 0
unfolding divide
divide-skipped best [] i = refl
divide-skipped best (r ∷ rs) i = let h = divide-skipped best rs (suc i) in ground (arith, h)

-- Past the chosen index no handoff is selected, and one at most from an index before it.
divide-past :
    (j : ℕ) (x : Record) (rs : List Record) (i : ℕ)
    → j < i
    → count is_handoff (divide (some (j, x)) rs i).0 ≡ 0
unfolding divide
divide-past j x [] i lt = refl
divide-past j x (r ∷ rs) i lt =
    let h = divide-past j x rs (suc i) (omega arith) in
    let ne = test_ne j i (λ e. absurd (omega arith)) in ground (arith, h, ne)

divide-one :
    (best : Option (ℕ × Record)) (rs : List Record) (i : ℕ)
    → count is_handoff (divide best rs i).0 ≤ 1
unfolding divide
divide-one best [] i = omega arith
divide-one none (r ∷ rs) i = let h = divide-one none rs (suc i) in ground (arith, h)
divide-one (some (j, x)) (r ∷ rs) i = elim (Bool-cases (j == i)) [
  | inl same ↦
      let h = divide-past j x rs (suc i) (omega (arith, eq_of_test j i same)) in
      ground (arith, h, same)
  | inr other ↦ let h = divide-one (some (j, x)) rs (suc i) in ground (arith, h, other)
]

-- Of the records, chooseHandoff keeps every one but handoffs and skips handoffs only: each record is
-- selected or skipped, exactly as often as it is there, and at most one handoff is selected.
pub choose_handoff-divides :
    (p : Record → Bool) (rs : List Record)
    → (count p (choose_handoff rs).0 + count p (choose_handoff rs).1 ≡ count p rs)
      × (count (λ r. not (is_handoff r)) (choose_handoff rs).1 ≡ 0)
      × (count is_handoff (choose_handoff rs).0 ≤ 1)
unfolding choose_handoff
choose_handoff-divides p rs =
    let best = choose rs 0 none in
    (divide-count p best rs 0, divide-skipped best rs 0, divide-one best rs 0)
