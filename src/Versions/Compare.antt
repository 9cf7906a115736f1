-- ===== src/Versions/Compare.antt =====
-- CompareVersions orders the versions: it is a total order on the numbers.
use grasshopper.Base.{ℕ, ◌≡◌, ◌↔◌, arith, subst}
use grasshopper.Versions.{Version, Order, older, same, newer, compare_numbers, compare_parsed}

-- The order read in the other direction.
abbrev pub flip : Order → Order
flip older = newer
flip same = same
flip newer = older

flip-compare_numbers :
    (a b : ℕ) (rest : Order) → flip (compare_numbers a b rest) ≡ compare_numbers b a (flip rest)
flip-compare_numbers a b rest = grind arith

-- Exchanging the versions turns the answer round.
pub flip-compare_parsed : (v w : Version) → flip (compare_parsed v w) ≡ compare_parsed w v
unfolding compare_parsed
flip-compare_parsed v w = grind arith

-- Two versions compare as the same exactly when they are.
pub compare_parsed-same : (v w : Version) → (compare_parsed v w ≡ same) ↔ (v ≡ w)
unfolding compare_parsed
compare_parsed-same v w = (
  λ h. let (a, b, c) = same_parts h in eta a b c,
  λ e. subst (λ x. compare_parsed v x ≡ same) e (grind arith),
)
  where
    same_parts :
        compare_parsed v w ≡ same → (v.major ≡ w.major) × (v.minor ≡ w.minor) × (v.patch ≡ w.patch)
    same_parts h = grind (arith, h)

    eta : v.major ≡ w.major → v.minor ≡ w.minor → v.patch ≡ w.patch → v ≡ w
    eta a b c i = record { major = a i; minor = b i; patch = c i }

-- What is older than an older version is older.
pub compare_parsed_trans :
    (u v w : Version)
    → compare_parsed u v ≡ older
    → compare_parsed v w ≡ older
    → compare_parsed u w ≡ older
unfolding compare_parsed
compare_parsed_trans u v w = grind arith
