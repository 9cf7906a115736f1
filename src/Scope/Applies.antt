-- ===== src/Scope/Applies.antt =====
-- Which keys `applicableKeys` returns: the masks select exactly the scopes whose dimensions are each
-- unset or the caller's.
use grasshopper.Base.{
  ℕ, ◌≡◌, refl, sym, ◌↔◌, ◌⊎◌, inl, inr, Bool, true, false, not, ◌||◌, Option, none, List, [], ◌∷◌,
  ◌++◌, String, arith, ◌==◌, any, if◌then◌else◌, Bool-cases, eq_of_test, subst, ◌∙◌,
}
use grasshopper.Outcome.{◌>>◌, ok, bind_ok, guard_ok, legacy_review, guard}
use grasshopper.Scope.{
  Scope, ScopeKey, legacy_key, document, scope_key_eq, scope_beq, scope_beq_iff, key, masked,
  collect_keys, applicable_keys,
}

-- A dimension of a stored scope applies when it is unset or the caller's.
abbrev pub DimensionApplies : Option String → Option String → Type 0
DimensionApplies stored caller = (stored ≡ none) ⊎ (stored ≡ caller)

-- The stored scope `t` applies to the caller `s`.
abbrev pub Applies : Scope → ScopeKey → Type 0
Applies s legacy_key = ⊥
Applies s (document t) =
    DimensionApplies t.project s.project
    × DimensionApplies t.device s.device
    × DimensionApplies t.platform s.platform
    × (t.legacy ≡ false)

any-append {ℓ} :
    {A : Type ℓ} (p : A → Bool) (xs ys : List A) → any p (xs ++ ys) ≡ (any p xs || any p ys)
any-append p [] ys = refl
any-append p (x ∷ xs) ys = ground (arith, any-append p xs ys)

-- A key of a mask is the mask's document.
key-masked :
    (s : Scope) (mask : ℕ) (k : ScopeKey)
    → key (masked s mask) ≡ ok k
    → k ≡ document (masked s mask)
unfolding key masked
key-masked s mask k h = ground arith

-- A key that is there already makes its test succeed.
member-same :
    (k next : ScopeKey) (keys : List ScopeKey)
    → any (λ x. x == next) keys ≡ true
    → (any (λ x. x == k) keys || (next == k)) ≡ any (λ x. x == k) keys
member-same k next keys old = elim (Bool-cases (next == k)) [
  | inl same ↦
      let e : any (λ x. x == k) keys ≡ true = rw (← eq_of_test next k same) old in ground (arith, e)
  | inr other ↦ ground arith
]

-- What one round of the loop adds to the membership of `k`.
member-add :
    (k next : ScopeKey) (keys : List ScopeKey)
    → any (λ x. x == k) (if any (λ x. x == next) keys then keys else keys ++ next ∷ [])
      ≡ (any (λ x. x == k) keys || (next == k))
member-add k next keys = elim (Bool-cases (any (λ x. x == next) keys)) [
  | inl old ↦ rw old (sym (member-same k next keys old))
  | inr new ↦ rw (new, any-append (λ x. x == k) keys (next ∷ [])) (ground arith)
]

collect_keys-member :
    (s : Scope) (masks : List ℕ) (keys ks : List ScopeKey) (k : ScopeKey)
    → collect_keys s masks keys ≡ ok ks
    → any (λ x. x == k) ks ≡ (any (λ x. x == k) keys || any (λ m. document (masked s m) == k) masks)
unfolding collect_keys
collect_keys-member s [] keys ks k h = ground arith
collect_keys-member s (m ∷ masks) keys ks k h =
    let (next, e, rest) = bind_ok (key (masked s m)) _ h in
    ground (
      arith,
      key-masked s m next e,
      member-add k next keys,
      collect_keys-member s masks _ ks k rest,
    )

any_elim {ℓ} : {A : Type ℓ} (p : A → Bool) (xs : List A) → any p xs ≡ true → (x : A) × (p x ≡ true)
any_elim p [] h = cc
any_elim p (x ∷ xs) h = elim (Bool-cases (p x)) [
  | inl e ↦ (x, e)
  | inr e ↦ any_elim p xs (ground arith)
]

abbrev masks : List ℕ
masks = 0 ∷ 1 ∷ 2 ∷ 3 ∷ 4 ∷ 5 ∷ 6 ∷ 7 ∷ []

masked-Applies : (s : Scope) (m : ℕ) → Applies s (document (masked s m))
unfolding masked
masked-Applies s m = (ground arith, ground arith, ground arith, refl)

mask_hit :
    (s t : Scope) (m : ℕ)
    → masked s m ≡ t
    → (scope_beq (masked s m) t ≡ true → any (λ m. scope_beq (masked s m) t) masks ≡ true)
    → any (λ m. scope_beq (masked s m) t) masks ≡ true
mask_hit s t m e k = k ((scope_beq_iff (masked s m) t).1 e)

-- The mask that keeps the dimensions which the stored scope has.
Applies-mask :
    (s t : Scope) → Applies s (document t) → any (λ m. scope_beq (masked s m) t) masks ≡ true
unfolding masked
Applies-mask s t (inl p, inl d, inl f, l) = mask_hit s t 0 (ground arith) (ground arith)
Applies-mask s t (inr p, inl d, inl f, l) = mask_hit s t 1 (ground arith) (ground arith)
Applies-mask s t (inl p, inr d, inl f, l) = mask_hit s t 2 (ground arith) (ground arith)
Applies-mask s t (inr p, inr d, inl f, l) = mask_hit s t 3 (ground arith) (ground arith)
Applies-mask s t (inl p, inl d, inr f, l) = mask_hit s t 4 (ground arith) (ground arith)
Applies-mask s t (inr p, inl d, inr f, l) = mask_hit s t 5 (ground arith) (ground arith)
Applies-mask s t (inl p, inr d, inr f, l) = mask_hit s t 6 (ground arith) (ground arith)
Applies-mask s t (inr p, inr d, inr f, l) = mask_hit s t 7 (ground arith) (ground arith)

Applies-hit :
    (s : Scope) (k : ScopeKey) → Applies s k → any (λ m. document (masked s m) == k) masks ≡ true
Applies-hit s legacy_key a = elim a [ ]
Applies-hit s (document t) a = Applies-mask s t a

-- The keys of a caller are exactly the scopes that apply to it: each dimension is unset or the
-- caller's, and never the legacy scope.
pub applicable_keys-iff-Applies :
    (s : Scope) (ks : List ScopeKey) (k : ScopeKey)
    → applicable_keys s ≡ ok ks
    → (any (λ x. x == k) ks ≡ true) ↔ Applies s k
unfolding applicable_keys
applicable_keys-iff-Applies s ks k h = (to, from)
  where
    hits : any (λ x. x == k) ks ≡ any (λ m. document (masked s m) == k) masks
    hits =
        let (k', e, rest) =
          bind_ok (key s) (λ _. guard (not s.legacy) legacy_review >> collect_keys s masks []) h in
        let (live, rest') = guard_ok (not s.legacy) legacy_review (collect_keys s masks []) rest in
        collect_keys-member s masks [] ks k rest'

    to : any (λ x. x == k) ks ≡ true → Applies s k
    to there =
        let (m, e) = any_elim (λ m. document (masked s m) == k) masks (sym hits ∙ there) in
        subst (Applies s) (eq_of_test (document (masked s m)) k e) (masked-Applies s m)

    from : Applies s k → any (λ x. x == k) ks ≡ true
    from a = hits ∙ Applies-hit s k a
