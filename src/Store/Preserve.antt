-- ===== src/Store/Preserve.antt =====
-- Every step keeps the invariant of the store.
use grasshopper.Base.{
  ℕ, ◌≤◌, ◌<◌, Bool, true, false, ◌&&◌, ◌≡◌, ◌≢◌, refl, sym, ◌∙◌, ap, subst, Option, none, some,
  String, ◌==◌, nat_eq, string_eq, option_eq, arith, ◌⊎◌, inl, inr, Bool-cases, Option-cases,
  and-left, and-right, eq_of_test, ne_of_test, test_self, test_ne, Eq,
}
use grasshopper.Outcome.{ok}
use grasshopper.Scope.{key, ScopeKey, legacy_key, scope_key_eq}
use grasshopper.Store.{
  Db, Chunk, Revision, Request, put, scan_record, scope_of, same_exact, same_key, same_some,
}
use grasshopper.Store.Requests.{insert_or_ignore}
use grasshopper.Store.Steps.{snap, text_of, Revises, Step, revise, answer, Reaches, here, next}
use grasshopper.Store.Invariant.{Inv, unique_at}

pub test_sym {ℓ} : {A : Type ℓ} ⦃e : Eq A⦄ (a b : A) → (a == b) ≡ (b == a)
test_sym a b = elim (Bool-cases (a == b)) [
  | inl same ↦ let p = eq_of_test a b same in rw p
  | inr other ↦ rw other (sym (test_ne b a (λ p. ne_of_test a b other (sym p))))
]

same_exact-sym : (c d : Chunk) → same_exact c d ≡ true → same_exact d c ≡ true
unfolding same_exact
same_exact-sym c d h =
    let k = eq_of_test c.memory_scope d.memory_scope (ground arith) in
    ground (
      arith,
      ap (λ (x : ScopeKey). x == legacy_key) k,
      test_sym c.memory_scope d.memory_scope,
      test_sym c.memory_type d.memory_type,
      test_sym c.purpose d.purpose,
      test_sym c.content_hash d.content_hash,
    )

same_some-sym : (a b : Option String) → same_some a b ≡ true → same_some b a ≡ true
same_some-sym (some a) (some b) h = test_sym b a ∙ h
same_some-sym none b h = cc
same_some-sym (some a) none h = cc

same_key-sym : (c d : Chunk) → same_key c d ≡ true → same_key d c ≡ true
unfolding same_key
same_key-sym c d h =
    let k = eq_of_test c.memory_scope d.memory_scope (ground arith) in
    let s = same_some-sym c.preference_key d.preference_key (ground arith) in
    ground
      (arith, s, ap (λ (x : ScopeKey). x == legacy_key) k, test_sym c.memory_scope d.memory_scope)

pub put_cases :
    {A : Type 0} (rows : ℕ → Option A) (i j : ℕ) (c d : A)
    → put rows i c j ≡ some d
    → ((i ≡ j) × (c ≡ d)) ⊎ ((i ≢ j) × (rows j ≡ some d))
put_cases rows i j c d h = elim (Bool-cases (i == j)) [
  | inl same ↦ inl (eq_of_test i j same, ground arith)
  | inr other ↦ inr (ne_of_test i j other, ground arith)
]

pub history_cases :
    (rows : ℕ → ℕ → Option Revision) (i r j n : ℕ) (v w : Revision)
    → insert_or_ignore rows i r v j n ≡ some w
    → ((i ≡ j) × (r ≡ n) × (v ≡ w)) ⊎ (rows j n ≡ some w)
history_cases rows i r j n v w h = elim (Bool-cases (i == j && r == n)) [
  | inl hit ↦ elim (Option-cases (rows j n)) [
    | inl e ↦ inl (
      eq_of_test i j (and-left (i == j) (r == n) hit),
      eq_of_test r n (and-right (i == j) (r == n) hit),
      ground arith,
    )
    | inr (x, e) ↦ inr (ground arith)
  ]
  | inr miss ↦ inr (ground arith)
]

pub history_keeps :
    (rows : ℕ → ℕ → Option Revision) (i r j n : ℕ) (v w : Revision)
    → rows j n ≡ some w
    → insert_or_ignore rows i r v j n ≡ some w
history_keeps rows i r j n v w h = ground arith

-- A new version is stored, since the history had nothing under its number.
pub history_stores :
    (rows : ℕ → ℕ → Option Revision) (i r : ℕ) (v : Revision)
    → rows i r ≡ none
    → insert_or_ignore rows i r v i r ≡ some v
history_stores rows i r v h = ground (arith, test_self i, test_self r)

module _ {db db' : Db} (i : ℕ) (c : Chunk) (v : Inv db) (r : Revises i c db db') where
  row_cases :
      (j : ℕ) (d : Chunk)
      → db'.chunks j ≡ some d
      → ((i ≡ j) × (c ≡ d)) ⊎ ((i ≢ j) × (db.chunks j ≡ some d))
  row_cases j d e = put_cases db.chunks i j c d (sym (r.rows j) ∙ e)

  kept_fresh : (j : ℕ) (d : Chunk) → db'.chunks j ≡ some d → j < db'.next_id
  kept_fresh j d e = elim (row_cases j d e) [
    | inl p ↦ subst (λ k. k < db'.next_id) p.0 r.below
    | inr p ↦ omega (arith, v.fresh j d p.1, r.bound)
  ]

  new_positive : 1 ≤ c.revision
  new_positive = elim (Option-cases (db.chunks i)) [
    | inl e ↦ omega (arith, r.starts e)
    | inr (old, e) ↦ omega (arith, (r.follows old e).revision)
  ]

  kept_positive : (j : ℕ) (d : Chunk) → db'.chunks j ≡ some d → 1 ≤ d.revision
  kept_positive j d e = elim (row_cases j d e) [
    | inl p ↦ subst (λ (x : Chunk). 1 ≤ x.revision) p.1 new_positive
    | inr p ↦ v.positive j d p.1
  ]

  -- The history has nothing yet under the new version's number.
  unused : db.memory_revisions i c.revision ≡ none
  unused = elim (Option-cases (db.memory_revisions i c.revision)) [
    | inl e ↦ e
    | inr (w, e) ↦
        let (old, at, le, _, _, _) = v.past i c.revision w e in
        absurd (omega (arith, (r.follows old at).revision))
  ]

  new_recorded :
      (w : Revision) × (db'.memory_revisions i c.revision ≡ some w) × (w.stored ≡ scan_record i c)
  new_recorded = (
    snap i c,
    r.history i c.revision ∙ history_stores db.memory_revisions i c.revision (snap i c) unused,
    refl,
  )

  kept_recorded :
      (j : ℕ) (d : Chunk)
      → db'.chunks j ≡ some d
      → (w : Revision) × (db'.memory_revisions j d.revision ≡ some w) × (w.stored ≡ scan_record j d)
  kept_recorded j d e = elim (row_cases j d e) [
    | inl p ↦
        subst
          (λ (x : Chunk).
            (w : Revision) × (db'.memory_revisions j x.revision ≡ some w)
            × (w.stored ≡ scan_record j x))
          p.1
          (subst
            (λ k.
              (w : Revision) × (db'.memory_revisions k c.revision ≡ some w)
              × (w.stored ≡ scan_record k c))
            p.0 new_recorded)
    | inr p ↦
        let (w, at, same) = v.recorded j d p.1 in
        (
          w,
          r.history j d.revision
              ∙ history_keeps db.memory_revisions i c.revision j d.revision (snap i c) w at,
          same,
        )
  ]

  row_new : db'.chunks i ≡ some c
  row_new = r.rows i ∙ ground (arith, test_self i)

  row_other : (j : ℕ) → i ≢ j → db'.chunks j ≡ db.chunks j
  row_other j ne = r.rows j ∙ ground (arith, test_ne i j ne)

  kept_past :
      (j n : ℕ) (w : Revision)
      → db'.memory_revisions j n ≡ some w
      → (d : Chunk) × (db'.chunks j ≡ some d)
        × (n ≤ d.revision)
        × (w.stored.id ≡ j)
        × (w.stored.revision ≡ n)
        × (w.stored.scope ≡ scope_of d.memory_scope)
  unfolding scan_record
  kept_past j n w e =
      elim (history_cases db.memory_revisions i c.revision j n (snap i c) w
        (sym (r.history j n) ∙ e)) [
          | inl (same, number, is) ↦ (
            c,
            subst (λ k. db'.chunks k ≡ some c) same row_new,
            omega arith,
            ap (λ (x : Revision). x.stored.id) (sym is) ∙ same,
            ap (λ (x : Revision). x.stored.revision) (sym is) ∙ number,
            ap (λ (x : Revision). x.stored.scope) (sym is),
          )
          | inr old ↦ elim (Bool-cases (i == j)) [
            | inl same ↦
                let q = eq_of_test i j same in
                let (d, at, le, a, b, s) = v.past j n w old in
                let f = r.follows d (rw q at) in
                (
                  c,
                  subst (λ k. db'.chunks k ≡ some c) q row_new,
                  omega (arith, f.revision),
                  a,
                  b,
                  s ∙ ap scope_of (sym f.memory_scope),
                )
            | inr other ↦
                let (d, at, le, a, b, s) = v.past j n w old in
                (d, row_other j (ne_of_test i j other) ∙ at, le, a, b, s)
          ]
        ]

  kept_indexed : (j : ℕ) (d : Chunk) → db'.chunks j ≡ some d → db'.chunks_fts j ≡ some (text_of d)
  kept_indexed j d e = elim (row_cases j d e) [
    | inl p ↦
        subst (λ (x : Chunk). db'.chunks_fts j ≡ some (text_of x)) p.1
          (subst (λ k. db'.chunks_fts k ≡ some (text_of c)) p.0
            (r.texts i ∙ ground (arith, test_self i)))
    | inr p ↦ r.texts j ∙ ground (arith, test_ne i j p.0, v.indexed j d p.1)
  ]

  kept_keyed :
      (j : ℕ) (d : Chunk)
      → db'.chunks j ≡ some d
      → key (scope_of d.memory_scope) ≡ ok d.memory_scope
  kept_keyed j d e = elim (row_cases j d e) [
    | inl p ↦ subst (λ (x : Chunk). key (scope_of x.memory_scope) ≡ ok x.memory_scope) p.1 r.keyed
    | inr p ↦ v.keyed j d p.1
  ]

  module _ (same : Chunk → Chunk → Bool)
      (sym_same : (a b : Chunk) → same a b ≡ true → same b a ≡ true)
      (apart : (j : ℕ) (d : Chunk) → j ≢ i → db.chunks j ≡ some d → same c d ≡ false)
      (before : (j k : ℕ) (d e : Chunk)
        → db.chunks j ≡ some d
        → db.chunks k ≡ some e
        → same d e ≡ true
        → j ≡ k) where
    kept_apart :
        (j k : ℕ) (d e : Chunk)
        → db'.chunks j ≡ some d
        → db'.chunks k ≡ some e
        → same d e ≡ true
        → j ≡ k
    kept_apart j k d e hd he h = elim (row_cases j d hd) [
      | inl (p, q) ↦ elim (row_cases k e he) [
        | inl (p', q') ↦ sym p ∙ p'
        | inr (ne, at) ↦ cc (apart k e (λ x. ne (sym x)) at, subst (λ x. same x e ≡ true) (sym q) h)
      ]
      | inr (ne, at) ↦ elim (row_cases k e he) [
        | inl (p', q') ↦
            cc (
              apart j d (λ x. ne (sym x)) at,
              sym_same d c (subst (λ x. same d x ≡ true) (sym q') h),
            )
        | inr (ne', at') ↦ before j k d e at at' h
      ]
    ]

  kept : Inv db'
  kept = record {
    fresh = kept_fresh;
    positive = kept_positive;
    recorded = kept_recorded;
    past = kept_past;
    indexed = kept_indexed;
    keyed = kept_keyed;
    exact =
        kept_apart same_exact same_exact-sym
          (λ j d ne at.
            let u = unique_at db i j c d r.unique (v.fresh j d at) at ne in ground arith)
          v.exact;
    keys =
        kept_apart same_key same_key-sym
          (λ j d ne at.
            let u = unique_at db i j c d r.unique (v.fresh j d at) at ne in ground arith)
          v.keys;
  }

answered :
    {db db' : Db} (r : String) (q : Request)
    → db' ≡ record db { memory_requests = put db.memory_requests r q }
    → Inv db
    → Inv db'
answered {db} r q e v = subst Inv (sym e) (record {
  fresh = v.fresh;
  positive = v.positive;
  recorded = v.recorded;
  past = v.past;
  indexed = v.indexed;
  keyed = v.keyed;
  exact = v.exact;
  keys = v.keys;
})

-- Every step keeps the invariant.
pub Step-Inv : {db db' : Db} → Step db db' → Inv db → Inv db'
Step-Inv (revise i c r) v = kept i c v r
Step-Inv (answer r q free e) v = answered r q e v

pub Reaches-Inv : {db db' : Db} → Reaches db db' → Inv db → Inv db'
Reaches-Inv here v = v
Reaches-Inv (next r st) v = Step-Inv st (Reaches-Inv r v)
