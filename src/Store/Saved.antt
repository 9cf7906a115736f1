-- ===== src/Store/Saved.antt =====
-- One write seen from outside: a row has a new version, and if it is an active handoff, the others in
-- its scope have been archived.
use grasshopper.Base.{
  ℕ, Bool, true, false, not, ◌&&◌, ◌≡◌, ◌≢◌, sym, ◌∙◌, subst, some, ◌==◌, nat_eq, string_eq, arith,
  inl, inr, ◌⊎◌, Bool-cases, eq_of_test, test_self, test_ne, if◌then◌else◌, and-left, and-right,
  Option-cases, ne_of_test, option_eq, list_eq, ap,
}
use grasshopper.Scope.{Scope, ScopeKey, scope_key_eq}
use grasshopper.Store.{Db, Chunk, Provenance, holds}
use grasshopper.Store.Tx.{done, pure}
use grasshopper.Store.Inputs.{Clock}
use grasshopper.Store.Requests.{is_active_handoff, retire_handoffs}
use grasshopper.Store.Steps.{Revises, revise, Reaches, here, next, Reaches-trans}
use grasshopper.Store.Invariant.{Inv}
use grasshopper.Store.Preserve.{Step-Inv, put_cases}
use grasshopper.Store.Handoffs.{Retired, retire_handoffs-Retired, done_inj}

-- Each scope has one current handoff at most.
abbrev pub OneHandoff : Db → Type 0
OneHandoff db =
    (k : ScopeKey) (i j : ℕ) (c d : Chunk)
    → db.chunks i ≡ some c
    → db.chunks j ≡ some d
    → is_active_handoff k c ≡ true
    → is_active_handoff k d ≡ true
    → i ≡ j

pub record Saved (k : ScopeKey) (i : ℕ) (c : Chunk) (db db' : Db) : Type 0 where
  pub path : Reaches db db'
  pub row : db'.chunks i ≡ some c
  pub in_scope : c.memory_scope ≡ k
  pub only :
      (j : ℕ) (d : Chunk)
      → is_active_handoff k c ≡ true
      → db'.chunks j ≡ some d
      → is_active_handoff k d ≡ true
      → j ≡ i
  pub origin :
      (j : ℕ) (d : Chunk)
      → db'.chunks j ≡ some d
      → ((j ≡ i) × (d ≡ c)) ⊎ ((d.archived ≡ true) ⊎ (db.chunks j ≡ some d))
  pub others :
      (j : ℕ) (d : Chunk)
      → i ≢ j
      → db.chunks j ≡ some d
      → is_active_handoff k d ≡ false
      → db'.chunks j ≡ some d

-- After the write of an active handoff, the row is the one active handoff of its scope.
pub Saved-holds :
    (k : ScopeKey) (i : ℕ) (c : Chunk) (db db' : Db) (j : ℕ)
    → Saved k i c db db'
    → is_active_handoff k c ≡ true
    → holds (is_active_handoff k) (db'.chunks j) ≡ (j == i)
Saved-holds k i c db db' j s active = elim (Bool-cases (j == i)) [
  | inl same ↦
      ap (λ n. holds (is_active_handoff k) (db'.chunks n)) (eq_of_test j i same)
      ∙ ap (holds (is_active_handoff k)) s.row
      ∙ active
      ∙ sym same
  | inr other ↦ elim (Option-cases (db'.chunks j)) [
    | inl free ↦ ap (holds (is_active_handoff k)) free ∙ sym other
    | inr (d, at) ↦
        ap (holds (is_active_handoff k)) at ∙ quiet d at (ne_of_test j i other) ∙ sym other
  ]
]
  where
    quiet : (d : Chunk) → db'.chunks j ≡ some d → j ≢ i → is_active_handoff k d ≡ false
    quiet d at ne = elim (Bool-cases (is_active_handoff k d)) [
      | inl on ↦ absurd (ne (s.only j d active at on))
      | inr off ↦ off
    ]

row_before :
    {db mid : Db} (i : ℕ) (c : Chunk) (j : ℕ) (d : Chunk)
    → Revises i c db mid
    → mid.chunks j ≡ some d
    → ((j ≡ i) × (d ≡ c)) ⊎ ((d.archived ≡ true) ⊎ (db.chunks j ≡ some d))
row_before {db} i c j d r e = elim (put_cases db.chunks i j c d (sym (r.rows j) ∙ e)) [
  | inl p ↦ inl (sym p.0, sym p.1)
  | inr p ↦ inr (inr p.1)
]

row_beside :
    {db mid : Db} (i : ℕ) (c : Chunk) (j : ℕ)
    → Revises i c db mid
    → i ≢ j
    → mid.chunks j ≡ db.chunks j
row_beside i c j r ne = r.rows j ∙ ground (arith, test_ne i j ne)

row_itself : {db mid : Db} (i : ℕ) (c : Chunk) → Revises i c db mid → mid.chunks i ≡ some c
row_itself i c r = r.rows i ∙ ground (arith, test_self i)

-- A new version that is no active handoff retires nothing.
quiet-Saved :
    (k : ScopeKey) (i : ℕ) (c : Chunk) (db mid : Db)
    → Revises i c db mid
    → c.memory_scope ≡ k
    → is_active_handoff k c ≡ false
    → Saved k i c db mid
quiet-Saved k i c db mid r s quiet = record {
  path = next here (revise i c r);
  row = row_itself i c r;
  in_scope = s;
  only = λ j d active _ _. cc (sym active ∙ quiet);
  origin = λ j d e. row_before i c j d r e;
  others = λ j d ne e _. row_beside i c j r ne ∙ e;
}

Retired-Saved :
    (k : ScopeKey) (i : ℕ) (c : Chunk) (db mid db' : Db)
    → Revises i c db mid
    → c.memory_scope ≡ k
    → Retired k i mid db'
    → Saved k i c db db'
Retired-Saved k i c db mid db' r s t = record {
  path = Reaches-trans (next here (revise i c r)) t.path;
  row = t.kept ∙ row_itself i c r;
  in_scope = s;
  only = λ j d _ e active. t.only j d e active;
  origin =
      λ j d e. elim (t.rest j d e) [ inl gone ↦ inr (inl gone) | inr e' ↦ row_before i c j d r e' ];
  others = λ j d ne e quiet. t.others j d (row_beside i c j r ne ∙ e) quiet;
}

and_quiet : (a b c : Bool) → (a && b) ≡ false → (a && (b && c)) ≡ false
and_quiet a b c h = ground arith

-- The last part of a write: the retirement, if the new version is an active handoff.
pub revised-Saved :
    (clock : Clock) (scope : Scope) (k : ScopeKey) (by : Provenance) (i : ℕ) (c : Chunk)
    (db mid db' : Db)
    → Inv db
    → Revises i c db mid
    → c.memory_scope ≡ k
    → (if not c.archived && c.purpose == "handoff"
          then retire_handoffs clock scope k i by
          else pure tt)
        mid
      ≡ done tt db'
    → Saved k i c db db'
revised-Saved clock scope k by i c db mid db' v r s h =
    elim (Bool-cases (not c.archived && c.purpose == "handoff")) [
      | inl active ↦ Retired-Saved k i c db mid db' r s (
          retire_handoffs-Retired clock scope k i by mid db' (Step-Inv (revise i c r) v)
            (rw active at h))
      | inr quiet ↦
          let same : mid ≡ db' = done_inj mid db' (rw quiet at h) in
          subst (Saved k i c db) same (
            quiet-Saved k i c db mid r s
              (and_quiet (not c.archived) (c.purpose == "handoff") (c.memory_scope == k) quiet))
    ]

active_scope : (k : ScopeKey) (c : Chunk) → is_active_handoff k c ≡ true → c.memory_scope ≡ k
active_scope k c a =
    eq_of_test c.memory_scope k
      (and-right (c.purpose == "handoff") _ (and-right (not c.archived) _ a))

active_shown : (k : ScopeKey) (c : Chunk) → is_active_handoff k c ≡ true → c.archived ≡ false
active_shown k c a = let b = and-left (not c.archived) _ a in ground arith

-- A write keeps one current handoff for each scope.
pub Saved-OneHandoff :
    (k : ScopeKey) (i : ℕ) (c : Chunk) (db db' : Db)
    → Saved k i c db db'
    → OneHandoff db
    → OneHandoff db'
Saved-OneHandoff k i c db db' s one k' j j' d d' e e' a a' = elim (s.origin j d e) [
  | inl (p, q) ↦ p ∙ sym (alone j' d' e' (subst (λ x. is_active_handoff k' x ≡ true) q a) a')
  | inr (inl gone) ↦ cc (gone, active_shown k' d a)
  | inr (inr was) ↦ elim (s.origin j' d' e') [
    | inl (p, q) ↦ alone j d e (subst (λ x. is_active_handoff k' x ≡ true) q a') a ∙ sym p
    | inr (inl gone) ↦ cc (gone, active_shown k' d' a')
    | inr (inr was') ↦ one k' j j' d d' was was' a a'
  ]
]
  where
    alone :
        (n : ℕ) (x : Chunk)
        → db'.chunks n ≡ some x
        → is_active_handoff k' c ≡ true
        → is_active_handoff k' x ≡ true
        → n ≡ i
    alone n x at ac ax =
        let same : k' ≡ k = sym (active_scope k' c ac) ∙ s.in_scope in
        s.only n x (subst (λ y. is_active_handoff y c ≡ true) same ac) at
          (subst (λ y. is_active_handoff y x ≡ true) same ax)
