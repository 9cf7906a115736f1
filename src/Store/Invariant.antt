-- ===== src/Store/Invariant.antt =====
-- The invariant of the store, kept by every step.
use grasshopper.Base.{
  subst, some_inj, ℕ, zero, suc, ◌≤◌, ◌<◌, Bool, true, false, not, ◌&&◌, ◌||◌, ◌≡◌, ◌≢◌, refl, sym,
  ◌∙◌, ap, Option, none, some, ◌==◌, nat_eq, string_eq, option_eq, arith, inl, inr, Bool-cases,
  is_some, eq_of_test, ne_of_test, test_ne,
}
use grasshopper.Outcome.{ok}
use grasshopper.Scope.{key, scope_key_eq}
use grasshopper.Store.{
  Db, Chunk, Revision, scan_record, scope_of, is_unique, select_below, head, holds, same_exact,
  same_key,
}
use grasshopper.Store.Steps.{text_of}

pub record Inv (db : Db) : Type 0 where
  -- ids are assigned upwards, from 1
  pub fresh : (i : ℕ) (c : Chunk) → db.chunks i ≡ some c → i < db.next_id
  pub positive : (i : ℕ) (c : Chunk) → db.chunks i ≡ some c → 1 ≤ c.revision
  -- the current version of each memory is in the history
  pub recorded :
      (i : ℕ) (c : Chunk)
      → db.chunks i ≡ some c
      → (v : Revision) × (db.memory_revisions i c.revision ≡ some v) × (v.stored ≡ scan_record i c)
  -- the history is of memories that are there, under their number and scope
  pub past :
      (i n : ℕ) (v : Revision)
      → db.memory_revisions i n ≡ some v
      → (c : Chunk) × (db.chunks i ≡ some c)
        × (n ≤ c.revision)
        × (v.stored.id ≡ i)
        × (v.stored.revision ≡ n)
        × (v.stored.scope ≡ scope_of c.memory_scope)
  -- the text index holds the current text of each memory
  pub indexed : (i : ℕ) (c : Chunk) → db.chunks i ≡ some c → db.chunks_fts i ≡ some (text_of c)
  pub keyed :
      (i : ℕ) (c : Chunk) → db.chunks i ≡ some c → key (scope_of c.memory_scope) ≡ ok c.memory_scope
  -- no two active memories have the same exact identity, and no two the same key in a scope
  pub exact :
      (i j : ℕ) (c d : Chunk)
      → db.chunks i ≡ some c
      → db.chunks j ≡ some d
      → same_exact c d ≡ true
      → i ≡ j
  pub keys :
      (i j : ℕ) (c d : Chunk)
      → db.chunks i ≡ some c
      → db.chunks j ≡ some d
      → same_key c d ≡ true
      → i ≡ j

-- A selection that is empty has no row that satisfies the condition.
pub select_below-empty :
    (db : Db) (p : ℕ → Chunk → Bool) (n j : ℕ) (c : Chunk)
    → head (select_below db p n) ≡ none
    → j < n
    → db.chunks j ≡ some c
    → p j c ≡ false
unfolding select_below
select_below-empty db p zero j c h lt e = absurd (omega arith)
select_below-empty db p (suc n) j c h lt e = elim (Bool-cases (holds (p n) (db.chunks n))) [
  | inl hit ↦ cc (rw (hit, select_below) at h)
  | inr miss ↦ elim (Bool-cases (j == n)) [
    | inl same ↦
        let q : j ≡ n = eq_of_test j n same in ap (holds (p j)) (sym e) ∙ (rw (← q) at miss)
    | inr other ↦
        let ne = ne_of_test j n other in
        select_below-empty db p n j c (rw (miss, select_below) at h) (omega arith) e
  ]
]

none_of_not : (o : Option ℕ) → not (is_some o) ≡ true → o ≡ none
none_of_not none h = refl
none_of_not (some i) h = cc

pub unique_at :
    (db : Db) (i j : ℕ) (c d : Chunk)
    → is_unique db i c ≡ true
    → j < db.next_id
    → db.chunks j ≡ some d
    → j ≢ i
    → (same_exact c d || same_key c d) ≡ false
unfolding is_unique
unique_at db i j c d u lt e ne =
    let p : ℕ → Chunk → Bool = λ k x. not (k == i) && (same_exact c x || same_key c x) in
    let q : p j d ≡ false = select_below-empty db p db.next_id j d (none_of_not _ u) lt e in
    ground (arith, q, test_ne j i ne)

-- The first row of a selection satisfies its condition.
pub select_below-head :
    (db : Db) (p : ℕ → Chunk → Bool) (n i : ℕ)
    → head (select_below db p n) ≡ some i
    → (c : Chunk) × (db.chunks i ≡ some c) × (p i c ≡ true)
unfolding select_below
select_below-head db p zero i h = cc
select_below-head db p (suc n) i h = elim (Bool-cases (holds (p n) (db.chunks n))) [
  | inl hit ↦
      let q : n ≡ i = some_inj n i (rw (hit, select_below) at h) in
      subst (λ j. (c : Chunk) × (db.chunks j ≡ some c) × (p j c ≡ true)) q
        (held (p n) (db.chunks n) hit)
  | inr miss ↦ select_below-head db p n i (rw (miss, select_below) at h)
]
  where
    held :
        (q : Chunk → Bool) (o : Option Chunk)
        → holds q o ≡ true
        → (c : Chunk) × (o ≡ some c) × (q c ≡ true)
    held q none t = cc
    held q (some c) t = (c, refl, t)
