-- ===== src/Store/Effects.antt =====
-- What the shared statements do when they succeed, on a database that has the invariant.
use grasshopper.Base.{
  ℕ, ◌≤◌, ◌<◌, Bool, true, ◌≡◌, refl, sym, ◌∙◌, ap, subst, fun_ext, Option, none, some, String,
  ◌==◌, nat_eq, string_eq, arith, inl, inr, Bool-cases, eq_of_test, test_self,
}
use grasshopper.Outcome.{ok, memory_not_found, bind_ok}
use grasshopper.Scope.{Scope, ScopeKey, key, scope_key_eq}
use grasshopper.Store.{Db, Chunk, Record, put, scan_record, scope_of, is_unique}
use grasshopper.Store.Tx.{Tx, done, ◌>>=◌}
use grasshopper.Store.Requests.{
  insert_or_ignore, record_of, version_of, get_in_tx, found_or, current_record, snapshot_into,
  snapshot, update_row,
}
use grasshopper.Store.Steps.{snap, text_of, Follows, Revises}
use grasshopper.Store.Invariant.{Inv}

record_of-found :
    (db : Db) (k : ScopeKey) (i : ℕ) (o : Option Chunk) (r : Record)
    → record_of db k i none o ≡ ok (some r)
    → (c : Chunk) × (o ≡ some c) × (c.memory_scope ≡ k) × (r ≡ scan_record i c)
unfolding record_of version_of
record_of-found db k i none r h = cc
record_of-found db k i (some c) r h = elim (Bool-cases (c.memory_scope == k)) [
  | inl same ↦ (c, refl, eq_of_test c.memory_scope k same, cc (rw same at h))
  | inr other ↦ cc (rw other at h)
]

found_or-some : (o : Option Record) (r : Record) → found_or memory_not_found o ≡ ok r → o ≡ some r
found_or-some none r h = cc
found_or-some (some x) r h = cc

-- A record that is found is the current row of its id, in the scope that was asked for.
pub current_record-found :
    (scope : Scope) (i : ℕ) (db : Db) (r : Record)
    → current_record scope i db ≡ ok r
    → (c : Chunk) × (db.chunks i ≡ some c) × (r ≡ scan_record i c) × (key scope ≡ ok c.memory_scope)
unfolding current_record get_in_tx
current_record-found scope i db r h =
    let (o, e, f) = bind_ok (get_in_tx scope i none db) (found_or memory_not_found) h in
    let (k, ke, at) = bind_ok (key scope) (λ k. record_of db k i none (db.chunks i)) e in
    let (c, here, same, is) =
      record_of-found db k i (db.chunks i) r (at ∙ ap ok (found_or-some o r f)) in
    (c, here, is, ke ∙ ap ok (sym same))

pub snapshot_into-scan :
    (db : Db) (i : ℕ) (c : Chunk)
    → db.chunks i ≡ some c
    → snapshot_into (scan_record i c) db ≡ record db {
      memory_revisions = insert_or_ignore db.memory_revisions i c.revision (snap i c);
    }
unfolding snapshot_into scan_record
snapshot_into-scan db i c e = rw (e, snapshot_into)

-- The current version is in the history, so its snapshot changes nothing.
pub snapshot_into-same :
    (db : Db) (i : ℕ) (c : Chunk)
    → Inv db
    → db.chunks i ≡ some c
    → snapshot_into (scan_record i c) db ≡ db
snapshot_into-same db i c v e =
    snapshot_into-scan db i c e
    ∙ ap (λ m. record db { memory_revisions = m }) (fun_ext λ j. fun_ext λ n. same j n)
  where
    same :
        (j n : ℕ)
        → insert_or_ignore db.memory_revisions i c.revision (snap i c) j n ≡ db.memory_revisions j n
    same j n = elim (Bool-cases (i == j)) [
      | inl p ↦ elim (Bool-cases (c.revision == n)) [
        | inl q ↦
            let (w, at, _) = v.recorded i c e in
            let at' : db.memory_revisions j n ≡ some w =
              subst (λ x. db.memory_revisions x n ≡ some w) (eq_of_test i j p)
                (subst (λ x. db.memory_revisions i x ≡ some w) (eq_of_test c.revision n q) at) in
            ground arith
        | inr q ↦ ground arith
      ]
      | inr p ↦ ground arith
    ]

pub snapshot_then {ℓ} :
    {A : Type ℓ} (db : Db) (i : ℕ) (c : Chunk) (f : Unit {0} → Tx A)
    → Inv db
    → db.chunks i ≡ some c
    → (snapshot (scan_record i c) >>= f) db ≡ f tt db
unfolding ◌>>=◌ snapshot
snapshot_then db i c f v e = ap (f tt) (snapshot_into-same db i c v e)

pub update_row-done :
    (i revision : ℕ) (f : Chunk → Chunk) (db db' : Db) (b : Bool) (c : Chunk)
    → db.chunks i ≡ some c
    → c.revision ≡ revision
    → update_row i revision f db ≡ done b db'
    → (b ≡ true)
      × (is_unique db i (f c) ≡ true)
      × (db' ≡ record db { chunks = put db.chunks i (f c) })
unfolding update_row
update_row-done i revision f db db' b c e same h = elim (Bool-cases (is_unique db i (f c))) [
  | inl u ↦ ground (arith, test_self c.revision)
  | inr clash ↦ ground (arith, test_self c.revision)
]

-- A row whose new version has been written, before its snapshot.
pub record Rewrites (i : ℕ) (c : Chunk) (db db' : Db) : Type 0 where
  pub rows : (j : ℕ) → db'.chunks j ≡ put db.chunks i c j
  pub texts : (j : ℕ) → db'.chunks_fts j ≡ put db.chunks_fts i (text_of c) j
  pub history : (j n : ℕ) → db'.memory_revisions j n ≡ db.memory_revisions j n
  pub requests : (r : String) → db'.memory_requests r ≡ db.memory_requests r
  pub bound : db.next_id ≤ db'.next_id
  pub below : i < db'.next_id

-- A version that may be written.
pub record Fits (i : ℕ) (c : Chunk) (db : Db) : Type 0 where
  pub follows : (old : Chunk) → db.chunks i ≡ some old → Follows old c
  pub starts : db.chunks i ≡ none → c.revision ≡ 1
  pub keyed : key (scope_of c.memory_scope) ≡ ok c.memory_scope
  pub unique : is_unique db i c ≡ true

pub Rewrites-snapshot :
    (i : ℕ) (c : Chunk) (db mid : Db)
    → Fits i c db
    → Rewrites i c db mid
    → Revises i c db (snapshot_into (scan_record i c) mid)
Rewrites-snapshot i c db mid f w =
    rw (snapshot_into-scan mid i c (w.rows i ∙ ground (arith, test_self i))) (record {
      rows = w.rows;
      texts = w.texts;
      history = λ j n.
          ap (λ m. insert_or_ignore m i c.revision (snap i c) j n)
            (fun_ext λ j. fun_ext λ n. w.history j n);
      requests = w.requests;
      bound = w.bound;
      below = w.below;
      follows = f.follows;
      starts = f.starts;
      keyed = f.keyed;
      unique = f.unique;
    })
