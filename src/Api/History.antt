-- ===== src/Api/History.antt =====
-- Old versions stay readable (getInTx and snapshot, internal/memory/writer.go).
use grasshopper.Base.{
  ℕ, true, false, ◌≡◌, refl, sym, ◌∙◌, subst, ap, Option, some, List, ◌==◌, nat_eq, string_eq,
  test_self, inl, inr, Bool-cases, eq_of_test,
}
use grasshopper.Outcome.{ok}
use grasshopper.Scope.{Scope, ScopeKey, key, scope_key_eq}
use grasshopper.Store.{Db, Chunk, Record, Revision, scan_record, scope_of}
use grasshopper.Store.Inputs.{Digests}
use grasshopper.Store.Requests.{get_in_tx, record_of, version_of, old_revision}
use grasshopper.Api.{Call, run}
use grasshopper.Api.Facts.{WellFormed, run-Evolves}

-- A stored revision passes the checks of old_revision.
old_revision-stored :
    (db : Db) (k : ScopeKey) (i n : ℕ) (w : Revision)
    → db.memory_revisions i n ≡ some w
    → key w.stored.scope ≡ ok k
    → (w.stored.id == i) ≡ true
    → (w.stored.revision == n) ≡ true
    → old_revision db k i n ≡ ok (some w.stored)
unfolding old_revision
old_revision-stored db k i n w at e a b = rw (old_revision, at, e, a, b, test_self k) refl

pub get_in_tx-there :
    (scope : Scope) (k : ScopeKey) (i : ℕ) (revision : Option ℕ) (c : Chunk) (db : Db)
    → key scope ≡ ok k
    → db.chunks i ≡ some c
    → (c.memory_scope == k) ≡ true
    → get_in_tx scope i revision db ≡ version_of db k i revision c
unfolding get_in_tx record_of
get_in_tx-there scope k i revision c db e at t = rw (get_in_tx, e, at, record_of, t) refl

version_of-current :
    (db : Db) (k : ScopeKey) (i n : ℕ) (c : Chunk)
    → (n == c.revision) ≡ true
    → version_of db k i (some n) c ≡ ok (some (scan_record i c))
unfolding version_of
version_of-current db k i n c t = rw (version_of, t) refl

version_of-past :
    (db : Db) (k : ScopeKey) (i n : ℕ) (c : Chunk)
    → (n == c.revision) ≡ false
    → version_of db k i (some n) c ≡ old_revision db k i n
unfolding version_of
version_of-past db k i n c t = rw (version_of, t) refl

scan_record-test :
    (i : ℕ) (c : Chunk) (r : Record)
    → r ≡ scan_record i c
    → ((r.id == i) ≡ true)
      × ((r.revision == c.revision) ≡ true)
      × (r.scope ≡ scope_of c.memory_scope)
unfolding scan_record
scan_record-test i c r e =
    subst
      (λ (x : Record).
        ((x.id == i) ≡ true)
        × ((x.revision == c.revision) ≡ true)
        × (x.scope ≡ scope_of c.memory_scope))
      (sym e) (test_self i, test_self c.revision, refl)

get_in_tx-version :
    (db : Db) (i : ℕ) (c c' : Chunk) (w : Revision)
    → key (scope_of c.memory_scope) ≡ ok c.memory_scope
    → db.chunks i ≡ some c'
    → c'.memory_scope ≡ c.memory_scope
    → (c.revision ≡ c'.revision → c ≡ c')
    → db.memory_revisions i c.revision ≡ some w
    → w.stored ≡ scan_record i c
    → get_in_tx (scope_of c.memory_scope) i (some c.revision) db ≡ ok (some (scan_record i c))
get_in_tx-version db i c c' w k e s same at is =
    get_in_tx-there (scope_of c.memory_scope) c.memory_scope i (some c.revision) c' db k e
      (ap (λ x. x == c.memory_scope) s ∙ test_self c.memory_scope)
    ∙ elim (Bool-cases (c.revision == c'.revision)) [
      | inl q ↦
          version_of-current db c.memory_scope i c.revision c' q
          ∙ ap (λ x. ok (some (scan_record i x))) (sym (same (eq_of_test c.revision c'.revision q)))
      | inr q ↦
          let (a, b, sc) = scan_record-test i c w.stored is in
          version_of-past db c.memory_scope i c.revision c' q
          ∙ old_revision-stored db c.memory_scope i c.revision w at (ap key sc ∙ k) a b
          ∙ ap (λ x. ok (some x)) is
    ]

-- A version that a memory of a well-formed database has is returned unchanged when it is asked for by
-- its number, after any sequence of Write, Archive and Move calls.
pub version-readable :
    (d : Digests) (cs : List Call) (db : Db) (i : ℕ) (c : Chunk)
    → WellFormed db
    → db.chunks i ≡ some c
    → get_in_tx (scope_of c.memory_scope) i (some c.revision) (run d cs db)
      ≡ ok (some (scan_record i c))
unfolding WellFormed
version-readable d cs db i c w e =
    let (old, at, is) = w.0.recorded i c e in
    let later = run-Evolves d cs db w in
    let (c', e', s) = later.memories i c e in
    get_in_tx-version (run d cs db) i c c' old (w.0.keyed i c e) e' s.memory_scope s.same_version
      (later.history i c.revision old at) is
