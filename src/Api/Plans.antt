-- ===== src/Api/Plans.antt =====
-- The parts of a write that the effects of Write rest on (internal/memory/writer.go).
use grasshopper.Base.{
  ℕ, true, false, not, ◌&&◌, ◌||◌, ◌≡◌, refl, sym, ◌∙◌, subst, ap, Option, none, some, String, List,
  ◌==◌, nat_eq, string_eq, option_eq, test_self, inl, inr, Bool-cases, Option-cases, eq_of_test,
  is_some, is_blank, ltb, Bool, if◌then◌else◌,
}
use grasshopper.Outcome
use Prim.Native.String.{len}
use grasshopper.Api.History.{get_in_tx-there}
use grasshopper.Outcome.{
  Error, revision_conflict, confirmation_conflict, immutable_key, invalid_content,
  metadata_too_large, invalid_memory_type, Result, ok, err, bind_ok,
}
use grasshopper.Scope.{Scope, ScopeKey, key, scope_key_eq}
use grasshopper.Store.{head, Db, Chunk, Record, Receipt, scan_record, select_below, select, head}
use grasshopper.Store.Tx.{done}
use grasshopper.Store.Inputs.{WriteInput, Digests, Clock, is_memory_type}
use grasshopper.Store.Requests.{get_in_tx, version_of, check_duplicate, current_record}
use grasshopper.Store.Plan.{
  Fields, existing, check_current, proposed, resolve_fields, duplicate_of, exact_match,
}
use grasshopper.Store.Write.{write, write_tx, validate_write}
use grasshopper.Store.Effects.{current_record-found}
use grasshopper.Store.Invariant.{select_below-head}
use grasshopper.Store.Calls.{WriteCases, write_tx-cases}
use grasshopper.Api.Facts.{WellFormed, lift_done, commit_done, validate_write-key}

-- The three answers of Write: the stored receipt of a replay, the receipt of a duplicate, or that of
-- the row written.
pub write-cases :
    (d : Digests) (clock : Clock) (input : WriteInput) (vector : Option (List ℕ)) (model : String)
    (db db' : Db) (r : Receipt)
    → WellFormed db
    → write d clock input vector model db ≡ done r db'
    → (k : ScopeKey) × (key input.scope ≡ ok k) × WriteCases d input k (d.of_write input) r db db'
unfolding WellFormed write
write-cases d clock input vector model db db' r (v, _) h =
    let (k, valid, h1) = lift_done (validate_write input vector model) _ db db' r h in
    let scope = validate_write-key input vector model k valid in
    (
      k,
      scope,
      write_tx-cases d clock input k (d.of_write input) vector model r db db' v scope
          (commit_done (write_tx d clock input k (d.of_write input) vector model) db db' r h1),
    )

pub resolve_fields-proposed :
    (input : WriteInput) (current restored : Option Record) (fields : Fields)
    → resolve_fields input current restored ≡ ok fields
    → fields ≡ proposed input current restored
unfolding resolve_fields
resolve_fields-proposed input current restored fields h =
    let f = proposed input current restored in
    three (is_blank f.content || ltb 32768 (len f.content))
      (ltb 512 (len f.title) || ltb 2048 (len f.tags)) (not (is_memory_type f.memory_type)) f fields
      h
  where
    three :
        (a b c : Bool) (f g : Fields)
        → (if a
            then err invalid_content
            else if b
            then err metadata_too_large
            else if c
            then err invalid_memory_type
            else ok f)
          ≡ ok g
        → g ≡ f
    three true b c f g h = cc
    three false true c f g h = cc
    three false false true f g h = cc
    three false false false f g h = cc

pub get_in_tx-current :
    (scope : Scope) (k : ScopeKey) (i : ℕ) (c : Chunk) (db : Db)
    → key scope ≡ ok k
    → db.chunks i ≡ some c
    → c.memory_scope ≡ k
    → get_in_tx scope i none db ≡ ok (some (scan_record i c))
unfolding version_of
get_in_tx-current scope k i c db e at s =
    get_in_tx-there scope k i none c db e at (ap (λ x. x == k) s ∙ test_self k)

-- A duplicate is an active row with the same exact identity and key.
pub duplicate_of-match :
    (input : WriteInput) (k : ScopeKey) (fields : Fields) (hash : String) (current : Option Record)
    (db : Db) (r : Receipt)
    → duplicate_of input k fields hash current db ≡ ok (some r)
    → (c : Chunk) × (db.chunks r.id ≡ some c)
      × (exact_match k fields input.confirmed hash r.id c ≡ true)
      × (input.key ≡ c.preference_key)
      × (r ≡ record { id = r.id; revision = c.revision; deduplicated = true })
unfolding duplicate_of select
duplicate_of-match input k fields hash (some current) db r h =
    let (_, _, h1) =
      bind_ok
        (check_duplicate db k fields.memory_type fields.purpose input.confirmed hash current.id)
        (λ _. Outcome.ok none) h in
    cc
duplicate_of-match input k fields hash none db r h =
    elim (Option-cases
      (head (select_below db (exact_match k fields input.confirmed hash) db.next_id))) [
        | inl e ↦ cc (rw (duplicate_of, select, e) at h)
        | inr (i, e) ↦
            let (c, at, m) =
              select_below-head db (exact_match k fields input.confirmed hash) db.next_id i e in
            elim (Bool-cases (input.key == c.preference_key)) [
              | inl same ↦
                  let q : ◌≡◌ {A = Receipt}
                      (record { id = i; revision = c.revision; deduplicated = true }) r =
                    receipt_inj (rw (duplicate_of, select, e, at, same) at h) in
                  subst
                    (λ (x : Receipt).
                      (c : Chunk) × (db.chunks x.id ≡ some c)
                      × (exact_match k fields input.confirmed hash x.id c ≡ true)
                      × (input.key ≡ c.preference_key)
                      × (x ≡ record { id = x.id; revision = c.revision; deduplicated = true }))
                    q (c, at, m, eq_of_test input.key c.preference_key same, refl)
              | inr other ↦ cc (rw (duplicate_of, select, e, at, other) at h)
            ]
      ]
  where
    receipt_inj :
        {a b : Receipt} → ◌≡◌ {A = Result (Option Receipt)} (ok (some a)) (ok (some b)) → a ≡ b
    receipt_inj e = cc

pub existing-some :
    (input : WriteInput) (i : ℕ) (db : Db) (current : Option Record)
    → existing input (some i) db ≡ ok current
    → (old : Chunk) × (db.chunks i ≡ some old) × (current ≡ some (scan_record i old))
unfolding existing
existing-some input i db current h =
    let (r, e, h1) = bind_ok (current_record input.scope i db) (λ r. ok (some r)) h in
    let (old, at, is, _) = current_record-found input.scope i db r e in
    (old, at, opt_inj (sym h1) ∙ ap some is)
  where
    opt_inj : {a b : Option Record} → ◌≡◌ {A = Result (Option Record)} (ok a) (ok b) → a ≡ b
    opt_inj e = cc

-- A correction that passes its checks.
pub check_current-passed :
    (input : WriteInput) (current : Record)
    → check_current input (some current) ≡ ok tt
    → (input.expected_revision ≡ some current.revision)
      × ((current.confirmed && not input.confirmed) ≡ false)
      × ((is_some input.key && not (input.key == current.key)) ≡ false)
unfolding check_current
check_current-passed input current h =
    let (a, b, c) =
      three (input.expected_revision == some current.revision)
        (current.confirmed && not input.confirmed)
        (is_some input.key && not (input.key == current.key)) (revision_conflict current.revision)
        h in
    (eq_of_test input.expected_revision (some current.revision) a, b, c)
  where
    three :
        (a b c : Bool) (e : Error)
        → ◌≡◌ {A = Result (Unit {0})}
            (if not a
              then err e
              else if b
              then err confirmation_conflict
              else if c
              then err immutable_key
              else ok tt)
            (ok tt)
        → (a ≡ true) × (b ≡ false) × (c ≡ false)
    three false b c e h = cc
    three true true c e h = cc
    three true false true e h = cc
    three true false false e h = (refl, refl, refl)
