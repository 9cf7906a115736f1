-- ===== src/Api/Facts.antt =====
-- The store stays well formed and only grows, whatever calls are made; a call that fails changes
-- nothing.
use grasshopper.Base.{
  is_some, ◌||◌, if◌then◌else◌, option_eq, ℕ, ◌≡◌, refl, sym, subst, List, [], ◌∷◌, String, nat_eq,
  string_eq, not,
}
use grasshopper.Outcome.{
  guard, legacy_write, invalid_purpose, invalid_key, invalid_embedding, Error, Result, ok, err,
  bind_ok, guard, legacy_write, invalid_purpose, invalid_key, invalid_embedding,
}
use grasshopper.Scope.{ScopeKey, key, durable_project, scope_key_eq}
use grasshopper.Store.{Db, Receipt, create_empty}
use grasshopper.Store.Tx.{Tx, Outcome, done, failed, ◌>>=◌, commit_or_rollback, settle, lift_result}
use grasshopper.Store.Inputs.{
  WriteInput, Digests, validate_provenance, check_request_id, is_purpose, is_key, is_vector,
}
use grasshopper.Store.Write.{write, write_tx, validate_write}
use grasshopper.Store.Archive.{archive, archive_tx, validate_archive}
use grasshopper.Store.Move.{move, move_tx, validate_move}
use grasshopper.Store.Invariant.{Inv}
use grasshopper.Store.Preserve.{Reaches-Inv}
use grasshopper.Store.Evolution.{Evolves, Evolves-refl, Evolves-trans, Reaches-Evolves}
use grasshopper.Store.Saved.{OneHandoff}
use grasshopper.Store.Calls.{Sound, Sound-refl, write_tx-Sound}
use grasshopper.Store.Archived.{archive_tx-Sound}
use grasshopper.Store.Moved.{move_tx-Sound}
use grasshopper.Api.{Call, write_call, archive_call, move_call, perform, run, state_after, Option}

unfoldable pub WellFormed : Db → Type 0
WellFormed db = Inv db × OneHandoff db

create_empty-Inv : Inv create_empty
create_empty-Inv = record {
  fresh = λ i c h. cc;
  positive = λ i c h. cc;
  recorded = λ i c h. cc;
  past = λ i n v h. cc;
  indexed = λ i c h. cc;
  keyed = λ i c h. cc;
  exact = λ i j c d h. cc;
  keys = λ i j c d h. cc;
}

pub create_empty-WellFormed : WellFormed create_empty
unfolding WellFormed
create_empty-WellFormed = (create_empty-Inv, λ k i j c d h. cc)

module _ {ℓ} {A : Type ℓ} where
  -- A transaction that is committed has succeeded as it stands.
  pub commit_done :
      (m : Tx A) (db db' : Db) (a : A) → commit_or_rollback m db ≡ done a db' → m db ≡ done a db'
  unfolding commit_or_rollback
  commit_done m db db' a h = split (m db) h
    where
      split : (o : Outcome A) → settle o db ≡ done a db' → o ≡ done a db'
      split (done b mid) h = h
      split (failed e mid) h = cc

  pub commit_failed :
      (m : Tx A) (db db' : Db) (e : Error) → commit_or_rollback m db ≡ failed e db' → db' ≡ db
  unfolding commit_or_rollback
  commit_failed m db db' e h = split (m db) h
    where
      split : (o : Outcome A) → settle o db ≡ failed e db' → db' ≡ db
      split (done b mid) h = cc
      split (failed x mid) h = cc

pub lift_done {ℓ κ} :
    {A : Type ℓ} {B : Type κ} (r : Result A) (f : A → Tx B) (db db' : Db) (b : B)
    → (lift_result r >>= f) db ≡ done b db'
    → (a : A) × (r ≡ ok a) × (f a db ≡ done b db')
unfolding ◌>>=◌
lift_done (ok a) f db db' b h = (a, refl, h)
lift_done (err e) f db db' b h = cc

pub lift_failed {ℓ κ} :
    {A : Type ℓ} {B : Type κ} (r : Result A) (f : A → Tx B) (db db' : Db) (x : Error)
    → (lift_result r >>= f) db ≡ failed x db'
    → ((a : A) → f a db ≡ failed x db' → db' ≡ db)
    → db' ≡ db
unfolding ◌>>=◌
lift_failed (ok a) f db db' x h g = g a h
lift_failed (err e) f db db' x h g = cc

-- The key that validation returns is the scope's.
pub validate_write-key :
    (input : WriteInput) (vector : Option (List ℕ)) (model : String) (k : ScopeKey)
    → validate_write input vector model ≡ ok k
    → key input.scope ≡ ok k
unfolding validate_write
validate_write-key input vector model k h =
    let (k', e, h1) = bind_ok (key input.scope) _ h in
    let (_, _, h2) =
      bind_ok
        (if is_some input.id || is_some input.expected_revision
          then ok tt
          else durable_project input.scope)
        _ h1 in
    let (_, _, h3) = bind_ok (guard (not input.scope.legacy) legacy_write) _ h2 in
    let (_, _, h4) = bind_ok (validate_provenance input.provenance) _ h3 in
    let (_, _, h5) = bind_ok (check_request_id input.request_id) _ h4 in
    let (_, _, h6) = bind_ok (guard (is_purpose input.purpose) invalid_purpose) _ h5 in
    let (_, _, h7) = bind_ok (guard (is_key input.key) invalid_key) _ h6 in
    let (_, _, h8) = bind_ok (guard (is_vector vector model) invalid_embedding) _ h7 in
    subst (λ x. key input.scope ≡ ok x) (ok_inj h8) e
  where
    ok_inj : {a b : ScopeKey} → ◌≡◌ {A = Result ScopeKey} (ok a) (ok b) → a ≡ b
    ok_inj e = cc

perform-Sound :
    (d : Digests) (c : Call) (db db' : Db) (r : Receipt)
    → Inv db
    → perform d c db ≡ done r db'
    → Sound db db'
unfolding perform write archive move
perform-Sound d (write_call clock input vector model) db db' r v h =
    let (k, valid, h1) = lift_done (validate_write input vector model) _ db db' r h in
    write_tx-Sound d clock input k (d.of_write input) vector model r db db' v
      (validate_write-key input vector model k valid)
      (commit_done (write_tx d clock input k (d.of_write input) vector model) db db' r h1)
perform-Sound d (archive_call clock input) db db' r v h =
    let (_, _, h1) = lift_done (validate_archive input) _ db db' r h in
    archive_tx-Sound clock input (d.of_archive input) r db db' v
      (commit_done (archive_tx clock input (d.of_archive input)) db db' r h1)
perform-Sound d (move_call clock later input vector model) db db' r v h =
    let (_, _, h1) = lift_done (validate_move input) _ db db' r h in
    move_tx-Sound d clock later input (d.of_move input) vector model r db db' v
      (commit_done (move_tx d clock later input (d.of_move input) vector model) db db' r h1)

-- A call that returns an error leaves the database as it was, whatever it had written before the
-- error.
pub failed-unchanged :
    (d : Digests) (c : Call) (db db' : Db) (e : Error) → perform d c db ≡ failed e db' → db' ≡ db
unfolding perform write archive move
failed-unchanged d (write_call clock input vector model) db db' e h =
    lift_failed (validate_write input vector model) _ db db' e h
      λ k. commit_failed (write_tx d clock input k (d.of_write input) vector model) db db' e
failed-unchanged d (archive_call clock input) db db' e h =
    lift_failed (validate_archive input) _ db db' e h
      λ _. commit_failed (archive_tx clock input (d.of_archive input)) db db' e
failed-unchanged d (move_call clock later input vector model) db db' e h =
    lift_failed (validate_move input) _ db db' e h
      λ _. commit_failed (move_tx d clock later input (d.of_move input) vector model) db db' e

pub after-Sound :
    (d : Digests) (c : Call) (db : Db) → Inv db → Sound db (state_after (perform d c db))
after-Sound d c db v = split (perform d c db) refl
  where
    split : (o : Outcome Receipt) → perform d c db ≡ o → Sound db (state_after o)
    split (done r db') e = perform-Sound d c db db' r v e
    split (failed x db') e =
        subst (Sound db) (sym (failed-unchanged d c db db' x e)) (Sound-refl db)

-- From a well-formed database, any sequence of Write, Archive and Move calls, failed ones included,
-- leads to a well-formed one: ids and revisions are in range, the current version of each memory is in
-- the history and in the text index, the two unique indexes hold, and each scope has one active
-- handoff at most.
pub run-WellFormed :
    (d : Digests) (cs : List Call) (db : Db) → WellFormed db → WellFormed (run d cs db)
unfolding run WellFormed
run-WellFormed d [] db w = w
run-WellFormed d (c ∷ cs) db (v, one) =
    let s = after-Sound d c db v in
    run-WellFormed d cs (state_after (perform d c db)) (Reaches-Inv s.path v, s.keeps one)

-- From a well-formed database, any sequence of calls only adds: each memory is still there with its
-- scope, key and creation time and a revision that has not fallen, a revision number stands for one
-- content for ever, and no row of the history and no answer to a request is lost or changed.
pub run-Evolves :
    (d : Digests) (cs : List Call) (db : Db) → WellFormed db → Evolves db (run d cs db)
unfolding run WellFormed
run-Evolves d [] db w = Evolves-refl db
run-Evolves d (c ∷ cs) db (v, one) =
    let s = after-Sound d c db v in
    Evolves-trans (Reaches-Evolves s.path)
      (run-Evolves d cs (state_after (perform d c db)) (Reaches-Inv s.path v, s.keeps one))
