-- ===== src/Api/Retry.antt =====
-- The request ids of Write, Archive and Move (replay and acknowledge, internal/memory/writer.go).
use grasshopper.Store.Inputs.{Clock}
use grasshopper.Base.{
  true, false, ◌≡◌, ◌≢◌, refl, sym, ◌∙◌, subst, Option, some, String, ◌==◌, nat_eq, string_eq,
  arith, test_self, test_ne, inl, inr, Option-cases, Bool-cases, eq_of_test,
}
use grasshopper.Outcome as Results
use grasshopper.Outcome.{Error, Result, ok, err, idempotency_conflict}
use grasshopper.Scope.{ScopeKey}
use grasshopper.Store.{Db, Receipt, Request, put}
use grasshopper.Store.Tx.{done, failed, ◌>>=◌, reads, commit_or_rollback}
use grasshopper.Store.Inputs.{Digests}
use grasshopper.Store.Requests.{replay}
use grasshopper.Store.Write.{write, write_tx, validate_write}
use grasshopper.Store.Archive.{archive, archive_tx, validate_archive}
use grasshopper.Store.Move.{move, move_tx, validate_move}
use grasshopper.Store.Invariant.{Inv}
use grasshopper.Store.Evolution.{Evolves}
use grasshopper.Store.Written.{acknowledge-done}
use grasshopper.Store.Calls.{write_tx-cases, replayed, repeated, written}
use grasshopper.Store.Archived.{archive_tx-cases}
use grasshopper.Store.Moved.{move_tx-cases}
use grasshopper.Api.{
  Call, write_call, archive_call, move_call, perform, request_of, fingerprint_of, validate_call,
  at_time,
}
use grasshopper.Api.Facts.{WellFormed, lift_done, commit_done, validate_write-key}

answered-replay :
    (request fingerprint : String) (r : Receipt) (mid db : Db)
    → db ≡ record mid {
      memory_requests =
          put mid.memory_requests request (record { fingerprint = fingerprint; receipt = r });
    }
    → replay request fingerprint db ≡ ok (some r)
unfolding replay
answered-replay request fingerprint r mid db e =
    subst (λ x. replay request fingerprint x ≡ ok (some r)) (sym e)
      (ground (arith, test_self request, test_self fingerprint))

-- The answer to a request that has been made.
request_row :
    (request fingerprint : String) (r : Receipt) (db : Db)
    → replay request fingerprint db ≡ ok (some r)
    → (q : Request) × (db.memory_requests request ≡ some q)
      × ((q.fingerprint == fingerprint) ≡ true)
      × (q.receipt ≡ r)
unfolding replay
request_row request fingerprint r db h = elim (Option-cases (db.memory_requests request)) [
  | inl e ↦ cc (rw (e, replay) at h)
  | inr (q, e) ↦ elim (Bool-cases (q.fingerprint == fingerprint)) [
    | inl same ↦ (q, e, same, receipt_inj (rw (e, replay, same) at h))
    | inr other ↦ cc (rw (e, replay, other) at h)
  ]
]
  where
    receipt_inj :
        {a b : Receipt} → ◌≡◌ {A = Result (Option Receipt)} (ok (some a)) (ok (some b)) → a ≡ b
    receipt_inj e = cc

replay-Evolves :
    (request fingerprint : String) (r : Receipt) (db later : Db)
    → replay request fingerprint db ≡ ok (some r)
    → Evolves db later
    → replay request fingerprint later ≡ ok (some r)
unfolding replay
replay-Evolves request fingerprint r db later h e =
    let (q, at, same, is) = request_row request fingerprint r db h in
    let at' = e.answers request q at in rw (replay, at', same, is) refl

replay-conflict :
    (request fingerprint other : String) (r : Receipt) (db later : Db)
    → replay request fingerprint db ≡ ok (some r)
    → Evolves db later
    → fingerprint ≢ other
    → replay request other later ≡ err idempotency_conflict
unfolding replay
replay-conflict request fingerprint other r db later h e ne =
    let (q, at, same, is) = request_row request fingerprint r db h in
    let at' = e.answers request q at in
    let miss : (q.fingerprint == other) ≡ false =
      test_ne q.fingerprint other (λ p. ne (sym (eq_of_test q.fingerprint fingerprint same) ∙ p)) in
    rw (replay, at', miss) refl

-- A call that succeeds leaves its answer.
perform-replay :
    (d : Digests) (c : Call) (db db' : Db) (r : Receipt)
    → Inv db
    → perform d c db ≡ done r db'
    → (validate_call c ≡ ok tt) × (replay (request_of c) (fingerprint_of d c) db' ≡ ok (some r))
unfolding perform write archive move
perform-replay d (write_call clock input vector model) db db' r v h =
    let (k, valid, h1) = lift_done (validate_write input vector model) _ db db' r h in
    let body = write_tx d clock input k (d.of_write input) vector model in
    (
      rw valid refl,
      elim (write_tx-cases d clock input k (d.of_write input) vector model r db db' v
          (validate_write-key input vector model k valid) (commit_done body db db' r h1)) [
            | replayed e same ↦
                subst (λ x. replay input.request_id (d.of_write input) x ≡ ok (some r)) (sym same) e
            | repeated _ _ _ _ state ↦
                answered-replay input.request_id (d.of_write input) r db db' state
            | written _ _ w ↦
                answered-replay input.request_id (d.of_write input) r w.mid db' w.answered
          ],
    )
perform-replay d (archive_call clock input) db db' r v h =
    let (_, valid, h1) = lift_done (validate_archive input) _ db db' r h in
    let body = archive_tx clock input (d.of_archive input) in
    (
      valid,
      elim (archive_tx-cases clock input (d.of_archive input) r db db' v
          (commit_done body db db' r h1)) [
            | inl (e, same) ↦
                subst (λ x. replay input.request_id (d.of_archive input) x ≡ ok (some r)) (sym same)
                  e
            | inr a ↦ answered-replay input.request_id (d.of_archive input) r a.mid db' a.answered
          ],
    )
perform-replay d (move_call clock later input vector model) db db' r v h =
    let (_, valid, h1) = lift_done (validate_move input) _ db db' r h in
    let body = move_tx d clock later input (d.of_move input) vector model in
    (
      valid,
      elim (move_tx-cases d clock later input (d.of_move input) vector model r db db'
          (commit_done body db db' r h1)) [
            | inl (e, same) ↦
                subst (λ x. replay input.request_id (d.of_move input) x ≡ ok (some r)) (sym same) e
            | inr m ↦
                let (_, _, state) =
                  acknowledge-done input.request_id (d.of_move input) r r m.archived db'
                    m.answers in
                answered-replay input.request_id (d.of_move input) r m.archived db' state
          ],
    )

validated-write :
    (k : Result ScopeKey)
    → Results.◌>>=◌ {B = Unit {0}} k (λ _. ok tt) ≡ ok tt
    → (x : ScopeKey) × (k ≡ ok x)
validated-write (ok x) h = (x, refl)
validated-write (err e) h = cc

-- What a validated call does is decided by the answer to its request.
replayed-perform :
    (d : Digests) (c : Call) (db : Db) (r : Receipt)
    → validate_call c ≡ ok tt
    → replay (request_of c) (fingerprint_of d c) db ≡ ok (some r)
    → perform d c db ≡ done r db
unfolding perform write archive move write_tx archive_tx move_tx reads ◌>>=◌ commit_or_rollback
replayed-perform d (write_call clock input vector model) db r valid e =
    let (k, ev) = validated-write (validate_write input vector model) valid in rw (ev, e) refl
replayed-perform d (archive_call clock input) db r valid e = rw (valid, e) refl
replayed-perform d (move_call clock later input vector model) db r valid e = rw (valid, e) refl

conflict-perform :
    (d : Digests) (c : Call) (db : Db)
    → validate_call c ≡ ok tt
    → replay (request_of c) (fingerprint_of d c) db ≡ err idempotency_conflict
    → perform d c db ≡ failed idempotency_conflict db
unfolding perform write archive move write_tx archive_tx move_tx reads ◌>>=◌ commit_or_rollback
conflict-perform d (write_call clock input vector model) db valid e =
    let (k, ev) = validated-write (validate_write input vector model) valid in rw (ev, e) refl
conflict-perform d (archive_call clock input) db valid e = rw (valid, e) refl
conflict-perform d (move_call clock later input vector model) db valid e = rw (valid, e) refl

validate_call-at_time : (t u : Clock) (c : Call) → validate_call (at_time t u c) ≡ validate_call c
validate_call-at_time t u (write_call _ _ _ _) = refl
validate_call-at_time t u (archive_call _ _) = refl
validate_call-at_time t u (move_call _ _ _ _ _) = refl

request_of-at_time : (t u : Clock) (c : Call) → request_of (at_time t u c) ≡ request_of c
request_of-at_time t u (write_call _ _ _ _) = refl
request_of-at_time t u (archive_call _ _) = refl
request_of-at_time t u (move_call _ _ _ _ _) = refl

fingerprint_of-at_time :
    (d : Digests) (t u : Clock) (c : Call) → fingerprint_of d (at_time t u c) ≡ fingerprint_of d c
fingerprint_of-at_time d t u (write_call _ _ _ _) = refl
fingerprint_of-at_time d t u (archive_call _ _) = refl
fingerprint_of-at_time d t u (move_call _ _ _ _ _) = refl

-- A call that succeeded is answered with the same receipt, and changes nothing, when it is made again
-- with the same payload, at whatever readings of the clock and in any later state of the database (an
-- Evolves state).
pub retried-same :
    (d : Digests) (c : Call) (t u : Clock) (db db' later : Db) (r : Receipt)
    → WellFormed db
    → perform d c db ≡ done r db'
    → Evolves db' later
    → perform d (at_time t u c) later ≡ done r later
unfolding WellFormed
retried-same d c t u db db' later r (v, _) h e =
    let (valid, answer) = perform-replay d c db db' r v h in
    let asked = replay-Evolves (request_of c) (fingerprint_of d c) r db' later answer e in
    replayed-perform d (at_time t u c) later r (validate_call-at_time t u c ∙ valid)
      (rw (request_of-at_time t u c, fingerprint_of-at_time d t u c) asked)

-- After a call has succeeded, a call of any kind with its request id that passes validation and whose
-- payload has another digest is refused with the idempotency conflict, in any later state of the
-- database, and changes nothing.
pub reused-conflict :
    (d : Digests) (c other : Call) (db db' later : Db) (r : Receipt)
    → WellFormed db
    → perform d c db ≡ done r db'
    → Evolves db' later
    → request_of other ≡ request_of c
    → validate_call other ≡ ok tt
    → fingerprint_of d c ≢ fingerprint_of d other
    → perform d other later ≡ failed idempotency_conflict later
unfolding WellFormed
reused-conflict d c other db db' later r (v, _) h e same valid ne =
    let (_, answer) = perform-replay d c db db' r v h in
    conflict-perform d other later valid (
      subst (λ x. replay x (fingerprint_of d other) later ≡ err idempotency_conflict) (sym same)
        (replay-conflict (request_of c) (fingerprint_of d c) (fingerprint_of d other) r db' later
          answer e ne))
