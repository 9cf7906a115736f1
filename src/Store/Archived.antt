-- ===== src/Store/Archived.antt =====
-- A successful archiveTx: a replay, or a new version of the memory with the asked visibility.
use grasshopper.Base.{
  ◌⊎◌, suc, not, ◌&&◌, ◌≡◌, refl, sym, ◌∙◌, subst, ap, none, some, String, ◌==◌, nat_eq, string_eq,
  Option-cases, Bool-cases, inl, inr, if◌then◌else◌, eq_of_test, false,
}
use grasshopper.Outcome.{Result, ok, bind_ok, concurrent_update}
use grasshopper.Scope.{key, scope_key_eq}
use grasshopper.Store.{Db, Chunk, Record, Receipt, put, scan_record, scope_of}
use grasshopper.Store.Tx.{
  Tx, done, pure, ◌>>=◌, reads, reads_done, bind_done, done_value, done_state, check_done, check,
}
use grasshopper.Store.Inputs.{ArchiveInput, Clock}
use grasshopper.Store.Requests.{
  replay, set_archived, snapshot, snapshot_into, current_record, update_row, retire_handoffs,
}
use grasshopper.Store.Archive.{
  plan_archive, check_visible, change_visibility, retire_after, archive_new, archive_tx,
}
use grasshopper.Store.Invariant.{Inv}
use grasshopper.Store.Effects.{current_record-found, snapshot_then}
use grasshopper.Store.Handoffs.{change-Revises}
use grasshopper.Store.Saved.{Saved, revised-Saved}
use grasshopper.Store.Written.{acknowledge-done}
use grasshopper.Store.Calls.{Sound, Sound-refl, Sound-trans, Saved-Sound, answer-Sound}

-- The new version of an archived or restored memory.
abbrev pub changed : Clock → ArchiveInput → Chunk → Chunk
changed clock input c = set_archived input.archived clock.now input.provenance c

pub record Archived (clock : Clock) (input : ArchiveInput) (fingerprint : String)
    (receipt : Receipt) (db db' : Db) : Type 0 where
  pub mid : Db
  pub old : Chunk
  pub was : db.chunks input.id ≡ some old
  pub scoped : key input.scope ≡ ok old.memory_scope
  pub expected : old.revision ≡ input.expected_revision
  pub saved : Saved old.memory_scope input.id (changed clock input old) db mid
  pub replied :
      receipt ≡ record { id = input.id; revision = suc old.revision; deduplicated = false }
  pub unanswered : mid.memory_requests input.request_id ≡ none
  pub answered : db' ≡ record mid {
    memory_requests =
        put mid.memory_requests input.request_id
          (record { fingerprint = fingerprint; receipt = receipt });
  }

plan_archive-found :
    (input : ArchiveInput) (db : Db) (old : Record)
    → plan_archive input db ≡ ok old
    → (c : Chunk) × (db.chunks input.id ≡ some c)
      × (old ≡ scan_record input.id c)
      × (key input.scope ≡ ok c.memory_scope)
      × (c.revision ≡ input.expected_revision)
unfolding plan_archive scan_record
plan_archive-found input db old h =
    let (r, e, h1) = bind_ok (current_record input.scope input.id db) _ h in
    let (c, at, is, scope) = current_record-found input.scope input.id db r e in
    elim (Bool-cases (r.revision == input.expected_revision)) [
      | inl same ↦
          let (_, _, h2) = bind_ok (check_visible input r db) (λ _. ok r) (rw same at h1) in
          let q : r ≡ old = ok_inj h2 in
          (
            c,
            at,
            sym q ∙ is,
            scope,
            ap (λ (x : Record). x.revision) (sym is)
                ∙ eq_of_test r.revision input.expected_revision same,
          )
      | inr other ↦ cc (rw other at h1)
    ]
  where
    ok_inj : {a b : Record} → ◌≡◌ {A = Result Record} (ok a) (ok b) → a ≡ b
    ok_inj e = cc

module _ (clock : Clock) (input : ArchiveInput) (c : Chunk) (db db' : Db) (v : Inv db)
    (at : db.chunks input.id ≡ some c) where
  abbrev now_at : Chunk
  now_at = changed clock input c

  retire_after-scan :
      (m : Db)
      → key (scope_of c.memory_scope) ≡ ok c.memory_scope
      → retire_after clock input (scan_record input.id now_at) m
        ≡ (if not now_at.archived && now_at.purpose == "handoff"
              then retire_handoffs clock
                  (scope_of c.memory_scope)
                  c.memory_scope
                  input.id
                  input.provenance
              else pure tt)
            m
  unfolding retire_after ◌>>=◌ scan_record
  retire_after-scan m k = elim (Bool-cases (not input.archived && c.purpose == "handoff")) [
    | inl active ↦ rw (active, k) refl
    | inr quiet ↦ rw quiet refl
  ]

  -- What follows the snapshot of the version before.
  abbrev rest_of : Record → Unit {0} → Tx (Unit {0})
  rest_of old _ =
      update_row input.id old.revision (set_archived input.archived clock.now input.provenance)
      >>= λ changed. check changed concurrent_update >>= λ _.
          reads (current_record input.scope input.id) >>= λ current.
          snapshot current >>= λ _. retire_after clock input current

  rest-Saved :
      rest_of (scan_record input.id c) tt db ≡ done tt db'
      → Saved c.memory_scope input.id now_at db db'
  unfolding snapshot ◌>>=◌ scan_record
  rest-Saved h =
      let (b, mid, u, h1) =
        bind_done
          (update_row input.id c.revision (set_archived input.archived clock.now input.provenance))
          _ db h in
      let (_, h2) = check_done b concurrent_update _ mid h1 in
      let (r, e, h3) = reads_done (current_record input.scope input.id) _ mid h2 in
      let (same, step) =
        change-Revises input.scope input.archived input.provenance clock.now input.id c db mid r b v
          at u e in
      let h4 : retire_after clock input r (snapshot_into r mid) ≡ done tt db' = h3 in
      let h5 =
        subst (λ x. retire_after clock input x (snapshot_into r mid) ≡ done tt db') same h4 in
      revised-Saved clock (scope_of c.memory_scope) c.memory_scope input.provenance input.id now_at
        db (snapshot_into r mid) db' v step refl
        (sym (retire_after-scan (snapshot_into r mid) (v.keyed input.id c at)) ∙ h5)

  change_visibility-Saved :
      change_visibility clock input (scan_record input.id c) db ≡ done tt db'
      → Saved c.memory_scope input.id now_at db db'
  unfolding change_visibility
  change_visibility-Saved h =
      rest-Saved (sym (snapshot_then db input.id c (rest_of (scan_record input.id c)) v at) ∙ h)

module _ (clock : Clock) (input : ArchiveInput) (fingerprint : String) (receipt : Receipt)
    (db db' : Db) (v : Inv db) where
  new-Archived :
      archive_new clock input fingerprint db ≡ done receipt db'
      → Archived clock input fingerprint receipt db db'
  unfolding archive_new scan_record
  new-Archived h =
      let (old, e, h1) = reads_done (plan_archive input) _ db h in
      let (c, at, is, scope, rev) = plan_archive-found input db old e in
      let (_, mid, e2, h2) = bind_done (change_visibility clock input old) _ db h1 in
      let (free, same, state) =
        acknowledge-done input.request_id fingerprint _ receipt mid db' h2 in
      record {
        mid = mid;
        old = c;
        was = at;
        scoped = scope;
        expected = rev;
        saved =
            change_visibility-Saved clock input c db mid v at
              (subst (λ x. change_visibility clock input x db ≡ done tt mid) is e2);
        replied =
            same
            ∙ ap
                (λ (x : Record). record {
                  id = input.id;
                  revision = suc x.revision;
                  deduplicated = false;
                })
                is;
        unanswered = free;
        answered =
            state
            ∙ ap
                (λ (x : Receipt). record mid {
                  memory_requests =
                      put mid.memory_requests input.request_id
                        (record { fingerprint = fingerprint; receipt = x });
                })
                (sym same);
      }

  pub archive_tx-cases :
      archive_tx clock input fingerprint db ≡ done receipt db'
      → ((replay input.request_id fingerprint db ≡ ok (some receipt)) × (db' ≡ db))
        ⊎ Archived clock input fingerprint receipt db db'
  unfolding archive_tx
  archive_tx-cases h =
      let (previous, e, h1) = reads_done (replay input.request_id fingerprint) _ db h in
      elim (Option-cases previous) [
        | inl fresh ↦ inr (new-Archived (rw fresh at h1))
        | inr (r, found) ↦
            let h2 = rw found at h1 in
            inl (e ∙ ap ok (found ∙ ap some (done_value h2)), sym (done_state h2))
      ]

  pub archive_tx-Sound : archive_tx clock input fingerprint db ≡ done receipt db' → Sound db db'
  archive_tx-Sound h = elim (archive_tx-cases h) [
    | inl (_, same) ↦ subst (Sound db) (sym same) (Sound-refl db)
    | inr a ↦
        Sound-trans
          (Saved-Sound a.old.memory_scope input.id (changed clock input a.old) db a.mid a.saved)
          (answer-Sound input.request_id _ a.mid db' a.unanswered a.answered)
  ]
