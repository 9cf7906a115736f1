-- ===== src/Store/Archive.antt =====
-- Writer.Archive and archiveTx (internal/memory/writer.go): visibility changes at an expected
-- revision.
use grasshopper.Base.{
  suc, false, not, ◌&&◌, none, some, String, ◌==◌, nat_eq, string_eq, if◌then◌else◌,
}
use grasshopper.Outcome
use grasshopper.Outcome.{Result, ok, err, memory_not_found, revision_conflict, concurrent_update}
use grasshopper.Scope.{key}
use grasshopper.Store.{Db, Record, Receipt}
use grasshopper.Store.Tx.{Tx, check, reads, pure, ◌>>=◌, ◌>>◌, commit_or_rollback, lift_result}
use grasshopper.Store.Inputs.{ArchiveInput, Digests, Clock, validate_provenance, check_request_id}
use grasshopper.Store.Requests.{
  replay, acknowledge, current_record, snapshot, update_row, check_duplicate, set_archived,
  retire_handoffs,
}

-- A row that becomes visible again must not repeat an active one.
unfoldable pub check_visible : ArchiveInput → Record → Db → Result (Unit {0})
unfolding check_duplicate
check_visible input old db =
    if old.archived && not input.archived
    then elim (db.chunks old.id) [
      | none ↦ err memory_not_found
      | some c ↦
          check_duplicate db c.memory_scope c.memory_type c.purpose c.confirmed c.content_hash
            old.id
    ]
    else ok tt

unfoldable pub plan_archive : ArchiveInput → Db → Result Record
unfolding current_record check_visible
plan_archive input db = Outcome.◌>>=◌ (current_record input.scope input.id db) λ old.
    if not (old.revision == input.expected_revision)
    then err (revision_conflict old.revision)
    else Outcome.◌>>=◌ (check_visible input old db) (λ _. ok old)

-- A handoff that comes back is its scope's current one.
unfoldable pub retire_after : Clock → ArchiveInput → Record → Tx (Unit {0})
unfolding key retire_handoffs
retire_after clock input current =
    if not input.archived && current.purpose == "handoff"
    then (do
      k ← lift_result (key current.scope)
      retire_handoffs clock current.scope k input.id input.provenance)
    else pure tt

unfoldable pub change_visibility : Clock → ArchiveInput → Record → Tx (Unit {0})
unfolding snapshot update_row current_record retire_after
change_visibility clock input old = do
  snapshot old
  changed ←
      update_row input.id old.revision (set_archived input.archived clock.now input.provenance)
  check changed concurrent_update
  current ← reads (current_record input.scope input.id)
  snapshot current
  retire_after clock input current

unfoldable pub archive_new : Clock → ArchiveInput → String → Tx Receipt
unfolding plan_archive change_visibility acknowledge
archive_new clock input fingerprint = do
  old ← reads (plan_archive input)
  change_visibility clock input old
  acknowledge input.request_id fingerprint
      (record { id = input.id; revision = suc old.revision; deduplicated = false })

unfoldable pub archive_tx : Clock → ArchiveInput → String → Tx Receipt
unfolding replay archive_new
archive_tx clock input fingerprint = do
  previous ← reads (replay input.request_id fingerprint)
  elim previous [ some receipt ↦ pure receipt | none ↦ archive_new clock input fingerprint ]

unfoldable pub validate_archive : ArchiveInput → Result (Unit {0})
unfolding key validate_provenance check_request_id
validate_archive input =
    Outcome.◌>>=◌ (key input.scope)
      λ _. Outcome.◌>>◌ (validate_provenance input.provenance) (check_request_id input.request_id)

unfoldable pub archive : Digests → Clock → ArchiveInput → Tx Receipt
unfolding validate_archive archive_tx commit_or_rollback
archive d clock input = do
  lift_result (validate_archive input)
  commit_or_rollback (archive_tx clock input (d.of_archive input))
