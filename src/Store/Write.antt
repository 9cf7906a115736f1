-- ===== src/Store/Write.antt =====
-- Writer.Write and writeTx (internal/memory/writer.go): a new memory, a correction, or the restore
-- of a revision, in one transaction.
use grasshopper.Base.{
  ℕ, not, ◌||◌, Option, none, some, List, String, nat_eq, string_eq, option_eq, if◌then◌else◌,
  is_some,
}
use grasshopper.Outcome
use grasshopper.Outcome.{
  Result, ok, err, guard, memory_not_found, revision_conflict, confirmation_conflict, immutable_key,
  missing_record, nil_dereference, restore_with_content, revision_not_found, invalid_content,
  metadata_too_large, invalid_memory_type, dedup_key_conflict, concurrent_update, legacy_write,
  invalid_purpose, invalid_key, invalid_embedding,
}
use grasshopper.Scope.{ScopeKey, key, durable_project, scope_key_eq}
use grasshopper.Store.{Receipt}
use grasshopper.Store.Tx.{Tx, reads, pure, ◌>>=◌, commit_or_rollback, lift_result}
use grasshopper.Store.Inputs.{
  WriteInput, Digests, Clock, validate_provenance, check_request_id, is_purpose, is_key, is_vector,
}
use grasshopper.Store.Requests.{replay, acknowledge}
use grasshopper.Store.Plan.{plan_write}
use grasshopper.Store.Save.{save}

unfoldable pub write_new :
    Digests → Clock → WriteInput → ScopeKey → String → Option (List ℕ) → String → Tx Receipt
unfolding plan_write save acknowledge
write_new d clock input k fingerprint vector model = do
  plan ← reads (plan_write d input k)
  elim plan.duplicate [
    | some receipt ↦ acknowledge input.request_id fingerprint receipt
    | none ↦ save clock input k fingerprint plan vector model
  ]

unfoldable pub write_tx :
    Digests → Clock → WriteInput → ScopeKey → String → Option (List ℕ) → String → Tx Receipt
unfolding replay write_new
write_tx d clock input k fingerprint vector model = do
  previous ← reads (replay input.request_id fingerprint)
  elim previous [
    | some receipt ↦ pure receipt
    | none ↦ write_new d clock input k fingerprint vector model
  ]

-- The checks of Write before its transaction, and the key of its scope.
unfoldable pub validate_write : WriteInput → Option (List ℕ) → String → Result ScopeKey
unfolding key durable_project validate_provenance check_request_id
validate_write input vector model = Outcome.◌>>=◌ (key input.scope) λ k.
    Outcome.◌>>◌
      (if is_some input.id || is_some input.expected_revision
        then ok tt
        else durable_project input.scope)
      (Outcome.◌>>◌ (guard (not input.scope.legacy) legacy_write) (
        Outcome.◌>>◌ (validate_provenance input.provenance) (
          Outcome.◌>>◌ (check_request_id input.request_id) (
            Outcome.◌>>◌ (guard (is_purpose input.purpose) invalid_purpose) (
              Outcome.◌>>◌ (guard (is_key input.key) invalid_key)
                (Outcome.◌>>◌ (guard (is_vector vector model) invalid_embedding) (ok k)))))))

unfoldable pub write : Digests → Clock → WriteInput → Option (List ℕ) → String → Tx Receipt
unfolding validate_write write_tx commit_or_rollback
write d clock input vector model = do
  k ← lift_result (validate_write input vector model)
  commit_or_rollback (write_tx d clock input k (d.of_write input) vector model)
