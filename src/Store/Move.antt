-- ===== src/Store/Move.antt =====
-- Writer.Move (internal/memory/writer.go): a copy at another scope and the archived original, in one
-- transaction.
use Prim.Native.String.{len, ◌++◌}
use grasshopper.Base.{
  ℕ, true, false, not, ◌&&◌, ◌||◌, Option, none, some, String, ◌==◌, nat_eq, string_eq, option_eq,
  if◌then◌else◌, is_blank, ltb, decimal, List,
}
use grasshopper.Outcome
use grasshopper.Outcome.{
  Result, ok, err, guard, memory_not_found, revision_conflict, undecodable_scope, invalid_move,
  move_to_same_place, move_target_exists,
}
use grasshopper.Scope.{Scope, ScopeKey, legacy_key, document, key, durable_project, scope_key_eq}
use grasshopper.Store.{Db, Record, Receipt, Provenance, select, head}
use grasshopper.Store.Tx.{Tx, check, reads, pure, ◌>>=◌, ◌>>◌, commit_or_rollback, lift_result}
use grasshopper.Store.Inputs.{
  WriteInput, ArchiveInput, MoveInput, Digests, Clock, validate_provenance,
}
use grasshopper.Store.Requests.{replay, acknowledge, current_record}
use grasshopper.Store.Write.{write_tx}
use grasshopper.Store.Archive.{archive_tx}

-- json.Unmarshal of the stored scope: "legacy" is no document.
abbrev pub decode_scope : ScopeKey → Result Scope
decode_scope legacy_key = err undecodable_scope
decode_scope (document s) = ok s

abbrev pub move_target : MoveInput → Scope
move_target input = record {
  project = input.project;
  device = input.device;
  platform = input.platform;
  legacy = false;
}

-- A key is unique in a scope: an archived holder of the key is revived, an active one refuses.
unfoldable pub key_holder : ScopeKey → Option String → Db → Result (Option (ℕ × ℕ))
key_holder k none db = ok none
key_holder k (some name) db =
    elim (head (select db λ _ c. c.memory_scope == k && c.preference_key == some name)) [
      | none ↦ ok none
      | some i ↦ elim (db.chunks i) [
        | none ↦ ok none
        | some c ↦ if not c.archived then err move_target_exists else ok (some (i, c.revision))
      ]
    ]

abbrev pub copy_input : MoveInput → Record → Option (ℕ × ℕ) → WriteInput
copy_input input old holder = record {
  scope = move_target input;
  content = old.content;
  title = some old.title;
  tags = some old.tags;
  memory_type = some old.memory_type;
  purpose = old.purpose;
  confirmed = old.confirmed;
  provenance = old.provenance;
  request_id = input.request_id ++ ":copy";
  key = old.key;
  id = elim holder [ none ↦ none | some h ↦ some h.0 ];
  expected_revision = elim holder [ none ↦ none | some h ↦ some h.1 ];
  restore_revision = none;
}

pub record MovePlan : Type 0 where
  pub old : Record
  pub target_key : ScopeKey
  pub copied : WriteInput

abbrev pub stored_scope : MoveInput → Db → Result ScopeKey
stored_scope input db = elim (db.chunks input.id) [
  | none ↦ err memory_not_found
  | some c ↦ ok c.memory_scope
]

unfoldable pub plan_move : MoveInput → Db → Result MovePlan
unfolding current_record key durable_project key_holder
plan_move input db = Outcome.◌>>=◌ (stored_scope input db) λ stored.
    Outcome.◌>>=◌ (decode_scope stored) λ source.
      Outcome.◌>>=◌ (current_record source input.id db) λ old.
        Outcome.◌>>◌
          (guard (not (old.archived || not (old.revision == input.expected_revision)))
            (revision_conflict old.revision))
          (Outcome.◌>>◌ (durable_project (move_target input)) (
            Outcome.◌>>=◌ (key (move_target input)) λ target.
              Outcome.◌>>◌ (guard (not (target == stored || old.scope.legacy)) move_to_same_place) (
                Outcome.◌>>=◌ (key_holder target old.key db) λ holder. ok (record {
                  old = old;
                  target_key = target;
                  copied = copy_input input old holder;
                }))))

abbrev pub move_note : Provenance → ℕ → Provenance
move_note by copy_id = record by { source = "Moved to memory " ++ decimal copy_id }

abbrev pub original_input : MoveInput → Record → ℕ → ArchiveInput
original_input input old copy_id = record {
  scope = old.scope;
  id = old.id;
  expected_revision = old.revision;
  archived = true;
  request_id = input.request_id ++ ":archive";
  provenance = move_note input.provenance copy_id;
}

unfoldable pub move_new :
    Digests → Clock → Clock → MoveInput → String → Option (List ℕ) → String → Tx Receipt
unfolding plan_move write_tx archive_tx acknowledge
move_new d clock later input fingerprint vector model = do
  plan ← reads (plan_move input)
  copied ← write_tx d clock plan.copied plan.target_key (d.of_write plan.copied) vector model
  check (not copied.deduplicated) move_target_exists
  archive_tx later (original_input input plan.old copied.id)
      (d.of_archive (original_input input plan.old copied.id))
  acknowledge input.request_id fingerprint copied

unfoldable pub move_tx :
    Digests → Clock → Clock → MoveInput → String → Option (List ℕ) → String → Tx Receipt
unfolding replay move_new
move_tx d clock later input fingerprint vector model = do
  previous ← reads (replay input.request_id fingerprint)
  elim previous [
    | some receipt ↦ pure receipt
    | none ↦ move_new d clock later input fingerprint vector model
  ]

unfoldable pub validate_move : MoveInput → Result (Unit {0})
unfolding validate_provenance
validate_move input = Outcome.◌>>◌ (validate_provenance input.provenance) (
    guard
      (not (
        is_blank input.request_id
        || (ltb 100 (len input.request_id) || (ltb input.id 1 || ltb input.expected_revision 1))))
      invalid_move)

unfoldable pub move : Digests → Clock → Clock → MoveInput → Option (List ℕ) → String → Tx Receipt
unfolding validate_move move_tx commit_or_rollback
move d clock later input vector model = do
  lift_result (validate_move input)
  commit_or_rollback (move_tx d clock later input (d.of_move input) vector model)
