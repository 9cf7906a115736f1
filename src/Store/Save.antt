-- ===== src/Store/Save.antt =====
-- The statements of writeTx (internal/memory/writer.go), once the write is decided: the row, its
-- text index and embedding, the snapshots, and the retirement of other handoffs.
use grasshopper.Base.{
  ℕ, suc, false, not, ◌&&◌, Option, none, some, List, String, ◌==◌, nat_eq, string_eq, option_eq,
  if◌then◌else◌,
}
use grasshopper.Outcome.{concurrent_update}
use grasshopper.Scope.{ScopeKey, scope_key_eq}
use grasshopper.Store.{Db, Chunk, Record, Receipt, put}
use grasshopper.Store.Tx.{Tx, check, modify, reads, pure, ◌>>=◌, ◌>>◌}
use grasshopper.Store.Inputs.{WriteInput, Clock, vector_blob}
use grasshopper.Store.Requests.{
  acknowledge, current_record, snapshot, insert_row, update_row, retire_handoffs,
}
use grasshopper.Store.Plan.{Fields, Plan}

abbrev pub inserted : WriteInput → ScopeKey → Plan → String → Chunk
inserted input k plan now = record {
  revision = 1;
  memory_scope = k;
  content = plan.fields.content;
  title = plan.fields.title;
  descriptors = plan.fields.tags;
  memory_type = plan.fields.memory_type;
  purpose = plan.fields.purpose;
  confirmed = input.confirmed;
  provenance = input.provenance;
  content_hash = plan.hash;
  created_at = now;
  updated_at = now;
  preference_key = input.key;
  agent_id = input.provenance.harness;
  archived = false;
  embedding = none;
  embedding_model = "";
}

abbrev pub corrected : WriteInput → Plan → String → Chunk → Chunk
corrected input plan now c = record c {
  revision = suc c.revision;
  content = plan.fields.content;
  title = plan.fields.title;
  descriptors = plan.fields.tags;
  memory_type = plan.fields.memory_type;
  purpose = plan.fields.purpose;
  confirmed = input.confirmed;
  provenance = input.provenance;
  content_hash = plan.hash;
  updated_at = now;
  archived = false;
  embedding = none;
  embedding_model = "";
}

-- The row's id and its new revision.
unfoldable pub save_row : WriteInput → ScopeKey → Plan → String → Option Record → Tx (ℕ × ℕ)
unfolding snapshot update_row insert_row
save_row input k plan now (some current) = do
  snapshot current
  changed ← update_row current.id current.revision (corrected input plan now)
  check changed concurrent_update
  pure (current.id, suc current.revision)
save_row input k plan now none = do i ← insert_row (inserted input k plan now); pure (i, 1)

-- The full-text row is deleted and inserted again.
abbrev pub index_text : ℕ → Fields → Db → Db
index_text i fields db = record db {
  chunks_fts =
      put db.chunks_fts i
        (record { title = fields.title; content = fields.content; descriptors = fields.tags });
}

abbrev pub with_embedding : Option (List ℕ) → String → Chunk → Chunk
with_embedding e model c = record c { embedding = e; embedding_model = model }

abbrev pub change_row : ℕ → (Chunk → Chunk) → Db → Db
change_row i f db = elim (db.chunks i) [
  | none ↦ db
  | some c ↦ record db { chunks = put db.chunks i (f c) }
]

-- A vector is stored; without one a restore takes the restored revision's.
unfoldable pub embed : ℕ → WriteInput → Option (List ℕ) → String → Db → Db
embed i input (some vector) model db =
    change_row i (with_embedding (some (vector_blob vector)) model) db
embed i input none model db = elim input.restore_revision [
  | none ↦ db
  | some r ↦ elim (db.memory_revisions i r) [
    | none ↦ change_row i (with_embedding none "") db
    | some v ↦ change_row i (with_embedding v.embedding v.embedding_model) db
  ]
]

unfoldable pub retire_others : Clock → WriteInput → ScopeKey → Record → Tx (Unit {0})
unfolding retire_handoffs
retire_others clock input k saved =
    if not saved.archived && saved.purpose == "handoff"
    then retire_handoffs clock input.scope k saved.id input.provenance
    else pure tt

-- What follows the row: text index, embedding, snapshot, and the retirement of other handoffs.
unfoldable pub finish_write :
    Clock → WriteInput → ScopeKey → Plan → Option (List ℕ) → String → ℕ → Tx (Unit {0})
unfolding embed current_record snapshot retire_others
finish_write clock input k plan vector model i = do
  modify (index_text i plan.fields)
  modify (embed i input vector model)
  saved ← reads (current_record input.scope i)
  snapshot saved
  retire_others clock input k saved

unfoldable pub save :
    Clock → WriteInput → ScopeKey → String → Plan → Option (List ℕ) → String → Tx Receipt
unfolding save_row finish_write acknowledge
save clock input k fingerprint plan vector model = do
  (i, revision) ← save_row input k plan clock.now plan.current
  finish_write clock input k plan vector model i
  acknowledge input.request_id fingerprint
      (record { id = i; revision = revision; deduplicated = false })
