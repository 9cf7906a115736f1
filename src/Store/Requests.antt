-- ===== src/Store/Requests.antt =====
-- What every write shares (internal/memory/writer.go): the replay of requests, records by id and
-- revision, snapshots into the history, and the statements that write `chunks`.
use Prim.Native.String.{◌++◌}
use grasshopper.Base.{
  ℕ, suc, Bool, true, false, not, ◌&&◌, Option, none, some, List, [], ◌∷◌, String, ◌==◌, nat_eq,
  string_eq, if◌then◌else◌, is_some, decimal,
}
use grasshopper.Outcome.{
  Error, Result, ok, err, guard, idempotency_conflict, revision_scope_mismatch, memory_not_found,
  constraint_failed, duplicate_conflict,
}
use grasshopper.Outcome
use grasshopper.Scope.{Scope, ScopeKey, legacy_key, key, scope_key_eq, bool_beq}
use grasshopper.Store.{
  Db, Chunk, Record, Revision, Receipt, Provenance, put, scan_record, select, head, is_unique,
}
use grasshopper.Store.Tx.{Tx, done, failed, modify, reads, pure, ◌>>=◌, ◌>>◌}
use grasshopper.Store.Inputs.{Clock}

unfoldable pub replay : String → String → Db → Result (Option Receipt)
replay request fingerprint db = elim (db.memory_requests request) [
  | none ↦ ok none
  | some r ↦ if r.fingerprint == fingerprint then ok (some r.receipt) else err idempotency_conflict
]

-- The insert fails on a request id that is there: it is the table's primary key.
unfoldable pub acknowledge : String → String → Receipt → Tx Receipt
acknowledge request fingerprint receipt db =
    if is_some (db.memory_requests request)
    then failed constraint_failed db
    else done receipt (record db {
      memory_requests =
          put db.memory_requests request (record { fingerprint = fingerprint; receipt = receipt });
    })

-- A record of the history, checked against what was asked for.
unfoldable pub old_revision : Db → ScopeKey → ℕ → ℕ → Result (Option Record)
old_revision db k i revision = elim (db.memory_revisions i revision) [
  | none ↦ ok none
  | some v ↦ Outcome.◌>>=◌ (key v.stored.scope) (λ old_key.
      if v.stored.id == i && (v.stored.revision == revision && old_key == k)
      then ok (some v.stored)
      else err revision_scope_mismatch)
]

abbrev pub is_current : Option ℕ → ℕ → Bool
is_current none current = true
is_current (some r) current = r == current

-- The version of a row that getInTx returns: the current one, or one from the history.
unfoldable pub version_of : Db → ScopeKey → ℕ → Option ℕ → Chunk → Result (Option Record)
version_of db k i revision c =
    if is_current revision c.revision
    then ok (some (scan_record i c))
    else elim revision [ none ↦ ok none | some r ↦ old_revision db k i r ]

unfoldable pub record_of : Db → ScopeKey → ℕ → Option ℕ → Option Chunk → Result (Option Record)
record_of db k i revision none = ok none
record_of db k i revision (some c) =
    if c.memory_scope == k then version_of db k i revision c else ok none

unfoldable pub get_in_tx : Scope → ℕ → Option ℕ → Db → Result (Option Record)
get_in_tx scope i revision db =
    Outcome.◌>>=◌ (key scope) (λ k. record_of db k i revision (db.chunks i))

abbrev pub found_or {ℓ} : {A : Type ℓ} → Error → Option A → Result A
found_or e none = err e
found_or e (some a) = ok a

-- The current record, which must be there.
unfoldable pub current_record : Scope → ℕ → Db → Result Record
current_record scope i db = Outcome.◌>>=◌ (get_in_tx scope i none db) (found_or memory_not_found)

abbrev pub first_of_two {ℓ} : {A : Type ℓ} → Option A → A → A
first_of_two none b = b
first_of_two (some a) b = a

-- INSERT OR IGNORE into the history: a row that is there stays.
abbrev pub insert_or_ignore : (ℕ → ℕ → Option Revision) → ℕ → ℕ → Revision → ℕ → ℕ → Option Revision
insert_or_ignore rows i r v j n =
    if i == j && r == n then some (first_of_two (rows j n) v) else rows j n

-- The revision number and the embedding come from the row, the record from the caller.
unfoldable pub snapshot_into : Record → Db → Db
snapshot_into old db = elim (db.chunks old.id) [
  | none ↦ db
  | some c ↦ record db {
    memory_revisions =
        insert_or_ignore db.memory_revisions old.id c.revision
          (record { stored = old; embedding = c.embedding; embedding_model = c.embedding_model });
  }
]

unfoldable pub snapshot : Record → Tx (Unit {0})
unfolding snapshot_into
snapshot old = modify (snapshot_into old)

unfoldable pub insert_row : Chunk → Tx ℕ
insert_row c db =
    if is_unique db db.next_id c
    then done db.next_id
        (record db { next_id = suc db.next_id; chunks = put db.chunks db.next_id c })
    else failed constraint_failed db

-- UPDATE chunks SET … WHERE id=? AND revision=?, and whether a row was affected.
unfoldable pub update_row : ℕ → ℕ → (Chunk → Chunk) → Tx Bool
update_row i revision f db = elim (db.chunks i) [
  | none ↦ done false db
  | some c ↦
      if c.revision == revision
      then (if is_unique db i (f c)
          then done true (record db { chunks = put db.chunks i (f c) })
          else failed constraint_failed db)
      else done false db
]

unfoldable pub check_duplicate :
    Db → ScopeKey → String → String → Bool → String → ℕ → Result (Unit {0})
check_duplicate db k memory_type purpose confirmed hash except =
    elim (head (
      select db λ j c.
        not c.archived
        && (c.memory_scope == k
            && (not (c.memory_scope == legacy_key)
                && (c.memory_type == memory_type
                    && (c.purpose == purpose
                        && (bool_beq c.confirmed confirmed
                            && (c.content_hash == hash && not (j == except))))))))) [
                              | none ↦ ok tt
                              | some other ↦ err (duplicate_conflict other)
                            ]

-- A new version of a row, whose visibility changes.
abbrev pub set_archived : Bool → String → Provenance → Chunk → Chunk
set_archived archived now provenance c = record c {
  archived = archived;
  revision = suc c.revision;
  updated_at = now;
  provenance = provenance;
}

abbrev pub is_active_handoff : ScopeKey → Chunk → Bool
is_active_handoff k c = not c.archived && (c.purpose == "handoff" && c.memory_scope == k)

abbrev pub replacement_note : Provenance → ℕ → Provenance
replacement_note by replacement = record {
  harness = by.harness;
  device = by.device;
  source = "Replaced by handoff " ++ decimal replacement;
}

-- One round of the loop of retireHandoffs.
unfoldable pub retire_one : Scope → Provenance → String → ℕ → Tx (Unit {0})
unfolding current_record snapshot update_row
retire_one scope note now i = do
  old ← reads (current_record scope i)
  snapshot old
  update_row i old.revision (set_archived true now note)
  current ← reads (current_record scope i)
  snapshot current

unfoldable pub retire_each : Scope → Provenance → String → List ℕ → Tx (Unit {0})
unfolding retire_one
retire_each scope note now [] = pure tt
retire_each scope note now (i ∷ is) = do retire_one scope note now i; retire_each scope note now is

abbrev pub handoffs_besides : ScopeKey → ℕ → Db → List ℕ
handoffs_besides k replacement db = select db λ j c. is_active_handoff k c && not (j == replacement)

unfoldable pub retire_handoffs : Clock → Scope → ScopeKey → ℕ → Provenance → Tx (Unit {0})
unfolding retire_each
retire_handoffs clock scope k replacement by db =
    retire_each scope (replacement_note by replacement) clock.retired_at
      (handoffs_besides k replacement db) db
