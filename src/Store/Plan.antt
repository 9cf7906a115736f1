-- ===== src/Store/Plan.antt =====
-- What writeTx (internal/memory/writer.go) reads and decides before its first statement, as a
-- function of the database: the target record, the conflicts, the restored revision, the fields and
-- the duplicate.
use Prim.Native.String.{len}
use grasshopper.Base.{
  ℕ, Bool, true, not, ◌&&◌, ◌||◌, Option, none, some, String, ◌==◌, nat_eq, string_eq, option_eq,
  if◌then◌else◌, is_some, is_blank, ltb,
}
use grasshopper.Outcome
use grasshopper.Outcome.{
  Result, ok, err, guard, memory_not_found, revision_conflict, confirmation_conflict, immutable_key,
  missing_record, nil_dereference, restore_with_content, revision_not_found, invalid_content,
  metadata_too_large, invalid_memory_type, dedup_key_conflict, concurrent_update, legacy_write,
  invalid_purpose, invalid_key, invalid_embedding,
}
use grasshopper.Scope.{ScopeKey, scope_key_eq, bool_beq}
use grasshopper.Store.{Db, Chunk, Record, Receipt, select, head}
use grasshopper.Store.Inputs.{WriteInput, Digests, is_memory_type, first_runes}
use grasshopper.Store.Requests.{get_in_tx, found_or, current_record, check_duplicate}

-- The record that the input names, by id or by key.
unfoldable pub target_id : WriteInput → ScopeKey → Db → Option ℕ
target_id input k db = elim input.id [
  | some i ↦ some i
  | none ↦ elim input.key [
    | none ↦ none
    | some name ↦ head (select db λ _ c. c.memory_scope == k && c.preference_key == some name)
  ]
]

unfoldable pub existing : WriteInput → Option ℕ → Db → Result (Option Record)
unfolding current_record
existing input none db = ok none
existing input (some i) db = Outcome.◌>>=◌ (current_record input.scope i db) (λ r. ok (some r))

-- The three conflicts of a correction.
unfoldable pub check_current : WriteInput → Option Record → Result (Unit {0})
check_current input none =
    guard (not (is_some input.expected_revision) && not (is_some input.restore_revision))
      missing_record
check_current input (some current) =
    if not (input.expected_revision == some current.revision)
    then err (revision_conflict current.revision)
    else if current.confirmed && not input.confirmed
    then err confirmation_conflict
    else if is_some input.key && not (input.key == current.key)
    then err immutable_key
    else ok tt

-- The revision that the input restores. Go dereferences the target's id here.
unfoldable pub restored_record : WriteInput → Option ℕ → Db → Result (Option Record)
unfolding get_in_tx
restored_record input target db = elim input.restore_revision [
  | none ↦ ok none
  | some r ↦ if not (input.content == "") then err restore_with_content else elim target [
    | none ↦ err nil_dereference
    | some i ↦
        Outcome.◌>>=◌ (get_in_tx input.scope i (some r) db)
          (λ found. Outcome.◌>>=◌ (found_or revision_not_found found) (λ old. ok (some old)))
  ]
]

-- The columns that the write decides.
pub record Fields : Type 0 where
  pub content : String
  pub title : String
  pub tags : String
  pub memory_type : String
  pub purpose : String

abbrev pub title_of : WriteInput → Option Record → String → String
title_of input current content = elim input.title [
  | some t ↦ if not (is_blank t) then t else first_runes content 80
  | none ↦ elim current [
    | none ↦ first_runes content 80
    | some c ↦ if not (c.title == first_runes c.content 80) then c.title else first_runes content 80
  ]
]

abbrev pub default_to : String → Option String → String
default_to d none = d
default_to d (some v) = v

abbrev pub proposed : WriteInput → Option Record → Option Record → Fields
proposed input current (some restored) = record {
  content = restored.content;
  title = restored.title;
  tags = restored.tags;
  memory_type = restored.memory_type;
  purpose = restored.purpose;
}
proposed input current none = record {
  content = input.content;
  title = title_of input current input.content;
  tags = default_to (elim current [ none ↦ "" | some c ↦ c.tags ]) input.tags;
  memory_type =
      default_to (elim current [ none ↦ "knowledge" | some c ↦ c.memory_type ]) input.memory_type;
  purpose = input.purpose;
}

unfoldable pub resolve_fields : WriteInput → Option Record → Option Record → Result Fields
resolve_fields input current restored =
    let fields = proposed input current restored in
    if is_blank fields.content || ltb 32768 (len fields.content)
    then err invalid_content
    else if ltb 512 (len fields.title) || ltb 2048 (len fields.tags)
    then err metadata_too_large
    else if not (is_memory_type fields.memory_type)
    then err invalid_memory_type
    else ok fields

-- An active record with the same exact identity is the answer to a new write of it.
abbrev pub exact_match : ScopeKey → Fields → Bool → String → ℕ → Chunk → Bool
exact_match k fields confirmed hash _ c =
    not c.archived
    && (c.memory_scope == k
        && (c.memory_type == fields.memory_type
            && (c.purpose == fields.purpose
                && (bool_beq c.confirmed confirmed && c.content_hash == hash))))

unfoldable pub duplicate_of :
    WriteInput → ScopeKey → Fields → String → Option Record → Db → Result (Option Receipt)
unfolding check_duplicate
duplicate_of input k fields hash (some current) db =
    Outcome.◌>>=◌
      (check_duplicate db k fields.memory_type fields.purpose input.confirmed hash current.id)
      (λ _. ok none)
duplicate_of input k fields hash none db =
    elim (head (select db (exact_match k fields input.confirmed hash))) [
      | none ↦ ok none
      | some i ↦ elim (db.chunks i) [
        | none ↦ ok none
        | some c ↦
            if input.key == c.preference_key
            then ok (some (record { id = i; revision = c.revision; deduplicated = true }))
            else err dedup_key_conflict
      ]
    ]

pub record Plan : Type 0 where
  pub current : Option Record
  pub fields : Fields
  pub hash : String
  pub duplicate : Option Receipt

unfoldable pub plan_write : Digests → WriteInput → ScopeKey → Db → Result Plan
unfolding target_id existing check_current restored_record resolve_fields duplicate_of
plan_write d input k db = Outcome.◌>>=◌ (existing input (target_id input k db) db) λ current.
    Outcome.◌>>=◌ (check_current input current) λ _.
      Outcome.◌>>=◌ (restored_record input (target_id input k db) db) λ restored.
        Outcome.◌>>=◌ (resolve_fields input current restored) λ fields.
          let hash = d.of_content fields.content fields.title fields.tags in
          Outcome.◌>>=◌ (duplicate_of input k fields hash current db) λ duplicate.
            ok (record { current = current; fields = fields; hash = hash; duplicate = duplicate })
