-- ===== src/Store.antt =====
-- The SQLite store (internal/memory: init.go, reader.go, writer.go).
-- A table is a function from its primary key to a row: `chunks` and `chunks_fts` by id,
-- `memory_revisions` by id and revision, `memory_requests` by request id. Ids are assigned upwards
-- (AUTOINCREMENT), so a query that scans `chunks` goes through the ids below `next_id`.
-- JSON columns (scope, provenance, receipt, record) hold the document's value. `kind` is always
-- "memory". Ids, revisions and requests are unbounded numbers.
pub mod Tx
pub mod Inputs
pub mod Requests
pub mod Plan
pub mod Save
pub mod Write
pub mod Archive
pub mod Move
pub mod Steps
pub mod Invariant
pub mod Preserve
pub mod Evolution
pub mod Effects
pub mod Handoffs
pub mod Saved
pub mod Rows
pub mod Finish
pub mod Written
pub mod Calls
pub mod Archived
pub mod Moved
use grasshopper.Base.{
  ℕ, zero, suc, Bool, true, false, not, ◌&&◌, ◌||◌, Option, none, some, List, [], ◌∷◌, String, Eq,
  ◌==◌, nat_eq, string_eq, if◌then◌else◌, is_some,
}
use grasshopper.Scope.{Scope, ScopeKey, legacy_key, document, scope_key_eq, bool_beq}

pub record Provenance : Type 0 where
  pub harness : String
  pub device : String
  pub source : String

pub record Record : Type 0 where
  pub id : ℕ
  pub revision : ℕ
  pub scope : Scope
  pub content : String
  pub title : String
  pub tags : String
  pub memory_type : String
  pub purpose : String
  pub confirmed : Bool
  pub provenance : Provenance
  pub key : Option String
  pub archived : Bool
  pub created_at : String
  pub updated_at : String
  pub content_truncated : Bool

-- A row of `chunks`, without its id. A vector's blob is the list of its bytes.
pub record Chunk : Type 0 where
  pub revision : ℕ
  pub memory_scope : ScopeKey
  pub content : String
  pub title : String
  pub descriptors : String
  pub memory_type : String
  pub purpose : String
  pub confirmed : Bool
  pub provenance : Provenance
  pub content_hash : String
  pub created_at : String
  pub updated_at : String
  pub preference_key : Option String
  pub agent_id : String
  pub archived : Bool
  pub embedding : Option (List ℕ)
  pub embedding_model : String

pub record FtsRow : Type 0 where
  pub title : String
  pub content : String
  pub descriptors : String

pub record Revision : Type 0 where
  pub stored : Record
  pub embedding : Option (List ℕ)
  pub embedding_model : String

pub record Receipt : Type 0 where
  pub id : ℕ
  pub revision : ℕ
  pub deduplicated : Bool

pub record Request : Type 0 where
  pub fingerprint : String
  pub receipt : Receipt

pub record Db : Type 0 where
  pub next_id : ℕ
  pub chunks : ℕ → Option Chunk
  pub chunks_fts : ℕ → Option FtsRow
  pub memory_revisions : ℕ → ℕ → Option Revision
  pub memory_requests : String → Option Request

-- CreateEmpty: ids start at 1.
abbrev pub create_empty : Db
create_empty = record {
  next_id = 1;
  chunks = λ _. none;
  chunks_fts = λ _. none;
  memory_revisions = λ _ _. none;
  memory_requests = λ _. none;
}

-- A table with one row written.
abbrev pub put {ℓ κ} : {K : Type ℓ} {A : Type κ} ⦃e : Eq K⦄ → (K → Option A) → K → A → K → Option A
put rows i a j = if i == j then some a else rows j

abbrev pub scope_of : ScopeKey → Scope
scope_of legacy_key = record { project = none; device = none; platform = none; legacy = true }
scope_of (document s) = s

-- scanRecord
unfoldable pub scan_record : ℕ → Chunk → Record
scan_record i c = record {
  id = i;
  revision = c.revision;
  scope = scope_of c.memory_scope;
  content = c.content;
  title = c.title;
  tags = c.descriptors;
  memory_type = c.memory_type;
  purpose = c.purpose;
  confirmed = c.confirmed;
  provenance = c.provenance;
  key = c.preference_key;
  archived = c.archived;
  created_at = c.created_at;
  updated_at = c.updated_at;
  content_truncated = false;
}

abbrev pub holds : (Chunk → Bool) → Option Chunk → Bool
holds p none = false
holds p (some c) = p c

-- The ids below the bound whose rows satisfy the condition, newest first.
pub select_below : Db → (ℕ → Chunk → Bool) → ℕ → List ℕ
select_below db p zero = []
select_below db p (suc n) =
    let rest = select_below db p n in if holds (p n) (db.chunks n) then n ∷ rest else rest

unfoldable pub select : Db → (ℕ → Chunk → Bool) → List ℕ
unfolding select_below
select db p = select_below db p db.next_id

abbrev pub head : List ℕ → Option ℕ
head [] = none
head (i ∷ is) = some i

-- idx_memory_exact: the rows that share all of its columns.
unfoldable pub same_exact : Chunk → Chunk → Bool
same_exact a b =
    not a.archived
    && (not b.archived
        && (not (a.memory_scope == legacy_key)
            && (a.memory_scope == b.memory_scope
                && (a.memory_type == b.memory_type
                    && (a.purpose == b.purpose
                        && (bool_beq a.confirmed b.confirmed
                            && a.content_hash == b.content_hash))))))

abbrev pub same_some : Option String → Option String → Bool
same_some (some a) (some b) = a == b
same_some _ _ = false

-- idx_memory_key
unfoldable pub same_key : Chunk → Chunk → Bool
same_key a b =
    not (a.memory_scope == legacy_key)
    && (a.memory_scope == b.memory_scope && same_some a.preference_key b.preference_key)

-- Whether the row `c` at id `i` keeps the two unique indexes.
unfoldable pub is_unique : Db → ℕ → Chunk → Bool
unfolding select same_exact same_key
is_unique db i c =
    not (is_some (head (select db (λ j d. not (j == i) && (same_exact c d || same_key c d)))))
