-- ===== src/Store/Steps.antt =====
-- What a statement sequence does to the database, as a step relation: a row gets a new version with
-- its text and its snapshot, or a request gets its answer.
use grasshopper.Base.{ℕ, suc, ◌≤◌, ◌<◌, true, ◌≡◌, none, some, String, nat_eq, string_eq}
use grasshopper.Outcome.{ok}
use grasshopper.Scope.{key}
use grasshopper.Store.{Db, Chunk, Revision, FtsRow, Request, put, scan_record, scope_of, is_unique}
use grasshopper.Store.Requests.{insert_or_ignore}

-- The history's row for the version `c` of the memory `i`.
abbrev pub snap : ℕ → Chunk → Revision
snap i c = record {
  stored = scan_record i c;
  embedding = c.embedding;
  embedding_model = c.embedding_model;
}

abbrev pub text_of : Chunk → FtsRow
text_of c = record { title = c.title; content = c.content; descriptors = c.descriptors }

-- `c` is the next version of `old`.
pub record Follows (old c : Chunk) : Type 0 where
  pub revision : c.revision ≡ suc old.revision
  pub memory_scope : c.memory_scope ≡ old.memory_scope
  pub preference_key : c.preference_key ≡ old.preference_key
  pub created_at : c.created_at ≡ old.created_at

-- The memory `i` gets the version `c`, and nothing else changes.
pub record Revises (i : ℕ) (c : Chunk) (db db' : Db) : Type 0 where
  pub rows : (j : ℕ) → db'.chunks j ≡ put db.chunks i c j
  pub texts : (j : ℕ) → db'.chunks_fts j ≡ put db.chunks_fts i (text_of c) j
  pub history :
      (j n : ℕ)
      → db'.memory_revisions j n ≡ insert_or_ignore db.memory_revisions i c.revision (snap i c) j n
  pub requests : (r : String) → db'.memory_requests r ≡ db.memory_requests r
  pub bound : db.next_id ≤ db'.next_id
  pub below : i < db'.next_id
  pub follows : (old : Chunk) → db.chunks i ≡ some old → Follows old c
  pub starts : db.chunks i ≡ none → c.revision ≡ 1
  pub keyed : key (scope_of c.memory_scope) ≡ ok c.memory_scope
  pub unique : is_unique db i c ≡ true

pub data Step (db db' : Db) : Type 0 where
  revise : (i : ℕ) (c : Chunk) → Revises i c db db' → Step db db'
  answer :
      (r : String) (q : Request)
      → db.memory_requests r ≡ none
      → db' ≡ record db { memory_requests = put db.memory_requests r q }
      → Step db db'

pub data Reaches (db : Db) : Db → Type 0 where
  here : Reaches db db
  next : {mid db' : Db} → Reaches db mid → Step mid db' → Reaches db db'

pub Reaches-trans : {a b c : Db} → Reaches a b → Reaches b c → Reaches a c
Reaches-trans r here = r
Reaches-trans r (next s st) = next (Reaches-trans r s) st
