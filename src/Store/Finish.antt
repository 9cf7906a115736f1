-- ===== src/Store/Finish.antt =====
-- A write that succeeds, from its row to the retirement of the other handoffs.
use grasshopper.Base.{
  ℕ, ◌≤◌, ◌<◌, true, false, ◌≡◌, refl, sym, ◌∙◌, ap, subst, Option, some, List, String, nat_eq,
  string_eq, arith, test_self, some_inj,
}
use grasshopper.Scope.{ScopeKey}
use grasshopper.Store.{Db, Chunk, put, scan_record, is_unique}
use grasshopper.Store.Tx.{done, ◌>>=◌, reads, reads_done}
use grasshopper.Store.Inputs.{WriteInput, Clock}
use grasshopper.Store.Requests.{snapshot, snapshot_into, current_record}
use grasshopper.Store.Plan.{Plan}
use grasshopper.Store.Save.{with_embedding, index_text, embed, retire_others, finish_write}
use grasshopper.Store.Invariant.{Inv}
use grasshopper.Store.Effects.{current_record-found, Rewrites, Fits, Rewrites-snapshot}
use grasshopper.Store.Rows.{embed-row}
use grasshopper.Store.Saved.{Saved, revised-Saved}

-- The row as a write leaves it before the embedding: the planned fields under the scope's key.
pub record Planned (input : WriteInput) (k : ScopeKey) (plan : Plan) (c : Chunk) : Type 0 where
  pub content : c.content ≡ plan.fields.content
  pub title : c.title ≡ plan.fields.title
  pub tags : c.descriptors ≡ plan.fields.tags
  pub memory_type : c.memory_type ≡ plan.fields.memory_type
  pub purpose : c.purpose ≡ plan.fields.purpose
  pub confirmed : c.confirmed ≡ input.confirmed
  pub provenance : c.provenance ≡ input.provenance
  pub content_hash : c.content_hash ≡ plan.hash
  pub archived : c.archived ≡ false
  pub memory_scope : c.memory_scope ≡ k

pub Planned-embedding :
    (input : WriteInput) (k : ScopeKey) (plan : Plan) (e : Option (List ℕ)) (m : String) (c : Chunk)
    → Planned input k plan c
    → Planned input k plan (with_embedding e m c)
Planned-embedding input k plan e m c p = record {
  content = p.content;
  title = p.title;
  tags = p.tags;
  memory_type = p.memory_type;
  purpose = p.purpose;
  confirmed = p.confirmed;
  provenance = p.provenance;
  content_hash = p.content_hash;
  archived = p.archived;
  memory_scope = p.memory_scope;
}

is_unique-embedding :
    (db : Db) (i : ℕ) (e : Option (List ℕ)) (m : String) (c : Chunk)
    → is_unique db i c ≡ true
    → is_unique db i (with_embedding e m c) ≡ true
unfolding is_unique
is_unique-embedding db i e m c u = u

Fits-embedding :
    (db : Db) (i : ℕ) (e : Option (List ℕ)) (m : String) (c : Chunk)
    → Fits i c db
    → Fits i (with_embedding e m c) db
Fits-embedding db i e m c f = record {
  follows = λ old at.
      let g = f.follows old at in
      record {
        revision = g.revision;
        memory_scope = g.memory_scope;
        preference_key = g.preference_key;
        created_at = g.created_at;
      };
  starts = f.starts;
  keyed = f.keyed;
  unique = is_unique-embedding db i e m c f.unique;
}

module _ (clock : Clock) (input : WriteInput) (k : ScopeKey) (plan : Plan)
    (vector : Option (List ℕ)) (model : String) (i n : ℕ) (c : Chunk) (db : Db) where
  -- The database after the row and its text.
  abbrev indexed : Db
  indexed = index_text i plan.fields (record db { next_id = n; chunks = put db.chunks i c })

  abbrev embedded : Option (List ℕ) → String → Db
  embedded e m = record indexed { chunks = put indexed.chunks i (with_embedding e m c) }

  embedded-Rewrites :
      (e : Option (List ℕ)) (m : String)
      → Planned input k plan c
      → db.next_id ≤ n
      → i < n
      → Rewrites i (with_embedding e m c) db (embedded e m)
  embedded-Rewrites e m p bound below = record {
    rows = λ j. ground arith;
    texts = λ j. ground (arith, p.content, p.title, p.tags);
    history = λ j n. refl;
    requests = λ r. refl;
    bound = bound;
    below = below;
  }

  finish_rest-Saved :
      (e : Option (List ℕ)) (m : String) (mid db' : Db)
      → Inv db
      → Fits i c db
      → Planned input k plan c
      → db.next_id ≤ n
      → i < n
      → mid ≡ embedded e m
      → (reads (current_record input.scope i) >>= λ saved.
            snapshot saved >>= λ _. retire_others clock input k saved)
          mid
        ≡ done tt db'
      → Saved k i (with_embedding e m c) db db'
  unfolding ◌>>=◌ snapshot retire_others scan_record
  finish_rest-Saved e m mid db' v f p bound below same h =
      let c' = with_embedding e m c in
      let (saved, at, h1) = reads_done (current_record input.scope i) _ mid h in
      let (d, found, is, _) = current_record-found input.scope i mid saved at in
      let here : mid.chunks i ≡ some c' =
        ap (λ (x : Db). x.chunks i) same ∙ ground (arith, test_self i) in
      let q : saved ≡ scan_record i c' =
        is ∙ ap (scan_record i) (some_inj d c' (sym found ∙ here)) in
      let step =
        Rewrites-snapshot i c' db mid (Fits-embedding db i e m c f)
          (subst (Rewrites i c' db) (sym same) (embedded-Rewrites e m p bound below)) in
      revised-Saved clock input.scope k input.provenance i c' db
        (snapshot_into (scan_record i c') mid) db' v step p.memory_scope
        (subst (λ x. (snapshot x >>= λ _. retire_others clock input k x) mid ≡ done tt db') q h1)

  -- A write that succeeds leaves the planned row, with some embedding.
  pub finish_write-Saved :
      (db' : Db)
      → Inv db
      → Fits i c db
      → Planned input k plan c
      → db.next_id ≤ n
      → i < n
      → finish_write clock input k plan vector model i
          (record db { next_id = n; chunks = put db.chunks i c })
        ≡ done tt db'
      → (e : Option (List ℕ)) × (m : String) × Saved k i (with_embedding e m c) db db'
  unfolding finish_write ◌>>=◌
  finish_write-Saved db' v f p bound below h =
      let (e, m, same) = embed-row i input vector model indexed c (ground (arith, test_self i)) in
      (
        e,
        m,
        finish_rest-Saved e m (embed i input vector model indexed) db' v f p bound below same h,
      )
