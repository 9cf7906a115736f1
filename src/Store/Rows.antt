-- ===== src/Store/Rows.antt =====
-- What the statements of a write do to the row, its text and its embedding.
use grasshopper.Base.{
  ℕ, suc, true, ◌≡◌, refl, sym, ◌∙◌, ap, subst, fun_ext, Option, none, some, List, String, ◌==◌,
  nat_eq, string_eq, arith, inl, inr, Bool-cases, Option-cases, eq_of_test,
}
use grasshopper.Outcome.{concurrent_update}
use grasshopper.Scope.{ScopeKey}
use grasshopper.Store.{Db, Chunk, put, scan_record, is_unique}
use grasshopper.Store.Tx.{Tx, done, check, ◌>>=◌, bind_done, check_done, done_value, done_state}
use grasshopper.Store.Inputs.{WriteInput, vector_blob}
use grasshopper.Store.Requests.{insert_row, update_row}
use grasshopper.Store.Plan.{Plan}
use grasshopper.Store.Save.{inserted, corrected, save_row, with_embedding, change_row, embed}
use grasshopper.Store.Invariant.{Inv}
use grasshopper.Store.Effects.{snapshot_then, update_row-done}

abbrev pub saved_at : ℕ → ℕ → ℕ × ℕ
saved_at i revision = (i, revision)

insert_row-done :
    (c : Chunk) (db mid : Db) (i : ℕ)
    → insert_row c db ≡ done i mid
    → (i ≡ db.next_id)
      × (is_unique db db.next_id c ≡ true)
      × (mid ≡ record db { next_id = suc db.next_id; chunks = put db.chunks db.next_id c })
unfolding insert_row
insert_row-done c db mid i h = ground arith

pub insert-saved :
    (input : WriteInput) (k : ScopeKey) (plan : Plan) (now : String) (p : ℕ × ℕ) (db mid : Db)
    → save_row input k plan now none db ≡ done p mid
    → (p ≡ saved_at db.next_id 1)
      × (is_unique db db.next_id (inserted input k plan now) ≡ true)
      × (mid ≡ record db {
        next_id = suc db.next_id;
        chunks = put db.chunks db.next_id (inserted input k plan now);
      })
unfolding save_row
insert-saved input k plan now p db mid h =
    let (i, m, e, h1) = bind_done (insert_row (inserted input k plan now)) _ db h in
    let (is, u, q) = insert_row-done (inserted input k plan now) db m i e in
    (sym (done_value h1) ∙ ap (λ x. saved_at x 1) is, u, sym (done_state h1) ∙ q)

pub correct-saved :
    (input : WriteInput) (k : ScopeKey) (plan : Plan) (now : String) (p : ℕ × ℕ) (i : ℕ)
    (old : Chunk) (db mid : Db)
    → Inv db
    → db.chunks i ≡ some old
    → save_row input k plan now (some (scan_record i old)) db ≡ done p mid
    → (p ≡ saved_at i (suc old.revision))
      × (is_unique db i (corrected input plan now old) ≡ true)
      × (mid ≡ record db { chunks = put db.chunks i (corrected input plan now old) })
unfolding save_row scan_record
correct-saved input k plan now p i old db mid v e h =
    let rest : Unit {0} → Tx (ℕ × ℕ) = λ _.
      update_row i old.revision (corrected input plan now) >>= λ changed.
      check changed concurrent_update >>= λ _. λ d. done (i, suc old.revision) d in
    let h1 : rest tt db ≡ done p mid = sym (snapshot_then db i old rest v e) ∙ h in
    let (b, m, u, h2) = bind_done (update_row i old.revision (corrected input plan now)) _ db h1 in
    let (t, unique, q) =
      update_row-done i old.revision (corrected input plan now) db m b old e refl u in
    let (_, h3) = check_done b concurrent_update (λ _ d. done (i, suc old.revision) d) m h2 in
    (sym (done_value h3), unique, sym (done_state h3) ∙ q)

change_row-at :
    (i : ℕ) (f : Chunk → Chunk) (db : Db) (c : Chunk)
    → db.chunks i ≡ some c
    → change_row i f db ≡ record db { chunks = put db.chunks i (f c) }
change_row-at i f db c at = rw (at, change_row)

put_same :
    (db : Db) (i : ℕ) (c : Chunk)
    → db.chunks i ≡ some c
    → db ≡ record db { chunks = put db.chunks i c }
put_same db i c at = ap (λ m. record db { chunks = m }) (fun_ext same)
  where
    same : (j : ℕ) → db.chunks j ≡ put db.chunks i c j
    same j = elim (Bool-cases (i == j)) [
      | inl hit ↦
          let at' : db.chunks j ≡ some c =
            subst (λ k. db.chunks k ≡ some c) (eq_of_test i j hit) at in
          ground arith
      | inr miss ↦ ground arith
    ]

-- The embedding is the only column that `embed` writes.
pub embed-row :
    (i : ℕ) (input : WriteInput) (vector : Option (List ℕ)) (model : String) (db : Db) (c : Chunk)
    → db.chunks i ≡ some c
    → (e : Option (List ℕ)) × (m : String) × (embed i input vector model db
        ≡ record db { chunks = put db.chunks i (with_embedding e m c) })
unfolding embed
embed-row i input (some vector) model db c at = (
  some (vector_blob vector),
  model,
  change_row-at i (with_embedding (some (vector_blob vector)) model) db c at,
)
embed-row i input none model db c at = elim (Option-cases input.restore_revision) [
  | inl e ↦ (c.embedding, c.embedding_model, rw (e, embed) (put_same db i c at))
  | inr (r, e) ↦ elim (Option-cases (db.memory_revisions i r)) [
    | inl e' ↦ (none, "", rw (e, e', embed) (change_row-at i (with_embedding none "") db c at))
    | inr (v, e') ↦ (
      v.embedding,
      v.embedding_model,
      rw (e, e', embed) (change_row-at i (with_embedding v.embedding v.embedding_model) db c at),
    )
  ]
]
