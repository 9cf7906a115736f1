-- ===== src/Store/Written.antt =====
-- A successful writeTx: a replay, the receipt of a duplicate, or a row written as planned.
use grasshopper.Store.Invariant.{Inv}
use grasshopper.Base.{
  ℕ, false, ◌≡◌, refl, sym, subst, Option, none, some, String, nat_eq, string_eq, arith, inl, inr,
  ◌⊎◌, Option-cases, List, ◌≤◌, true, some_inj, ◌<◌, ◌∙◌, ap, suc,
}
use grasshopper.Outcome.{Result, ok, bind_ok}
use grasshopper.Scope.{Scope, ScopeKey, key, scope_key_eq}
use grasshopper.Store.{Db, Chunk, Record, Receipt, put, scan_record, scope_of, is_unique}
use grasshopper.Store.Tx.{done, done_value, done_state, Tx, ◌>>=◌, bind_done}
use grasshopper.Store.Inputs.{WriteInput, Digests, Clock}
use grasshopper.Store.Requests.{acknowledge, current_record}
use grasshopper.Store.Plan.{
  Plan, target_id, existing, check_current, restored_record, resolve_fields, duplicate_of,
  plan_write,
}
use grasshopper.Store.Save.{inserted, corrected, save, save_row, finish_write, with_embedding}
use grasshopper.Store.Effects.{current_record-found, Fits}
use grasshopper.Store.Saved.{Saved}
use grasshopper.Store.Rows.{insert-saved, correct-saved, saved_at}
use grasshopper.Store.Finish.{Planned, finish_write-Saved, Planned-embedding}

-- The key of a scope holds the scope.
pub scope_of-key : (s : Scope) (k : ScopeKey) → key s ≡ ok k → scope_of k ≡ s
unfolding key
scope_of-key s k h = ground arith

-- What a plan consists of.
pub record PlanFacts (d : Digests) (input : WriteInput) (k : ScopeKey) (db : Db) (plan : Plan)
    : Type 0 where
  pub target : existing input (target_id input k db) db ≡ ok plan.current
  pub checked : check_current input plan.current ≡ ok tt
  pub restored : Option Record
  pub restores : restored_record input (target_id input k db) db ≡ ok restored
  pub resolved : resolve_fields input plan.current restored ≡ ok plan.fields
  pub hashed : plan.hash ≡ d.of_content plan.fields.content plan.fields.title plan.fields.tags
  pub compared : duplicate_of input k plan.fields plan.hash plan.current db ≡ ok plan.duplicate

pub plan_write-PlanFacts :
    (d : Digests) (input : WriteInput) (k : ScopeKey) (db : Db) (plan : Plan)
    → plan_write d input k db ≡ ok plan
    → PlanFacts d input k db plan
unfolding plan_write
plan_write-PlanFacts d input k db plan h =
    let (current, e1, h1) = bind_ok (existing input (target_id input k db) db) _ h in
    let (_, e2, h2) = bind_ok (check_current input current) _ h1 in
    let (restored, e3, h3) = bind_ok (restored_record input (target_id input k db) db) _ h2 in
    let (fields, e4, h4) = bind_ok (resolve_fields input current restored) _ h3 in
    let hash = d.of_content fields.content fields.title fields.tags in
    let (duplicate, e5, h5) = bind_ok (duplicate_of input k fields hash current db) _ h4 in
    let built : Plan = record {
      current = current;
      fields = fields;
      hash = hash;
      duplicate = duplicate;
    } in
    subst (PlanFacts d input k db) (ok_inj built plan h5) (record {
      target = e1;
      checked = e2;
      restored = restored;
      restores = e3;
      resolved = e4;
      hashed = refl;
      compared = e5;
    })
  where
    ok_inj : (a b : Plan) → ◌≡◌ {A = Result Plan} (ok a) (ok b) → a ≡ b
    ok_inj a b h = cc

-- Where a write puts its row: at a new id, or over the row that the plan found.
pub data Placed (plan : Plan) (db : Db) (i revision : ℕ) : Type 0 where
  inserts : plan.current ≡ none → i ≡ db.next_id → revision ≡ 1 → Placed plan db i revision
  corrects :
      (old : Chunk)
      → plan.current ≡ some (scan_record i old)
      → db.chunks i ≡ some old
      → revision ≡ suc old.revision
      → Placed plan db i revision

-- The row and the database that a write leaves.
pub record Written (input : WriteInput) (k : ScopeKey) (plan : Plan) (fingerprint : String)
    (receipt : Receipt) (db db' : Db) : Type 0 where
  pub mid : Db
  pub row : Chunk
  pub saved : Saved k receipt.id row db mid
  pub planned : Planned input k plan row
  pub place : Placed plan db receipt.id receipt.revision
  pub version : row.revision ≡ receipt.revision
  pub first_key : plan.current ≡ none → row.preference_key ≡ input.key
  pub new : receipt.deduplicated ≡ false
  pub unanswered : mid.memory_requests input.request_id ≡ none
  pub answered : db' ≡ record mid {
    memory_requests =
        put mid.memory_requests input.request_id
          (record { fingerprint = fingerprint; receipt = receipt });
  }

pub acknowledge-done :
    (request fingerprint : String) (receipt r : Receipt) (db db' : Db)
    → acknowledge request fingerprint receipt db ≡ done r db'
    → (db.memory_requests request ≡ none)
      × (r ≡ receipt)
      × (db' ≡ record db {
        memory_requests =
            put db.memory_requests request
              (record { fingerprint = fingerprint; receipt = receipt });
      })
unfolding acknowledge
acknowledge-done request fingerprint receipt r db db' h =
    elim (Option-cases (db.memory_requests request)) [
      | inl e ↦ let h' = rw (e, acknowledge) at h in (e, sym (done_value h'), sym (done_state h'))
      | inr (q, e) ↦ cc (rw (e, acknowledge) at h)
    ]

inserted-Planned :
    (input : WriteInput) (k : ScopeKey) (plan : Plan) (now : String)
    → Planned input k plan (inserted input k plan now)
inserted-Planned input k plan now = record {
  content = refl;
  title = refl;
  tags = refl;
  memory_type = refl;
  purpose = refl;
  confirmed = refl;
  provenance = refl;
  content_hash = refl;
  archived = refl;
  memory_scope = refl;
}

corrected-Planned :
    (input : WriteInput) (k : ScopeKey) (plan : Plan) (now : String) (old : Chunk)
    → old.memory_scope ≡ k
    → Planned input k plan (corrected input plan now old)
corrected-Planned input k plan now old s = record {
  content = refl;
  title = refl;
  tags = refl;
  memory_type = refl;
  purpose = refl;
  confirmed = refl;
  provenance = refl;
  content_hash = refl;
  archived = refl;
  memory_scope = s;
}

pub existing-found :
    (input : WriteInput) (target : Option ℕ) (db : Db) (current : Option Record)
    → existing input target db ≡ ok current
    → (current ≡ none)
      ⊎ ((i : ℕ) × (old : Chunk) × (target ≡ some i)
          × (db.chunks i ≡ some old)
          × (current ≡ some (scan_record i old))
          × (key input.scope ≡ ok old.memory_scope))
unfolding existing
existing-found input none db current h = inl cc
existing-found input (some i) db current h =
    let (r, e, h1) = bind_ok (current_record input.scope i db) (λ r. ok (some r)) h in
    let (old, at, is, scope) = current_record-found input.scope i db r e in
    inr (i, old, refl, at, cc, scope)

insert-Fits :
    (input : WriteInput) (k : ScopeKey) (plan : Plan) (now : String) (db : Db)
    → Inv db
    → key input.scope ≡ ok k
    → is_unique db db.next_id (inserted input k plan now) ≡ true
    → Fits db.next_id (inserted input k plan now) db
insert-Fits input k plan now db v e u = record {
  follows = λ old at. absurd (omega (arith, v.fresh db.next_id old at));
  starts = λ _. refl;
  keyed = subst (λ s. key s ≡ ok k) (sym (scope_of-key input.scope k e)) e;
  unique = u;
}

correct-Fits :
    (input : WriteInput) (plan : Plan) (now : String) (i : ℕ) (old : Chunk) (db : Db)
    → Inv db
    → db.chunks i ≡ some old
    → is_unique db i (corrected input plan now old) ≡ true
    → Fits i (corrected input plan now old) db
correct-Fits input plan now i old db v e u = record {
  follows = λ x at.
      let q : old ≡ x = some_inj old x (sym e ∙ at) in
      record {
        revision = ap (λ (y : Chunk). suc y.revision) q;
        memory_scope = ap (λ (y : Chunk). y.memory_scope) q;
        preference_key = ap (λ (y : Chunk). y.preference_key) q;
        created_at = ap (λ (y : Chunk). y.created_at) q;
      };
  starts = λ at. cc (sym e ∙ at);
  keyed = v.keyed i old e;
  unique = u;
}

module _ (clock : Clock) (input : WriteInput) (k : ScopeKey) (fingerprint : String) (plan : Plan)
    (vector : Option (List ℕ)) (model : String) (receipt : Receipt) (db db' : Db) (v : Inv db) where
  finish-Written :
      (i revision n : ℕ) (c : Chunk)
      → Fits i c db
      → Planned input k plan c
      → c.revision ≡ revision
      → (plan.current ≡ none → c.preference_key ≡ input.key)
      → db.next_id ≤ n
      → i < n
      → Placed plan db i revision
      → (finish_write clock input k plan vector model i >>= λ _.
            acknowledge input.request_id fingerprint
              (record { id = i; revision = revision; deduplicated = false }))
          (record db { next_id = n; chunks = put db.chunks i c })
        ≡ done receipt db'
      → Written input k plan fingerprint receipt db db'
  finish-Written i revision n c f p number named bound below place h =
      let (_, mid, e, h1) = bind_done (finish_write clock input k plan vector model i) _ _ h in
      let (emb, m, saved) =
        finish_write-Saved clock input k plan vector model i n c db mid v f p bound below e in
      let (free, is, state) = acknowledge-done input.request_id fingerprint _ receipt mid db' h1 in
      record {
        mid = mid;
        row = with_embedding emb m c;
        saved =
            subst (λ (x : Receipt). Saved k x.id (with_embedding emb m c) db mid) (sym is) saved;
        planned = Planned-embedding input k plan emb m c p;
        place = subst (λ (x : Receipt). Placed plan db x.id x.revision) (sym is) place;
        first_key = named;
        version = number ∙ ap (λ (x : Receipt). x.revision) (sym is);
        new = ap (λ (x : Receipt). x.deduplicated) is;
        unanswered = free;
        answered =
            state
            ∙ ap
                (λ (x : Receipt). record mid {
                  memory_requests =
                      put mid.memory_requests input.request_id
                        (record { fingerprint = fingerprint; receipt = x });
                })
                (sym is);
      }

  rest_of : ℕ × ℕ → Tx Receipt
  rest_of (i, revision) = finish_write clock input k plan vector model i >>= λ _.
      acknowledge input.request_id fingerprint
        (record { id = i; revision = revision; deduplicated = false })

  insert-Written :
      plan.current ≡ none
      → key input.scope ≡ ok k
      → (save_row input k plan clock.now none >>= rest_of) db ≡ done receipt db'
      → Written input k plan fingerprint receipt db db'
  unfolding rest_of
  insert-Written fresh scope h =
      let (p, mid, e, h1) = bind_done (save_row input k plan clock.now none) rest_of db h in
      let (at, u, state) = insert-saved input k plan clock.now p db mid e in
      let h2 : rest_of p mid ≡ done receipt db' = h1 in
      let h3 =
        subst (λ m. rest_of (saved_at db.next_id 1) m ≡ done receipt db') state
          (subst (λ q. rest_of q mid ≡ done receipt db') at h2) in
      finish-Written db.next_id 1 (suc db.next_id) (inserted input k plan clock.now)
        (insert-Fits input k plan clock.now db v scope u) (inserted-Planned input k plan clock.now)
        refl (λ _. refl) (omega arith) (omega arith) (inserts fresh refl refl) h3

  correct-Written :
      (i : ℕ) (old : Chunk)
      → plan.current ≡ some (scan_record i old)
      → db.chunks i ≡ some old
      → old.memory_scope ≡ k
      → (save_row input k plan clock.now (some (scan_record i old)) >>= rest_of) db
        ≡ done receipt db'
      → Written input k plan fingerprint receipt db db'
  unfolding rest_of
  correct-Written i old found here same h =
      let (p, mid, e, h1) =
        bind_done (save_row input k plan clock.now (some (scan_record i old))) rest_of db h in
      let (at, u, state) = correct-saved input k plan clock.now p i old db mid v here e in
      let h2 : rest_of p mid ≡ done receipt db' = h1 in
      let h3 =
        subst (λ m. rest_of (saved_at i (suc old.revision)) m ≡ done receipt db') state
          (subst (λ q. rest_of q mid ≡ done receipt db') at h2) in
      finish-Written i (suc old.revision) db.next_id (corrected input plan clock.now old)
        (correct-Fits input plan clock.now i old db v here u)
        (corrected-Planned input k plan clock.now old same) refl
        (λ none_there. absurd (cc (none_there, found))) (omega arith) (v.fresh i old here)
        (corrects old found here refl) h3

  -- The two ways to save: a new row, or a correction of the row that the plan found.
  pub save-Written :
      (target : Option ℕ)
      → key input.scope ≡ ok k
      → existing input target db ≡ ok plan.current
      → save clock input k fingerprint plan vector model db ≡ done receipt db'
      → Written input k plan fingerprint receipt db db'
  unfolding save rest_of
  save-Written target scope found h = elim (existing-found input target db plan.current found) [
    | inl fresh ↦
        insert-Written fresh scope (
          subst (λ c. (save_row input k plan clock.now c >>= rest_of) db ≡ done receipt db') fresh
            h)
    | inr (i, old, _, here, is, sc) ↦
        correct-Written i old is here (ok_inj (sym sc ∙ scope))
          (subst (λ c. (save_row input k plan clock.now c >>= rest_of) db ≡ done receipt db') is h)
  ]
    where
      ok_inj : {a b : ScopeKey} → ◌≡◌ {A = Result ScopeKey} (ok a) (ok b) → a ≡ b
      ok_inj e = cc
