-- ===== src/Store/Calls.antt =====
-- What a successful call of Write, Archive or Move does, and that it keeps the store well formed.
use grasshopper.Base.{
  ℕ, ◌≡◌, sym, ◌∙◌, subst, ap, Option, none, some, String, List, nat_eq, string_eq, Option-cases,
  inl, inr,
}
use grasshopper.Outcome.{ok}
use grasshopper.Scope.{ScopeKey, key, scope_key_eq}
use grasshopper.Store.{Db, Chunk, Receipt, Request, put}
use grasshopper.Store.Tx.{done, reads_done, done_value, done_state}
use grasshopper.Store.Inputs.{WriteInput, Digests, Clock}
use grasshopper.Store.Requests.{replay, acknowledge}
use grasshopper.Store.Plan.{Plan, plan_write}
use grasshopper.Store.Write.{write_new, write_tx}
use grasshopper.Store.Steps.{Reaches, here, next, answer, Reaches-trans}
use grasshopper.Store.Invariant.{Inv}
use grasshopper.Store.Saved.{OneHandoff, Saved, Saved-OneHandoff}
use grasshopper.Store.Written.{Written, plan_write-PlanFacts, acknowledge-done, save-Written}

-- The database moves by steps, and each scope keeps one current handoff at most.
pub record Sound (db db' : Db) : Type 0 where
  pub path : Reaches db db'
  pub keeps : OneHandoff db → OneHandoff db'

pub Sound-refl : (db : Db) → Sound db db
Sound-refl db = record { path = here; keeps = λ one. one }

pub Sound-trans : {a b c : Db} → Sound a b → Sound b c → Sound a c
Sound-trans s t = record {
  path = Reaches-trans s.path t.path;
  keeps = λ one. t.keeps (s.keeps one);
}

pub answer-Sound :
    (r : String) (q : Request) (db db' : Db)
    → db.memory_requests r ≡ none
    → db' ≡ record db { memory_requests = put db.memory_requests r q }
    → Sound db db'
answer-Sound r q db db' free e = record {
  path = next here (answer r q free e);
  keeps = λ one. subst OneHandoff (sym e) (λ k i j c d at at' a a'. one k i j c d at at' a a');
}

pub acknowledge-Sound :
    (request fingerprint : String) (receipt r : Receipt) (db db' : Db)
    → acknowledge request fingerprint receipt db ≡ done r db'
    → Sound db db'
acknowledge-Sound request fingerprint receipt r db db' h =
    let (free, _, state) = acknowledge-done request fingerprint receipt r db db' h in
    answer-Sound request _ db db' free state

pub Saved-Sound :
    (k : ScopeKey) (i : ℕ) (c : Chunk) (db db' : Db) → Saved k i c db db' → Sound db db'
Saved-Sound k i c db db' s = record { path = s.path; keeps = Saved-OneHandoff k i c db db' s }

-- The three ways in which writeTx succeeds.
pub data WriteCases (d : Digests) (input : WriteInput) (k : ScopeKey) (fingerprint : String)
    (receipt : Receipt) (db db' : Db) : Type 0 where
  replayed :
      replay input.request_id fingerprint db ≡ ok (some receipt)
      → db' ≡ db
      → WriteCases d input k fingerprint receipt db db'
  repeated :
      (plan : Plan)
      → plan_write d input k db ≡ ok plan
      → plan.duplicate ≡ some receipt
      → db.memory_requests input.request_id ≡ none
      → db' ≡ record db {
        memory_requests =
            put db.memory_requests input.request_id
              (record { fingerprint = fingerprint; receipt = receipt });
      }
      → WriteCases d input k fingerprint receipt db db'
  written :
      (plan : Plan)
      → plan_write d input k db ≡ ok plan
      → Written input k plan fingerprint receipt db db'
      → WriteCases d input k fingerprint receipt db db'

module _ (d : Digests) (clock : Clock) (input : WriteInput) (k : ScopeKey) (fingerprint : String)
    (vector : Option (List ℕ)) (model : String) (receipt : Receipt) (db db' : Db) (v : Inv db)
    (scope : key input.scope ≡ ok k) where
  new-cases :
      write_new d clock input k fingerprint vector model db ≡ done receipt db'
      → WriteCases d input k fingerprint receipt db db'
  unfolding write_new
  new-cases h =
      let (plan, e, h1) = reads_done (plan_write d input k) _ db h in
      elim (Option-cases plan.duplicate) [
        | inl fresh ↦ written plan e (
            save-Written clock input k fingerprint plan vector model receipt db db' v _ scope
              (plan_write-PlanFacts d input k db plan e).target (rw fresh at h1))
        | inr (r, same) ↦
            let (free, is, state) =
              acknowledge-done input.request_id fingerprint r receipt db db' (rw same at h1) in
            repeated plan e (same ∙ ap some (sym is)) free (
              state
              ∙ ap
                  (λ (x : Receipt). record db {
                    memory_requests =
                        put db.memory_requests input.request_id
                          (record { fingerprint = fingerprint; receipt = x });
                  })
                  (sym is))
      ]

  pub write_tx-cases :
      write_tx d clock input k fingerprint vector model db ≡ done receipt db'
      → WriteCases d input k fingerprint receipt db db'
  unfolding write_tx
  write_tx-cases h =
      let (previous, e, h1) = reads_done (replay input.request_id fingerprint) _ db h in
      elim (Option-cases previous) [
        | inl fresh ↦ new-cases (rw fresh at h1)
        | inr (r, found) ↦
            let h2 = rw found at h1 in
            replayed (e ∙ ap ok (found ∙ ap some (done_value h2))) (sym (done_state h2))
      ]

  pub write_tx-Sound :
      write_tx d clock input k fingerprint vector model db ≡ done receipt db' → Sound db db'
  write_tx-Sound h = elim (write_tx-cases h) [
    | replayed _ same ↦ subst (Sound db) (sym same) (Sound-refl db)
    | repeated plan _ _ free state ↦ answer-Sound input.request_id _ db db' free state
    | written plan _ w ↦
        Sound-trans (Saved-Sound k receipt.id w.row db w.mid w.saved)
          (answer-Sound input.request_id _ w.mid db' w.unanswered w.answered)
  ]
