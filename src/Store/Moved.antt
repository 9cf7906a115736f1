-- ===== src/Store/Moved.antt =====
-- A successful Writer.Move: a replay, or a copy, an archived original and an answer.
use grasshopper.Base.{
  ℕ, true, false, not, ◌||◌, ◌⊎◌, ◌≡◌, refl, sym, ◌∙◌, subst, ap, Option, some, String, List, ◌==◌,
  nat_eq, string_eq, option_eq, Option-cases, inl, inr, eq_of_test, arith, Bool,
}
use grasshopper.Outcome.{Result, ok, bind_ok, guard_ok, move_target_exists}
use grasshopper.Scope.{Scope, key, durable_project, scope_key_eq}
use grasshopper.Store.{Db, Receipt}
use grasshopper.Store.Tx.{done, reads_done, bind_done, done_value, done_state, check_done}
use grasshopper.Store.Inputs.{WriteInput, MoveInput, Digests, Clock}
use grasshopper.Store.Requests.{replay, acknowledge, current_record}
use grasshopper.Store.Write.{write_tx}
use grasshopper.Store.Archive.{archive_tx}
use grasshopper.Store.Move.{
  MovePlan, plan_move, stored_scope, decode_scope, key_holder, copy_input, move_target,
  original_input, move_new, move_tx,
}
use grasshopper.Store.Written.{acknowledge-done}
use grasshopper.Store.Invariant.{Inv}
use grasshopper.Store.Preserve.{Reaches-Inv}
use grasshopper.Store.Calls.{Sound, Sound-refl, Sound-trans, write_tx-Sound, acknowledge-Sound}
use grasshopper.Store.Archived.{archive_tx-Sound}

-- The parts of a move.
pub record Moved (d : Digests) (clock later : Clock) (input : MoveInput) (fingerprint : String)
    (vector : Option (List ℕ)) (model : String) (receipt : Receipt) (db db' : Db) : Type 0 where
  pub plan : MovePlan
  pub copied : Db
  pub archived : Db
  pub second : Receipt
  pub planned : plan_move input db ≡ ok plan
  pub copies :
      write_tx d clock plan.copied plan.target_key (d.of_write plan.copied) vector model db
      ≡ done receipt copied
  pub new : receipt.deduplicated ≡ false
  pub archives :
      archive_tx later
        (original_input input plan.old receipt.id)
        (d.of_archive (original_input input plan.old receipt.id))
        copied
      ≡ done second archived
  pub answers : acknowledge input.request_id fingerprint receipt archived ≡ done receipt db'

-- The plan of a move, from the memory that is there.
pub record MoveFacts (input : MoveInput) (db : Db) (plan : MovePlan) : Type 0 where
  pub source : Scope
  pub found : current_record source input.id db ≡ ok plan.old
  pub current : plan.old.archived ≡ false
  pub expected : plan.old.revision ≡ input.expected_revision
  pub target : key (move_target input) ≡ ok plan.target_key
  pub holder : Option (ℕ × ℕ)
  pub held : key_holder plan.target_key plan.old.key db ≡ ok holder
  pub copied : plan.copied ≡ copy_input input plan.old holder

pub plan_move-MoveFacts :
    (input : MoveInput) (db : Db) (plan : MovePlan)
    → plan_move input db ≡ ok plan
    → MoveFacts input db plan
unfolding plan_move
plan_move-MoveFacts input db plan h =
    let (stored, _, h1) = bind_ok (stored_scope input db) _ h in
    let (source, _, h2) = bind_ok (decode_scope stored) _ h1 in
    let (old, found, h3) = bind_ok (current_record source input.id db) _ h2 in
    let (now, h4) =
      guard_ok (not (old.archived || not (old.revision == input.expected_revision))) _ _ h3 in
    let (_, _, h5) = bind_ok (durable_project (move_target input)) _ h4 in
    let (target, e, h6) = bind_ok (key (move_target input)) _ h5 in
    let (_, h7) = guard_ok (not (target == stored || old.scope.legacy)) _ _ h6 in
    let (holder, held, h8) = bind_ok (key_holder target old.key db) _ h7 in
    let built : MovePlan = record {
      old = old;
      target_key = target;
      copied = copy_input input old holder;
    } in
    subst (MoveFacts input db) (ok_inj built plan h8) (record {
      source = source;
      found = found;
      current = shown old.archived _ now;
      expected = eq_of_test old.revision input.expected_revision (same old.archived _ now);
      target = e;
      holder = holder;
      held = held;
      copied = refl;
    })
  where
    ok_inj : (a b : MovePlan) → ◌≡◌ {A = Result MovePlan} (ok a) (ok b) → a ≡ b
    ok_inj a b h = cc

    shown : (a b : Bool) → not (a || not b) ≡ true → a ≡ false
    shown a b h = ground arith

    same : (a b : Bool) → not (a || not b) ≡ true → b ≡ true
    same a b h = ground arith

module _ (d : Digests) (clock later : Clock) (input : MoveInput) (fingerprint : String)
    (vector : Option (List ℕ)) (model : String) (receipt : Receipt) (db db' : Db) where
  build :
      (plan : MovePlan) (mid mid2 : Db) (second copy : Receipt)
      → receipt ≡ copy
      → plan_move input db ≡ ok plan
      → write_tx d clock plan.copied plan.target_key (d.of_write plan.copied) vector model db
        ≡ done copy mid
      → not copy.deduplicated ≡ true
      → archive_tx later
          (original_input input plan.old copy.id)
          (d.of_archive (original_input input plan.old copy.id))
          mid
        ≡ done second mid2
      → acknowledge input.request_id fingerprint copy mid2 ≡ done receipt db'
      → Moved d clock later input fingerprint vector model receipt db db'
  build plan mid mid2 second copy same e e2 fresh e3 h = record {
    plan = plan;
    copied = mid;
    archived = mid2;
    second = second;
    planned = e;
    copies =
        subst
          (λ r.
            write_tx d clock plan.copied plan.target_key (d.of_write plan.copied) vector model db
            ≡ done r mid)
          (sym same) e2;
    new = subst (λ (r : Receipt). r.deduplicated ≡ false) (sym same) (ground (arith, fresh));
    archives =
        subst
          (λ (r : Receipt).
            archive_tx later (original_input input plan.old r.id)
              (d.of_archive (original_input input plan.old r.id)) mid
            ≡ done second mid2)
          (sym same) e3;
    answers =
        subst (λ r. acknowledge input.request_id fingerprint r mid2 ≡ done receipt db') (sym same)
          h;
  }

  new-Moved :
      move_new d clock later input fingerprint vector model db ≡ done receipt db'
      → Moved d clock later input fingerprint vector model receipt db db'
  unfolding move_new acknowledge
  new-Moved h =
      let (plan, e, h1) = reads_done (plan_move input) _ db h in
      let (copy, mid, e2, h2) =
        bind_done
          (write_tx d clock plan.copied plan.target_key (d.of_write plan.copied) vector model) _ db
          h1 in
      let (fresh, h3) = check_done (not copy.deduplicated) move_target_exists _ mid h2 in
      let (second, mid2, e3, h4) =
        bind_done
          (archive_tx later (original_input input plan.old copy.id)
            (d.of_archive (original_input input plan.old copy.id)))
          _ mid h3 in
      let (_, same, _) = acknowledge-done input.request_id fingerprint copy receipt mid2 db' h4 in
      build plan mid mid2 second copy same e e2 fresh e3 h4

  pub move_tx-cases :
      move_tx d clock later input fingerprint vector model db ≡ done receipt db'
      → ((replay input.request_id fingerprint db ≡ ok (some receipt)) × (db' ≡ db))
        ⊎ Moved d clock later input fingerprint vector model receipt db db'
  unfolding move_tx
  move_tx-cases h =
      let (previous, e, h1) = reads_done (replay input.request_id fingerprint) _ db h in
      elim (Option-cases previous) [
        | inl fresh ↦ inr (new-Moved (rw fresh at h1))
        | inr (r, found) ↦
            let h2 = rw found at h1 in
            inl (e ∙ ap ok (found ∙ ap some (done_value h2)), sym (done_state h2))
      ]

  pub Moved-Sound :
      Inv db → Moved d clock later input fingerprint vector model receipt db db' → Sound db db'
  Moved-Sound v m =
      let facts = plan_move-MoveFacts input db m.plan m.planned in
      let scope : key m.plan.copied.scope ≡ ok m.plan.target_key =
        ap (λ (w : WriteInput). key w.scope) facts.copied ∙ facts.target in
      let first =
        write_tx-Sound d clock m.plan.copied m.plan.target_key _ vector model receipt db m.copied v
          scope m.copies in
      let second =
        archive_tx-Sound later (original_input input m.plan.old receipt.id) _ m.second m.copied
          m.archived (Reaches-Inv first.path v) m.archives in
      Sound-trans first (
        Sound-trans second
          (acknowledge-Sound input.request_id fingerprint receipt receipt m.archived db' m.answers))

  pub move_tx-Sound :
      Inv db
      → move_tx d clock later input fingerprint vector model db ≡ done receipt db'
      → Sound db db'
  move_tx-Sound v h = elim (move_tx-cases h) [
    | inl (_, same) ↦ subst (Sound db) (sym same) (Sound-refl db)
    | inr m ↦ Moved-Sound v m
  ]
