-- ===== src/Store/Handoffs.antt =====
-- retireHandoffs: each round archives one handoff, and afterwards no other is active in the scope.
use grasshopper.Base.{
  and-left, lt→ltb, ltb, some_inj, ℕ, zero, suc, Bool, true, false, not, ◌&&◌, ◌≡◌, refl, sym, ◌∙◌,
  ap, subst, Option, none, some, List, [], ◌∷◌, String, ◌==◌, nat_eq, string_eq, arith, inl, inr,
  ◌⊎◌, Bool-cases, eq_of_test, ne_of_test, test_self, any,
}
use grasshopper.Outcome.{ok}
use grasshopper.Scope.{Scope, ScopeKey, scope_key_eq}
use grasshopper.Store.{
  Db, Chunk, Record, Provenance, put, scan_record, is_unique, select_below, select, holds,
}
use grasshopper.Store.Tx.{Tx, Outcome, done, ◌>>=◌, reads, bind_done, reads_done}
use grasshopper.Store.Inputs.{Clock}
use grasshopper.Store.Requests.{
  current_record, snapshot_into, snapshot, update_row, set_archived, retire_one, retire_each,
  retire_handoffs, is_active_handoff, handoffs_besides, replacement_note,
}
use grasshopper.Store.Steps.{text_of, Revises, revise, Reaches, here, next, Reaches-trans}
use grasshopper.Store.Invariant.{Inv}
use grasshopper.Store.Preserve.{Step-Inv}
use grasshopper.Store.Effects.{
  current_record-found, snapshot_then, update_row-done, Rewrites, Fits, Rewrites-snapshot,
}

-- A row whose visibility changes has been rewritten; its text stays.
pub set_archived-Rewrites :
    (db : Db) (i : ℕ) (c : Chunk) (archived : Bool) (now : String) (note : Provenance)
    → Inv db
    → db.chunks i ≡ some c
    → Rewrites i
        (set_archived archived now note c)
        db
        (record db { chunks = put db.chunks i (set_archived archived now note c) })
set_archived-Rewrites db i c archived now note v e = record {
  rows = λ j. refl;
  texts = λ j. elim (Bool-cases (i == j)) [
    | inl same ↦
        let at : db.chunks_fts j ≡ some (text_of c) =
          subst (λ k. db.chunks_fts k ≡ some (text_of c)) (eq_of_test i j same) (v.indexed i c e) in
        ground arith
    | inr other ↦ ground arith
  ];
  history = λ j n. refl;
  requests = λ r. refl;
  bound = omega arith;
  below = v.fresh i c e;
}

pub set_archived-Fits :
    (db : Db) (i : ℕ) (c : Chunk) (archived : Bool) (now : String) (note : Provenance)
    → Inv db
    → db.chunks i ≡ some c
    → is_unique db i (set_archived archived now note c) ≡ true
    → Fits i (set_archived archived now note c) db
set_archived-Fits db i c archived now note v e u = record {
  follows = λ old at.
      let q : c ≡ old = some_inj c old (sym e ∙ at) in
      record {
        revision = ap (λ (x : Chunk). suc x.revision) q;
        memory_scope = ap (λ (x : Chunk). x.memory_scope) q;
        preference_key = ap (λ (x : Chunk). x.preference_key) q;
        created_at = ap (λ (x : Chunk). x.created_at) q;
      };
  starts = λ at. cc (sym e ∙ at);
  keyed = v.keyed i c e;
  unique = u;
}

-- A change of visibility that succeeds is one step: a new version of the row.
pub change-Revises :
    (scope : Scope) (archived : Bool) (note : Provenance) (now : String) (i : ℕ) (c : Chunk)
    (db mid : Db) (r : Record) (b : Bool)
    → Inv db
    → db.chunks i ≡ some c
    → update_row i c.revision (set_archived archived now note) db ≡ done b mid
    → current_record scope i mid ≡ ok r
    → (r ≡ scan_record i (set_archived archived now note c))
      × Revises i (set_archived archived now note c) db (snapshot_into r mid)
change-Revises scope archived note now i c db mid r b v e u at =
    let changed = set_archived archived now note c in
    let (_, unique, m) =
      update_row-done i c.revision (set_archived archived now note) db mid b c e refl u in
    let (d, found, is, _) = current_record-found scope i mid r at in
    let here : mid.chunks i ≡ some changed =
      ap (λ (x : Db). x.chunks i) m ∙ ground (arith, test_self i) in
    let same : r ≡ scan_record i changed =
      is ∙ ap (scan_record i) (some_inj d changed (sym found ∙ here)) in
    let step =
      Rewrites-snapshot i changed db _ (set_archived-Fits db i c archived now note v e unique)
        (set_archived-Rewrites db i c archived now note v e) in
    (
      same,
      subst (λ x. Revises i changed db (snapshot_into x mid)) (sym same)
          (subst (λ y. Revises i changed db (snapshot_into (scan_record i changed) y)) (sym m)
            step),
    )

pub done_inj : (a b : Db) → ◌≡◌ {A = Outcome (Unit {0})} (done tt a) (done tt b) → a ≡ b
done_inj a b h = cc

-- The rest of a round, once the old version is in the history.
retire_rest-Revises :
    (scope : Scope) (note : Provenance) (now : String) (i : ℕ) (c : Chunk) (db db' : Db)
    → Inv db
    → db.chunks i ≡ some c
    → (update_row i c.revision (set_archived true now note) >>= λ _.
          reads (current_record scope i) >>= λ current. snapshot current)
        db
      ≡ done tt db'
    → Revises i (set_archived true now note c) db db'
unfolding snapshot
retire_rest-Revises scope note now i c db db' v e h =
    let (b, mid, u, h1) = bind_done (update_row i c.revision (set_archived true now note)) _ db h in
    let (r, at, h2) = reads_done (current_record scope i) _ mid h1 in
    let (_, step) = change-Revises scope true note now i c db mid r b v e u at in
    subst (Revises i (set_archived true now note c) db) (done_inj (snapshot_into r mid) db' h2) step

pub retire_one-Revises :
    (scope : Scope) (note : Provenance) (now : String) (i : ℕ) (db db' : Db)
    → Inv db
    → retire_one scope note now i db ≡ done tt db'
    → (c : Chunk) × (db.chunks i ≡ some c) × Revises i (set_archived true now note c) db db'
unfolding retire_one scan_record
retire_one-Revises scope note now i db db' v h =
    let (old, e1, h1) = reads_done (current_record scope i) _ db h in
    let (c, e, is, _) = current_record-found scope i db old e1 in
    let rest : Record → Unit {0} → Tx (Unit {0}) = λ x _.
      update_row i x.revision (set_archived true now note) >>= λ _.
      reads (current_record scope i) >>= λ current. snapshot current in
    let h2 : (snapshot (scan_record i c) >>= rest (scan_record i c)) db ≡ done tt db' =
      subst (λ x. (snapshot x >>= rest x) db ≡ done tt db') is h1 in
    (
      c,
      e,
      retire_rest-Revises scope note now i c db db' v e
          (sym (snapshot_then db i c (rest (scan_record i c)) v e) ∙ h2),
    )

-- The ids of a selection are those of the rows that satisfy the condition.
select_below-member :
    (db : Db) (p : ℕ → Chunk → Bool) (n j : ℕ)
    → any (λ k. k == j) (select_below db p n) ≡ (ltb j n && holds (p j) (db.chunks j))
unfolding select_below
select_below-member db p zero j = ground arith
select_below-member db p (suc n) j = elim (Bool-cases (n == j)) [
  | inl same ↦
      subst
        (λ k.
          any (λ x. x == k) (select_below db p (suc n))
          ≡ (ltb k (suc n) && holds (p k) (db.chunks k)))
        (eq_of_test n j same) (ground (arith, select_below-member db p n n, test_self n))
  | inr other ↦ let ne = ne_of_test n j other in ground (arith, select_below-member db p n j, ne)
]

-- The rounds archive the memories that they are given, and leave the others as they were.
record Retires (is : List ℕ) (db db' : Db) : Type 0 where
  path : Reaches db db'
  gone :
      (j : ℕ) (d : Chunk) → any (λ k. k == j) is ≡ true → db'.chunks j ≡ some d → d.archived ≡ true
  rest : (j : ℕ) → any (λ k. k == j) is ≡ false → db'.chunks j ≡ db.chunks j

retire_each-Retires :
    (scope : Scope) (note : Provenance) (now : String) (is : List ℕ) (db db' : Db)
    → Inv db
    → retire_each scope note now is db ≡ done tt db'
    → Retires is db db'
unfolding retire_each
retire_each-Retires scope note now [] db db' v h = record {
  path = subst (Reaches db) (done_inj db db' h) here;
  gone = λ j d m e. cc;
  rest = λ j m. ap (λ (x : Db). x.chunks j) (sym (done_inj db db' h));
}
retire_each-Retires scope note now (i ∷ is) db db' v h =
    let (_, mid, h1, h2) = bind_done (retire_one scope note now i) _ db h in
    let (c, e, step) = retire_one-Revises scope note now i db mid v h1 in
    let later = retire_each-Retires scope note now is mid db' (Step-Inv (revise i _ step) v) h2 in
    record {
      path = Reaches-trans (next here (revise i _ step)) later.path;
      gone = λ j d m at. elim (Bool-cases (any (λ k. k == j) is)) [
        | inl later_on ↦ later.gone j d later_on at
        | inr now_only ↦
            let q : set_archived true now note c ≡ d =
              some_inj _ d (sym (later.rest j now_only ∙ step.rows j ∙ ground arith) ∙ at) in
            ap (λ (x : Chunk). x.archived) (sym q)
      ];
      rest = λ j m. later.rest j (ground arith) ∙ step.rows j ∙ ground arith;
    }

forced : (a b c : Bool) → (a && (b && not c)) ≡ false → a ≡ true → b ≡ true → c ≡ true
forced a b c h = ground arith

and_false : (a : Bool) → (a && false) ≡ false
and_false a = ground arith

-- No handoff but the replacement stays active in the scope, and no other memory changes.
pub record Retired (k : ScopeKey) (replacement : ℕ) (db db' : Db) : Type 0 where
  pub path : Reaches db db'
  pub only :
      (j : ℕ) (d : Chunk) → db'.chunks j ≡ some d → is_active_handoff k d ≡ true → j ≡ replacement
  pub kept : db'.chunks replacement ≡ db.chunks replacement
  pub others :
      (j : ℕ) (d : Chunk)
      → db.chunks j ≡ some d
      → is_active_handoff k d ≡ false
      → db'.chunks j ≡ some d
  pub rest :
      (j : ℕ) (d : Chunk) → db'.chunks j ≡ some d → (d.archived ≡ true) ⊎ (db.chunks j ≡ some d)

pub retire_handoffs-Retired :
    (clock : Clock) (scope : Scope) (k : ScopeKey) (replacement : ℕ) (by : Provenance) (db db' : Db)
    → Inv db
    → retire_handoffs clock scope k replacement by db ≡ done tt db'
    → Retired k replacement db db'
unfolding retire_handoffs select
retire_handoffs-Retired clock scope k replacement by db db' v h = record {
  path = r.path;
  only = λ j d e active. elim (Bool-cases (any (λ x. x == j) ids)) [
    | inl m ↦ cc (r.gone j d m e, and-left (not d.archived) _ active)
    | inr m ↦
        let before : db.chunks j ≡ some d = sym (r.rest j m) ∙ e in
        eq_of_test j replacement (
          forced _ _ _ (sym (member_row j d before) ∙ m) (lt→ltb j db.next_id (v.fresh j d before))
            active)
  ];
  kept = r.rest replacement (
      member replacement
      ∙ ap (λ b. ltb replacement db.next_id && b) (holds-never _ (db.chunks replacement))
      ∙ and_false _);
  others = λ j d e inactive.
      r.rest j (
        member_row j d e
        ∙ ap (λ b. ltb j db.next_id && (b && not (j == replacement))) inactive
        ∙ and_false _)
      ∙ e;
  rest = λ j d e. elim (Bool-cases (any (λ x. x == j) ids)) [
    | inl m ↦ inl (r.gone j d m e)
    | inr m ↦ inr (sym (r.rest j m) ∙ e)
  ];
}
  where
    ids : List ℕ
    ids = handoffs_besides k replacement db

    r : Retires ids db db'
    r = retire_each-Retires scope (replacement_note by replacement) clock.retired_at ids db db' v h

    member :
        (j : ℕ)
        → any (λ x. x == j) ids ≡ (
            ltb j db.next_id
            && holds (λ c. is_active_handoff k c && not (j == replacement)) (db.chunks j))
    member j =
        select_below-member db (λ j c. is_active_handoff k c && not (j == replacement)) db.next_id j

    member_row :
        (j : ℕ) (d : Chunk)
        → db.chunks j ≡ some d
        → any (λ x. x == j) ids
          ≡ (ltb j db.next_id && (is_active_handoff k d && not (j == replacement)))
    member_row j d e =
        member j
        ∙ ap
            (λ o.
              ltb j db.next_id && holds (λ c. is_active_handoff k c && not (j == replacement)) o)
            e

    holds-never :
        (active : Chunk → Bool) (o : Option Chunk)
        → holds (λ c. active c && not (replacement == replacement)) o ≡ false
    holds-never active none = refl
    holds-never active (some c) = ground (arith, test_self replacement)
