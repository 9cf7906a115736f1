-- ===== src/Api/Effects.antt =====
-- What the answer of Write, Archive and Move says of the database (internal/memory/writer.go).
use grasshopper.Store.Evolution.{Reaches-Evolves}
use grasshopper.Store.Saved.{Saved-holds}
use grasshopper.Base.{
  ℕ, suc, true, false, not, ◌&&◌, ◌≡◌, ◌≢◌, refl, sym, ◌∙◌, subst, ap, Option, none, some, String,
  List, ◌==◌, nat_eq, string_eq, option_eq, test_self, is_some, if◌then◌else◌, Option-cases,
  some_inj, is_blank, inl, inr, arith,
}
use grasshopper.Outcome.{Result, ok}
use grasshopper.Scope.{ScopeKey, key, scope_key_eq}
use grasshopper.Store.{Db, Chunk, Record, Receipt, scan_record, holds}
use grasshopper.Store.Tx.{done}
use grasshopper.Store.Inputs.{WriteInput, Digests, Clock, first_runes}
use grasshopper.Store.Requests.{replay, get_in_tx, is_active_handoff}
use grasshopper.Store.Plan.{
  Plan, Fields, target_id, existing, check_current, restored_record, proposed, title_of, default_to,
}
use grasshopper.Store.Write.{write}
use grasshopper.Store.Written.{inserts, corrects, Written, PlanFacts, plan_write-PlanFacts, Placed}
use grasshopper.Store.Calls.{replayed, repeated, written}
use grasshopper.Api.Facts.{WellFormed}
use grasshopper.Api.Plans.{
  write-cases, resolve_fields-proposed, get_in_tx-current, duplicate_of-match, existing-some,
  check_current-passed,
}

-- What stands in a column after a write that gives it or not, over a row that was there or not.
abbrev pub given_or : String → Option String → String
given_or default none = default
given_or default (some value) = value

abbrev pub old_or {ℓ} : {A : Type ℓ} → (Chunk → A) → A → Option Chunk → A
old_or column default none = default
old_or column default (some old) = column old

abbrev pub written_title : String → Option Chunk → Option String → String
written_title content none none = first_runes content 80
written_title content (some old) none =
    if old.title == first_runes old.content 80 then first_runes content 80 else old.title
written_title content before (some title) = if is_blank title then first_runes content 80 else title

-- The record of a row that may be missing.
abbrev record_at : ℕ → Option Chunk → Option Record
record_at i none = none
record_at i (some c) = some (scan_record i c)

module _ (d : Digests) (clock : Clock) (input : WriteInput) (vector : Option (List ℕ))
    (model : String) (db db' : Db) (r : Receipt) (w : WellFormed db)
    (h : write d clock input vector model db ≡ done r db')
    (new : replay input.request_id (d.of_write input) db ≡ ok none)
    (fresh : r.deduplicated ≡ false) where
  new-Written :
      (k : ScopeKey) × (plan : Plan) × (key input.scope ≡ ok k)
      × PlanFacts d input k db plan
      × Written input k plan (d.of_write input) r db db'
  new-Written =
      let (k, scope, cases) = write-cases d clock input vector model db db' r w h in
      elim cases [
        | replayed e _ ↦ cc (e, new)
        | repeated plan e same _ _ ↦
            let facts = plan_write-PlanFacts d input k db plan e in
            let (_, _, _, _, is) =
              duplicate_of-match input k plan.fields plan.hash plan.current db r
                (facts.compared ∙ ap ok same) in
            cc (fresh, ap (λ (x : Receipt). x.deduplicated) is)
        | written plan e f ↦ (k, plan, scope, plan_write-PlanFacts d input k db plan e, f)
      ]

  -- The row that a write without a restored revision leaves, and the row that it found.
  new-row :
      (k : ScopeKey)
      → input.restore_revision ≡ none
      → key input.scope ≡ ok k
      → (plan : Plan) × (plan.current ≡ record_at r.id (db.chunks r.id))
        × (plan.fields ≡ proposed input plan.current none)
        × Written input k plan (d.of_write input) r db db'
  unfolding restored_record WellFormed
  new-row k plain scope =
      let (k', plan, scope', facts, f) = new-Written in
      let none_restored : facts.restored ≡ none = opt_inj (sym facts.restores ∙ rw plain refl) in
      (
        plan,
        found plan f.place,
        resolve_fields-proposed input plan.current facts.restored plan.fields facts.resolved
            ∙ ap (proposed input plan.current) none_restored,
        subst (λ x. Written input x plan (d.of_write input) r db db') (key_inj (sym scope' ∙ scope))
            f,
      )
    where
      opt_inj : {a b : Option Record} → ◌≡◌ {A = Result (Option Record)} (ok a) (ok b) → a ≡ b
      opt_inj e = cc

      key_inj : {a b : ScopeKey} → ◌≡◌ {A = Result ScopeKey} (ok a) (ok b) → a ≡ b
      key_inj e = cc

      none_there : (i : ℕ) → i ≡ db.next_id → db.chunks i ≡ none
      none_there i e = elim (Option-cases (db.chunks i)) [
        | inl free ↦ free
        | inr (c, at) ↦ absurd (omega (arith, w.0.fresh i c at, e))
      ]

      found :
          (plan : Plan)
          → Placed plan db r.id r.revision
          → plan.current ≡ record_at r.id (db.chunks r.id)
      found plan (inserts free at _) = rw (none_there r.id at) free
      found plan (corrects old current at _) = rw at current

  -- A write with a new request id that restores no revision, and whose receipt is not of a duplicate,
  -- leaves its row as the current record of the receipt's id and revision: visible, with the content,
  -- purpose, provenance and confirmation of the input; with the tags and the type of the input, or else
  -- those of the row that was there, or else no tags and the type "knowledge"; with the title of the
  -- input, or else the old title if it was not the start of the old content, or else the start of the
  -- content; and with the key of the row that was there, or else that of the input.
  pub write-current :
      (k : ScopeKey)
      → input.restore_revision ≡ none
      → key input.scope ≡ ok k
      → (c : Chunk) × (get_in_tx input.scope r.id none db' ≡ ok (some (scan_record r.id c)))
        × (c.revision ≡ r.revision)
        × (c.memory_scope ≡ k)
        × (c.archived ≡ false)
        × (c.confirmed ≡ input.confirmed)
        × (c.provenance ≡ input.provenance)
        × (c.content ≡ input.content)
        × (c.purpose ≡ input.purpose)
        × (c.descriptors
            ≡ given_or (old_or (λ old. old.descriptors) "" (db.chunks r.id)) input.tags)
        × (c.memory_type
            ≡ given_or
                (old_or (λ old. old.memory_type) "knowledge" (db.chunks r.id))
                input.memory_type)
        × (c.title ≡ written_title input.content (db.chunks r.id) input.title)
        × (c.preference_key ≡ old_or (λ old. old.preference_key) input.key (db.chunks r.id))
  unfolding scan_record
  write-current k plain scope =
      let (plan, current, fields, f) = new-row k plain scope in
      let at : db'.chunks r.id ≡ some f.row =
        ap (λ (x : Db). x.chunks r.id) f.answered ∙ f.saved.row in
      let given : plan.fields ≡ proposed input (record_at r.id (db.chunks r.id)) none =
        fields ∙ ap (λ x. proposed input x none) current in
      (
        f.row,
        get_in_tx-current input.scope k r.id f.row db' scope at f.planned.memory_scope,
        f.version,
        f.planned.memory_scope,
        f.planned.archived,
        f.planned.confirmed,
        f.planned.provenance,
        f.planned.content ∙ ap (λ (x : Fields). x.content) fields,
        f.planned.purpose ∙ ap (λ (x : Fields). x.purpose) fields,
        f.planned.tags ∙ ap (λ (x : Fields). x.tags) given ∙ tags_lem (db.chunks r.id) input.tags,
        f.planned.memory_type
            ∙ ap (λ (x : Fields). x.memory_type) given
            ∙ type_lem (db.chunks r.id) input.memory_type,
        f.planned.title
            ∙ ap (λ (x : Fields). x.title) given
            ∙ title_lem (db.chunks r.id) input.title,
        key_lem plan f (db.chunks r.id) refl current,
      )
    where
      tags_lem :
          (before : Option Chunk) (given : Option String)
          → default_to (elim (record_at r.id before) [ none ↦ "" | some c ↦ c.tags ]) given
            ≡ given_or (old_or (λ old. old.descriptors) "" before) given
      tags_lem none none = refl
      tags_lem none (some t) = refl
      tags_lem (some c) none = refl
      tags_lem (some c) (some t) = refl

      type_lem :
          (before : Option Chunk) (given : Option String)
          → default_to
              (elim (record_at r.id before) [ none ↦ "knowledge" | some c ↦ c.memory_type ])
              given
            ≡ given_or (old_or (λ old. old.memory_type) "knowledge" before) given
      type_lem none none = refl
      type_lem none (some t) = refl
      type_lem (some c) none = refl
      type_lem (some c) (some t) = refl

      title_lem :
          (before : Option Chunk) (given : Option String)
          → title_of (record input { title = given }) (record_at r.id before) input.content
            ≡ written_title input.content before given
      title_lem none none = refl
      title_lem none (some t) = ground arith
      title_lem (some c) none = ground arith
      title_lem (some c) (some t) = ground arith

      key_lem :
          (plan : Plan) (f : Written input k plan (d.of_write input) r db db')
          (before : Option Chunk)
          → db.chunks r.id ≡ before
          → plan.current ≡ record_at r.id before
          → f.row.preference_key ≡ old_or (λ old. old.preference_key) input.key before
      key_lem plan f none _ free = f.first_key free
      key_lem plan f (some old) at _ =
          let (c, there, s) = (Reaches-Evolves f.saved.path).memories r.id old at in
          subst (λ (x : Chunk). x.preference_key ≡ old.preference_key)
            (some_inj c f.row (sym there ∙ f.saved.row)) s.preference_key

  -- A write with a new request id that selects a memory, by id or by key, and is not a duplicate
  -- corrects that memory at exactly the expected revision: the memory's row has the next revision, which
  -- the receipt names, in the scope, under the key and with the time of creation that it had. It does not
  -- put an unconfirmed version over a confirmed one, and a key that the input gives is the memory's.
  pub write-corrects :
      (i : ℕ) (k : ScopeKey)
      → key input.scope ≡ ok k
      → target_id input k db ≡ some i
      → (old c : Chunk) × (r.id ≡ i)
        × (db.chunks i ≡ some old)
        × (db'.chunks i ≡ some c)
        × (input.expected_revision ≡ some old.revision)
        × (c.revision ≡ suc old.revision)
        × (r.revision ≡ suc old.revision)
        × (c.memory_scope ≡ old.memory_scope)
        × (c.preference_key ≡ old.preference_key)
        × (c.created_at ≡ old.created_at)
        × ((old.confirmed && not input.confirmed) ≡ false)
        × ((is_some input.key && not (input.key == old.preference_key)) ≡ false)
  unfolding scan_record
  write-corrects i k scope named =
      let (k', plan, scope', facts, f) = new-Written in
      let same_key : k' ≡ k = key_inj (sym scope' ∙ scope) in
      let found : existing input (some i) db ≡ ok plan.current =
        subst (λ t. existing input t db ≡ ok plan.current)
          (ap (λ x. target_id input x db) same_key ∙ named) facts.target in
      let (_, _, is) = existing-some input i db plan.current found in
      elim f.place [
        | inserts free _ _ ↦ absurd (cc (free, is))
        | corrects old current at number ↦
            let (expected, confirmed, named_so) =
              check_current-passed input (scan_record r.id old)
                (subst (λ c. check_current input c ≡ ok tt) current facts.checked) in
            let same : r.id ≡ i = ap (λ (x : Record). x.id) (record_inj (sym current ∙ is)) in
            let (c, there, s) = (Reaches-Evolves f.saved.path).memories r.id old at in
            let row : f.row ≡ c = some_inj f.row c (sym f.saved.row ∙ there) in
            (
              old,
              c,
              same,
              subst (λ n. db.chunks n ≡ some old) same at,
              subst (λ n. db'.chunks n ≡ some c) same
                  (ap (λ (x : Db). x.chunks r.id) f.answered ∙ there),
              expected,
              ap (λ (x : Chunk). x.revision) (sym row) ∙ f.version ∙ number,
              number,
              s.memory_scope,
              s.preference_key,
              s.created_at,
              confirmed,
              named_so,
            )
      ]
    where
      record_inj : {a b : Record} → some a ≡ some b → a ≡ b
      record_inj e = cc

      key_inj : {a b : ScopeKey} → ◌≡◌ {A = Result ScopeKey} (ok a) (ok b) → a ≡ b
      key_inj e = cc

  -- After a write of a handoff with a new request id that restores no revision and is not a duplicate,
  -- the receipt's memory is an active handoff of its scope, and no other memory is one.
  pub write-handoff :
      (j : ℕ) (k : ScopeKey)
      → input.purpose ≡ "handoff"
      → input.restore_revision ≡ none
      → key input.scope ≡ ok k
      → holds (is_active_handoff k) (db'.chunks j) ≡ (j == r.id)
  write-handoff j k hand plain scope =
      let (plan, _, fields, f) = new-row k plain scope in
      let purpose : f.row.purpose ≡ "handoff" =
        f.planned.purpose ∙ ap (λ (y : Fields). y.purpose) fields ∙ hand in
      ap (λ (y : Db). holds (is_active_handoff k) (y.chunks j)) f.answered
      ∙ Saved-holds k r.id f.row db f.mid j f.saved
          (row_active k f.row f.planned.archived purpose f.planned.memory_scope)
    where
      row_active :
          (k : ScopeKey) (c : Chunk)
          → c.archived ≡ false
          → c.purpose ≡ "handoff"
          → c.memory_scope ≡ k
          → is_active_handoff k c ≡ true
      row_active k c a p s = rw (a, p, s, test_self k) refl

  -- A write with a new request id that is not a duplicate leaves alone every memory that is neither the receipt's nor an active handoff of
  -- the same scope.
  pub write-others :
      (j : ℕ) (x : Chunk) (k : ScopeKey)
      → r.id ≢ j
      → key input.scope ≡ ok k
      → db.chunks j ≡ some x
      → is_active_handoff k x ≡ false
      → db'.chunks j ≡ some x
  write-others j x k ne scope at quiet =
      let (k', plan, scope', facts, f) = new-Written in
      let same : k ≡ k' = key_inj (sym scope ∙ scope') in
      ap (λ (y : Db). y.chunks j) f.answered
      ∙ f.saved.others j x ne at (subst (λ y. is_active_handoff y x ≡ false) same quiet)
    where
      key_inj : {a b : ScopeKey} → ◌≡◌ {A = Result ScopeKey} (ok a) (ok b) → a ≡ b
      key_inj e = cc
