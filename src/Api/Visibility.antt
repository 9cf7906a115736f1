-- ===== src/Api/Visibility.antt =====
-- The effects of Archive and Move (internal/memory/writer.go).
use grasshopper.Store.Saved.{Saved-holds}
use grasshopper.Base.{
  ℕ, suc, true, false, ◌≡◌, ◌≢◌, refl, sym, ◌∙◌, subst, ap, none, some, nat_eq, string_eq,
  option_eq, test_self, inl, inr, some_inj, ◌==◌, list_eq,
}
use grasshopper.Outcome.{Result, ok}
use grasshopper.Scope.{ScopeKey, key, scope_key_eq}
use grasshopper.Store.{Db, Chunk, Receipt, holds}
use grasshopper.Store.Tx.{done}
use grasshopper.Store.Inputs.{ArchiveInput, Digests, Clock}
use grasshopper.Store.Requests.{replay, is_active_handoff, set_archived}
use grasshopper.Store.Archive.{archive, archive_tx, validate_archive}
use grasshopper.Store.Archived.{archive_tx-cases, changed, Archived}
use grasshopper.Api.Facts.{WellFormed, lift_done, commit_done}

module _ (d : Digests) (clock : Clock) (input : ArchiveInput) (db db' : Db) (r : Receipt)
    (w : WellFormed db) (h : archive d clock input db ≡ done r db')
    (new : replay input.request_id (d.of_archive input) db ≡ ok none) where
  new-Archived : Archived clock input (d.of_archive input) r db db'
  unfolding archive WellFormed
  new-Archived =
      let (_, _, h1) = lift_done (validate_archive input) _ db db' r h in
      elim (archive_tx-cases clock input (d.of_archive input) r db db' w.0
        (commit_done (archive_tx clock input (d.of_archive input)) db db' r h1)) [
          | inl (e, _) ↦ cc (e, new)
          | inr a ↦ a
        ]

  -- An Archive with a new request id that succeeds finds the memory in the given scope at exactly the
  -- expected revision, leaves it with the asked visibility at the next revision, which the receipt
  -- names, and changes none of its text.
  pub archive-changes :
      (c : Chunk) × (db.chunks input.id ≡ some c)
      × (key input.scope ≡ ok c.memory_scope)
      × (c.revision ≡ input.expected_revision)
      × (db'.chunks input.id ≡ some (set_archived input.archived clock.now input.provenance c))
      × (r ≡ record { id = input.id; revision = suc c.revision; deduplicated = false })
  archive-changes =
      let a = new-Archived in
      (
        a.old,
        a.was,
        a.scoped,
        a.expected,
        ap (λ (x : Db). x.chunks input.id) a.answered ∙ a.saved.row,
        a.replied,
      )

  -- Every other memory keeps its row, unless it is an active handoff of the scope.
  archive_others :
      (j : ℕ) (x : Chunk) (k : ScopeKey)
      → key input.scope ≡ ok k
      → input.id ≢ j
      → db.chunks j ≡ some x
      → is_active_handoff k x ≡ false
      → db'.chunks j ≡ some x
  archive_others j x k scope ne at quiet =
      let a = new-Archived in
      let same : k ≡ a.old.memory_scope = key_inj (sym scope ∙ a.scoped) in
      ap (λ (y : Db). y.chunks j) a.answered
      ∙ a.saved.others j x ne at (subst (λ y. is_active_handoff y x ≡ false) same quiet)
    where
      key_inj : {a b : ScopeKey} → ◌≡◌ {A = Result ScopeKey} (ok a) (ok b) → a ≡ b
      key_inj e = cc

  -- After an Archive with a new request id makes a handoff visible, the handoff is active in its scope,
  -- and no other memory is an active handoff of the scope.
  pub archive-handoff :
      (j : ℕ) (c : Chunk)
      → input.archived ≡ false
      → db.chunks input.id ≡ some c
      → c.purpose ≡ "handoff"
      → holds (is_active_handoff c.memory_scope) (db'.chunks j) ≡ (j == input.id)
  archive-handoff j c shown was hand =
      let a = new-Archived in
      let same : a.old ≡ c = some_inj a.old c (sym a.was ∙ was) in
      subst
        (λ (y : Chunk). holds (is_active_handoff y.memory_scope) (db'.chunks j) ≡ (j == input.id))
        same
        (ap (λ (y : Db). holds (is_active_handoff a.old.memory_scope) (y.chunks j)) a.answered
          ∙ Saved-holds a.old.memory_scope input.id _ db a.mid j a.saved
              (row_active a.old (ap (λ (y : Chunk). y.purpose) same ∙ hand)))
    where
      row_active :
          (c : Chunk)
          → c.purpose ≡ "handoff"
          → is_active_handoff c.memory_scope (changed clock input c) ≡ true
      row_active c p = rw (shown, p, test_self c.memory_scope) refl
