-- ===== src/Upgrade/Nightly.antt =====
-- What upgrade has done when it returns, and that the nightly job only moves forward.
use grasshopper.Upgrade.Outcomes.{link_current-returned}
use grasshopper.Upgrade.Links.{Keeps-run, Keeps-link_current}
use grasshopper.Upgrade.Adopted.{Keeps-after_link}
use grasshopper.Upgrade.Adopt.{after_link, adopt}
use grasshopper.Upgrade.Backups.{outdated, removed, remove_backups, keep_five, backup}
use grasshopper.Upgrade.{
  command_with, run, changes, entry_named, archive_version, resolve, link_current, Fault, Entry,
  Backup, Machine, command_failed, backup_failed,
}
use grasshopper.Actions.{
  outcome, attempt, bind_returned, Keeps, Keeps-bind, returned_state, kept_returned, returned,
}
use grasshopper.Base.{
  Bool-cases, ◌==◌, nat_eq, string_eq, option_eq, list_eq, ℕ, String, ◌≡◌, refl, sym, ap, ◌∙◌, inl,
  inr, Bool, true, false, none, some, List, [], ◌∷◌,
}

pub archive_version-entries :
    (folder : String) (m w : Machine)
    → m.entries ≡ w.entries
    → archive_version folder m ≡ archive_version folder w
unfolding archive_version
archive_version-entries folder m w e =
    ap (λ (es : List Entry). elim (entry_named folder es) [ none ↦ none | some x ↦ x.reports ]) e

-- What the backup leaves alone.
abbrev pub Stays : Machine → Machine → Type 0
Stays m x =
    (x.current ≡ m.current)
    × (x.previous ≡ m.previous)
    × (x.plist_root ≡ m.plist_root)
    × (x.entries ≡ m.entries)

Stays-removed :
    (m0 m : Machine) (path : String)
    → Stays m0 m
    → Stays m0 (removed path (attempt (run command_failed) m))
unfolding attempt run
Stays-removed m0 m path p = split m.outcomes
  where
    split : (os : List Bool) → Stays m0 (removed path (outcome (command_with command_failed m os)))
    split [] = p
    split (true ∷ rest) = p
    split (false ∷ rest) = p

Stays-remove_backups :
    (m0 : Machine) (ds : List (ℕ × String)) (m : Machine)
    → Stays m0 m
    → Stays m0 (remove_backups ds m)
unfolding remove_backups
Stays-remove_backups m0 [] m p = p
Stays-remove_backups m0 ((at, path) ∷ ds) m p =
    Stays-remove_backups m0 ds _ (Stays-removed m0 m path p)

pub Stays-backup : (m0 : Machine) (new : Backup) → Keeps (Stays m0) (backup new)
unfolding backup keep_five
Stays-backup m0 new = Keeps-bind _ (run backup_failed) _ (fails backup_failed) (λ _.
    Keeps-bind _ (run backup_failed) _ (fails backup_failed) (λ _.
      Keeps-bind _ (changes (λ m. record m { backups = new ∷ m.backups })) (λ _. changes keep_five)
        (λ _ p. p) (λ _ m p. Stays-remove_backups m0 (outdated m.backups) m p)))
  where
    fails : (fault : Fault) → Keeps (Stays m0) (run fault)
    fails fault = Keeps-run _ ((λ _ _ p. p), (λ _ _ p. p), (λ _ _ p. p)) fault

-- Adopting the link makes it name the folder that the service ran from.
pub adopt-returned :
    (running : String) (m : Machine) {end : Machine}
    → adopt running m ≡ returned tt end
    → (end.current ≡ resolve m.plist_root m) × (end.entries ≡ m.entries)
unfolding adopt
adopt-returned running m {end} h = elim (Bool-cases (m.plist_root == "current")) [
  | inl linked ↦
      let e : m ≡ end = returned_state (rw linked at h) in
      (
        ap (λ (x : Machine). x.current) (sym e) ∙ sym (rw linked refl),
        ap (λ (x : Machine). x.entries) (sym e),
      )
  | inr plain ↦
      let (_, mid, a, k) = bind_returned (link_current m.plist_root) _ m (rw plain at h) in
      let entries_kept =
        kept_returned (λ x. x.entries ≡ m.entries) (link_current m.plist_root)
          (Keeps-link_current _ ((λ _ _ p. p), (λ _ _ p. p), (λ _ _ p. p)) (λ _ _ p. p)
            m.plist_root)
          m refl a in
      let (c, es) =
        kept_returned (λ x. (x.current ≡ mid.current) × (x.entries ≡ mid.entries))
          (after_link running)
          (Keeps-after_link _ ((λ _ _ p. p), (λ _ _ p. p), (λ _ _ p. p)) (λ _ _ p. p) (λ _ _ p. p)
            (λ _ _ p. p) running)
          mid (refl, refl) k in
      (c ∙ link_current-returned m.plist_root m a ∙ sym (rw plain refl), es ∙ entries_kept)
]
