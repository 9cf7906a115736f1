-- ===== src/Upgrade/Kept.antt =====
-- Pruning the archives leaves what the links name.
use grasshopper.Upgrade.Archives.{
  is_unused, prune_entries, prune_archives, remove_entry, next_outcome, prune_one, prune_read,
}
use grasshopper.Upgrade.{entry_named, archive_version, Entry, Machine}
use grasshopper.Versions.{parse_version}
use grasshopper.Base.{
  is_some, cut_prefix, ◌==◌, test_self, nat_eq, string_eq, option_eq, list_eq, String, ◌≡◌, refl,
  sym, ap, subst, ◌⊎◌, inl, inr, Bool, true, false, not, ◌&&◌, Option, none, some, List, [], ◌∷◌,
  arith, Bool-cases, eq_of_test, ◌∙◌,
}

is_unused-linked :
    (current previous : Option String) (e : Entry)
    → (current ≡ some e.name) ⊎ (previous ≡ some e.name)
    → is_unused current previous e ≡ false
unfolding is_unused
is_unused-linked current previous e linked = split (cut_prefix e.name "grasshopper-server-") linked
  where
    split :
        (cut : Option String)
        → (current ≡ some e.name) ⊎ (previous ≡ some e.name)
        → elim cut [
          | none ↦ false
          | some version ↦
              e.is_dir
              && not (current == some e.name)
              && not (previous == some e.name)
              && is_some (parse_version version)
        ]
          ≡ false
    split none l = refl
    split (some version) (inl c) =
        rw (subst (λ x. (x == some e.name) ≡ true) (sym c) (test_self (some e.name))) (ground arith)
    split (some version) (inr p) =
        rw (subst (λ x. (x == some e.name) ≡ true) (sym p) (test_self (some e.name))) (ground arith)

entry_named-remove_entry :
    (folder : String) (works : Bool) (e : Entry) (es : List Entry)
    → (e.name == folder) ≡ false
    → entry_named folder (remove_entry works e es) ≡ entry_named folder es
entry_named-remove_entry folder true e es other = refl
entry_named-remove_entry folder false e es other = rw other refl

entry_named-prune_entries :
    (current previous : Option String) (folder : String) (es : List Entry) (os : List Bool)
    → (current ≡ some folder) ⊎ (previous ≡ some folder)
    → entry_named folder (prune_entries current previous es os).0 ≡ entry_named folder es
unfolding prune_entries
entry_named-prune_entries current previous folder [] os linked = refl
entry_named-prune_entries current previous folder (e ∷ es) os linked =
    step (is_unused current previous e) refl
      (λ rest. entry_named-prune_entries current previous folder es rest linked)
  where
    step :
        (unused : Bool)
        → is_unused current previous e ≡ unused
        → ((rest : List Bool)
            → entry_named folder (prune_entries current previous es rest).0 ≡ entry_named folder es)
        → entry_named folder (prune_one unused e os (prune_entries current previous es)).0
          ≡ entry_named folder (e ∷ es)
    step false u ih = elim (Bool-cases (e.name == folder)) [
      | inl is_it ↦ rw is_it refl
      | inr other ↦ rw other (ih os)
    ]
    step true u ih = elim (Bool-cases (e.name == folder)) [
      | inl is_it ↦
          let at : (current ≡ some e.name) ⊎ (previous ≡ some e.name) =
            subst (λ x. (current ≡ some x) ⊎ (previous ≡ some x))
              (sym (eq_of_test e.name folder is_it)) linked in
          absurd (cc (is_unused-linked current previous e at, u))
      | inr other ↦
          entry_named-remove_entry folder (next_outcome os).0 e _ other
          ∙ ih (next_outcome os).1
          ∙ sym (rw other refl)
    ]

-- The archives that the links name are what they were.
pub archive_version-prune_archives :
    (m : Machine) (folder : String)
    → (m.current ≡ some folder) ⊎ (m.previous ≡ some folder)
    → archive_version folder (prune_archives m) ≡ archive_version folder m
unfolding prune_archives archive_version
archive_version-prune_archives m folder linked = split (next_outcome m.outcomes).0
  where
    split :
        (works : Bool)
        → archive_version folder (prune_read works (next_outcome m.outcomes).1 m)
          ≡ archive_version folder m
    split true =
        ap (λ (found : Option Entry). elim found [ none ↦ none | some e ↦ e.reports ])
          (entry_named-prune_entries m.current m.previous folder m.entries
            (next_outcome m.outcomes).1 linked)
    split false = refl
