-- ===== src/Client/Kept.antt =====
-- Pruning keeps the program of the version that becomes current.
use grasshopper.Actions.{outcome, attempt}
use grasshopper.Client.Install.{cleared, clear_error, finish_current, current_file}
use grasshopper.Client.{
  file_with, file, folder_named, program_of, managed_program, is_stale, split_outcome, prune_folder,
  prune_folders, prune_listed, prune_versions, Folder, Managed, write_failed,
}
use grasshopper.Base.{
  if◌then◌else◌, Bool-cases, ◌==◌, eq_of_test, test_self, nat_eq, string_eq, option_eq, list_eq,
  String, ◌≡◌, refl, sym, ap, ◌∙◌, subst, ◌⊎◌, inl, inr, Bool, true, false, Option, some, List, [],
  ◌∷◌, arith,
}

pub is_stale-kept :
    (current : String) (previous : Option String) (f : Folder)
    → (f.name ≡ current) ⊎ (previous ≡ some f.name)
    → is_stale current previous f ≡ false
unfolding is_stale
is_stale-kept current previous f (inl e) =
    rw (subst (λ x. (f.name == x) ≡ true) e (test_self f.name)) refl
is_stale-kept current previous f (inr e) =
    rw (subst (λ x. (x == some f.name) ≡ true) (sym e) (test_self (some f.name))) (ground arith)

pub folder_named-prune_folders :
    (current : String) (previous : Option String) (name : String) (fs : List Folder)
    (os : List Bool)
    → (name ≡ current) ⊎ (previous ≡ some name)
    → folder_named name (prune_folders current previous fs os).0 ≡ folder_named name fs
unfolding prune_folders
folder_named-prune_folders current previous name [] os kept = refl
folder_named-prune_folders current previous name (f ∷ fs) os kept =
    step (is_stale current previous f) refl
      (λ rest. folder_named-prune_folders current previous name fs rest kept)
  where
    dropped :
        (works : Bool) (left : List Folder)
        → (f.name == name) ≡ false
        → folder_named name left ≡ folder_named name fs
        → folder_named name (if works then left else f ∷ left) ≡ folder_named name fs
    dropped true left other e = e
    dropped false left other e = rw other e

    step :
        (stale : Bool)
        → is_stale current previous f ≡ stale
        → ((rest : List Bool)
            → folder_named name (prune_folders current previous fs rest).0 ≡ folder_named name fs)
        → folder_named name (prune_folder stale f os (prune_folders current previous fs)).0
          ≡ folder_named name (f ∷ fs)
    step false s ih = elim (Bool-cases (f.name == name)) [
      | inl is_it ↦ rw is_it refl
      | inr other ↦ rw other (ih os)
    ]
    step true s ih = elim (Bool-cases (f.name == name)) [
      | inl is_it ↦
          let at : (f.name ≡ current) ⊎ (previous ≡ some f.name) =
            subst (λ x. (x ≡ current) ⊎ (previous ≡ some x)) (sym (eq_of_test f.name name is_it))
              kept in
          absurd (cc (is_stale-kept current previous f at, s))
      | inr other ↦
          dropped (split_outcome os).0 (prune_folders current previous fs (split_outcome os).1).0
            other (ih (split_outcome os).1)
          ∙ sym (rw other refl)
    ]

pub clear_error-versions :
    (m : Managed) → ((clear_error m).versions ≡ m.versions) × ((clear_error m).current ≡ m.current)
unfolding clear_error attempt file
clear_error-versions m = split m.outcomes
  where
    split :
        (os : List Bool)
        → ((cleared (outcome (file_with write_failed m os))).versions ≡ m.versions)
          × ((cleared (outcome (file_with write_failed m os))).current ≡ m.current)
    split [] = (refl, refl)
    split (true ∷ rest) = (refl, refl)
    split (false ∷ rest) = (refl, refl)

-- What is made current keeps its program.
pub finish_current-lem :
    (version : String) (previous : Option String) (m : Managed)
    → ((finish_current version previous m).current ≡ some (current_file version))
      × (managed_program version (finish_current version previous m) ≡ managed_program version m)
unfolding finish_current prune_versions managed_program
finish_current-lem version previous m = split (split_outcome m2.outcomes).0
  where
    m1 : Managed
    m1 = record m { current = some (current_file version) }

    m2 : Managed
    m2 = clear_error m1

    split :
        (works : Bool)
        → ((prune_listed works (split_outcome m2.outcomes).1 version previous m2).current
            ≡ some (current_file version))
          × (managed_program version
                (prune_listed works (split_outcome m2.outcomes).1 version previous m2)
              ≡ managed_program version m)
    split true =
        let (v, c) = clear_error-versions m1 in
        (
          c,
          ap program_of (
              folder_named-prune_folders version previous version m2.versions
                (split_outcome m2.outcomes).1 (inl refl)
              ∙ ap (folder_named version) v),
        )
    split false =
        let (v, c) = clear_error-versions m1 in (c, ap program_of (ap (folder_named version) v))
