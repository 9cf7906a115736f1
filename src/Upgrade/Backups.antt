-- ===== src/Upgrade/Backups.antt =====
-- The retention of backup (cmd/grasshopper-server/upgrade.go): of the backups with a time in their
-- name the newest five stay, and every other file is left alone.
use grasshopper.Upgrade.{Act, run, changes, Fault, Backup, Machine, command_failed, backup_failed}
use grasshopper.Actions.{attempt, ◌>>◌, Ran, returned, stopped, ◌>>=◌}
use grasshopper.Base.{
  ltb, if◌then◌else◌, ◌==◌, nat_eq, string_eq, option_eq, list_eq, ℕ, zero, suc, String, Bool,
  Option, none, some, List, [], ◌∷◌, true, false,
}

-- slices.SortFunc, the newest first, by insertion
abbrev pub insert_dated : ℕ × String → List (ℕ × String) → List (ℕ × String)
insert_dated d [] = d ∷ []
insert_dated (at, path) ((at', path') ∷ ds) =
    let rest = insert_dated (at, path) ds in
    if ltb at at' then (at', path') ∷ rest else (at, path) ∷ ((at', path') ∷ ds)

unfoldable pub newest_first : List (ℕ × String) → List (ℕ × String)
newest_first [] = []
newest_first (d ∷ ds) = insert_dated d (newest_first ds)

-- The backups whose name ends with a time.
abbrev pub add_dated : Option ℕ → String → List (ℕ × String) → List (ℕ × String)
add_dated none path ds = ds
add_dated (some at) path ds = (at, path) ∷ ds

unfoldable pub dated : List Backup → List (ℕ × String)
dated [] = []
dated (b ∷ bs) = add_dated b.at b.path (dated bs)

-- found[min(len(found), 5):]
abbrev pub drop : ℕ → List (ℕ × String) → List (ℕ × String)
drop zero ds = ds
drop (suc n) [] = []
drop (suc n) (d ∷ ds) = drop n ds

unfoldable pub outdated : List Backup → List (ℕ × String)
unfolding dated newest_first
outdated bs = drop 5 (newest_first (dated bs))

abbrev pub drop_backup : String → List Backup → List Backup
drop_backup path [] = []
drop_backup path (b ∷ bs) =
    let rest = drop_backup path bs in if b.path == path then rest else b ∷ rest

abbrev pub removed : String → Ran Machine Fault Bool → Machine
removed path (returned true m) = record m { backups = drop_backup path m.backups }
removed path (returned false m) = m
removed path (stopped e m) = m

-- os.Remove, whose error is ignored
unfoldable pub remove_backups : List (ℕ × String) → Machine → Machine
unfolding attempt run
remove_backups [] m = m
remove_backups ((at, path) ∷ ds) m =
    remove_backups ds (removed path (attempt (run command_failed) m))

unfoldable pub keep_five : Machine → Machine
unfolding outdated remove_backups
keep_five m = remove_backups (outdated m.backups) m

-- The new backup, and then the retention: making the folder and the backup tool may fail.
unfoldable pub backup : Backup → Act (Unit {0})
unfolding run ◌>>=◌
backup new =
    run backup_failed
    >> run backup_failed
    >> changes (λ m. record m { backups = new ∷ m.backups })
    >> changes keep_five
