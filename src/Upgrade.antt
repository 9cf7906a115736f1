-- ===== src/Upgrade.antt =====
-- The server's own upgrade (cmd/grasshopper-server/upgrade.go): the machine that it changes, and the
-- actions that may fail. Folders are named by their base name: all stand in the one folder that holds
-- the archives and the links `current` and `previous`.
pub mod Cutover
pub mod Archives
pub mod Backups
pub mod Adopt
pub mod Command
pub mod Links
pub mod Outcomes
pub mod Stopped
pub mod Rollback
pub mod Nightly
pub mod Health
pub mod Live
pub mod Upgraded
pub mod Kept
pub mod Adopted
pub mod Installed
mod Tests
use grasshopper.Base.{
  ℕ, Bool, true, false, ◌&&◌, Option, none, some, List, [], ◌∷◌, String, ◌==◌, nat_eq, string_eq,
  if◌then◌else◌,
}
use grasshopper.Actions.{Ran, returned, stopped, give, stop, attempt, ◌>>=◌, ◌>>◌}

pub data Fault : Type 0 where
  command_failed link_failed copy_failed no_token still_listed bad_health : Fault
  wrong_server search_failed no_answer cancelled no_version not_a_link : Fault
  failed_and_restored restore_failed nothing_to_roll_back adopt_failed : Fault
  latest_unknown invalid_release sums_unavailable not_listed archive_unavailable : Fault
  checksum_mismatch not_an_archive wrong_archive rename_failed backup_failed : Fault

-- A name in the folder of the archives, and what the program in it prints as its version.
pub record Entry : Type 0 where
  pub name : String
  pub is_dir : Bool
  pub reports : Option String

-- One round of a health check: what /connection and then the search answered.
pub data Poll : Type 0 where
  unreachable : Poll
  deadline_of_command : Poll
  replied : (status : ℕ) (decoded : Bool) (role version : String) (search : Bool) → Poll

-- A backup of the database before an upgrade, and the time in its name if it has one.
pub record Backup : Type 0 where
  pub path : String
  pub at : Option ℕ

-- `outcomes` says for the actions still to come which succeed; `listings` what launchd lists while a
-- job is unloaded; `polls` what the health checks to come are answered before their deadline.
pub record Machine : Type 0 where
  pub entries : List Entry
  pub current : Option String
  pub previous : Option String
  pub skip : Option String
  -- The folder that the plist's program is in, and that of the copy of the plist.
  pub plist_root : String
  pub saved_root : String
  -- The folder from which launchd started the job that runs.
  pub serving : Option String
  pub backups : List Backup
  pub outcomes : List Bool
  pub listings : List (List Bool)
  pub polls : List (List Poll)

abbrev pub Act {ℓ} : Type ℓ → Type ℓ
Act A = Machine → Ran Machine Fault A

abbrev pub command_with : Fault → Machine → List Bool → Ran Machine Fault (Unit {0})
command_with fault m [] = stopped fault m
command_with fault m (works ∷ rest) =
    let m' : Machine = record m { outcomes = rest } in
    if works then returned tt m' else stopped fault m'

-- An action outside the program: a command, a file operation.
unfoldable pub run : Fault → Act (Unit {0})
run fault m = command_with fault m m.outcomes

-- What the action changes when it succeeds.
abbrev pub changes : (Machine → Machine) → Act (Unit {0})
changes f m = returned tt (f m)

abbrev pub require : Fault → Bool → Act (Unit {0})
require fault holds m = if holds then returned tt m else stopped fault m

abbrev pub need {ℓ} : {A : Type ℓ} → Fault → Option A → Act A
need fault none m = stopped fault m
need fault (some a) m = returned a m

abbrev pub entry_named : String → List Entry → Option Entry
entry_named folder [] = none
entry_named folder (e ∷ es) = if e.name == folder then some e else entry_named folder es

-- archiveVersion of a folder beside the links
unfoldable pub archive_version : String → Machine → Option String
archive_version folder m = elim (entry_named folder m.entries) [ none ↦ none | some e ↦ e.reports ]

-- The folder that a program under `root` comes from: `current` is a link.
abbrev pub resolve : String → Machine → Option String
resolve root m = if root == "current" then m.current else some root

unfoldable pub root_version : String → Machine → Option String
unfolding archive_version
root_version root m = elim (resolve root m) [ none ↦ none | some folder ↦ archive_version folder m ]

-- link: a temporary link, renamed onto the path. Nothing changes unless both succeed.
unfoldable pub link_current : String → Act (Unit {0})
unfolding run ◌>>=◌
link_current folder =
    run link_failed >> run link_failed >> changes (λ m. record m { current = some folder })

unfoldable pub link_previous : String → Act (Unit {0})
unfolding run ◌>>=◌
link_previous folder =
    run link_failed >> run link_failed >> changes (λ m. record m { previous = some folder })
