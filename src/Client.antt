-- ===== src/Client.antt =====
-- The client's own updates (internal/client/update.go): the folder that all bridges of a machine share.
pub mod Install
pub mod Kept
pub mod Followed
pub mod Stopped
mod Tests
use grasshopper.Versions.{parse_client_version, compare_versions, newer}
use grasshopper.Base.{
  if◌then◌else◌, is_some, has_prefix, ◌==◌, nat_eq, string_eq, option_eq, list_eq, String, Bool, ℕ,
  ltb, true, false, not, ◌&&◌, Option, none, some, List, [], ◌∷◌,
}
use grasshopper.Actions.{Ran, returned, stopped, give, stop, attempt, ◌>>=◌, ◌>>◌}

pub data Failure : Type 0 where
  invalid_version no_client_release folder_failed sums_missing sum_not_listed zip_missing : Failure
  sum_differs no_program wrong_program rename_refused write_failed no_identity : Failure

-- A folder of `versions`: whether it holds a regular program, what that prints, and whether it was
-- changed less than an hour ago.
pub record Folder : Type 0 where
  pub name : String
  pub program : Option (Option String)
  pub recent : Bool

-- The file `current`: its text without the space around it, and the number of its bytes.
pub record CurrentFile : Type 0 where
  pub version : String
  pub bytes : ℕ

-- `outcomes` says for the file operations still to come which succeed.
pub record Managed : Type 0 where
  pub current : Option CurrentFile
  pub versions : List Folder
  pub last_error : Option String
  pub updates_off : Bool
  pub outcomes : List Bool

abbrev pub Task {ℓ} : Type ℓ → Type ℓ
Task A = Managed → Ran Managed Failure A

abbrev pub file_with : Failure → Managed → List Bool → Ran Managed Failure (Unit {0})
file_with failure m [] = stopped failure m
file_with failure m (works ∷ rest) =
    let m' : Managed = record m { outcomes = rest } in
    if works then returned tt m' else stopped failure m'

-- A file operation or a child process.
unfoldable pub file : Failure → Task (Unit {0})
file failure m = file_with failure m m.outcomes

abbrev pub folder_named : String → List Folder → Option Folder
folder_named name [] = none
folder_named name (f ∷ fs) = if f.name == name then some f else folder_named name fs

abbrev pub program_of : Option Folder → Option (Option String)
program_of none = none
program_of (some f) = f.program

-- The program that managedProgram names, as far as it is a regular file.
unfoldable pub managed_program : String → Managed → Option (Option String)
managed_program version m = program_of (folder_named version m.versions)

unfoldable pub client_at : Option CurrentFile → Managed → Option String
unfolding parse_client_version managed_program
client_at none m = none
client_at (some f) m =
    if ltb 32 f.bytes
    then none
    else if is_some (parse_client_version f.version) && is_some (managed_program f.version m)
    then some f.version
    else none

unfoldable pub managed_client : Managed → Option String
unfolding client_at
managed_client m = client_at m.current m

abbrev pub newer_than : String → Option String → Option String
unfolding compare_versions
newer_than running none = none
newer_than running (some version) = elim (compare_versions version running) [
  | none ↦ none
  | some order ↦ elim order [ newer ↦ some version | _ ↦ none ]
]

-- HandOffTarget, by the version whose program it is
unfoldable pub hand_off_target : String → Managed → Option String
unfolding managed_client newer_than
hand_off_target running m = newer_than running (managed_client m)

-- reportsVersion of a program
unfoldable pub reports_version : String → Managed → Bool
unfolding managed_program
reports_version version m = managed_program version m == some (some version)

-- What pruneVersions removes: neither version that is kept, and no staging folder in use.
unfoldable pub is_stale : String → Option String → Folder → Bool
unfolding has_prefix
is_stale current previous f =
    not (f.name == current)
    && not (previous == some f.name)
    && not (has_prefix f.name ".tmp-" && f.recent)

abbrev pub split_outcome : List Bool → Bool × List Bool
split_outcome [] = (false, [])
split_outcome (works ∷ rest) = (works, rest)

abbrev pub prune_folder :
    Bool → Folder → List Bool → (List Bool → List Folder × List Bool) → List Folder × List Bool
prune_folder true f outcomes others =
    let (works, rest) = split_outcome outcomes in
    let (left, end) = others rest in (if works then left else f ∷ left, end)
prune_folder false f outcomes others = let (left, end) = others outcomes in (f ∷ left, end)

unfoldable pub prune_folders :
    String → Option String → List Folder → List Bool → List Folder × List Bool
prune_folders current previous [] outcomes = ([], outcomes)
prune_folders current previous (f ∷ fs) outcomes =
    prune_folder (is_stale current previous f) f outcomes (prune_folders current previous fs)

abbrev pub kept_folders : Managed → List Folder × List Bool → Managed
kept_folders m (left, rest) = record m { versions = left; outcomes = rest }

-- os.ReadDir may fail; then nothing is removed.
abbrev pub prune_listed : Bool → List Bool → String → Option String → Managed → Managed
unfolding prune_folders
prune_listed true rest current previous m =
    kept_folders m (prune_folders current previous m.versions rest)
prune_listed false rest current previous m = record m { outcomes = rest }

unfoldable pub prune_versions : String → Option String → Managed → Managed
unfolding prune_listed
prune_versions current previous m =
    let (works, rest) = split_outcome m.outcomes in prune_listed works rest current previous m
