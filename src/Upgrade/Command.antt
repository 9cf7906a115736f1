-- ===== src/Upgrade/Command.antt =====
-- upgrade, rollback and the choice between them (cmd/grasshopper-server/upgrade.go).
use grasshopper.Upgrade.Backups.{backup}
use grasshopper.Upgrade.Adopt.{adopt}
use grasshopper.Upgrade.Archives.{fetch_archive, prune_archives, Release}
use grasshopper.Upgrade.Cutover.{cutover}
use grasshopper.Upgrade.{
  Act, run, changes, need, archive_version, root_version, Backup, Machine, command_failed,
  no_version, nothing_to_roll_back, latest_unknown, invalid_release,
}
use grasshopper.Versions.{parse_version, compare_parsed, Version, older, newer}
use grasshopper.Actions.{give, on_error, ◌>>=◌, ◌>>◌, returned, stopped}
use grasshopper.Base.{
  if◌then◌else◌, trim_prefix, ◌==◌, nat_eq, string_eq, option_eq, list_eq, String, Bool, true,
  false, ◌&&◌, ◌||◌, Option, none, some, List, [], ◌∷◌,
}

-- readService, of which the folder of the archives is what the upgrade changes
unfoldable pub read_service : Act String
unfolding run ◌>>=◌
read_service = run command_failed >> run command_failed >> λ m. returned m.plist_root m

-- latestVersion: the tag that the release's page gives
abbrev pub tagged : Option String → Option String
tagged none = none
tagged (some tag) = if tag == "" then none else some (trim_prefix tag "v")

unfoldable pub latest_version : Option String → Act String
latest_version tag = need latest_unknown (tagged tag)

-- The text of the skip file, empty when there is none.
abbrev pub read_skip : Machine → String
read_skip m = elim m.skip [ none ↦ "" | some version ↦ version ]

abbrev pub write_skip : String → List Bool → Machine → Machine
write_skip version [] m = m
write_skip version (works ∷ rest) m =
    if works
    then record m { skip = some version; outcomes = rest }
    else record m { outcomes = rest }

unfoldable pub record_skip : String → Machine → Machine
record_skip version m = write_skip version m.outcomes m

abbrev pub at_least : Version → Option Version → Bool
unfolding compare_parsed
at_least wanted none = false
at_least wanted (some skipped) = elim (compare_parsed wanted skipped) [ older ↦ false | _ ↦ true ]

abbrev pub remove_skip : List Bool → Machine → Machine
remove_skip [] m = m
remove_skip (works ∷ rest) m =
    if works then record m { skip = none; outcomes = rest } else record m { outcomes = rest }

-- What was skipped is forgotten once a release at least as new runs.
unfoldable pub clear_skip : Version → Machine → Machine
unfolding parse_version
clear_skip wanted m =
    if at_least wanted (parse_version (read_skip m)) then remove_skip m.outcomes m else m

-- Whether the latest release is not newer than the one that runs.
unfoldable pub not_newer : Version → Option Version → Bool
unfolding compare_parsed
not_newer wanted none = false
not_newer wanted (some have) = elim (compare_parsed wanted have) [ newer ↦ false | _ ↦ true ]

-- The cutover, a note of the release if it fails, and what an upgrade that worked cleans up.
unfoldable pub put_live : String → String → Version → Act (Unit {0})
unfolding cutover on_error record_skip clear_skip prune_archives ◌>>=◌
put_live folder target wanted = do
  on_error (cutover folder target) (record_skip target)
  changes (clear_skip wanted)
  changes prune_archives

unfoldable pub install : Release → Backup → String → Version → String → Act (Unit {0})
unfolding fetch_archive backup adopt put_live ◌>>=◌
install release saved target wanted running = do
  folder ← fetch_archive release target
  backup saved
  adopt running
  put_live folder target wanted

-- The target, wanted as `--to` says or as the latest release.
unfoldable pub target_of : Option String → String → Act String
unfolding latest_version
target_of tag to = if to == "" then latest_version tag else give to

-- A run of the nightly job stops here: it only moves forward, and never to a release that was backed
-- out.
unfoldable pub is_held : String → String → Version → String → Machine → Bool
unfolding parse_version not_newer
is_held to target wanted running m =
    to == "" && (not_newer wanted (parse_version running) || read_skip m == target)

-- The release to install is known: it may be the one that runs, or held.
unfoldable pub install_unless :
    (String → Release) → Backup → String → String → String → Option Version → Act (Unit {0})
unfolding is_held install
install_unless releases saved to running target none m = stopped invalid_release m
install_unless releases saved to running target (some wanted) m =
    if target == running || is_held to target wanted running m
    then returned tt m
    else install (releases target) saved target wanted running m

unfoldable pub upgrade_from :
    (String → Release) → Option String → Backup → String → Option String → Act (Unit {0})
unfolding target_of install_unless parse_version ◌>>=◌
upgrade_from releases tag saved to none m = stopped no_version m
upgrade_from releases tag saved to (some running) m =
    (target_of tag to >>= λ target.
    install_unless releases saved to running target (parse_version target))
      m

-- `tag` is the tag of the latest release, and `to` the release that the flag --to names, or empty.
unfoldable pub upgrade : (String → Release) → Option String → Backup → String → Act (Unit {0})
unfolding read_service root_version upgrade_from ◌>>=◌
upgrade releases tag saved to =
    read_service >>= λ root m. upgrade_from releases tag saved to (root_version root m) m

abbrev pub rollback_from : Option String → Bool → Option String → Option String → Act (Unit {0})
unfolding cutover record_skip ◌>>=◌
rollback_from none linked running version m = stopped nothing_to_roll_back m
rollback_from (some previous) false running version m = stopped nothing_to_roll_back m
rollback_from (some previous) true none version m = stopped no_version m
rollback_from (some previous) true (some running) none m = stopped no_version m
rollback_from (some previous) true (some running) (some version) m =
    (cutover previous version >> changes (record_skip running)) m

abbrev pub version_under : Option String → Machine → Option String
unfolding archive_version
version_under none m = none
version_under (some folder) m = archive_version folder m

unfoldable pub rollback : Act (Unit {0})
unfolding read_service root_version rollback_from version_under ◌>>=◌
rollback = read_service >>= λ root m.
    rollback_from m.previous (root == "current") (root_version root m) (version_under m.previous m)
      m
