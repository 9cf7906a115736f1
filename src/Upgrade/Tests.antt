-- ===== src/Upgrade/Tests.antt =====
use grasshopper.Upgrade.Stopped.{Restored, cutover-stopped, Untouched}
use grasshopper.Upgrade.Health.{cutover-answers}
use grasshopper.Upgrade.Upgraded.{asked_for, Upgraded, upgrade-returned, upgrade-nightly}
use grasshopper.Upgrade.Rollback.{rollback-rollback}
use grasshopper.Upgrade.Backups.{keep_five}
use grasshopper.Upgrade.Cutover.{cutover}
use grasshopper.Upgrade.Command.{upgrade, read_skip, rollback}
use grasshopper.Upgrade.Archives.{Release, archive_folder, fetch_archive}
use grasshopper.Upgrade.{
  Entry, Poll, Backup, Machine, unreachable, replied, archive_version, root_version,
  failed_and_restored,
}
use grasshopper.Versions.{compare_parsed, parse_version, Version, newer}
use grasshopper.Actions.{after, attempt, returned, stopped}
use grasshopper.Base.{◌≡◌, refl, Bool, true, none, some, List, [], ◌∷◌, ◌++◌, codes, ℕ, ◌≢◌, ◌⊎◌}
use Prim.Native.String.{String}

-- Upgrades of a machine that runs release 1.0.0.

abbrev old_folder : String
old_folder = "grasshopper-server-1.0.0"

abbrev new_folder : String
new_folder = "grasshopper-server-1.1.0"

abbrev works_ten : List Bool
works_ten = true ∷ true ∷ true ∷ true ∷ true ∷ true ∷ true ∷ true ∷ true ∷ true ∷ []

abbrev entry : String → String → Entry
entry folder version = record { name = folder; is_dir = true; reports = some version }

abbrev good_answer : String → List Poll
good_answer version = unreachable ∷ replied 200 true "owner" version true ∷ []

-- A machine that has both archives and is asked for 1.1.0.
abbrev machine : Machine
machine = record {
  entries = entry old_folder "1.0.0" ∷ entry new_folder "1.1.0" ∷ [];
  current = some old_folder;
  previous = none;
  skip = none;
  plist_root = "current";
  saved_root = "";
  serving = some old_folder;
  backups = [];
  outcomes = true ∷ true ∷ works_ten ++ works_ten;
  listings = [];
  polls = good_answer "1.1.0" ∷ good_answer "1.0.0" ∷ [];
}

abbrev saved : Backup
saved = record { path = "pre-1.1.0.db"; at = some 10 }

abbrev no_release : String → Release
no_release version = record { sums = none; zip = none }

abbrev upgraded : Machine
unfolding upgrade
upgraded = after (upgrade no_release (some "v1.1.0") saved "" machine)

upgrade-done : upgrade no_release (some "v1.1.0") saved "" machine ≡ returned tt upgraded
unfolding upgrade attempt compare_parsed grasshopper.Upgrade.Backups.keep_five
upgrade-done = refl

serves_new : upgraded.serving ≡ some new_folder
unfolding upgraded grasshopper.Upgrade.Backups.keep_five
serves_new = refl

upgrade-nightly_example :
    Untouched machine upgraded
    ⊎ ((running : String) × (target : String) × (wanted : Version) × (root_version "current" machine
          ≡ some running)
        × (parse_version target ≡ some wanted)
        × ((have : Version)
            → parse_version running ≡ some have
            → compare_parsed wanted have ≡ newer)
        × (read_skip machine ≢ target)
        × (upgraded.serving ≡ some (archive_folder target)))
upgrade-nightly_example = upgrade-nightly no_release (some "v1.1.0") saved machine upgrade-done

-- The new server does not answer, and the old one does.
abbrev sick : Machine
sick = record machine { polls = (unreachable ∷ []) ∷ good_answer "1.0.0" ∷ [] }

abbrev restored : Machine
unfolding cutover attempt
restored = after (cutover new_folder "1.1.0" sick)

cutover-fails : cutover new_folder "1.1.0" sick ≡ stopped failed_and_restored restored
unfolding cutover attempt
cutover-fails = refl

cutover-stopped_example : Restored sick restored
cutover-stopped_example = cutover-stopped new_folder "1.1.0" sick cutover-fails cc

-- A rollback, and a second one.
abbrev two_answers : Machine
two_answers = record machine { previous = some new_folder }

abbrev rolled_back : Machine
unfolding rollback
rolled_back = after (rollback two_answers)

abbrev forward_again : Machine
unfolding rollback rolled_back
forward_again = after (rollback rolled_back)

rollback-done : rollback two_answers ≡ returned tt rolled_back
unfolding rollback attempt
rollback-done = refl

rollback-again : rollback rolled_back ≡ returned tt forward_again
unfolding rollback attempt rolled_back
rollback-again = refl

rollback-rollback_example :
    (forward_again.current ≡ some old_folder)
    × (forward_again.previous ≡ some new_folder)
    × (forward_again.serving ≡ some old_folder)
    × (forward_again.entries ≡ two_answers.entries)
rollback-rollback_example = rollback-rollback two_answers rollback-done rollback-again

abbrev hex_sum : List ℕ
hex_sum = codes "0123456789abcdef0123456789abcdef0123456789abcdef0123456789abcdef"

abbrev published : Release
published = record {
  sums = some (hex_sum ++ codes "  grasshopper-server-darwin-arm64-1.2.0.zip\n");
  zip = some (record { digest = hex_sum; unpacked = some (some "1.2.0") });
}

abbrev fetched : Machine
unfolding fetch_archive
fetched = after (fetch_archive published "1.2.0" machine)

fetch-done : fetch_archive published "1.2.0" machine ≡ returned "grasshopper-server-1.2.0" fetched
unfolding fetch_archive
fetch-done = refl

-- An upgrade to 1.2.0, which is downloaded.
abbrev asked : Machine
asked = record machine { polls = good_answer "1.2.0" ∷ [] }

abbrev brought : Machine
unfolding upgrade
brought = after (upgrade (λ _. published) (some "v1.1.0") saved "1.2.0" asked)

upgrade_to-done : upgrade (λ _. published) (some "v1.1.0") saved "1.2.0" asked ≡ returned tt brought
unfolding upgrade attempt compare_parsed grasshopper.Upgrade.Backups.keep_five
upgrade_to-done = refl

brings_new : brought.serving ≡ some "grasshopper-server-1.2.0"
unfolding brought grasshopper.Upgrade.Backups.keep_five
brings_new = refl

upgrade-returned_example :
    (running : String) × (target : String) × (root_version "current" asked ≡ some running)
    × (asked_for (some "v1.1.0") "1.2.0" ≡ some target)
    × Upgraded (λ _. published) "1.2.0" running target asked brought
upgrade-returned_example =
    upgrade-returned (λ _. published) (some "v1.1.0") saved "1.2.0" asked upgrade_to-done

cutover-answers_example :
    cutover new_folder "1.1.0" (record machine {
      current = some old_folder;
      outcomes = true ∷ true ∷ true ∷ true ∷ true ∷ true ∷ [];
      polls = good_answer "1.1.0" ∷ [];
    })
    ≡ returned tt (record machine {
      current = some new_folder;
      previous = some old_folder;
      serving = some new_folder;
      outcomes = [];
      polls = [];
    })
unfolding archive_version
cutover-answers_example =
    cutover-answers new_folder "1.1.0" old_folder "1.0.0" machine [] (good_answer "1.1.0") [] refl
      refl
