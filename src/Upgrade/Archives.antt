-- ===== src/Upgrade/Archives.antt =====
-- fetchArchive and pruneArchives (cmd/grasshopper-server/upgrade.go).
use grasshopper.Upgrade.{
  Act, run, changes, require, archive_version, Entry, Machine, command_failed, sums_unavailable,
  not_listed, archive_unavailable, checksum_mismatch, not_an_archive, wrong_archive, rename_failed,
}
use grasshopper.Base.{
  ℕ, Bool, true, false, not, ◌&&◌, Option, none, some, List, [], ◌∷◌, String, ◌==◌, nat_eq,
  string_eq, list_eq, option_eq, if◌then◌else◌, codes, cut_prefix, is_some,
}
use grasshopper.Actions.{give, ◌>>=◌, ◌>>◌, returned, stopped}
use grasshopper.Versions.{parse_version}
use grasshopper.Checksums.{checksum_for}
use Prim.Native.String.{◌++◌ as append}

-- A release as the download of each of its files gave it: the sums, and the archive with its SHA-256
-- sum and what is in it.
pub record Zip : Type 0 where
  pub digest : List ℕ
  -- The version that the extracted program prints; the outer `none` is a failed extraction.
  pub unpacked : Option (Option String)

pub record Release : Type 0 where
  pub sums : Option (List ℕ)
  pub zip : Option Zip

abbrev pub archive_folder : String → String
archive_folder version = append "grasshopper-server-" version

abbrev pub archive_file : String → List ℕ
archive_file version = codes (append (append "grasshopper-server-darwin-arm64-" version) ".zip")

abbrev pub drop_entry : String → List Entry → List Entry
drop_entry folder [] = []
drop_entry folder (e ∷ es) =
    let rest = drop_entry folder es in if e.name == folder then rest else e ∷ rest

-- os.RemoveAll(root) and then os.Rename(staging, root), which may fail.
unfoldable pub put_archive : String → Option String → Act (Unit {0})
unfolding run ◌>>=◌
put_archive folder reported =
    changes (λ m. record m { entries = drop_entry folder m.entries })
    >> run rename_failed
    >> changes (λ m. record m {
      entries = record { name = folder; is_dir = true; reports = reported } ∷ m.entries;
    })

-- What the extracted program prints must be the version.
unfoldable pub place : String → Option (Option String) → Act (Unit {0})
unfolding put_archive ◌>>=◌
place version none m = stopped not_an_archive m
place version (some reported) m =
    (require wrong_archive (reported == some version)
        >> put_archive (archive_folder version) reported)
      m

-- The archive must have the sum that the release lists; the staging folder may fail.
unfoldable pub check_zip : String → List ℕ → Option Zip → Act (Unit {0})
unfolding run place ◌>>=◌
check_zip version want none m = stopped archive_unavailable m
check_zip version want (some zip) m =
    (require checksum_mismatch (zip.digest == want)
        >> run command_failed
        >> place version zip.unpacked)
      m

unfoldable pub check_sum : Release → String → Option (List ℕ) → Act (Unit {0})
unfolding check_zip
check_sum release version none m = stopped not_listed m
check_sum release version (some want) m = check_zip version want release.zip m

unfoldable pub download_with : Release → String → Option (List ℕ) → Act (Unit {0})
unfolding checksum_for check_sum
download_with release version none m = stopped sums_unavailable m
download_with release version (some sums) m =
    check_sum release version (checksum_for sums (archive_file version)) m

unfoldable pub download_archive : Release → String → Act (Unit {0})
unfolding download_with
download_archive release version = download_with release version release.sums

-- The archive of the version, an earlier extraction if there is one.
unfoldable pub fetch_archive : Release → String → Act String
unfolding archive_version download_archive ◌>>=◌
fetch_archive release version m =
    if archive_version (archive_folder version) m == some version
    then returned (archive_folder version) m
    else (download_archive release version >> give (archive_folder version)) m

-- A folder that an earlier upgrade extracted and that neither link names.
unfoldable pub is_unused : Option String → Option String → Entry → Bool
unfolding parse_version
is_unused current previous e = elim (cut_prefix e.name "grasshopper-server-") [
  | none ↦ false
  | some version ↦
      e.is_dir
      && not (current == some e.name)
      && not (previous == some e.name)
      && is_some (parse_version version)
]

-- Each removal may fail.
abbrev pub remove_entry : Bool → Entry → List Entry → List Entry
remove_entry works e es = if works then es else e ∷ es

abbrev pub next_outcome : List Bool → Bool × List Bool
next_outcome [] = (false, [])
next_outcome (works ∷ rest) = (works, rest)

-- An entry, with the rest of the loop from the outcomes that it leaves.
abbrev pub prune_one :
    Bool → Entry → List Bool → (List Bool → List Entry × List Bool) → List Entry × List Bool
prune_one true e outcomes others =
    let (works, rest) = next_outcome outcomes in
    let (left, end) = others rest in (remove_entry works e left, end)
prune_one false e outcomes others = let (left, end) = others outcomes in (e ∷ left, end)

unfoldable pub prune_entries :
    Option String → Option String → List Entry → List Bool → List Entry × List Bool
prune_entries current previous [] outcomes = ([], outcomes)
prune_entries current previous (e ∷ es) outcomes =
    prune_one (is_unused current previous e) e outcomes (prune_entries current previous es)

abbrev pub pruned_with : Machine → List Entry × List Bool → Machine
pruned_with m (left, rest) = record m { entries = left; outcomes = rest }

-- os.ReadDir may fail; then nothing is removed.
abbrev pub prune_read : Bool → List Bool → Machine → Machine
unfolding prune_entries
prune_read true rest m = pruned_with m (prune_entries m.current m.previous m.entries rest)
prune_read false rest m = record m { outcomes = rest }

unfoldable pub prune_archives : Machine → Machine
unfolding prune_read
prune_archives m = let (works, rest) = next_outcome m.outcomes in prune_read works rest m
