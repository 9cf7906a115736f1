-- ===== src/Client/Install.antt =====
-- makeCurrent, Install, Follow and FollowServer (internal/client/update.go).
use grasshopper.Client.{
  Task, file, managed_client, reports_version, prune_versions, Failure, Folder, CurrentFile,
  Managed, invalid_version, no_client_release, folder_failed, sums_missing, sum_not_listed,
  zip_missing, sum_differs, no_program, wrong_program, rename_refused, write_failed, no_identity,
}
use grasshopper.Checksums.{checksum_for}
use grasshopper.Actions.{give, attempt, on_error, ◌>>=◌, ◌>>◌, Ran, returned, stopped}
use grasshopper.Versions.{parse_client_version}
use grasshopper.Base.{
  if◌then◌else◌, is_some, codes, ◌==◌, nat_eq, string_eq, option_eq, list_eq, ℕ, String, Bool, true,
  false, not, ◌||◌, Option, none, some, List, [], ◌∷◌, suc,
}
use Prim.Native.String.{len, ◌++◌ as append}

-- The files of a release, as the downloads gave them: the archive has a SHA-256 sum and may hold a
-- program, which prints a version.
pub record Archive : Type 0 where
  pub digest : List ℕ
  pub program : Option (Option String)

pub record ReleaseFiles : Type 0 where
  pub sums : Option (List ℕ)
  pub zip_file : Option Archive

-- os.Remove of the last error, whose own error is ignored
abbrev pub cleared : Ran Managed Failure Bool → Managed
cleared (returned true m) = record m { last_error = none }
cleared (returned false m) = m
cleared (stopped e m) = m

unfoldable pub clear_error : Managed → Managed
unfolding attempt file
clear_error m = cleared (attempt (file write_failed) m)

-- The version and a newline.
abbrev pub current_file : String → CurrentFile
current_file version = record { version = version; bytes = suc (len version) }

unfoldable pub finish_current : String → Option String → Managed → Managed
unfolding clear_error prune_versions
finish_current version previous m =
    prune_versions version previous
      (clear_error (record m { current = some (current_file version) }))

unfoldable pub make_current : String → Task (Unit {0})
unfolding managed_client file finish_current ◌>>=◌
make_current version m =
    (file write_failed >> λ m'. returned tt (finish_current version (managed_client m) m')) m

abbrev pub demand : Failure → Bool → Task (Unit {0})
demand failure holds m = if holds then returned tt m else stopped failure m

abbrev pub drop_folder : String → List Folder → List Folder
drop_folder name [] = []
drop_folder name (f ∷ fs) =
    let rest = drop_folder name fs in if f.name == name then rest else f ∷ rest

-- os.Rename of the staging folder. When it fails, the folder that is there must report the version.
unfoldable pub placed_or_there : String → Bool → Task (Unit {0})
unfolding reports_version
placed_or_there version true m = returned tt (record m {
  versions =
      record { name = version; program = some (some version); recent = true }
      ∷ drop_folder version m.versions;
})
placed_or_there version false m = demand rename_refused (reports_version version m) m

unfoldable pub place_program : String → Option (Option String) → Task (Unit {0})
unfolding file attempt placed_or_there make_current ◌>>=◌
place_program version none m = stopped no_program m
place_program version (some prints) m =
    (file folder_failed
        >> file write_failed
        >> demand wrong_program (prints == some version)
        >> attempt (file rename_refused)
        >>= λ renamed. placed_or_there version renamed >> make_current version)
      m

unfoldable pub check_archive : String → List ℕ → Option Archive → Task (Unit {0})
unfolding place_program ◌>>=◌
check_archive version want none m = stopped zip_missing m
check_archive version want (some zip_file) m =
    (demand sum_differs (zip_file.digest == want) >> place_program version zip_file.program) m

unfoldable pub check_listed : ReleaseFiles → String → Option (List ℕ) → Task (Unit {0})
unfolding check_archive
check_listed files version none m = stopped sum_not_listed m
check_listed files version (some want) m = check_archive version want files.zip_file m

abbrev pub client_archive : String → String → List ℕ
client_archive target version =
    codes (append (append "grasshopper-client-" target) (append (append "-" version) ".zip"))

unfoldable pub download_client : ReleaseFiles → String → String → Option (List ℕ) → Task (Unit {0})
unfolding checksum_for check_listed
download_client files target version none m = stopped sums_missing m
download_client files target version (some sums) m =
    check_listed files version (checksum_for sums (client_archive target version)) m

unfoldable pub install_new : ReleaseFiles → Option String → String → Task (Unit {0})
unfolding file download_client ◌>>=◌
install_new files none version m = stopped no_client_release m
install_new files (some target) version m =
    (file folder_failed >> download_client files target version files.sums) m

-- Install; `target` is releaseTarget, the platform if there are releases for it.
unfoldable pub install_client : ReleaseFiles → Option String → String → Task (Unit {0})
unfolding parse_client_version reports_version make_current install_new
install_client files target version m =
    if not (is_some (parse_client_version version))
    then stopped invalid_version m
    else if reports_version version m
    then make_current version m
    else install_new files target version m

abbrev pub noted : String → Ran Managed Failure Bool → Managed
noted version (returned true m) = record m { last_error = some version }
noted version (returned false m) = m
noted version (stopped e m) = m

-- The last error is written, if it can be.
unfoldable pub note_error : String → Managed → Managed
unfolding attempt file
note_error version m = noted version (attempt (file write_failed) m)

-- Follow; the result is empty when nothing changed.
unfoldable pub follow : (String → ReleaseFiles) → Option String → String → Task String
unfolding parse_client_version managed_client install_client note_error on_error ◌>>=◌
follow releases target server m =
    if not (is_some (parse_client_version server)) || managed_client m == some server
    then returned "" m
    else (on_error (install_client (releases server) target server) (note_error server)
          >> give server)
        m

abbrev pub follow_identity : (String → ReleaseFiles) → Option String → Option String → Task String
unfolding follow
follow_identity releases target none m = stopped no_identity m
follow_identity releases target (some server) m = follow releases target server m

-- FollowServer; `identity` is the version that the server reports, if it answers.
unfoldable pub follow_server :
    (String → ReleaseFiles) → Option String → String → Option String → Task String
unfolding parse_client_version follow_identity
follow_server releases target running identity m =
    if m.updates_off || not (is_some (parse_client_version running))
    then returned "" m
    else follow_identity releases target identity m
