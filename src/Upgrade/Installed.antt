-- ===== src/Upgrade/Installed.antt =====
-- What an upgrade has done when it returns.
use grasshopper.Upgrade.Links.{Keeps-run}
use grasshopper.Upgrade.Archives.{
  archive_folder, archive_file, drop_entry, put_archive, place, check_zip, fetch_archive, Zip,
  Release, check_sum, download_with, download_archive,
}
use grasshopper.Upgrade.{
  run, require, archive_version, Fault, Machine, command_failed, checksum_mismatch, wrong_archive,
  rename_failed, Entry,
}
use grasshopper.Checksums.{checksum_for}
use grasshopper.Actions.{
  bind_returned, Keeps, returned_state, kept_returned, returned, ◌>>=◌, returned_value, Ran,
}
use grasshopper.Base.{
  Bool-cases, ◌==◌, eq_of_test, test_self, nat_eq, string_eq, option_eq, list_eq, ℕ, String, ◌≡◌,
  refl, ◌∙◌, subst, ◌⊎◌, inl, inr, Bool, true, false, Option, none, some, List, sym, ap, ◌∷◌,
}

-- What fetching an archive leaves alone.
abbrev pub Linked : Machine → Machine → Type 0
Linked m x =
    (x.current ≡ m.current)
    × (x.previous ≡ m.previous)
    × (x.serving ≡ m.serving)
    × (x.skip ≡ m.skip)
    × (x.plist_root ≡ m.plist_root)

require_returned :
    (fault : Fault) (b : Bool) (m : Machine) {end : Machine}
    → require fault b m ≡ returned tt end
    → (b ≡ true) × (m ≡ end)
require_returned fault true m h = (refl, returned_state h)
require_returned fault false m h = absurd cc

Linked-run : (m : Machine) (fault : Fault) → Keeps (Linked m) (run fault)
Linked-run m fault = Keeps-run _ ((λ _ _ p. p), (λ _ _ p. p), (λ _ _ p. p)) fault

archive_version-first :
    (folder : String) (reported : Option String) (m : Machine) (es : List Entry)
    → archive_version folder
        (record m { entries = record { name = folder; is_dir = true; reports = reported } ∷ es })
      ≡ reported
unfolding archive_version
archive_version-first folder reported m es = rw (archive_version, test_self folder) refl

put_archive-returned :
    (folder : String) (reported : Option String) (m0 m : Machine) {end : Machine}
    → put_archive folder reported m ≡ returned tt end
    → Linked m0 m
    → (archive_version folder end ≡ reported) × Linked m0 end
unfolding put_archive ◌>>=◌
put_archive-returned folder reported m0 m {end} h linked =
    let cleared : Machine = record m { entries = drop_entry folder m.entries } in
    let (_, mid, a, k) = bind_returned (run rename_failed) _ cleared h in
    let kept = kept_returned _ (run rename_failed) (Linked-run m0 rename_failed) cleared linked a in
    subst (λ w. (archive_version folder w ≡ reported) × Linked m0 w) (returned_state k)
      (archive_version-first folder reported mid mid.entries, kept)

place-returned :
    (version : String) (unpacked : Option (Option String)) (m0 m : Machine) {end : Machine}
    → place version unpacked m ≡ returned tt end
    → Linked m0 m
    → (unpacked ≡ some (some version))
      × (archive_version (archive_folder version) end ≡ some version)
      × Linked m0 end
unfolding place ◌>>=◌
place-returned version none m0 m h linked = absurd cc
place-returned version (some reported) m0 m {end} h linked =
    let (_, mid, a, k) = bind_returned (require wrong_archive (reported == some version)) _ m h in
    let (same_version, e) = require_returned wrong_archive (reported == some version) m a in
    let (v, l) =
      put_archive-returned (archive_folder version) reported m0 mid k
        (subst (Linked m0) e linked) in
    let prints : reported ≡ some version = eq_of_test reported (some version) same_version in
    (ap some prints, v ∙ prints, l)

check_zip-returned :
    (version : String) (want : List ℕ) (zip : Option Zip) (m : Machine) {end : Machine}
    → check_zip version want zip m ≡ returned tt end
    → (found : Zip) × (zip ≡ some found)
      × (found.digest ≡ want)
      × (found.unpacked ≡ some (some version))
      × (archive_version (archive_folder version) end ≡ some version)
      × Linked m end
unfolding check_zip ◌>>=◌
check_zip-returned version want none m h = absurd cc
check_zip-returned version want (some zip) m {end} h =
    let (_, m1, a, k) = bind_returned (require checksum_mismatch (zip.digest == want)) _ m h in
    let (sum, e) = require_returned checksum_mismatch (zip.digest == want) m a in
    let (_, m2, b, k') = bind_returned (run command_failed) _ m1 k in
    let kept =
      kept_returned _ (run command_failed) (Linked-run m command_failed) m1
        (subst (Linked m) e (refl, refl, refl, refl, refl)) b in
    let (prints, v, l) = place-returned version zip.unpacked m m2 k' kept in
    (zip, refl, eq_of_test zip.digest want sum, prints, v, l)

-- A download that returns was checked against the release's sums, and its program prints the version.
abbrev pub Listed : Release → String → Type 0
Listed release version =
    (sums : List ℕ) × (found : Zip) × (release.sums ≡ some sums)
    × (release.zip ≡ some found)
    × (checksum_for sums (archive_file version) ≡ some found.digest)
    × (found.unpacked ≡ some (some version))

-- The archive that an upgrade uses was there, or else was downloaded with a sum that the release lists.
abbrev pub Checked : Release → String → Machine → Type 0
Checked release version m =
    (archive_version (archive_folder version) m ≡ some version)
    ⊎ (((archive_version (archive_folder version) m == some version) ≡ false)
        × Listed release version)

download_archive-returned :
    (release : Release) (version : String) (m : Machine) {end : Machine}
    → download_archive release version m ≡ returned tt end
    → Listed release version
      × (archive_version (archive_folder version) end ≡ some version)
      × Linked m end
unfolding download_archive download_with check_sum
download_archive-returned release version m {end} h = split release.sums refl h
  where
    with_sum :
        (sums : List ℕ) (want : Option (List ℕ))
        → release.sums ≡ some sums
        → checksum_for sums (archive_file version) ≡ want
        → check_sum release version want m ≡ returned tt end
        → Listed release version
          × (archive_version (archive_folder version) end ≡ some version)
          × Linked m end
    with_sum sums none e w k = absurd cc
    with_sum sums (some want) e w k =
        let (zip, z, digest, prints, v, l) = check_zip-returned version want release.zip m k in
        ((sums, zip, e, z, w ∙ ap some (sym digest), prints), v, l)

    split :
        (sums : Option (List ℕ))
        → release.sums ≡ sums
        → download_with release version sums m ≡ returned tt end
        → Listed release version
          × (archive_version (archive_folder version) end ≡ some version)
          × Linked m end
    split none e k = absurd cc
    split (some sums) e k = with_sum sums (checksum_for sums (archive_file version)) e refl k

-- A fetched archive holds a program that prints the version; it was there, or its sum is listed.
pub fetch_archive-returned :
    (release : Release) (version : String) (m : Machine) {folder : String} {end : Machine}
    → fetch_archive release version m ≡ returned folder end
    → (folder ≡ archive_folder version)
      × (archive_version folder end ≡ some version)
      × Checked release version m
      × Linked m end
unfolding fetch_archive
fetch_archive-returned release version m {folder} {end} h =
    elim (Bool-cases (archive_version (archive_folder version) m == some version)) [
      | inl there ↦
          let k : returned (archive_folder version) m ≡ returned folder end = rw there at h in
          let here = eq_of_test _ (some version) there in have_it k here
      | inr other ↦
          let (_, mid, a, k) =
            bind_returned (download_archive release version) _ m (rw other at h) in
          let (checked, v, l) = download_archive-returned release version m a in
          let same_folder : archive_folder version ≡ folder = returned_value k in
          let done : mid ≡ end = returned_state k in
          (
            sym same_folder,
            subst (λ w. archive_version folder w ≡ some version) done
                (subst (λ f. archive_version f mid ≡ some version) same_folder v),
            inr (other, checked),
            subst (Linked m) done l,
          )
    ]
  where
    have_it :
        ◌≡◌ {A = Ran Machine Fault String}
          (returned (archive_folder version) m)
          (returned folder end)
        → archive_version (archive_folder version) m ≡ some version
        → (folder ≡ archive_folder version)
          × (archive_version folder end ≡ some version)
          × Checked release version m
          × Linked m end
    have_it k here =
        let same_folder : archive_folder version ≡ folder = returned_value k in
        let done : m ≡ end = returned_state k in
        (
          sym same_folder,
          subst (λ w. archive_version folder w ≡ some version) done
              (subst (λ f. archive_version f m ≡ some version) same_folder here),
          inl here,
          subst (Linked m) done (refl, refl, refl, refl, refl),
        )
