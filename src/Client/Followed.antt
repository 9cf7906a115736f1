-- ===== src/Client/Followed.antt =====
-- What the client's updates have done when they return.
use Prim.Native.String.{len}
use grasshopper.Client.Kept.{finish_current-lem}
use grasshopper.Client.Install.{
  make_current, demand, placed_or_there, place_program, check_archive, check_listed, client_archive,
  download_client, install_new, install_client, Archive, ReleaseFiles, current_file,
}
use grasshopper.Client.{
  file_with, file, folder_named, program_of, managed_program, client_at, managed_client,
  reports_version, Failure, Managed, folder_failed, sum_differs, wrong_program, rename_refused,
  write_failed,
}
use grasshopper.Checksums.{checksum_for}
use grasshopper.Versions.{parse_client_version}
use grasshopper.Actions.{
  after, attempt, ◌>>◌, bind_returned, Keeps, returned_state, kept_returned, returned, ◌>>=◌,
}
use grasshopper.Base.{
  Bool-cases, is_some, ◌==◌, eq_of_test, test_self, nat_eq, string_eq, option_eq, list_eq, ℕ,
  String, ◌≡◌, refl, sym, ap, ◌∙◌, subst, inl, inr, Bool, true, false, Option, none, some, List, [],
  ◌∷◌, ltb, if◌then◌else◌, arith,
}

-- An action on a file keeps what does not speak of the outcomes to come.
pub Keeps-file :
    (P : Managed → Type 0)
    → ((m : Managed) (os : List Bool) → P m → P (record m { outcomes = os }))
    → (failure : Failure) → Keeps P (file failure)
unfolding file
Keeps-file P blind failure m p = split m.outcomes
  where
    split : (os : List Bool) → P (after (file_with failure m os))
    split [] = p
    split (true ∷ rest) = blind m rest p
    split (false ∷ rest) = blind m rest p

-- The version that becomes current was there, or was put there.
abbrev Active : String → Managed → Type 0
Active version x =
    (x.current ≡ some (current_file version)) × (managed_program version x ≡ some (some version))

make_current-returned :
    (version : String) (m : Managed) {end : Managed}
    → managed_program version m ≡ some (some version)
    → make_current version m ≡ returned tt end
    → Active version end
unfolding make_current managed_program
make_current-returned version m {end} v h =
    let (_, mid, a, k) = bind_returned (file write_failed) _ m h in
    let same_versions : mid.versions ≡ m.versions =
      kept_returned (λ x. x.versions ≡ m.versions) (file write_failed)
        (Keeps-file _ (λ _ _ p. p) write_failed) m refl a in
    let (c, p) = finish_current-lem version (managed_client m) mid in
    subst (Active version) (returned_state k) (c, p ∙ program_at mid same_versions ∙ v)
  where
    program_at :
        (w : Managed)
        → w.versions ≡ m.versions
        → managed_program version w ≡ managed_program version m
    program_at w e = ap (λ fs. program_of (folder_named version fs)) e

placed-there :
    (version : String) (renamed : Bool) (m : Managed) {end : Managed}
    → placed_or_there version renamed m ≡ returned tt end
    → managed_program version end ≡ some (some version)
unfolding placed_or_there managed_program reports_version
placed-there version true m h =
    subst (λ (x : Managed). managed_program version x ≡ some (some version)) (returned_state h)
      (rw (test_self version) refl)
placed-there version false m h =
    elim (Bool-cases (managed_program version m == some (some version))) [
      | inl there ↦
          subst (λ (x : Managed). managed_program version x ≡ some (some version))
            (returned_state (rw there at h)) (eq_of_test _ (some (some version)) there)
      | inr other ↦ absurd (cc (rw other at h))
    ]

place_program-returned :
    (version : String) (program : Option (Option String)) (m : Managed) {end : Managed}
    → place_program version program m ≡ returned tt end
    → Active version end
unfolding place_program ◌>>=◌
place_program-returned version none m h = absurd cc
place_program-returned version (some prints) m h =
    let (_, m1, _, k1) = bind_returned (file folder_failed) _ m h in
    let (_, m2, _, k2) = bind_returned (file write_failed) _ m1 k1 in
    let (_, m3, _, k3) = bind_returned (demand wrong_program (prints == some version)) _ m2 k2 in
    let (renamed, m4, _, k4) =
      bind_returned (attempt (file rename_refused))
        (λ renamed. placed_or_there version renamed >> make_current version) m3 k3 in
    let (_, m5, placed, k5) = bind_returned (placed_or_there version renamed) _ m4 k4 in
    make_current-returned version m5 (placed-there version renamed m4 placed) k5

install_new-returned :
    (files : ReleaseFiles) (target : Option String) (version : String) (m : Managed) {end : Managed}
    → install_new files target version m ≡ returned tt end
    → Active version end
unfolding install_new download_client check_listed check_archive
install_new-returned files none version m h = absurd cc
install_new-returned files (some target) version m {end} h =
    let (_, mid, _, k) = bind_returned (file folder_failed) _ m h in downloaded mid files.sums k
  where
    checked :
        (w : Managed) (want : List ℕ) (zip_file : Option Archive)
        → check_archive version want zip_file w ≡ returned tt end
        → Active version end
    checked w want none k = absurd cc
    checked w want (some zip_file) k =
        let (_, mid, _, k') = bind_returned (demand sum_differs (zip_file.digest == want)) _ w k in
        place_program-returned version zip_file.program mid k'

    listed :
        (w : Managed) (want : Option (List ℕ))
        → check_listed files version want w ≡ returned tt end
        → Active version end
    listed w none k = absurd cc
    listed w (some want) k = checked w want files.zip_file k

    downloaded :
        (w : Managed) (sums : Option (List ℕ))
        → download_client files target version sums w ≡ returned tt end
        → Active version end
    downloaded w none k = absurd cc
    downloaded w (some sums) k = listed w (checksum_for sums (client_archive target version)) k

reports_version-lem :
    (version : String) (m : Managed)
    → reports_version version m ≡ true
    → managed_program version m ≡ some (some version)
unfolding reports_version
reports_version-lem version m h = eq_of_test (managed_program version m) (some (some version)) h

managed_client-Active :
    (version : String) (end : Managed)
    → is_some (parse_client_version version) ≡ true
    → Active version end
    → managed_client end ≡ (if ltb 31 (len version) then none else some version)
unfolding managed_client client_at
managed_client-Active version end valid (c, p) =
    subst (λ o. client_at o end ≡ (if ltb 31 (len version) then none else some version)) (sym c)
      (rw (client_at, valid, p) (ground arith))

-- An installation that returns has its program, which prints the version, and the file `current`, which
-- names the version; the program is the active client unless the version has more than 31 bytes.
pub install_client-returned :
    (files : ReleaseFiles) (target : Option String) (version : String) (m : Managed) {end : Managed}
    → install_client files target version m ≡ returned tt end
    → Active version end
      × (managed_client end ≡ (if ltb 31 (len version) then none else some version))
unfolding install_client
install_client-returned files target version m {end} h =
    elim (Bool-cases (is_some (parse_client_version version))) [
      | inl valid ↦ elim (Bool-cases (reports_version version m)) [
        | inl there ↦
            let a =
              make_current-returned version m (reports_version-lem version m there)
                (rw (valid, there) at h) in
            (a, managed_client-Active version end valid a)
        | inr other ↦
            let a = install_new-returned files target version m (rw (valid, other) at h) in
            (a, managed_client-Active version end valid a)
      ]
      | inr invalid ↦ absurd (cc (rw invalid at h))
    ]
