-- ===== src/Client/Stopped.antt =====
-- An update that stops leaves the active version as it was.
use grasshopper.Client.Followed.{Keeps-file}
use grasshopper.Client.Install.{
  make_current, demand, placed_or_there, place_program, check_archive, check_listed, client_archive,
  download_client, install_new, install_client, noted, note_error, follow, Archive, ReleaseFiles,
}
use grasshopper.Client.{
  file_with, file, managed_client, reports_version, Failure, CurrentFile, Managed, invalid_version,
  folder_failed, sum_differs, wrong_program, rename_refused, write_failed,
}
use grasshopper.Checksums.{checksum_for}
use grasshopper.Actions.{
  outcome, attempt, on_error, ◌>>◌, bind_stopped, Keeps, Keeps-attempt, stopped_state, kept_stopped,
  on_error_stopped, Spares, Spares-bind, Ran, stopped, ◌>>=◌,
}
use grasshopper.Versions.{parse_client_version}
use grasshopper.Base.{
  Bool-cases, is_some, ◌==◌, nat_eq, string_eq, option_eq, list_eq, ℕ, String, ◌≡◌, refl, sym, ap,
  ◌∙◌, subst, inl, inr, Bool, true, false, not, ◌||◌, Option, none, some, List, [], ◌∷◌,
}

-- The file `current` names the version.
abbrev Names : Option CurrentFile → Managed → Type 0
Names version m = m.current ≡ version

module _ (version : Option CurrentFile) where
  file-Names : (failure : Failure) → Keeps (Names version) (file failure)
  file-Names failure = Keeps-file _ (λ _ _ p. p) failure

  demand-Names : (failure : Failure) (b : Bool) → Keeps (Names version) (demand failure b)
  demand-Names failure true m p = p
  demand-Names failure false m p = p

  make_current-Names : (new : String) → Spares (Names version) (make_current new)
  unfolding make_current
  make_current-Names new m end x p h = elim (bind_stopped (file write_failed) _ m h) [
    | inl e ↦ kept_stopped (Names version) (file write_failed) (file-Names write_failed) m p e
    | inr (_, mid, a, k) ↦ absurd cc
  ]

  placed_or_there-Names :
      (new : String) (renamed : Bool) → Keeps (Names version) (placed_or_there new renamed)
  unfolding placed_or_there
  placed_or_there-Names new true m p = p
  placed_or_there-Names new false m p = demand-Names rename_refused (reports_version new m) m p

  place_program-Names :
      (new : String) (program : Option (Option String))
      → Spares (Names version) (place_program new program)
  unfolding place_program ◌>>=◌
  place_program-Names new none m end x p h =
      subst (Names version) (stopped_state {A = Unit {0}} h) p
  place_program-Names new (some prints) m end x p h =
      Spares-bind _ (file folder_failed) _ (file-Names folder_failed)
        (λ _. Spares-bind _ (file write_failed) _ (file-Names write_failed) (λ _.
          Spares-bind _ (demand wrong_program (prints == some new)) _
            (demand-Names wrong_program (prints == some new))
            (λ _.
              Spares-bind _ (attempt (file rename_refused))
                (λ renamed. placed_or_there new renamed >> make_current new)
                (Keeps-attempt _ (file rename_refused) (file-Names rename_refused))
                (λ renamed.
                  Spares-bind _ (placed_or_there new renamed) _ (placed_or_there-Names new renamed)
                    (λ _. make_current-Names new)))))
        m end x p h

  check_archive-Names :
      (new : String) (want : List ℕ) (zip_file : Option Archive)
      → Spares (Names version) (check_archive new want zip_file)
  unfolding check_archive ◌>>=◌
  check_archive-Names new want none m end x p h =
      subst (Names version) (stopped_state {A = Unit {0}} h) p
  check_archive-Names new want (some zip_file) m end x p h =
      Spares-bind _ (demand sum_differs (zip_file.digest == want)) _
        (demand-Names sum_differs (zip_file.digest == want))
        (λ _. place_program-Names new zip_file.program) m end x p h

  check_listed-Names :
      (files : ReleaseFiles) (new : String) (want : Option (List ℕ))
      → Spares (Names version) (check_listed files new want)
  unfolding check_listed
  check_listed-Names files new none m end x p h =
      subst (Names version) (stopped_state {A = Unit {0}} h) p
  check_listed-Names files new (some want) m end x p h =
      check_archive-Names new want files.zip_file m end x p h

  download_client-Names :
      (files : ReleaseFiles) (target new : String) (sums : Option (List ℕ))
      → Spares (Names version) (download_client files target new sums)
  unfolding download_client
  download_client-Names files target new none m end x p h =
      subst (Names version) (stopped_state {A = Unit {0}} h) p
  download_client-Names files target new (some sums) m end x p h =
      check_listed-Names files new (checksum_for sums (client_archive target new)) m end x p h

  install_new-Names :
      (files : ReleaseFiles) (target : Option String) (new : String)
      → Spares (Names version) (install_new files target new)
  unfolding install_new ◌>>=◌
  install_new-Names files none new m end x p h =
      subst (Names version) (stopped_state {A = Unit {0}} h) p
  install_new-Names files (some target) new m end x p h =
      Spares-bind _ (file folder_failed) _ (file-Names folder_failed)
        (λ _. download_client-Names files target new files.sums) m end x p h

  install_client-Names :
      (files : ReleaseFiles) (target : Option String) (new : String)
      → Spares (Names version) (install_client files target new)
  unfolding install_client
  install_client-Names files target new m end x p h =
      elim (Bool-cases (is_some (parse_client_version new))) [
        | inl valid ↦ elim (Bool-cases (reports_version new m)) [
          | inl there ↦ make_current-Names new m end x p (rw (valid, there) at h)
          | inr other ↦ install_new-Names files target new m end x p (rw (valid, other) at h)
        ]
        | inr invalid ↦
            let k : ◌≡◌ {A = Ran Managed Failure (Unit {0})} (stopped invalid_version m)
                (stopped x end) =
              rw invalid at h in
            subst (Names version) (stopped_state k) p
      ]

note_error-current : (server : String) (m : Managed) → (note_error server m).current ≡ m.current
unfolding note_error attempt file
note_error-current server m = split m.outcomes
  where
    split :
        (os : List Bool)
        → (noted server (outcome (file_with write_failed m os))).current ≡ m.current
    split [] = refl
    split (true ∷ rest) = refl
    split (false ∷ rest) = refl

-- When following a server stops, the file `current` names what it named before.
pub follow-stopped :
    (releases : String → ReleaseFiles) (target : Option String) (server : String) (m : Managed)
    {x : Failure} {end : Managed}
    → follow releases target server m ≡ stopped x end
    → end.current ≡ m.current
unfolding follow
follow-stopped releases target server m {x} {end} h =
    elim (Bool-cases
      (not (is_some (parse_client_version server)) || managed_client m == some server)) [
        | inl stays ↦ absurd (cc (rw stays at h))
        | inr goes ↦
            elim (bind_stopped
              (on_error (install_client (releases server) target server) (note_error server)) _ m
              (rw goes at h)) [
                | inl failed ↦
                    let (mid, e, noted_end) =
                      on_error_stopped (install_client (releases server) target server)
                        (note_error server) m failed in
                    ap (λ (w : Managed). w.current) (sym noted_end)
                    ∙ note_error-current server mid
                    ∙ install_client-Names m.current (releases server) target server m mid x refl e
                | inr (_, mid, a, k) ↦ absurd cc
              ]
      ]
