-- ===== src/Upgrade/Upgraded.antt =====
-- What upgrade has done when it returns, and that the nightly job only moves forward.
use grasshopper.Upgrade.Stopped.{Untouched}
use grasshopper.Upgrade.Live.{Live, install-returned}
use grasshopper.Upgrade.Installed.{Checked}
use grasshopper.Upgrade.Command.{
  read_service, tagged, latest_version, read_skip, not_newer, target_of, is_held, install_unless,
  upgrade_from, upgrade,
}
use grasshopper.Upgrade.Archives.{archive_folder, Release}
use grasshopper.Upgrade.{
  command_with, run, need, archive_version, resolve, root_version, Fault, Backup, Machine,
  command_failed, latest_unknown,
}
use grasshopper.Versions.{parse_version, compare_parsed, Version, Order, older, same, newer}
use grasshopper.Actions.{bind_returned, returned_state, returned_value, returned, Ran}
use grasshopper.Base.{
  Bool-cases, ◌==◌, ne_of_test, nat_eq, string_eq, option_eq, list_eq, String, ◌≡◌, refl, sym, ap,
  ◌∙◌, subst, ◌≢◌, ◌⊎◌, inl, inr, Bool, true, false, ◌||◌, Option, none, some, List, [], ◌∷◌, arith,
  if◌then◌else◌, and-left, and-right, eq_of_test,
}

-- The release that an upgrade is for: the one that --to names, or else the latest.
abbrev pub asked_for : Option String → String → Option String
asked_for tag to = if to == "" then tagged tag else some to

abbrev pub stays : String → String → Version → String → Machine → Bool
stays to target wanted running m = target == running || is_held to target wanted running m

-- A release is held back where no release was named, and it is not newer than the one that runs or was
-- backed out.
abbrev pub Held : String → String → Version → String → Machine → Type 0
Held to target wanted running m =
    (to ≡ "")
    × (((have : Version) × (parse_version running ≡ some have)
          × (compare_parsed wanted have ≢ newer))
        ⊎ (read_skip m ≡ target))

-- An upgrade to a release has left the machine alone, where the release runs already or is held back, or
-- the release runs, from an archive whose sum is listed unless it was there already.
abbrev pub Upgraded : (String → Release) → String → String → String → Machine → Machine → Type 0
Upgraded releases to running target m end =
    ((wanted : Version) × (parse_version target ≡ some wanted)
      × (((target ≡ running) ⊎ Held to target wanted running m) × Untouched m end
          ⊎ (stays to target wanted running m ≡ false)
            × Checked (releases target) target m
            × Live (archive_folder target) target (resolve m.plist_root m) end))

or-right : (a b : Bool) → (a || b) ≡ false → b ≡ false
or-right a b h = ground arith

or-left : (a b : Bool) → (a || b) ≡ false → a ≡ false
or-left a b h = ground arith

target_of-returned :
    (tag : Option String) (to : String) (m : Machine) {target : String} {end : Machine}
    → target_of tag to m ≡ returned target end
    → (asked_for tag to ≡ some target) × (m ≡ end)
unfolding target_of latest_version
target_of-returned tag to m {target} {end} h = elim (Bool-cases (to == "")) [
  | inl empty ↦ rw empty (latest (tagged tag) (rw empty at h))
  | inr named ↦
      let k : ◌≡◌ {A = Ran Machine Fault String} (returned to m) (returned target end) =
        rw named at h in
      rw named (ap some (returned_value k), returned_state k)
]
  where
    latest :
        (found : Option String)
        → need latest_unknown found m ≡ returned target end
        → (found ≡ some target) × (m ≡ end)
    latest none k = absurd cc
    latest (some x) k = (ap some (returned_value k), returned_state k)

not_newer-not :
    (wanted : Version) (have : Option Version)
    → not_newer wanted have ≡ true
    → (h : Version) × (have ≡ some h) × (compare_parsed wanted h ≢ newer)
unfolding not_newer
not_newer-not wanted none h = absurd cc
not_newer-not wanted (some have) h = (have, refl, split (compare_parsed wanted have) h)
  where
    split : (o : Order) → elim o [ newer ↦ false | _ ↦ true ] ≡ true → o ≢ newer
    split older k = λ e. cc
    split same k = λ e. cc
    split newer k = absurd cc

stays-Held :
    (to target : String) (wanted : Version) (running : String) (m : Machine)
    → stays to target wanted running m ≡ true
    → (target ≡ running) ⊎ Held to target wanted running m
unfolding is_held
stays-Held to target wanted running m h = elim (Bool-cases (target == running)) [
  | inl runs ↦ inl (eq_of_test target running runs)
  | inr other ↦
      let held = or_cases_right (target == running) _ other h in
      let none_named : to ≡ "" = eq_of_test to "" (and-left (to == "") _ held) in
      elim (Bool-cases (not_newer wanted (parse_version running))) [
        | inl old ↦ inr (none_named, inl (not_newer-not wanted (parse_version running) old))
        | inr new ↦ inr (
          none_named,
          inr (
              eq_of_test (read_skip m) target (
                or_cases_right (not_newer wanted (parse_version running)) _ new
                  (and-right (to == "") _ held))),
        )
      ]
]
  where
    or_cases_right : (a b : Bool) → a ≡ false → (a || b) ≡ true → b ≡ true
    or_cases_right a b e h = ground arith

install_unless-returned :
    (releases : String → Release) (saved : Backup) (to running target : String)
    (parsed : Option Version) (m : Machine) {end : Machine}
    → parse_version target ≡ parsed
    → install_unless releases saved to running target parsed m ≡ returned tt end
    → Upgraded releases to running target m end
unfolding install_unless
install_unless-returned releases saved to running target none m e h = absurd cc
install_unless-returned releases saved to running target (some wanted) m {end} e h =
    elim (Bool-cases (stays to target wanted running m)) [
      | inl kept ↦
          let k : ◌≡◌ {A = Ran Machine Fault (Unit {0})} (returned tt m) (returned tt end) =
            rw kept at h in
          let why = stays-Held to target wanted running m kept in
          (wanted, e, inl (why, subst (Untouched m) (returned_state k) (refl, refl, refl, refl)))
      | inr goes ↦
          let (checked, live) =
            install-returned (releases target) saved target running wanted m (rw goes at h) in
          (wanted, e, inr (goes, checked, live))
    ]

run-returned :
    (fault : Fault) (m : Machine) {end : Machine}
    → run fault m ≡ returned tt end
    → (os : List Bool) × (record m { outcomes = os } ≡ end)
unfolding run
run-returned fault m {end} h = split m.outcomes h
  where
    split :
        (os : List Bool)
        → command_with fault m os ≡ returned tt end
        → (os : List Bool) × (record m { outcomes = os } ≡ end)
    split [] k = absurd cc
    split (true ∷ rest) k = (rest, returned_state k)
    split (false ∷ rest) k = absurd cc

read_service-root :
    (m : Machine) {root : String} {end : Machine}
    → read_service m ≡ returned root end
    → (os : List Bool) × (root ≡ m.plist_root) × (record m { outcomes = os } ≡ end)
unfolding read_service
read_service-root m {root} {end} h =
    let (_, m1, a, k) = bind_returned (run command_failed) _ m h in
    let (os1, e1) = run-returned command_failed m a in
    let (_, m2, b, k') = bind_returned (run command_failed) _ m1 k in
    let (os2, e2) = run-returned command_failed m1 b in
    let here : record m { outcomes = os2 } ≡ m2 =
      ap (λ (x : Machine). record x { outcomes = os2 }) e1 ∙ e2 in
    (
      os2,
      sym (returned_value k') ∙ ap (λ (x : Machine). x.plist_root) (sym here),
      here ∙ returned_state k',
    )

upgrade_from-returned :
    (releases : String → Release) (tag : Option String) (saved : Backup) (to : String)
    (running : Option String) (m : Machine) {end : Machine}
    → upgrade_from releases tag saved to running m ≡ returned tt end
    → (have : String) × (target : String) × (running ≡ some have)
      × (asked_for tag to ≡ some target)
      × Upgraded releases to have target m end
unfolding upgrade_from
upgrade_from-returned releases tag saved to none m h = absurd cc
upgrade_from-returned releases tag saved to (some running) m {end} h =
    let (target, mid, a, k) = bind_returned (target_of tag to) _ m h in
    let (asked, here) = target_of-returned tag to m a in
    (
      running,
      target,
      refl,
      asked,
      subst (λ w. Upgraded releases to running target w end) (sym here)
          (install_unless-returned releases saved to running target (parse_version target) mid refl
            k),
    )

-- An upgrade that returns is to the release that --to names, or else to the latest. Where that release
-- ran already, or the nightly job holds it back, the links, the archives, the plist and what serves are
-- as they were. Otherwise the release runs from its archive, which was there and prints the release's
-- version, or else was downloaded with the sum that the release lists for it and holds a program that
-- prints the version; and `previous` names what ran before.
pub upgrade-returned :
    (releases : String → Release) (tag : Option String) (saved : Backup) (to : String) (m : Machine)
    {end : Machine}
    → upgrade releases tag saved to m ≡ returned tt end
    → (running : String) × (target : String) × (root_version m.plist_root m ≡ some running)
      × (asked_for tag to ≡ some target)
      × Upgraded releases to running target m end
unfolding upgrade root_version archive_version is_held
upgrade-returned releases tag saved to m {end} h =
    let (root, mid, a, k) = bind_returned read_service _ m h in
    let (os, r, e) = read_service-root m a in
    let now : Machine = record m { outcomes = os } in
    let k' : upgrade_from releases tag saved to (root_version m.plist_root now) now
        ≡ returned tt end =
      subst
        (λ (x : String × Machine).
          upgrade_from releases tag saved to (root_version x.0 x.1) x.1 ≡ returned tt end)
        (λ i. (r i, sym e i)) k in
    upgrade_from-returned releases tag saved to (root_version m.plist_root now) now k'

not_newer-newer :
    (wanted have : Version)
    → not_newer wanted (some have) ≡ false
    → compare_parsed wanted have ≡ newer
unfolding not_newer
not_newer-newer wanted have h = split (compare_parsed wanted have) h
  where
    split : (o : Order) → elim o [ newer ↦ false | _ ↦ true ] ≡ false → o ≡ newer
    split older k = absurd cc
    split same k = absurd cc
    split newer k = refl

is_held-nightly :
    (target : String) (wanted : Version) (running : String) (m : Machine)
    → is_held "" target wanted running m ≡ false
    → ((have : Version) → parse_version running ≡ some have → compare_parsed wanted have ≡ newer)
      × (read_skip m ≢ target)
unfolding is_held
is_held-nightly target wanted running m h = (
  (λ have e. not_newer-newer wanted have (
      subst (λ x. not_newer wanted x ≡ false) e
        (or-left (not_newer wanted (parse_version running)) _ h))),
  ne_of_test (read_skip m) target (or-right (not_newer wanted (parse_version running)) _ h),
)

-- The nightly job names no release: when it returns it has left the machine alone, or has installed
-- a release that is newer than what ran, if that is a release, and that was not backed out.
pub upgrade-nightly :
    (releases : String → Release) (tag : Option String) (saved : Backup) (m : Machine)
    {end : Machine}
    → upgrade releases tag saved "" m ≡ returned tt end
    → Untouched m end
      ⊎ ((running : String) × (target : String) × (wanted : Version) × (root_version m.plist_root m
            ≡ some running)
          × (parse_version target ≡ some wanted)
          × ((have : Version)
              → parse_version running ≡ some have
              → compare_parsed wanted have ≡ newer)
          × (read_skip m ≢ target)
          × (end.serving ≡ some (archive_folder target)))
upgrade-nightly releases tag saved m h =
    let (running, target, runs, _, (wanted, parsed, cases)) =
      upgrade-returned releases tag saved "" m h in
    elim cases [
      | inl (_, untouched) ↦ inl untouched
      | inr (goes, _, (_, serves, _, _)) ↦
          let (forward, other) =
            is_held-nightly target wanted running m (or-right (target == running) _ goes) in
          inr (running, target, wanted, runs, parsed, forward, other, serves)
    ]
