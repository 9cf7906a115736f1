-- ===== src/Upgrade/Live.antt =====
-- The server that runs when an installation returns.
use grasshopper.Upgrade.Nightly.{archive_version-entries, Stays, Stays-backup, adopt-returned}
use grasshopper.Upgrade.Installed.{Checked, fetch_archive-returned}
use grasshopper.Upgrade.Kept.{archive_version-prune_archives}
use grasshopper.Upgrade.Outcomes.{Files, cutover-returned}
use grasshopper.Upgrade.Adopt.{adopt}
use grasshopper.Upgrade.Command.{
  read_skip, record_skip, at_least, remove_skip, clear_skip, put_live, install,
}
use grasshopper.Upgrade.Backups.{backup}
use grasshopper.Upgrade.Archives.{
  archive_folder, fetch_archive, prune_archives, Release, next_outcome, prune_read,
}
use grasshopper.Upgrade.Cutover.{cutover}
use grasshopper.Upgrade.{archive_version, resolve, Backup, Machine}
use grasshopper.Versions.{parse_version, Version}
use grasshopper.Actions.{
  on_error, ◌>>◌, bind_returned, returned_state, kept_returned, on_error_returned, returned,
}
use grasshopper.Base.{
  if◌then◌else◌, ◌==◌, nat_eq, string_eq, option_eq, list_eq, String, ◌≡◌, refl, ap, ◌∙◌, subst,
  inl, Bool, true, false, Option, some, List, [], ◌∷◌,
}

abbrev Placed : Machine → Machine → Type 0
Placed m x =
    (x.current ≡ m.current)
    × (x.previous ≡ m.previous)
    × (x.serving ≡ m.serving)
    × (x.entries ≡ m.entries)

clear_skip-Placed : (wanted : Version) (m : Machine) → Placed m (clear_skip wanted m)
unfolding clear_skip
clear_skip-Placed wanted m = split (at_least wanted (parse_version (read_skip m)))
  where
    by_outcome : (os : List Bool) → Placed m (remove_skip os m)
    by_outcome [] = (refl, refl, refl, refl)
    by_outcome (true ∷ rest) = (refl, refl, refl, refl)
    by_outcome (false ∷ rest) = (refl, refl, refl, refl)

    split : (newer_than : Bool) → Placed m (if newer_than then remove_skip m.outcomes m else m)
    split true = by_outcome m.outcomes
    split false = (refl, refl, refl, refl)

prune_archives-links :
    (m : Machine)
    → ((prune_archives m).current ≡ m.current)
      × ((prune_archives m).previous ≡ m.previous)
      × ((prune_archives m).serving ≡ m.serving)
unfolding prune_archives
prune_archives-links m = split (next_outcome m.outcomes).0
  where
    split :
        (works : Bool)
        → ((prune_read works (next_outcome m.outcomes).1 m).current ≡ m.current)
          × ((prune_read works (next_outcome m.outcomes).1 m).previous ≡ m.previous)
          × ((prune_read works (next_outcome m.outcomes).1 m).serving ≡ m.serving)
    split true = (refl, refl, refl)
    split false = (refl, refl, refl)

-- The release runs from its own archive, whose program prints its version, and `previous` names
-- what ran before.
abbrev pub Live : String → String → Option String → Machine → Type 0
Live folder target before x =
    (x.current ≡ some folder)
    × (x.serving ≡ some folder)
    × (x.previous ≡ before)
    × (archive_version folder x ≡ some target)

put_live-returned :
    (folder target : String) (wanted : Version) (m : Machine) {end : Machine}
    → archive_version folder m ≡ some target
    → put_live folder target wanted m ≡ returned tt end
    → Live folder target m.current end
unfolding put_live
put_live-returned folder target wanted m {end} v h =
    let (_, m1, a, k) =
      bind_returned (on_error (cutover folder target) (record_skip target)) _ m h in
    let cut = on_error_returned (cutover folder target) (record_skip target) m a in
    let (c, s, p, f) = cutover-returned folder target m cut in
    let m2 : Machine = clear_skip wanted m1 in
    let (c2, p2, s2, e2) = clear_skip-Placed wanted m1 in
    let (c3, p3, s3) = prune_archives-links m2 in
    let done : prune_archives m2 ≡ end = returned_state k in
    subst (Live folder target m.current) done (
      c3 ∙ c2 ∙ c,
      s3 ∙ s2 ∙ s,
      p3 ∙ p2 ∙ p,
      archive_version-prune_archives m2 folder (inl (c2 ∙ c))
          ∙ archive_version-entries folder m2 m (e2 ∙ ap (λ (x : Files). x.0) f)
          ∙ v,
    )

install_from-returned :
    (saved : Backup) (folder target running : String) (wanted : Version) (m : Machine)
    {end : Machine}
    → archive_version folder m ≡ some target
    → (backup saved >> adopt running >> put_live folder target wanted) m ≡ returned tt end
    → Live folder target (resolve m.plist_root m) end
install_from-returned saved folder target running wanted m {end} v h =
    let (_, m1, a, k) = bind_returned (backup saved) _ m h in
    let (c, p, r, e) =
      kept_returned (Stays m) (backup saved) (Stays-backup m saved) m (refl, refl, refl, refl) a in
    let (_, m2, b, k2) = bind_returned (adopt running) _ m1 k in
    let (at, e2) = adopt-returned running m1 b in
    let same_root : m2.current ≡ resolve m.plist_root m =
      at
      ∙ ap (λ (x : String × Option String). if x.0 == "current" then x.1 else some x.0)
          (λ i. (r i, c i)) in
    let version = archive_version-entries folder m2 m (e2 ∙ e) ∙ v in
    let (lc, ls, lp, lv) = put_live-returned folder target wanted m2 version k2 in
    (lc, ls, lp ∙ same_root, lv)

pub install-returned :
    (release : Release) (saved : Backup) (target running : String) (wanted : Version) (m : Machine)
    {end : Machine}
    → install release saved target wanted running m ≡ returned tt end
    → Checked release target m × Live (archive_folder target) target (resolve m.plist_root m) end
unfolding install
install-returned release saved target running wanted m {end} h =
    let (folder, mid, a, k) = bind_returned (fetch_archive release target) _ m h in
    let (is_folder, v, checked, (c, _, _, _, r)) = fetch_archive-returned release target m a in
    let here = install_from-returned saved folder target running wanted mid v k in
    let back : resolve mid.plist_root mid ≡ resolve m.plist_root m =
      ap (λ (x : String × Option String). if x.0 == "current" then x.1 else some x.0)
        (λ i. (r i, c i)) in
    (
      checked,
      subst (λ f. Live f target (resolve m.plist_root m) end) is_folder
          (subst (λ b. Live folder target b end) back here),
    )
