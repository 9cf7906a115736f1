-- ===== src/Upgrade/Outcomes.antt =====
-- What a cutover has done when it returns.
use grasshopper.Upgrade.Links.{Keeps-run, Keeps-wait_healthy, Keeps-link_previous, Keeps-restart_on}
use grasshopper.Upgrade.Cutover.{
  wait_healthy, kickstart, restart_on, put_previous, go_back, switch, cutover_from, cutover,
}
use grasshopper.Upgrade.{
  run, need, root_version, link_current, link_previous, Fault, Entry, Backup, Machine,
  command_failed, link_failed,
}
use grasshopper.Actions.{
  attempt, bind_returned, Keeps, returned_state, attempt_returned, kept_returned, returned,
}
use grasshopper.Base.{String, ◌≡◌, refl, sym, ap, ◌∙◌, ◌≢◌, inl, inr, Option, none, some, List}

-- The part of the machine that a cutover never changes.
abbrev pub Files : Type 0
Files = List Entry × Option String × String × String × List Backup

abbrev pub files : Machine → Files
files m = (m.entries, m.skip, m.plist_root, m.saved_root, m.backups)

pub need_returned :
    {A : Type 0} (fault : Fault) (o : Option A) (m : Machine) {a : A} {end : Machine}
    → need fault o m ≡ returned a end
    → (o ≡ some a) × (m ≡ end)
need_returned fault none m h = cc
need_returned fault (some b) m h = (cc, cc)

pub link_current-returned :
    (folder : String) (m : Machine) {end : Machine}
    → link_current folder m ≡ returned tt end
    → end.current ≡ some folder
unfolding link_current
link_current-returned folder m h =
    let (_, m1, _, k) = bind_returned (run link_failed) _ m h in
    let (_, m2, _, e) = bind_returned (run link_failed) _ m1 k in
    sym (ap (λ (x : Machine). x.current) (returned_state e))

pub link_previous-returned :
    (folder : String) (m : Machine) {end : Machine}
    → link_previous folder m ≡ returned tt end
    → end.previous ≡ some folder
unfolding link_previous
link_previous-returned folder m h =
    let (_, m1, _, k) = bind_returned (run link_failed) _ m h in
    let (_, m2, _, e) = bind_returned (run link_failed) _ m1 k in
    sym (ap (λ (x : Machine). x.previous) (returned_state e))

pub kickstart-returned :
    (m : Machine) {end : Machine}
    → kickstart m ≡ returned tt end
    → (end.serving ≡ m.current) × (end.current ≡ m.current)
unfolding kickstart
kickstart-returned m h =
    let (_, m1, first, e) = bind_returned (run command_failed) _ m h in
    let same : m1.current ≡ m.current =
      kept_returned (λ x. x.current ≡ m.current) (run command_failed)
        (Keeps-run _ ((λ _ _ p. p), (λ _ _ p. p), (λ _ _ p. p)) command_failed) m refl first in
    (
      sym (ap (λ (x : Machine). x.serving) (returned_state e)) ∙ same,
      sym (ap (λ (x : Machine). x.current) (returned_state e)) ∙ same,
    )

-- A restart that succeeds runs what its link names.
pub restart_on-returned :
    (name version : String) (m : Machine) {end : Machine}
    → restart_on name version m ≡ returned tt end
    → (end.current ≡ some name) × (end.serving ≡ some name)
unfolding restart_on
restart_on-returned name version m {end} h =
    let (_, m1, linked, k) = bind_returned (link_current name) _ m h in
    let (_, m2, started, waited) = bind_returned kickstart _ m1 k in
    let at = link_current-returned name m linked in
    let (serves, stays) = kickstart-returned m1 started in
    let (c, s) : (end.current ≡ m2.current) × (end.serving ≡ m2.serving) =
      kept_returned (λ x. (x.current ≡ m2.current) × (x.serving ≡ m2.serving))
        (wait_healthy version)
        (Keeps-wait_healthy _ ((λ _ _ p. p), (λ _ _ p. p), (λ _ _ p. p)) version) m2 (refl, refl)
        waited in
    (c ∙ stays ∙ at, s ∙ serves ∙ at)

pub restart_on-files :
    (name version : String) (m0 : Machine)
    → Keeps (λ x. (x.previous ≡ m0.previous) × (files x ≡ files m0)) (restart_on name version)
restart_on-files name version m0 =
    Keeps-restart_on _ ((λ _ _ p. p), (λ _ _ p. p), (λ _ _ p. p)) (λ _ _ p. p) (λ _ _ p. p) name
      version

pub link_previous-files :
    (folder : String) (m0 : Machine)
    → Keeps
        (λ x. (x.current ≡ m0.current) × (x.serving ≡ m0.serving) × (files x ≡ files m0))
        (link_previous folder)
link_previous-files folder m0 =
    Keeps-link_previous _ ((λ _ _ p. p), (λ _ _ p. p), (λ _ _ p. p)) (λ _ _ p. p) folder

-- Going back always ends with an error.
pub go_back-stops :
    (old running : String) (before : Option String) (m end : Machine)
    → go_back old running before m ≢ returned tt end
unfolding go_back
go_back-stops old running before m end h =
    let (_, m1, _, k) = bind_returned (attempt (restart_on old running)) _ m h in
    let (_, m2, _, e) = bind_returned (attempt (put_previous before)) _ m1 k in cc

pub switch-returned :
    (name version old running : String) (before : Option String) (m : Machine) {end : Machine}
    → switch name version old running before m ≡ returned tt end
    → (end.current ≡ some name)
      × (end.serving ≡ some name)
      × (end.previous ≡ m.previous)
      × (files end ≡ files m)
unfolding switch
switch-returned name version old running before m {end} h =
    let (works, mid, tried, k) = bind_returned (attempt (restart_on name version)) _ m h in
    elim (attempt_returned (restart_on name version) m tried) [
      | inl (works_so, _, r) ↦
          let same : mid ≡ end = returned_state (rw works_so at k) in
          let r' : restart_on name version m ≡ returned tt end = r ∙ ap (returned tt) same in
          let (c, s) = restart_on-returned name version m r' in
          let (p, f) =
            kept_returned _ (restart_on name version) (restart_on-files name version m) m
              (refl, refl) r' in
          (c, s, p, f)
      | inr (fails_so, _, _) ↦ absurd (go_back-stops old running before mid end (rw fails_so at k))
    ]

-- A cutover that returns runs the archive `name`; `current` and `previous` name it and the one that
-- ran before, and nothing else has changed.
pub cutover-returned :
    (name version : String) (m : Machine) {end : Machine}
    → cutover name version m ≡ returned tt end
    → (end.current ≡ some name)
      × (end.serving ≡ some name)
      × (end.previous ≡ m.current)
      × (files end ≡ files m)
unfolding cutover
cutover-returned name version m {end} h = split m.current (root_version "current" m) refl h
  where
    split :
        (at running : Option String)
        → m.current ≡ at
        → cutover_from name version at running m ≡ returned tt end
        → (end.current ≡ some name)
          × (end.serving ≡ some name)
          × (end.previous ≡ m.current)
          × (files end ≡ files m)
    split none running e k = cc
    split (some old) none e k = cc
    split (some old) (some running) e k =
        let (_, mid, linked, k') = bind_returned (link_previous old) _ m k in
        let (_, _, f0) =
          kept_returned _ (link_previous old) (link_previous-files old m) m (refl, refl, refl)
            linked in
        let (c, s, p, f) = switch-returned name version old running m.previous mid k' in
        (c, s, p ∙ link_previous-returned old m linked ∙ sym e, f ∙ f0)
