-- ===== src/Upgrade/Stopped.antt =====
-- What a cutover has left when it stops.
use grasshopper.Upgrade.Outcomes.{
  files, link_previous-returned, restart_on-returned, restart_on-files, link_previous-files,
}
use grasshopper.Upgrade.Links.{Keeps-run}
use grasshopper.Upgrade.Cutover.{restart_on, put_previous, go_back, switch, cutover_from, cutover}
use grasshopper.Upgrade.{
  run, root_version, link_previous, Fault, Machine, link_failed, failed_and_restored,
  restore_failed,
}
use grasshopper.Actions.{
  attempt, bind_returned, bind_stopped, Keeps, Keeps-bind, returned_state, stopped_state,
  stopped_error, attempt_returned, attempt_worked, attempt-stopped, kept_returned, kept_stopped,
  returned, stopped,
}
use grasshopper.Base.{
  if◌then◌else◌, String, ◌≡◌, refl, sym, ap, ◌∙◌, subst, ◌≢◌, ◌⊎◌, inl, inr, Bool, true, false,
  ◌&&◌, Option, none, some,
}

put_previous-returned :
    (before : Option String) (m : Machine) {end : Machine}
    → put_previous before m ≡ returned tt end
    → end.previous ≡ before
unfolding put_previous
put_previous-returned none m h =
    let (_, mid, _, k) = bind_returned (run link_failed) _ m h in
    sym (ap (λ (x : Machine). x.previous) (returned_state k))
put_previous-returned (some before) m h = link_previous-returned before m h

put_previous-files :
    (before : Option String) (m0 : Machine)
    → Keeps
        (λ x. (x.current ≡ m0.current) × (x.serving ≡ m0.serving) × (files x ≡ files m0))
        (put_previous before)
unfolding put_previous
put_previous-files none m0 =
    Keeps-bind _ (run link_failed) _
      (Keeps-run _ ((λ _ _ p. p), (λ _ _ p. p), (λ _ _ p. p)) link_failed) (λ _ m p. p)
put_previous-files (some before) m0 = link_previous-files before m0

both_restored :
    (restored unlinked : Bool)
    → (if restored && unlinked then failed_and_restored else restore_failed) ≢ restore_failed
    → (restored ≡ true) × (unlinked ≡ true)
both_restored true true ne = (refl, refl)
both_restored true false ne = absurd (ne refl)
both_restored false unlinked ne = absurd (ne refl)

-- Unless going back fails as well, the old archive runs again and both links are back.
go_back-restored :
    (old running : String) (before : Option String) (m : Machine) {x : Fault} {end : Machine}
    → go_back old running before m ≡ stopped x end
    → x ≢ restore_failed
    → (end.current ≡ some old)
      × (end.serving ≡ some old)
      × (end.previous ≡ before)
      × (files end ≡ files m)
unfolding go_back
go_back-restored old running before m {x} {end} h ne =
    elim (bind_stopped (attempt (restart_on old running)) _ m h) [
      | inl bad ↦ absurd (attempt-stopped (restart_on old running) m x end bad)
      | inr (restored, m1, a, k) ↦ elim (bind_stopped (attempt (put_previous before)) _ m1 k) [
        | inl bad ↦ absurd (attempt-stopped (put_previous before) m1 x end bad)
        | inr (unlinked, m2, b, e) ↦
            let fault : (if restored && unlinked then failed_and_restored else restore_failed) ≡ x =
              stopped_error {A = Unit {0}} e in
            let (r, u) = both_restored restored unlinked (λ q. ne (sym fault ∙ q)) in
            let (_, first) = attempt_worked (restart_on old running) m a r in
            let (_, last) = attempt_worked (put_previous before) m1 b u in
            let (c, s) = restart_on-returned old running m first in
            let (_, f) =
              kept_returned _ (restart_on old running) (restart_on-files old running m) m
                (refl, refl) first in
            let (c', s', f') =
              kept_returned _ (put_previous before) (put_previous-files before m1) m1
                (refl, refl, refl) last in
            let done : m2 ≡ end = stopped_state {A = Unit {0}} e in
            subst
              (λ (w : Machine).
                (w.current ≡ some old)
                × (w.serving ≡ some old)
                × (w.previous ≡ before)
                × (files w ≡ files m))
              done (c' ∙ c, s' ∙ s, put_previous-returned before m1 last, f' ∙ f)
      ]
    ]

-- All that an upgrade works on, but for the answers still to come.
abbrev pub Untouched : Machine → Machine → Type 0
Untouched m x =
    (x.current ≡ m.current)
    × (x.previous ≡ m.previous)
    × (x.serving ≡ m.serving)
    × (files x ≡ files m)

pub run-Untouched : (m : Machine) (fault : Fault) → Keeps (Untouched m) (run fault)
run-Untouched m fault = Keeps-run _ ((λ _ _ p. p), (λ _ _ p. p), (λ _ _ p. p)) fault

link_previous-stopped :
    (folder : String) (m : Machine) {x : Fault} {end : Machine}
    → link_previous folder m ≡ stopped x end
    → Untouched m end
unfolding link_previous
link_previous-stopped folder m h = elim (bind_stopped (run link_failed) _ m h) [
  | inl bad ↦
      kept_stopped _ (run link_failed) (run-Untouched m link_failed) m (refl, refl, refl, refl) bad
  | inr (_, m1, a, k) ↦
      let here =
        kept_returned _ (run link_failed) (run-Untouched m link_failed) m (refl, refl, refl, refl)
          a in
      elim (bind_stopped (run link_failed) _ m1 k) [
        | inl bad ↦ kept_stopped _ (run link_failed) (run-Untouched m link_failed) m1 here bad
        | inr (_, m2, b, e) ↦ absurd cc
      ]
]

switch-stopped :
    (name version old running : String) (before : Option String) (m : Machine) {x : Fault}
    {end : Machine}
    → switch name version old running before m ≡ stopped x end
    → x ≢ restore_failed
    → (end.current ≡ some old)
      × (end.serving ≡ some old)
      × (end.previous ≡ before)
      × (files end ≡ files m)
unfolding switch
switch-stopped name version old running before m {x} {end} h ne =
    elim (bind_stopped (attempt (restart_on name version)) _ m h) [
      | inl bad ↦ absurd (attempt-stopped (restart_on name version) m x end bad)
      | inr (works, mid, tried, k) ↦ elim (attempt_returned (restart_on name version) m tried) [
        | inl (works_so, _, _) ↦ absurd (cc (works_so, k))
        | inr (fails_so, y, failed) ↦
            let (c, s, p, f) = go_back-restored old running before mid (rw fails_so at k) ne in
            let (_, f0) =
              kept_stopped _ (restart_on name version) (restart_on-files name version m) m
                (refl, refl) failed in
            (c, s, p, f ∙ f0)
      ]
    ]

-- The links and the archives as they were, and the old archive running, restarted or not.
abbrev pub Restored : Machine → Machine → Type 0
Restored m x =
    (x.current ≡ m.current)
    × (x.previous ≡ m.previous)
    × ((x.serving ≡ m.serving) ⊎ (x.serving ≡ m.current))
    × (files x ≡ files m)

-- A cutover that stops has left both links and the archives as they were, unless restoring the old
-- version failed as well; what runs is the old archive, restarted, or was not touched.
pub cutover-stopped :
    (name version : String) (m : Machine) {x : Fault} {end : Machine}
    → cutover name version m ≡ stopped x end
    → x ≢ restore_failed
    → Restored m end
unfolding cutover
cutover-stopped name version m {x} {end} h ne = split m.current (root_version "current" m) refl h
  where
    split :
        (at running : Option String)
        → m.current ≡ at
        → cutover_from name version at running m ≡ stopped x end
        → Restored m end
    split none running e k =
        let same : m ≡ end = stopped_state {A = Unit {0}} k in
        subst (Restored m) same (refl, refl, inl refl, refl)
    split (some old) none e k =
        let same : m ≡ end = stopped_state {A = Unit {0}} k in
        subst (Restored m) same (refl, refl, inl refl, refl)
    split (some old) (some running) e k = elim (bind_stopped (link_previous old) _ m k) [
      | inl bad ↦ let (c, p, s, f) = link_previous-stopped old m bad in (c, p, inl s, f)
      | inr (_, mid, linked, k') ↦
          let (_, _, f0) =
            kept_returned _ (link_previous old) (link_previous-files old m) m (refl, refl, refl)
              linked in
          let (c, s, p, f) = switch-stopped name version old running m.previous mid k' ne in
          (c ∙ sym e, p, inr (s ∙ sym e), f ∙ f0)
    ]
