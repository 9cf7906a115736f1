-- ===== src/Upgrade/Rollback.antt =====
-- A rollback exchanges the two links, so a second one goes forward again.
use grasshopper.Upgrade.Stopped.{Untouched, run-Untouched}
use grasshopper.Upgrade.Command.{
  read_service, write_skip, record_skip, rollback_from, version_under, rollback,
}
use grasshopper.Upgrade.Outcomes.{cutover-returned}
use grasshopper.Upgrade.Cutover.{cutover}
use grasshopper.Upgrade.{run, root_version, Machine, command_failed}
use grasshopper.Actions.{bind_returned, Keeps-bind, returned_state, kept_returned, returned}
use grasshopper.Base.{
  ◌==◌, nat_eq, string_eq, option_eq, list_eq, String, ◌≡◌, refl, sym, ap, ◌∙◌, subst, Bool, true,
  false, Option, none, some, List, [], ◌∷◌,
}

pub read_service-returned :
    (m : Machine) {root : String} {end : Machine}
    → read_service m ≡ returned root end
    → Untouched m end
unfolding read_service
read_service-returned m h =
    kept_returned (Untouched m) read_service
      (Keeps-bind _ (run command_failed) _ (run-Untouched m command_failed)
        (λ _. Keeps-bind _ (run command_failed) _ (run-Untouched m command_failed) (λ _ _ p. p)))
      m (refl, refl, refl, refl) h

record_skip-links :
    (version : String) (m : Machine)
    → ((record_skip version m).current ≡ m.current)
      × ((record_skip version m).previous ≡ m.previous)
      × ((record_skip version m).serving ≡ m.serving)
      × ((record_skip version m).entries ≡ m.entries)
unfolding record_skip
record_skip-links version m = split m.outcomes
  where
    split :
        (os : List Bool)
        → ((write_skip version os m).current ≡ m.current)
          × ((write_skip version os m).previous ≡ m.previous)
          × ((write_skip version os m).serving ≡ m.serving)
          × ((write_skip version os m).entries ≡ m.entries)
    split [] = (refl, refl, refl, refl)
    split (true ∷ rest) = (refl, refl, refl, refl)
    split (false ∷ rest) = (refl, refl, refl, refl)

-- A rollback that returns has exchanged the links and runs what `previous` named.
pub rollback-returned :
    (m : Machine) {end : Machine}
    → rollback m ≡ returned tt end
    → (end.current ≡ m.previous)
      × (end.previous ≡ m.current)
      × (end.serving ≡ m.previous)
      × (end.entries ≡ m.entries)
unfolding rollback
rollback-returned m {end} h =
    let (root, mid, service, k) = bind_returned read_service _ m h in
    let (c, p, s, f) = read_service-returned m service in
    let (c', p', s', e') =
      split mid mid.previous (root == "current") (root_version root mid)
        (version_under mid.previous mid) refl k in
    (c' ∙ p, p' ∙ c, s' ∙ p, e' ∙ ap (λ x. x.0) f)
  where
    split :
        (mid : Machine) (before : Option String) (linked : Bool) (running version : Option String)
        → mid.previous ≡ before
        → rollback_from before linked running version mid ≡ returned tt end
        → (end.current ≡ mid.previous)
          × (end.previous ≡ mid.current)
          × (end.serving ≡ mid.previous)
          × (end.entries ≡ mid.entries)
    split mid none linked running version e k = cc
    split mid (some name) false running version e k = cc
    split mid (some name) true none version e k = cc
    split mid (some name) true (some running) none e k = cc
    split mid (some name) true (some running) (some version) e k =
        let (_, next, cut, k') = bind_returned (cutover name version) _ mid k in
        let (c, s, p, f) = cutover-returned name version mid cut in
        let (c', p', s', e') = record_skip-links running next in
        let done : record_skip running next ≡ end = returned_state k' in
        subst
          (λ (w : Machine).
            (w.current ≡ mid.previous)
            × (w.previous ≡ mid.current)
            × (w.serving ≡ mid.previous)
            × (w.entries ≡ mid.entries))
          done (c' ∙ c ∙ sym e, p' ∙ p, s' ∙ s ∙ sym e, e' ∙ ap (λ x. x.0) f)

-- Two rollbacks that return leave both links as they were, and the same archives.
pub rollback-rollback :
    (m : Machine) {mid end : Machine}
    → rollback m ≡ returned tt mid
    → rollback mid ≡ returned tt end
    → (end.current ≡ m.current)
      × (end.previous ≡ m.previous)
      × (end.serving ≡ m.current)
      × (end.entries ≡ m.entries)
rollback-rollback m {mid} h k =
    let (c, p, s, e) = rollback-returned m h in
    let (c', p', s', e') = rollback-returned mid k in (c' ∙ p, p' ∙ c, s' ∙ p, e' ∙ e)
