-- ===== src/Upgrade/Health.antt =====
-- A cutover succeeds when its actions do and the new server answers in time.
use grasshopper.Upgrade.Nightly.{archive_version-entries}
use grasshopper.Upgrade.Cutover.{
  verdict, on_verdict, poll_until, wait_healthy, kickstart, restart_on, switch, cutover, Verdict,
  healthy, over, again, go_back, cutover_from,
}
use grasshopper.Upgrade.{
  run, archive_version, root_version, link_current, link_previous, Fault, Poll, Machine, Act,
  no_answer,
}
use grasshopper.Actions.{attempt, returned, give, outcome, resume, Ran, ◌>>=◌}
use grasshopper.Base.{
  String, ◌≡◌, refl, Bool, true, false, some, List, [], ◌∷◌, if◌then◌else◌, sym, ap, ◌∙◌, subst,
  Option,
}

-- A right answer comes before the deadline of the whole command.
abbrev pub answers : String → List Poll → Bool
answers version [] = false
answers version (p ∷ ps) = elim (verdict version p) [
  | healthy ↦ true
  | over ↦ false
  | again e ↦ answers version ps
]

poll_until-answers :
    (version : String) (last : Fault) (ps : List Poll) (m : Machine)
    → answers version ps ≡ true
    → poll_until version last ps m ≡ returned tt m
unfolding poll_until
poll_until-answers version last [] m h = absurd cc
poll_until-answers version last (p ∷ ps) m h =
    split (verdict version p) h (λ e. poll_until-answers version e ps m)
  where
    split :
        (v : Verdict)
        → elim v [ healthy ↦ true | over ↦ false | again e ↦ answers version ps ] ≡ true
        → ((e : Fault) → answers version ps ≡ true → poll_until version e ps m ≡ returned tt m)
        → on_verdict v (λ e. poll_until version e ps) m ≡ returned tt m
    split healthy k next = refl
    split over k next = absurd cc
    split (again e) k next = next e k

settle_switch : String → String → String → String → Option String → Bool → Act (Unit {0})
settle_switch name version old running before works =
    if works then give tt else go_back old running before

-- When the six actions of a cutover work and the new server answers in time, the cutover returns:
-- it is never stuck waiting.
pub cutover-answers :
    (name version old running : String) (m : Machine) (os : List Bool) (ps : List Poll)
    (rest : List (List Poll))
    → archive_version old m ≡ some running
    → answers version ps ≡ true
    → cutover name version (record m {
      current = some old;
      outcomes = true ∷ true ∷ true ∷ true ∷ true ∷ true ∷ os;
      polls = ps ∷ rest;
    })
      ≡ returned tt (record m {
        current = some name;
        previous = some old;
        serving = some name;
        outcomes = os;
        polls = rest;
      })
unfolding cutover root_version settle_switch ◌>>=◌ link_previous link_current switch restart_on
    kickstart wait_healthy run attempt
cutover-answers name version old running m os ps rest reports good =
    let m0 : Machine = record m {
      current = some old;
      outcomes = true ∷ true ∷ true ∷ true ∷ true ∷ true ∷ os;
      polls = ps ∷ rest;
    } in
    let end : Machine = record m {
      current = some name;
      previous = some old;
      serving = some name;
      outcomes = os;
      polls = rest;
    } in
    let running_known : archive_version old m0 ≡ some running =
      archive_version-entries old m0 m refl ∙ reports in
    let answered : cutover_from name version (some old) (some running) m0 ≡ returned tt end =
      ap
        (λ (r : Ran Machine Fault (Unit {0})).
          resume (outcome r) (settle_switch name version old running m.previous))
        (poll_until-answers version no_answer ps end good) in
    subst (λ found. cutover_from name version (some old) found m0 ≡ returned tt end)
      (sym running_known) answered
