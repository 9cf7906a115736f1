-- ===== src/Upgrade/Links.antt =====
-- What an upgrade's actions leave alone, and where the links point when they succeed.
use grasshopper.Upgrade.Cutover.{
  verdict, poll_until, wait_with, wait_healthy, kickstart, restart_on, Verdict, healthy, over,
  again, on_verdict,
}
use grasshopper.Upgrade.{
  command_with, run, changes, link_current, link_previous, Fault, Poll, Machine, command_failed,
  link_failed, no_token, no_answer,
}
use grasshopper.Actions.{after, Keeps, Keeps-bind}
use grasshopper.Base.{String, Bool, true, false, Option, some, List, [], ◌∷◌}

-- What an action that only waits for answers leaves as it was.
abbrev pub Blind {ℓ} : (Machine → Type ℓ) → Type ℓ
Blind P =
    ((m : Machine) (os : List Bool) → P m → P (record m { outcomes = os }))
    × ((m : Machine) (ls : List (List Bool)) → P m → P (record m { listings = ls }))
    × ((m : Machine) (ps : List (List Poll)) → P m → P (record m { polls = ps }))

module _ {ℓ} (P : Machine → Type ℓ) where
  pub Keeps-run : Blind P → (fault : Fault) → Keeps P (run fault)
  unfolding run
  Keeps-run blind fault m p = split m.outcomes
    where
      split : (os : List Bool) → P (after (command_with fault m os))
      split [] = p
      split (true ∷ rest) = blind.0 m rest p
      split (false ∷ rest) = blind.0 m rest p

  pub Keeps-changes :
      (f : Machine → Machine) → ((m : Machine) → P m → P (f m)) → Keeps P (changes f)
  Keeps-changes f keeps m p = keeps m p

  Keeps-poll_until :
      (version : String) (last : Fault) (ps : List Poll) → Keeps P (poll_until version last ps)
  unfolding poll_until
  Keeps-poll_until version last [] m p = p
  Keeps-poll_until version last (q ∷ qs) m p =
      split (verdict version q) (λ e. Keeps-poll_until version e qs m p)
    where
      split :
          (v : Verdict)
          → ((e : Fault) → P (after (poll_until version e qs m)))
          → P (after (on_verdict v (λ e. poll_until version e qs) m))
      split healthy next = p
      split over next = p
      split (again e) next = next e

  pub Keeps-wait_healthy : Blind P → (version : String) → Keeps P (wait_healthy version)
  unfolding wait_healthy
  Keeps-wait_healthy blind version =
      Keeps-bind P (run no_token) _ (Keeps-run blind no_token) (λ _ m p. waits m p m.polls)
    where
      waits : (m : Machine) → P m → (ps : List (List Poll)) → P (after (wait_with version m ps))
      waits m p [] = p
      waits m p (ps ∷ rest) = Keeps-poll_until version no_answer ps _ (blind.2 m rest p)

  pub Keeps-link_current :
      Blind P
      → ((m : Machine) (l : Option String) → P m → P (record m { current = l }))
      → (folder : String) → Keeps P (link_current folder)
  unfolding link_current
  Keeps-link_current blind sets folder =
      Keeps-bind P (run link_failed) _ (Keeps-run blind link_failed) (λ _.
        Keeps-bind P (run link_failed) _ (Keeps-run blind link_failed)
          (λ _ m p. sets m (some folder) p))

  pub Keeps-link_previous :
      Blind P
      → ((m : Machine) (l : Option String) → P m → P (record m { previous = l }))
      → (folder : String) → Keeps P (link_previous folder)
  unfolding link_previous
  Keeps-link_previous blind sets folder =
      Keeps-bind P (run link_failed) _ (Keeps-run blind link_failed) (λ _.
        Keeps-bind P (run link_failed) _ (Keeps-run blind link_failed)
          (λ _ m p. sets m (some folder) p))

  pub Keeps-kickstart :
      Blind P
      → ((m : Machine) (l : Option String) → P m → P (record m { serving = l }))
      → Keeps P kickstart
  unfolding kickstart
  Keeps-kickstart blind sets =
      Keeps-bind P (run command_failed) _ (Keeps-run blind command_failed)
        (λ _ m p. sets m m.current p)

  pub Keeps-restart_on :
      Blind P
      → ((m : Machine) (l : Option String) → P m → P (record m { current = l }))
      → ((m : Machine) (l : Option String) → P m → P (record m { serving = l }))
      → (name version : String) → Keeps P (restart_on name version)
  unfolding restart_on
  Keeps-restart_on blind links serves name version =
      Keeps-bind P (link_current name) _ (Keeps-link_current blind links name) (λ _.
        Keeps-bind P kickstart _ (Keeps-kickstart blind serves)
          (λ _. Keeps-wait_healthy blind version))
