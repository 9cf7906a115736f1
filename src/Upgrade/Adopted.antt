-- ===== src/Upgrade/Adopted.antt =====
-- What adopting the link `current` and the backup leave alone.
use grasshopper.Upgrade.Links.{Blind, Keeps-run, Keeps-wait_healthy}
use grasshopper.Upgrade.Adopt.{
  restore_plist, bootstrap, give_up, save_plist, replace_root, reload_old, start_new, reload_new,
  after_link,
}
use grasshopper.Upgrade.Cutover.{unload_with, unload, wait_healthy}
use grasshopper.Upgrade.{
  run, resolve, Machine, command_failed, copy_failed, still_listed, adopt_failed, Fault,
}
use grasshopper.Actions.{
  after, attempt, Keeps, Keeps-bind, Keeps-attempt, returned, stopped, give, stop, ◌>>◌,
}
use grasshopper.Base.{
  if◌then◌else◌, String, Bool, true, false, Option, none, List, [], ◌∷◌, all, ◌&&◌,
}

module _ {ℓ} (P : Machine → Type ℓ) (blind : Blind P)
    (serves : (m : Machine) (l : Option String) → P m → P (record m { serving = l }))
    (saves : (m : Machine) (r : String) → P m → P (record m { saved_root = r }))
    (moves : (m : Machine) (r : String) → P m → P (record m { plist_root = r })) where
  Keeps-unload : Keeps P unload
  unfolding unload
  Keeps-unload =
      Keeps-bind P (attempt (run command_failed)) _
        (Keeps-attempt P (run command_failed) (Keeps-run P blind command_failed))
        (λ _ m p. listed m p m.listings)
    where
      over :
          (m : Machine)
          → P m
          → (all_listed : Bool)
          → P (
              after {E = Fault} {A = Unit {0}} (
                if all_listed
                then stopped still_listed m
                else returned tt (record m { serving = none })))
      over m p true = p
      over m p false = serves m none p

      listed : (m : Machine) → P m → (ls : List (List Bool)) → P (after (unload_with m ls))
      listed m p [] = p
      listed m p (l ∷ ls) = over (record m { listings = ls }) (blind.1 m ls p) (all (λ b. b) l)

  Keeps-bootstrap : Keeps P bootstrap
  unfolding bootstrap
  Keeps-bootstrap =
      Keeps-bind P (run command_failed) _ (Keeps-run P blind command_failed)
        (λ _ m p. serves m (resolve m.plist_root m) p)

  Keeps-restore_plist : Keeps P restore_plist
  unfolding restore_plist
  Keeps-restore_plist =
      Keeps-bind P (run copy_failed) _ (Keeps-run P blind copy_failed)
        (λ _ m p. moves m m.saved_root p)

  Keeps-give_up : Keeps P give_up
  unfolding give_up
  Keeps-give_up =
      Keeps-bind P (attempt restore_plist) _ (Keeps-attempt P restore_plist Keeps-restore_plist)
        (λ _ m p. p)

  Keeps-reload_old : Keeps P reload_old
  unfolding reload_old
  Keeps-reload_old =
      Keeps-bind P (attempt unload) _ (Keeps-attempt P unload Keeps-unload) (λ unloaded.
        Keeps-bind P (attempt restore_plist) _ (Keeps-attempt P restore_plist Keeps-restore_plist)
          (λ restored. then_start (unloaded && restored)))
    where
      then_start : (both : Bool) → Keeps P (if both then bootstrap else give tt)
      then_start true m p = Keeps-bootstrap m p
      then_start false m p = p

  Keeps-start_new : (version : String) → Keeps P (start_new version)
  unfolding start_new
  Keeps-start_new version =
      Keeps-bind P (attempt (bootstrap >> wait_healthy version)) _
        (Keeps-attempt P (bootstrap >> wait_healthy version)
          (Keeps-bind P bootstrap _ Keeps-bootstrap (λ _. Keeps-wait_healthy P blind version)))
        settled
    where
      settled :
          (started : Bool)
          → Keeps {0, 0, 0, ℓ} {A = Unit {0}} P
              (if started then give tt else attempt reload_old >> stop adopt_failed)
      settled true m p = p
      settled false m p =
          Keeps-bind P (attempt reload_old) _ (Keeps-attempt P reload_old Keeps-reload_old)
            (λ _ m p. p) m p

  Keeps-reload_new : (version : String) → Keeps P (reload_new version)
  unfolding reload_new
  Keeps-reload_new version =
      Keeps-bind P (attempt unload) _ (Keeps-attempt P unload Keeps-unload) settled
    where
      settled : (unloaded : Bool) → Keeps P (if unloaded then start_new version else give_up)
      settled true m p = Keeps-start_new version m p
      settled false m p = Keeps-give_up m p

  -- Everything that adopt does after it has made the link.
  pub Keeps-after_link : (version : String) → Keeps P (after_link version)
  unfolding after_link save_plist replace_root
  Keeps-after_link version =
      Keeps-bind P save_plist _
        (Keeps-bind P (run copy_failed) _ (Keeps-run P blind copy_failed)
          (λ _ m p. saves m m.plist_root p))
        (λ _.
          Keeps-bind P replace_root _
            (Keeps-bind P (run command_failed) _ (Keeps-run P blind command_failed)
              (λ _ m p. moves m "current" p))
            (λ _.
              Keeps-bind P (attempt (run command_failed)) _
                (Keeps-attempt P (run command_failed) (Keeps-run P blind command_failed)) settled))
    where
      settled : (linted : Bool) → Keeps P (if linted then reload_new version else give_up)
      settled true m p = Keeps-reload_new version m p
      settled false m p = Keeps-give_up m p
