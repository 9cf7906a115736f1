-- ===== src/Upgrade/Adopt.antt =====
-- adopt (cmd/grasshopper-server/upgrade.go): a service whose plist names an archive folder moves onto
-- the link `current`.
use grasshopper.Upgrade.Cutover.{wait_healthy, unload}
use grasshopper.Upgrade.{
  Act, run, changes, resolve, link_current, command_failed, copy_failed, adopt_failed,
}
use grasshopper.Base.{String, ◌==◌, string_eq, if◌then◌else◌, nat_eq, option_eq, list_eq, ◌&&◌}
use grasshopper.Actions.{returned, give, stop, attempt, ◌>>=◌, ◌>>◌}

-- copyPrivate of the plist aside and back
unfoldable pub save_plist : Act (Unit {0})
unfolding run ◌>>=◌
save_plist = run copy_failed >> changes (λ m. record m { saved_root = m.plist_root })

unfoldable pub restore_plist : Act (Unit {0})
unfolding run ◌>>=◌
restore_plist = run copy_failed >> changes (λ m. record m { plist_root = m.saved_root })

-- plutil -replace: the plist's arguments name the link.
unfoldable pub replace_root : Act (Unit {0})
unfolding run ◌>>=◌
replace_root = run command_failed >> changes (λ m. record m { plist_root = "current" })

-- launchctl bootstrap: the job starts from where its plist points.
unfoldable pub bootstrap : Act (Unit {0})
unfolding run ◌>>=◌
bootstrap = run command_failed >> changes (λ m. record m { serving = resolve m.plist_root m })

-- The error, after the old plist was put back.
unfoldable pub give_up : Act (Unit {0})
unfolding restore_plist attempt ◌>>=◌
give_up = do restored ← attempt restore_plist; stop command_failed

unfoldable pub reload_old : Act (Unit {0})
unfolding unload restore_plist bootstrap attempt ◌>>=◌
reload_old = do
  unloaded ← attempt unload
  restored ← attempt restore_plist
  if unloaded && restored then bootstrap else give tt

-- The job starts from the new plist, and reports the version that it had.
unfoldable pub start_new : String → Act (Unit {0})
unfolding bootstrap wait_healthy attempt reload_old ◌>>=◌
start_new version = do
  started ← attempt (bootstrap >> wait_healthy version)
  if started then give tt else attempt reload_old >> stop adopt_failed

unfoldable pub reload_new : String → Act (Unit {0})
unfolding unload start_new give_up attempt ◌>>=◌
reload_new version = do unloaded ← attempt unload; if unloaded then start_new version else give_up

unfoldable pub after_link : String → Act (Unit {0})
unfolding save_plist replace_root reload_new give_up run attempt ◌>>=◌
after_link version = do
  save_plist
  replace_root
  linted ← attempt (run command_failed)
  if linted then reload_new version else give_up

unfoldable pub adopt : String → Act (Unit {0})
unfolding link_current after_link ◌>>=◌
adopt version m =
    if m.plist_root == "current"
    then returned tt m
    else (link_current m.plist_root >> after_link version) m
