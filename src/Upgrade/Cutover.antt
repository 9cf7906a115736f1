-- ===== src/Upgrade/Cutover.antt =====
-- waitHealthy, unload, restartOn and cutover (cmd/grasshopper-server/upgrade.go).
use grasshopper.Base.{
  Bool, not, ◌&&◌, ◌||◌, Option, none, some, List, [], ◌∷◌, String, ◌==◌, nat_eq, string_eq,
  if◌then◌else◌, all, option_eq, list_eq,
}
use grasshopper.Actions.{Ran, returned, stopped, give, stop, attempt, ◌>>=◌, ◌>>◌}
use grasshopper.Upgrade.{
  Fault, command_failed, no_token, still_listed, bad_health, wrong_server, search_failed, no_answer,
  cancelled, not_a_link, no_version, failed_and_restored, restore_failed, link_failed, Poll,
  unreachable, deadline_of_command, replied, Machine, Act, run, changes, root_version, link_current,
  link_previous,
}

pub data Verdict : Type 0 where
  healthy over : Verdict
  again : Fault → Verdict

-- One round of waitHealthy: the reply must come from the owner's own server, in the version, and a
-- search must work.
abbrev pub verdict : String → Poll → Verdict
verdict version unreachable = again no_answer
verdict version deadline_of_command = over
verdict version (replied status decoded role reported search) =
    if not (status == 200) || not decoded
    then again bad_health
    else if not (role == "owner") || not (reported == version)
    then again wrong_server
    else if search
    then healthy
    else again search_failed

abbrev pub on_verdict : Verdict → (Fault → Act (Unit {0})) → Act (Unit {0})
on_verdict healthy next m = returned tt m
on_verdict over next m = stopped cancelled m
on_verdict (again e) next m = next e m

-- The loop of waitHealthy: it ends with the first reply that is right, and otherwise with the last
-- error when the time is over.
unfoldable pub poll_until : String → Fault → List Poll → Act (Unit {0})
poll_until version last [] m = stopped last m
poll_until version last (p ∷ ps) m = on_verdict (verdict version p) (λ e. poll_until version e ps) m

abbrev pub wait_with : String → Machine → List (List Poll) → Ran Machine Fault (Unit {0})
unfolding poll_until
wait_with version m [] = stopped no_answer m
wait_with version m (ps ∷ rest) = poll_until version no_answer ps (record m { polls = rest })

unfoldable pub wait_healthy : String → Act (Unit {0})
unfolding run poll_until ◌>>=◌ wait_with
wait_healthy version = run no_token >> λ m. wait_with version m m.polls

-- The job ended: launchd does not list it any more.
abbrev pub unlisted : List Bool → Act (Unit {0})
unlisted listed m =
    if all (λ b. b) listed
    then stopped still_listed m
    else returned tt (record m { serving = none })

abbrev pub unload_with : Machine → List (List Bool) → Ran Machine Fault (Unit {0})
unload_with m [] = stopped still_listed m
unload_with m (listed ∷ rest) = unlisted listed (record m { listings = rest })

unfoldable pub unload : Act (Unit {0})
unfolding run attempt ◌>>=◌
unload = attempt (run command_failed) >>= λ _ m. unload_with m m.listings

-- launchctl kickstart -k: the job starts again, from where `current` points.
unfoldable pub kickstart : Act (Unit {0})
unfolding run ◌>>=◌
kickstart = run command_failed >> changes (λ m. record m { serving = m.current })

unfoldable pub restart_on : String → String → Act (Unit {0})
unfolding link_current kickstart wait_healthy ◌>>=◌
restart_on name version = link_current name >> kickstart >> wait_healthy version

-- The link `previous`, as it was before.
unfoldable pub put_previous : Option String → Act (Unit {0})
unfolding run link_previous ◌>>=◌
put_previous none = run link_failed >> changes (λ m. record m { previous = none })
put_previous (some before) = link_previous before

-- The part of cutover that runs when the new version did not become healthy.
unfoldable pub go_back : String → String → Option String → Act (Unit {0})
unfolding restart_on put_previous attempt ◌>>=◌
go_back old running before = do
  restored ← attempt (restart_on old running)
  unlinked ← attempt (put_previous before)
  stop (if restored && unlinked then failed_and_restored else restore_failed)

-- The restart, and the way back if it fails.
unfoldable pub switch : String → String → String → String → Option String → Act (Unit {0})
unfolding restart_on go_back attempt ◌>>=◌
switch name version old running before = do
  works ← attempt (restart_on name version)
  if works then give tt else go_back old running before

-- What `current` names, and what the program there prints, must be readable.
abbrev pub cutover_from : String → String → Option String → Option String → Act (Unit {0})
unfolding link_previous switch ◌>>=◌
cutover_from name version none running m = stopped not_a_link m
cutover_from name version (some old) none m = stopped no_version m
cutover_from name version (some old) (some running) m =
    (link_previous old >> switch name version old running m.previous) m

unfoldable pub cutover : String → String → Act (Unit {0})
unfolding root_version cutover_from
cutover name version m = cutover_from name version m.current (root_version "current" m) m
