-- ===== src/Client/Tests.antt =====
-- Updates of a client that has version 1.0.0.
use grasshopper.Client.Stopped.{follow-stopped}
use grasshopper.Client.Install.{current_file, follow, follow_server, ReleaseFiles}
use grasshopper.Client.{hand_off_target, Folder, Managed, sum_not_listed, is_stale}
use grasshopper.Actions.{after, attempt, returned, stopped}
use grasshopper.Base.{codes, ℕ, String, ◌≡◌, refl, true, false, none, some, List, [], ◌∷◌, ◌++◌}

abbrev folder : String → Folder
folder version = record { name = version; program = some (some version); recent = false }

abbrev hex_sum : List ℕ
hex_sum = codes "0123456789abcdef0123456789abcdef0123456789abcdef0123456789abcdef"

abbrev managed : Managed
managed = record {
  current = some (current_file "1.0.0");
  versions = folder "0.9.0" ∷ folder "1.0.0" ∷ [];
  last_error = none;
  updates_off = false;
  outcomes = true ∷ true ∷ true ∷ true ∷ true ∷ true ∷ true ∷ true ∷ [];
}

abbrev releases : String → ReleaseFiles
releases version = record {
  sums = some (hex_sum ++ codes " *grasshopper-client-linux-amd64-1.1.0.zip\n");
  zip_file = some (record { digest = hex_sum; program = some (some "1.1.0") });
}

abbrev switched : Managed
unfolding follow attempt
switched = after (follow releases (some "linux-amd64") "1.1.0" managed)

-- The version before stays beside the new one, and no other.
keeps_two :
    switched.versions
    ≡ record { name = "1.1.0"; program = some (some "1.1.0"); recent = true } ∷ folder "1.0.0" ∷ []
unfolding switched grasshopper.Client.is_stale
keeps_two = refl

hands_off : hand_off_target "1.0.0" switched ≡ some "1.1.0"
unfolding hand_off_target switched grasshopper.Client.is_stale
hands_off = refl

opted_out :
    follow_server releases
      (some "linux-amd64")
      "1.0.0"
      (some "1.1.0")
      (record managed { updates_off = true })
    ≡ returned "" (record managed { updates_off = true })
unfolding follow_server
opted_out = refl

-- The archive of 1.2.0 is not listed.
abbrev refused : Managed
unfolding follow attempt
refused = after (follow releases (some "linux-amd64") "1.2.0" managed)

follow-fails : follow releases (some "linux-amd64") "1.2.0" managed ≡ stopped sum_not_listed refused
unfolding follow attempt
follow-fails = refl

follow-stopped_example : refused.current ≡ some (current_file "1.0.0")
follow-stopped_example = follow-stopped releases (some "linux-amd64") "1.2.0" managed follow-fails
