-- ===== src/Rotation/Tests.antt =====
-- Rotations of the token "old".
use grasshopper.Rotation.{rotate_owner_token, TokenFile, DataDir, server_running, whole}
use grasshopper.Actions.{attempt, returned, stopped}
use grasshopper.Base.{◌≡◌, refl, true, false, none, some, [], ◌∷◌}

abbrev data_dir : DataDir
data_dir = record {
  is_plain = true;
  is_private = true;
  has_database = true;
  token = some (record { is_regular = true; readable = true; content = "old" });
  previous = none;
  outcomes =
      true ∷ true ∷ true ∷ true ∷ true ∷ true ∷ true ∷ true ∷ true ∷ true ∷ true ∷ true ∷ true
      ∷ true ∷ true ∷ [];
}

abbrev old_token : TokenFile
old_token = record { is_regular = true; readable = true; content = "old" }

rotates :
    rotate_owner_token false true true "new" data_dir
    ≡ returned tt (record data_dir {
      token = some (record { is_regular = true; readable = true; content = "new" });
      previous = some (whole "old");
      outcomes = [];
    })
unfolding rotate_owner_token attempt
rotates = refl

refuses_running :
    rotate_owner_token false false true "new" data_dir ≡ stopped server_running data_dir
unfolding rotate_owner_token
refuses_running = refl
