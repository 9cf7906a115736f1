-- ===== src/Rotation.antt =====
-- The replacement of the owner's token while the server is stopped (rotateOwnerToken of
-- cmd/grasshopper-server/rotation.go).
pub mod Kept
pub mod Safe
mod Tests
use grasshopper.Actions.{give, stop, attempt, ◌>>=◌, ◌>>◌, Ran, returned, stopped}
use grasshopper.Base.{
  if◌then◌else◌, is_some, String, Bool, true, false, not, ◌&&◌, ◌||◌, Option, none, some, List, [],
  ◌∷◌,
}

pub data RotationError : Type 0 where
  server_running relative_dir linked_dir open_dir no_database previous_exists : RotationError
  irregular_token unreadable_token file_failed backup_unfinished not_replaced not_durable :
      RotationError

pub record TokenFile : Type 0 where
  pub is_regular : Bool
  pub readable : Bool
  pub content : String

-- A file that is being written holds all of it, or what came before an error.
pub data Copy : Type 0 where
  whole : String → Copy
  unfinished : Copy

-- The folder of the data; `outcomes` says which of the file operations to come succeed.
pub record DataDir : Type 0 where
  pub is_plain : Bool
  pub is_private : Bool
  pub has_database : Bool
  pub token : Option TokenFile
  pub previous : Option Copy
  pub outcomes : List Bool

abbrev pub Op {ℓ} : Type ℓ → Type ℓ
Op A = DataDir → Ran DataDir RotationError A

abbrev pub op_with : RotationError → DataDir → List Bool → Ran DataDir RotationError (Unit {0})
op_with error d [] = stopped error d
op_with error d (works ∷ rest) =
    let d' : DataDir = record d { outcomes = rest } in
    if works then returned tt d' else stopped error d'

unfoldable pub op : RotationError → Op (Unit {0})
op error d = op_with error d d.outcomes

abbrev pub must : RotationError → Bool → Op (Unit {0})
must error holds d = if holds then returned tt d else stopped error d

-- What must hold before anything is written.
unfoldable pub check_dir : Bool → Bool → Bool → Op (Unit {0})
unfolding ◌>>=◌
check_dir windows stopped_server is_abs d =
    (must server_running stopped_server
        >> must relative_dir is_abs
        >> must linked_dir d.is_plain
        >> must open_dir (windows || d.is_private)
        >> must no_database d.has_database
        >> must previous_exists (not (is_some d.previous)))
      d

-- The old token's text, if there is one.
unfoldable pub read_old : Option TokenFile → Op (Option String)
unfolding op ◌>>=◌
read_old none d = returned none d
read_old (some t) d =
    (must irregular_token t.is_regular
        >> must unreadable_token t.readable
        >> op file_failed
        >> give (some t.content))
      d

-- The new token in a temporary file: random bytes, the file, its mode, its text, sync and close.
unfoldable pub write_temp : Op (Unit {0})
unfolding op ◌>>=◌
write_temp =
    op file_failed
    >> op file_failed
    >> op file_failed
    >> op file_failed
    >> op file_failed
    >> op file_failed

abbrev pub set_previous : Option Copy → DataDir → Ran DataDir RotationError (Unit {0})
set_previous copy d = returned tt (record d { previous = copy })

-- The copy is removed when it could not be written; that may fail, too.
abbrev pub drop_copy : Bool → Op (Unit {0})
drop_copy true d = set_previous none d
drop_copy false d = returned tt d

unfoldable pub finish_copy : String → Bool → Bool → Bool → Op (Unit {0})
unfolding op attempt ◌>>=◌
finish_copy old written synced closed d =
    if written && synced && closed
    then set_previous (some (whole old)) d
    else (attempt (op file_failed) >>= λ removed. drop_copy removed >> stop backup_unfinished) d

-- rollback.Write, Sync and Close: all three are called.
unfoldable pub write_copy : String → Op (Unit {0})
unfolding op attempt finish_copy ◌>>=◌
write_copy old = attempt (op file_failed) >>= λ written. attempt (op file_failed) >>= λ synced.
    attempt (op file_failed) >>= λ closed. finish_copy old written synced closed

unfoldable pub back_up : Option String → Op (Unit {0})
unfolding op write_copy ◌>>=◌
back_up none d = returned tt d
back_up (some old) d = (op file_failed >> set_previous (some unfinished) >> write_copy old) d

unfoldable pub replace_token : String → Op (Unit {0})
unfolding op ◌>>=◌
replace_token secret = op not_replaced >> λ d.
    returned tt
      (record d { token = some (record { is_regular = true; readable = true; content = secret }) })

unfoldable pub sync_dir : Bool → Op (Unit {0})
unfolding op attempt ◌>>=◌
sync_dir true d = returned tt d
sync_dir false d =
    (op not_durable >> attempt (op file_failed) >>= λ synced.
    attempt (op file_failed) >>= λ closed. must not_durable (synced && closed))
      d

unfoldable pub rotate_owner_token : Bool → Bool → Bool → String → Op (Unit {0})
unfolding check_dir read_old write_temp back_up replace_token sync_dir ◌>>=◌
rotate_owner_token windows stopped_server is_abs secret = do
  check_dir windows stopped_server is_abs
  old ← λ d. read_old d.token d
  write_temp
  back_up old
  replace_token secret
  sync_dir windows
