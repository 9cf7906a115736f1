-- ===== src/Rotation/Kept.antt =====
-- What a rotation does before it replaces the token leaves the token alone.
use grasshopper.Rotation.{
  Op, op_with, op, must, check_dir, read_old, write_temp, set_previous, drop_copy, finish_copy,
  write_copy, back_up, RotationError, TokenFile, DataDir, server_running, relative_dir, linked_dir,
  open_dir, no_database, previous_exists, irregular_token, unreadable_token, file_failed,
  backup_unfinished, whole, unfinished,
}
use grasshopper.Actions.{after, stop, attempt, ◌>>=◌, ◌>>◌, Keeps, Keeps-bind, Keeps-attempt}
use grasshopper.Base.{
  if◌then◌else◌, is_some, String, ◌≡◌, Bool, true, false, not, ◌&&◌, ◌||◌, Option, none, some, List,
  [], ◌∷◌,
}

pub Keeps-op :
    (P : DataDir → Type 0)
    → ((d : DataDir) (os : List Bool) → P d → P (record d { outcomes = os }))
    → (error : RotationError) → Keeps P (op error)
unfolding op
Keeps-op P blind error d p = split d.outcomes
  where
    split : (os : List Bool) → P (after (op_with error d os))
    split [] = p
    split (true ∷ rest) = blind d rest p
    split (false ∷ rest) = blind d rest p

module _ (t : TokenFile) where
  -- The owner's token is in place.
  abbrev pub Has : DataDir → Type 0
  Has d = d.token ≡ some t

  pub Has-op : (error : RotationError) → Keeps Has (op error)
  Has-op error = Keeps-op Has (λ _ _ p. p) error

  Has-must : (error : RotationError) (b : Bool) → Keeps Has (must error b)
  Has-must error true d p = p
  Has-must error false d p = p

  pub Has-check_dir :
      (windows stopped_server is_abs : Bool) → Keeps Has (check_dir windows stopped_server is_abs)
  unfolding check_dir
  Has-check_dir windows stopped_server is_abs d p =
      Keeps-bind Has (must server_running stopped_server) _ (Has-must server_running stopped_server)
        (λ _. Keeps-bind Has (must relative_dir is_abs) _ (Has-must relative_dir is_abs) (λ _.
          Keeps-bind Has (must linked_dir d.is_plain) _ (Has-must linked_dir d.is_plain) (λ _.
            Keeps-bind Has (must open_dir (windows || d.is_private)) _
              (Has-must open_dir (windows || d.is_private))
              (λ _.
                Keeps-bind Has (must no_database d.has_database) _
                  (Has-must no_database d.has_database)
                  (λ _. Has-must previous_exists (not (is_some d.previous)))))))
        d p

  Has-then : (next : Op (Unit {0})) → Keeps Has next → Keeps Has (op file_failed >> next)
  Has-then next keeps = Keeps-bind Has (op file_failed) _ (Has-op file_failed) (λ _. keeps)

  pub Has-write_temp : Keeps Has write_temp
  unfolding write_temp
  Has-write_temp =
      Has-then _ (Has-then _ (Has-then _ (Has-then _ (Has-then _ (Has-op file_failed)))))

  pub Has-read_old : (token : Option TokenFile) → Keeps Has (read_old token)
  unfolding read_old ◌>>=◌
  Has-read_old none d p = p
  Has-read_old (some old) d p =
      Keeps-bind Has (must irregular_token old.is_regular) _
        (Has-must irregular_token old.is_regular)
        (λ _.
          Keeps-bind Has (must unreadable_token old.readable) _
            (Has-must unreadable_token old.readable)
            (λ _. Keeps-bind Has (op file_failed) _ (Has-op file_failed) (λ _ _ q. q)))
        d p

  Has-finish_copy :
      (old : String) (written synced closed : Bool)
      → Keeps Has (finish_copy old written synced closed)
  unfolding finish_copy
  Has-finish_copy old written synced closed d p = split (written && synced && closed)
    where
      dropped : (removed : Bool) → Keeps Has (drop_copy removed)
      dropped true d p = p
      dropped false d p = p

      split :
          (good : Bool)
          → Has (
              after {E = RotationError} {A = Unit {0}} (
                if good
                then set_previous (some (whole old)) d
                else (attempt (op file_failed) >>= λ removed.
                      drop_copy removed >> stop backup_unfinished)
                    d))
      split true = p
      split false =
          Keeps-bind Has (attempt (op file_failed))
            (λ removed. drop_copy removed >> stop backup_unfinished)
            (Keeps-attempt Has (op file_failed) (Has-op file_failed))
            (λ removed. Keeps-bind Has (drop_copy removed) _ (dropped removed) (λ _ _ q. q)) d p

  tries : Keeps Has (attempt (op file_failed))
  tries = Keeps-attempt Has (op file_failed) (Has-op file_failed)

  Has-write_copy : (old : String) → Keeps Has (write_copy old)
  unfolding write_copy
  Has-write_copy old =
      Keeps-bind Has (attempt (op file_failed))
        (λ written. attempt (op file_failed) >>= λ synced.
          attempt (op file_failed) >>= λ closed. finish_copy old written synced closed)
        tries
        (λ written.
          Keeps-bind Has (attempt (op file_failed))
            (λ synced. attempt (op file_failed) >>= λ closed. finish_copy old written synced closed)
            tries
            (λ synced.
              Keeps-bind Has (attempt (op file_failed))
                (λ closed. finish_copy old written synced closed) tries
                (λ closed. Has-finish_copy old written synced closed)))

  pub Has-back_up : (old : Option String) → Keeps Has (back_up old)
  unfolding back_up ◌>>=◌
  Has-back_up none d p = p
  Has-back_up (some old) d p =
      Keeps-bind Has (op file_failed) (λ _. set_previous (some unfinished) >> write_copy old)
        (Has-op file_failed)
        (λ _.
          Keeps-bind Has (set_previous (some unfinished)) (λ _. write_copy old) (λ _ q. q)
            (λ _. Has-write_copy old))
        d p
