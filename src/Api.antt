-- ===== src/Api.antt =====
-- The calls that change the store (Writer.Write, Archive and Move of internal/memory/writer.go), one
-- after the other, as the service makes them.
pub mod Facts
pub mod Retry
pub mod History
pub mod Plans
pub mod Effects
pub mod Visibility
pub mod Registers
mod Tests
use grasshopper.Base.{ℕ, Option, String, List, [], ◌∷◌}
use grasshopper.Outcome.{Result}
use grasshopper.Outcome
use grasshopper.Store.{Db, Receipt}
use grasshopper.Store.Tx.{Tx, Outcome, done, failed}
use grasshopper.Store.Inputs.{WriteInput, ArchiveInput, MoveInput, Digests, Clock}
use grasshopper.Store.Write.{write, validate_write}
use grasshopper.Store.Archive.{archive, validate_archive}
use grasshopper.Store.Move.{move, validate_move}

pub data Call : Type 0 where
  write_call : Clock → WriteInput → Option (List ℕ) → String → Call
  archive_call : Clock → ArchiveInput → Call
  move_call : Clock → Clock → MoveInput → Option (List ℕ) → String → Call

-- The same call at other readings of the clock.
abbrev pub at_time : Clock → Clock → Call → Call
at_time t u (write_call _ input vector model) = write_call t input vector model
at_time t u (archive_call _ input) = archive_call t input
at_time t u (move_call _ _ input vector model) = move_call t u input vector model

unfoldable pub perform : Digests → Call → Tx Receipt
unfolding write archive move
perform d (write_call clock input vector model) = write d clock input vector model
perform d (archive_call clock input) = archive d clock input
perform d (move_call clock later input vector model) = move d clock later input vector model

abbrev pub request_of : Call → String
request_of (write_call _ input _ _) = input.request_id
request_of (archive_call _ input) = input.request_id
request_of (move_call _ _ input _ _) = input.request_id

-- The digest of the call's payload.
abbrev pub fingerprint_of : Digests → Call → String
fingerprint_of d (write_call _ input _ _) = d.of_write input
fingerprint_of d (archive_call _ input) = d.of_archive input
fingerprint_of d (move_call _ _ input _ _) = d.of_move input

abbrev pub validate_call : Call → Result (Unit {0})
validate_call (write_call _ input vector model) =
    Outcome.◌>>=◌ (validate_write input vector model) (λ _. Outcome.ok tt)
validate_call (archive_call _ input) = validate_archive input
validate_call (move_call _ _ input _ _) = validate_move input

abbrev pub state_after : Outcome Receipt → Db
state_after (done r db) = db
state_after (failed e db) = db

-- The database after a sequence of calls, of which some may have failed.
unfoldable pub run : Digests → List Call → Db → Db
unfolding perform
run d [] db = db
run d (c ∷ cs) db = run d cs (state_after (perform d c db))
