-- ===== src/Api/Tests.antt =====
-- Runs of the calls on small inputs, and the theorems on the calls at concrete inputs.
use grasshopper.Api.Registers.{registers, run-Grows, Grows}
use Prim.Native.String.{◌++◌}
use grasshopper.Base.{
  decimal, nat_eq, string_eq, option_eq, ◌==◌, ◌&&◌, not, is_some, suc, [], ◌∷◌, ne_of_test,
  is_blank, has_control, contains_any, contains, has_prefix, ℕ, Bool, true, false, ◌≡◌, refl,
  Option, none, some, String,
}
use grasshopper.Api.History.{version-readable}
use grasshopper.Api.Effects.{
  given_or, old_or, written_title, write-handoff, write-current, write-corrects, write-others,
}
use grasshopper.Api.Visibility.{archive-changes, archive-handoff}
use grasshopper.Store.Archive.{archive}
use grasshopper.Store.Inputs.{ArchiveInput}
use grasshopper.Store.Requests.{get_in_tx, set_archived}
use grasshopper.Scope.{document, key, scope_key_eq}
use grasshopper.Outcome.{Result, ok, err}
use grasshopper.Scope.{Scope}
use grasshopper.Store.{Db, Provenance, create_empty, select, is_unique}
use grasshopper.Store.Tx.{Outcome, done, failed, ◌>>=◌, reads}
use grasshopper.Store.Inputs.{WriteInput, Digests, Clock, first_runes}
use grasshopper.Store.Write.{write, validate_write}
use grasshopper.Api.Facts.{
  WellFormed, run-WellFormed, run-Evolves, failed-unchanged, create_empty-WellFormed,
}
use grasshopper.Store.Evolution.{Evolves, Evolves-refl}
use grasshopper.Api.Retry.{retried-same, reused-conflict}
use grasshopper.Store.{holds}
use grasshopper.Store.Plan.{target_id}
use grasshopper.Store.Requests.{is_active_handoff}
use grasshopper.Api.{at_time, Call, write_call, perform, run, validate_call}
use grasshopper.Store.{Receipt, Chunk, scan_record}
use grasshopper.Store.Requests.{replay, record_of, version_of}
use grasshopper.Outcome.{idempotency_conflict}

abbrev joined : Digests
joined = record {
  of_write = λ i. i.content;
  of_archive = λ i. i.request_id;
  of_move = λ i. i.request_id;
  of_content = λ c t g. c ++ t ++ g;
}

abbrev noon : Clock
noon = record { now = "12:00"; retired_at = "12:01" }

abbrev codex : Provenance
codex = record { harness = "codex"; device = "mini"; source = "chat" }

abbrev project_scope : Scope
project_scope = record { project = some "id:app"; device = none; platform = none; legacy = false }

abbrev handoff_input : String → String → WriteInput
handoff_input content request = record {
  scope = project_scope;
  content = content;
  title = none;
  tags = none;
  memory_type = none;
  purpose = "handoff";
  confirmed = false;
  provenance = codex;
  request_id = request;
  key = none;
  id = none;
  expected_revision = none;
  restore_revision = none;
}

abbrev after : {A : Type 0} → Outcome A → Db
after (done a db) = db
after (failed e db) = db

abbrev result : {A : Type 0} → Outcome A → Result A
result (done a db) = ok a
result (failed e db) = err e

one_handoff : Db
unfolding write ◌>>=◌ reads select is_unique record_of version_of scan_record first_runes is_blank
    has_control contains_any contains has_prefix
one_handoff = after (write joined noon (handoff_input "first" "r1") none "" create_empty)

two_handoffs : Db
unfolding one_handoff
two_handoffs = after (write joined noon (handoff_input "second" "r2") none "" one_handoff)

abbrev archived_at : Db → ℕ → Option Bool
archived_at db i = elim (db.chunks i) [ none ↦ none | some c ↦ some c.archived ]

retired_first : archived_at two_handoffs 1 ≡ some true
unfolding two_handoffs record_of version_of scan_record
retired_first = refl

kept_second : archived_at two_handoffs 2 ≡ some false
unfolding two_handoffs record_of version_of scan_record
kept_second = refl

abbrev first_call : Call
first_call = write_call noon (handoff_input "first" "r1") none ""

abbrev second_call : Call
second_call = write_call noon (handoff_input "second" "r2") none ""

abbrev receipt_of : ℕ → ℕ → Receipt
receipt_of i n = record { id = i; revision = n; deduplicated = false }

first-done : perform joined first_call create_empty ≡ done (receipt_of 1 1) one_handoff
unfolding one_handoff perform write ◌>>=◌ reads select is_unique record_of version_of scan_record
    first_runes is_blank has_control contains_any contains has_prefix
first-done = refl

first_write-done :
    write joined noon (handoff_input "first" "r1") none "" create_empty
    ≡ done (receipt_of 1 1) one_handoff
unfolding perform
first_write-done = first-done

second_write-done :
    write joined noon (handoff_input "second" "r2") none "" one_handoff
    ≡ done (receipt_of 2 1) two_handoffs
unfolding two_handoffs one_handoff write ◌>>=◌ reads select is_unique record_of version_of
    scan_record first_runes is_blank has_control contains_any contains has_prefix
second_write-done = refl

one_handoff-WellFormed : WellFormed one_handoff
unfolding run perform one_handoff
one_handoff-WellFormed =
    run-WellFormed joined (first_call ∷ []) create_empty create_empty-WellFormed

run-WellFormed_example :
    WellFormed (run joined (first_call ∷ second_call ∷ first_call ∷ []) create_empty)
run-WellFormed_example =
    run-WellFormed joined (first_call ∷ second_call ∷ first_call ∷ []) create_empty
      create_empty-WellFormed

run-Grows_example :
    Grows
      (registers create_empty)
      (registers (run joined (first_call ∷ second_call ∷ first_call ∷ []) create_empty))
run-Grows_example =
    run-Grows joined (first_call ∷ second_call ∷ first_call ∷ []) create_empty
      create_empty-WellFormed

run-Evolves_example : Evolves one_handoff (run joined (second_call ∷ first_call ∷ []) one_handoff)
run-Evolves_example =
    run-Evolves joined (second_call ∷ first_call ∷ []) one_handoff one_handoff-WellFormed

abbrev midnight : Clock
midnight = record { now = "00:00"; retired_at = "00:01" }

retried-same_example :
    perform joined
      (at_time midnight midnight first_call)
      (run joined (second_call ∷ []) one_handoff)
    ≡ done (receipt_of 1 1) (run joined (second_call ∷ []) one_handoff)
retried-same_example =
    retried-same joined first_call midnight midnight create_empty one_handoff
      (run joined (second_call ∷ []) one_handoff) (receipt_of 1 1) create_empty-WellFormed
      first-done (run-Evolves joined (second_call ∷ []) one_handoff one_handoff-WellFormed)

abbrev other_call : Call
other_call = write_call noon (handoff_input "other" "r1") none ""

other_call-valid : validate_call other_call ≡ ok tt
unfolding first_runes is_blank has_control contains_any contains has_prefix validate_write
other_call-valid = refl

reused-conflict_example :
    perform joined other_call one_handoff ≡ failed idempotency_conflict one_handoff
reused-conflict_example =
    reused-conflict joined first_call other_call create_empty one_handoff one_handoff
      (receipt_of 1 1) create_empty-WellFormed first-done (Evolves-refl one_handoff) refl
      other_call-valid (ne_of_test "first" "other" refl)

failed-unchanged_example : one_handoff ≡ one_handoff
failed-unchanged_example =
    failed-unchanged joined other_call one_handoff one_handoff idempotency_conflict
      reused-conflict_example

second-new : replay "r2" "second" one_handoff ≡ ok none
unfolding replay one_handoff write ◌>>=◌ reads select is_unique record_of version_of scan_record
    first_runes is_blank has_control contains_any contains has_prefix
second-new = refl

abbrev row_of : String → ℕ → Bool → Chunk
row_of content revision archived = record {
  revision = revision;
  memory_scope = document project_scope;
  content = content;
  title = content;
  descriptors = "";
  memory_type = "knowledge";
  purpose = "handoff";
  confirmed = false;
  provenance = codex;
  content_hash = content ++ content;
  created_at = "12:00";
  updated_at = "12:00";
  preference_key = none;
  agent_id = "codex";
  archived = archived;
  embedding = none;
  embedding_model = "";
}

first_row-there : one_handoff.chunks 1 ≡ some (row_of "first" 1 false)
unfolding one_handoff write ◌>>=◌ reads select is_unique record_of version_of scan_record
    first_runes is_blank has_control contains_any contains has_prefix replay
first_row-there = refl

second_row-there : two_handoffs.chunks 2 ≡ some (row_of "second" 1 false)
unfolding two_handoffs one_handoff write ◌>>=◌ reads select is_unique record_of version_of
    scan_record first_runes is_blank has_control contains_any contains has_prefix replay
second_row-there = refl

version-readable_example :
    get_in_tx project_scope 1 (some 1) (run joined (second_call ∷ []) one_handoff)
    ≡ ok (some (scan_record 1 (row_of "first" 1 false)))
version-readable_example =
    version-readable joined (second_call ∷ []) one_handoff 1 (row_of "first" 1 false)
      one_handoff-WellFormed first_row-there

project_scope-key : key project_scope ≡ ok (document project_scope)
unfolding key contains has_control is_blank has_prefix contains_any
project_scope-key = refl

write-handoff_example :
    holds (is_active_handoff (document project_scope)) (two_handoffs.chunks 2) ≡ true
write-handoff_example =
    write-handoff joined noon (handoff_input "second" "r2") none "" one_handoff two_handoffs
      (receipt_of 2 1) one_handoff-WellFormed second_write-done second-new refl 2
      (document project_scope) refl refl project_scope-key

write-current_example :
    (c : Chunk) × (get_in_tx project_scope 2 none two_handoffs ≡ ok (some (scan_record 2 c)))
    × (c.revision ≡ 1)
    × (c.memory_scope ≡ document project_scope)
    × (c.archived ≡ false)
    × (c.confirmed ≡ false)
    × (c.provenance ≡ codex)
    × (c.content ≡ "second")
    × (c.purpose ≡ "handoff")
    × (c.descriptors ≡ given_or (old_or (λ old. old.descriptors) "" (one_handoff.chunks 2)) none)
    × (c.memory_type
        ≡ given_or (old_or (λ old. old.memory_type) "knowledge" (one_handoff.chunks 2)) none)
    × (c.title ≡ written_title "second" (one_handoff.chunks 2) none)
    × (c.preference_key ≡ old_or (λ old. old.preference_key) none (one_handoff.chunks 2))
write-current_example =
    write-current joined noon (handoff_input "second" "r2") none "" one_handoff two_handoffs
      (receipt_of 2 1) one_handoff-WellFormed second_write-done second-new refl
      (document project_scope) refl project_scope-key

abbrev correction : WriteInput
correction = record (handoff_input "better" "r2") { id = some 1; expected_revision = some 1 }

corrected_db : Db
unfolding one_handoff write ◌>>=◌ reads select is_unique record_of version_of scan_record
    first_runes is_blank has_control contains_any contains has_prefix replay
corrected_db = after (write joined noon correction none "" one_handoff)

correction-done :
    write joined noon correction none "" one_handoff ≡ done (receipt_of 1 2) corrected_db
unfolding corrected_db one_handoff write ◌>>=◌ reads select is_unique record_of version_of
    scan_record first_runes is_blank has_control contains_any contains has_prefix replay
correction-done = refl

correction-new : replay "r2" "better" one_handoff ≡ ok none
unfolding one_handoff write ◌>>=◌ reads select is_unique record_of version_of scan_record
    first_runes is_blank has_control contains_any contains has_prefix replay
correction-new = refl

write-corrects_example :
    (old c : Chunk) × (◌≡◌ {A = ℕ} 1 1)
    × (one_handoff.chunks 1 ≡ some old)
    × (corrected_db.chunks 1 ≡ some c)
    × (◌≡◌ {A = Option ℕ} (some 1) (some old.revision))
    × (c.revision ≡ suc old.revision)
    × (◌≡◌ {A = ℕ} 2 (suc old.revision))
    × (c.memory_scope ≡ old.memory_scope)
    × (c.preference_key ≡ old.preference_key)
    × (c.created_at ≡ old.created_at)
    × ((old.confirmed && not false) ≡ false)
    × ((is_some {A = String} none && not (◌==◌ {A = Option String} none old.preference_key))
        ≡ false)
unfolding target_id
write-corrects_example =
    write-corrects joined noon correction none "" one_handoff corrected_db (receipt_of 1 2)
      one_handoff-WellFormed correction-done correction-new refl 1 (document project_scope)
      project_scope-key refl

abbrev note_input : WriteInput
note_input = record (handoff_input "note" "r2") { purpose = "decision" }

with_note : Db
unfolding one_handoff write ◌>>=◌ reads select is_unique record_of version_of scan_record
    first_runes is_blank has_control contains_any contains has_prefix replay
with_note = after (write joined noon note_input none "" one_handoff)

note-done : write joined noon note_input none "" one_handoff ≡ done (receipt_of 2 1) with_note
unfolding with_note one_handoff write ◌>>=◌ reads select is_unique record_of version_of scan_record
    first_runes is_blank has_control contains_any contains has_prefix replay
note-done = refl

with_note-WellFormed : WellFormed with_note
unfolding run perform with_note
with_note-WellFormed =
    run-WellFormed joined (write_call noon note_input none "" ∷ []) one_handoff
      one_handoff-WellFormed

after_note : Db
unfolding with_note one_handoff write ◌>>=◌ reads select is_unique record_of version_of scan_record
    first_runes is_blank has_control contains_any contains has_prefix replay
after_note = after (write joined noon (handoff_input "third" "r3") none "" with_note)

third-done :
    write joined noon (handoff_input "third" "r3") none "" with_note
    ≡ done (receipt_of 3 1) after_note
unfolding after_note with_note one_handoff write ◌>>=◌ reads select is_unique record_of version_of
    scan_record first_runes is_blank has_control contains_any contains has_prefix replay
third-done = refl

third-new : replay "r3" "third" with_note ≡ ok none
unfolding with_note one_handoff write ◌>>=◌ reads select is_unique record_of version_of scan_record
    first_runes is_blank has_control contains_any contains has_prefix replay
third-new = refl

note-there : with_note.chunks 2 ≡ some (record (row_of "note" 1 false) { purpose = "decision" })
unfolding with_note one_handoff write ◌>>=◌ reads select is_unique record_of version_of scan_record
    first_runes is_blank has_control contains_any contains has_prefix replay
note-there = refl

write-others_example :
    after_note.chunks 2 ≡ some (record (row_of "note" 1 false) { purpose = "decision" })
write-others_example =
    write-others joined noon (handoff_input "third" "r3") none "" with_note after_note
      (receipt_of 3 1) with_note-WellFormed third-done third-new refl 2
      (record (row_of "note" 1 false) { purpose = "decision" }) (document project_scope)
      (ne_of_test 3 2 refl) project_scope-key note-there refl

two_handoffs-WellFormed : WellFormed two_handoffs
unfolding run perform two_handoffs
two_handoffs-WellFormed =
    run-WellFormed joined (second_call ∷ []) one_handoff one_handoff-WellFormed

abbrev revival : ArchiveInput
revival = record {
  scope = project_scope;
  id = 1;
  expected_revision = 2;
  archived = false;
  request_id = "r9";
  provenance = codex;
}

revived : Db
unfolding two_handoffs one_handoff archive write ◌>>=◌ reads select is_unique record_of version_of
    scan_record first_runes is_blank has_control contains_any contains has_prefix replay
revived = after (archive joined noon revival two_handoffs)

revival-done : archive joined noon revival two_handoffs ≡ done (receipt_of 1 3) revived
unfolding revived two_handoffs one_handoff archive write ◌>>=◌ reads select is_unique record_of
    version_of scan_record first_runes is_blank has_control contains_any contains has_prefix replay
revival-done = refl

revival-new : replay "r9" "r9" two_handoffs ≡ ok none
unfolding two_handoffs one_handoff write ◌>>=◌ reads select is_unique record_of version_of
    scan_record first_runes is_blank has_control contains_any contains has_prefix replay
revival-new = refl

archive-changes_example :
    (c : Chunk) × (two_handoffs.chunks 1 ≡ some c)
    × (key project_scope ≡ ok c.memory_scope)
    × (c.revision ≡ 2)
    × (revived.chunks 1 ≡ some (set_archived false "12:00" codex c))
    × (receipt_of 1 3 ≡ receipt_of 1 (suc c.revision))
archive-changes_example =
    archive-changes joined noon revival two_handoffs revived (receipt_of 1 3)
      two_handoffs-WellFormed revival-done revival-new

abbrev retired_row : Chunk
retired_row = record (row_of "first" 2 true) {
  updated_at = "12:01";
  provenance = record { harness = "codex"; device = "mini"; source = "Replaced by handoff 2" };
}

retired-there : two_handoffs.chunks 1 ≡ some retired_row
unfolding two_handoffs one_handoff write ◌>>=◌ reads select is_unique record_of version_of
    scan_record first_runes is_blank has_control contains_any contains has_prefix replay decimal
retired-there = refl

revived-there : revived.chunks 1 ≡ some (record (row_of "first" 3 false) { updated_at = "12:00" })
unfolding revived two_handoffs one_handoff archive write ◌>>=◌ reads select is_unique record_of
    version_of scan_record first_runes is_blank has_control contains_any contains has_prefix replay
revived-there = refl

archive-handoff_example :
    holds (is_active_handoff (document project_scope)) (revived.chunks 1) ≡ true
archive-handoff_example =
    archive-handoff joined noon revival two_handoffs revived (receipt_of 1 3)
      two_handoffs-WellFormed revival-done revival-new 1 retired_row refl retired-there refl
