-- ===== src/Reader.antt =====
-- Reads of one record (internal/memory/reader.go): Get and getKeys for clients, BrowseGet, RecordByID
-- and ownerRecord for the owner, and the filter of browseScopeKeys.
pub mod Visible
pub mod Lists
mod Tests
use grasshopper.Base.{
  option_eq, ℕ, true, false, not, ◌&&◌, ◌||◌, Bool, Option, none, some, List, [], ◌∷◌, String, ◌==◌,
  nat_eq, string_eq, if◌then◌else◌, any, keep, is_some,
}
use grasshopper.Outcome
use grasshopper.Outcome.{Result, ok, err, invalid_visualizer_scope}
use grasshopper.Scope.{Scope, ScopeKey, legacy_key, document, key, applicable_keys, scope_key_eq}
use grasshopper.Store.{Db, Record}
use grasshopper.Store.Move.{decode_scope}
use grasshopper.Store.Requests.{get_in_tx}

-- The stored scope of a memory, if it is one of the keys.
abbrev pub stored_among : List ScopeKey → ℕ → Db → Option ScopeKey
stored_among keys i db = elim (db.chunks i) [
  | none ↦ none
  | some c ↦ if any (λ k. k == c.memory_scope) keys then some c.memory_scope else none
]

abbrev pub get_stored : Option ScopeKey → ℕ → Option ℕ → Db → Result (Option Record)
get_stored none i revision db = ok none
get_stored (some stored) i revision db =
    Outcome.◌>>=◌ (decode_scope stored) (λ exact. get_in_tx exact i revision db)

unfoldable pub get_keys : List ScopeKey → ℕ → Option ℕ → Db → Result (Option Record)
unfolding get_in_tx
get_keys keys i revision db = get_stored (stored_among keys i db) i revision db

-- Get: a legacy scope reads its own records, another one those of all scopes that apply.
unfoldable pub get : Scope → ℕ → Option ℕ → Db → Result (Option Record)
unfolding get_keys applicable_keys key
get scope i revision db =
    if scope.legacy
    then Outcome.◌>>=◌ (key scope) (λ _. get_in_tx scope i revision db)
    else Outcome.◌>>=◌ (applicable_keys scope) (λ keys. get_keys keys i revision db)

pub record BrowseScope : Type 0 where
  pub scope : Scope
  pub all_projects : Bool

abbrev pub differ : Option String → Option String → Bool
differ (some a) (some b) = not (a == b)
differ _ _ = false

-- The condition that BrowseGet passes to ownerRecord.
abbrev pub browse_visible : BrowseScope → Scope → Bool
browse_visible b exact =
    not (
      is_some exact.project
      && (not b.all_projects
          && (not (is_some b.scope.project) || differ b.scope.project exact.project)))
    && (not (differ b.scope.device exact.device) && not (differ b.scope.platform exact.platform))

abbrev pub owner_found : (Scope → Bool) → ℕ → Option ℕ → Db → ScopeKey → Result (Option Record)
owner_found visible i revision db legacy_key = ok none
owner_found visible i revision db (document exact) =
    if exact.legacy || not (visible exact) then ok none else get_in_tx exact i revision db

unfoldable pub owner_record : (Scope → Bool) → ℕ → Option ℕ → Db → Result (Option Record)
unfolding get_in_tx
owner_record visible i revision db = elim (db.chunks i) [
  | none ↦ ok none
  | some c ↦ owner_found visible i revision db c.memory_scope
]

unfoldable pub browse_with :
    BrowseScope → ℕ → Option ℕ → Db → Result ScopeKey → Result (Option Record)
unfolding owner_record
browse_with b i revision db (err e) = err invalid_visualizer_scope
browse_with b i revision db (ok k) =
    if b.scope.legacy
    then err invalid_visualizer_scope
    else owner_record (browse_visible b) i revision db

unfoldable pub browse_get : BrowseScope → ℕ → Option ℕ → Db → Result (Option Record)
unfolding browse_with key
browse_get b i revision db = browse_with b i revision db (key b.scope)

unfoldable pub record_by_id : ℕ → Option ℕ → Db → Result (Option Record)
unfolding owner_record
record_by_id i revision db = owner_record (λ _. true) i revision db

abbrev pub unset_or_same : Option String → Option String → Bool
unset_or_same none b = true
unset_or_same (some a) none = true
unset_or_same (some a) (some b) = b == a

abbrev pub project_listed : BrowseScope → Option String → Bool
project_listed b none = true
project_listed b (some p) = b.all_projects || b.scope.project == some p

-- The stored scopes that browseScopeKeys keeps.
abbrev pub is_listed : BrowseScope → ScopeKey → Bool
is_listed b legacy_key = false
is_listed b (document stored) =
    not stored.legacy
    && (project_listed b stored.project
        && (unset_or_same stored.device b.scope.device
            && unset_or_same stored.platform b.scope.platform))

unfoldable pub browse_scope_keys : BrowseScope → List ScopeKey → List ScopeKey
browse_scope_keys b stored = keep (is_listed b) stored
