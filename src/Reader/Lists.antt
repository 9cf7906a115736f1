-- ===== src/Reader/Lists.antt =====
-- Lists and counts of records (internal/memory/reader.go): scopedRecords, Candidates, Titles, Totals
-- and the counts of BrowseCounts. The ORDER BY of scopedRecords is a parameter.
use grasshopper.Base.{
  ◌||◌, ℕ, not, ◌&&◌, Bool, Option, none, some, List, [], ◌∷◌, String, ◌==◌, nat_eq, string_eq,
  if◌then◌else◌, any, length, true,
}
use mathlib.Core.List.{◌++◌}
use grasshopper.Outcome
use grasshopper.Outcome.{Result, ok}
use grasshopper.Scope.{bool_beq, Scope, ScopeKey, applicable_keys, scope_key_eq}
use grasshopper.Store.Inputs.{is_purpose}
use grasshopper.Store.{Db, Chunk, Record, scan_record, select}

abbrev pub in_keys : List ScopeKey → Chunk → Bool
in_keys keys c = any (λ k. k == c.memory_scope) keys

unfoldable pub records_at : Db → List ℕ → List Record
records_at db [] = []
records_at db (i ∷ is) = elim (db.chunks i) [
  | none ↦ records_at db is
  | some c ↦ scan_record i c ∷ records_at db is
]

-- The condition on columns is the filter of the caller.
unfoldable pub scoped_records :
    (List Record → List Record) → List ScopeKey → (Chunk → Bool) → Bool → Db → List Record
unfolding records_at select
scoped_records order keys filter archived db =
    order (
      records_at db (select db λ _ c. bool_beq c.archived archived && (in_keys keys c && filter c)))

abbrev pub in_reverse : List ℕ → List ℕ
in_reverse [] = []
in_reverse (i ∷ is) = in_reverse is ++ (i ∷ [])

-- Active records of the applicable scopes, by id.
unfoldable pub candidates : Scope → Db → Result (List Record)
unfolding applicable_keys records_at select
candidates scope db =
    Outcome.◌>>=◌ (applicable_keys scope)
      λ keys. ok (records_at db (in_reverse (select db λ _ c. not c.archived && in_keys keys c)))

unfoldable pub titles : Db → List ℕ → ℕ → Option String
titles db [] i = none
titles db (j ∷ js) i =
    if i == j then elim (db.chunks j) [ none ↦ none | some c ↦ some c.title ] else titles db js i

-- The active and the archived memories.
unfoldable pub totals : Db → ℕ × ℕ
unfolding select
totals db = (length (select db λ _ c. not c.archived), length (select db λ _ c. c.archived))

-- validOwnerPurpose and ownerPurposeFilter (internal/memory/owner_browse.go); "" is every purpose.
abbrev pub valid_owner_purpose : String → Bool
valid_owner_purpose purpose = purpose == "" || is_purpose purpose

abbrev pub owner_purpose_filter : String → Chunk → Bool
owner_purpose_filter purpose c =
    if purpose == "" || not (valid_owner_purpose purpose) then true else c.purpose == purpose

-- The memories to review and the archived ones, within the owner's keys and purpose.
unfoldable pub browse_counts : List ScopeKey → String → Db → ℕ × ℕ
unfolding select
browse_counts keys purpose db = (
  length (
      select db λ _ c.
        in_keys keys c
        && (owner_purpose_filter purpose c
            && (not c.archived && (not c.confirmed && not (c.purpose == "handoff"))))),
  length (select db λ _ c. in_keys keys c && (owner_purpose_filter purpose c && c.archived)),
)
