-- ===== src/Startup.antt =====
-- What an agent loads when it starts: the selection of records under a size budget (contextKeys,
-- boundStartupRecords, balanceStartupScopes, chooseHandoff and boundRecords of
-- internal/memory/reader.go). The size of a record's JSON and Go's stable sort are parameters.
pub mod Handoff
pub mod Budget
pub mod Balance
pub mod Context
pub mod Preview
mod Tests
use mathlib.Core.List.{◌++◌}
use grasshopper.Base.{
  ℕ, zero, suc, ◌+◌, Bool, true, false, not, ◌&&◌, ◌||◌, Option, none, some, List, [], ◌∷◌, String,
  ◌==◌, nat_eq, string_eq, if◌then◌else◌, is_some, ltb, length,
}
use grasshopper.Scope.{Scope}
use grasshopper.Store.{Record}

abbrev pub is_handoff : Record → Bool
is_handoff r = r.purpose == "handoff"

abbrev pub of_project : Record → Bool
of_project r = is_some r.scope.project

-- The handoff to keep so far, with its index.
unfoldable pub better : ℕ → Record → Option (ℕ × Record) → Option (ℕ × Record)
better i r none = if is_handoff r then some (i, r) else none
better i r (some best) =
    if is_handoff r && (not (of_project best.1) && of_project r) then some (i, r) else some best

unfoldable pub choose : List Record → ℕ → Option (ℕ × Record) → Option (ℕ × Record)
unfolding better
choose [] i best = best
choose (r ∷ rs) i best = choose rs (suc i) (better i r best)

abbrev pub is_chosen : Option (ℕ × Record) → ℕ → Bool
is_chosen none i = false
is_chosen (some best) i = best.0 == i

unfoldable pub divide : Option (ℕ × Record) → List Record → ℕ → List Record × List Record
divide best [] i = ([], [])
divide best (r ∷ rs) i =
    let rest = divide best rs (suc i) in
    if is_handoff r && not (is_chosen best i) then (rest.0, r ∷ rest.1) else (r ∷ rest.0, rest.1)

-- The records selected, and the handoffs skipped.
unfoldable pub choose_handoff : List Record → List Record × List Record
unfolding choose divide
choose_handoff records = divide (choose records 0 none) records 0

pub record Reference : Type 0 where
  pub id : ℕ
  pub revision : ℕ
  pub scope : Scope

pub record Page : Type 0 where
  pub records : List Record
  pub omitted : ℕ
  pub omitted_records : List Reference

abbrev pub reference : Record → Reference
reference r = record { id = r.id; revision = r.revision; scope = r.scope }

abbrev pub snoc {ℓ} : {A : Type ℓ} → List A → A → List A
snoc [] a = a ∷ []
snoc (x ∷ xs) a = x ∷ snoc xs a

-- One more record left out; only the first hundred are named.
unfoldable pub omit : Page → Record → Page
omit page r = record page {
  omitted = suc page.omitted;
  omitted_records =
      if ltb (length page.omitted_records) 100
      then snoc page.omitted_records (reference r)
      else page.omitted_records;
}

abbrev pub clamp_budget : ℕ → ℕ
clamp_budget budget = if ltb budget 1024 then 1024 else if ltb 65536 budget then 65536 else budget

abbrev pub empty_page : Page
empty_page = record { records = []; omitted = 0; omitted_records = [] }

module _ (size : Record → ℕ) where
  unfoldable pub fill : List Record → ℕ → ℕ → ℕ → Page → Page
  unfolding omit
  fill [] budget limit used page = page
  fill (r ∷ rs) budget limit used page =
      let skipped = fill rs budget limit used (omit page r) in
      let taken =
        fill rs budget limit (used + size r) (record page { records = snoc page.records r }) in
      if ltb budget (used + size r) || (ltb 0 limit && not (ltb (length page.records) limit))
      then skipped
      else taken

  unfoldable pub bound_records : List Record → ℕ → ℕ → Page
  unfolding fill
  bound_records records budget limit = fill records (clamp_budget budget) limit 0 empty_page

-- The records by group: global, of a project, and handoffs.
pub record Groups : Type 0 where
  pub global : List Record
  pub project : List Record
  pub handoffs : List Record

unfoldable pub group : List Record → Groups
group [] = record { global = []; project = []; handoffs = [] }
group (r ∷ rs) =
    let rest = group rs in
    if is_handoff r
    then record rest { handoffs = r ∷ rest.handoffs }
    else if not (of_project r)
    then record rest { global = r ∷ rest.global }
    else record rest { project = r ∷ rest.project }

-- The first record of a group, or its last one, and the group without it.
abbrev pub pop_last : Record → List Record → Record × List Record
pop_last r [] = (r, [])
pop_last r (x ∷ xs) = let rest = pop_last x xs in (rest.0, r ∷ rest.1)

abbrev pub pop : Bool → List Record → List Record × List Record
pop oldest [] = ([], [])
pop true (r ∷ rs) = let p = pop_last r rs in (p.0 ∷ [], p.1)
pop false (r ∷ rs) = (r ∷ [], rs)

-- One record of each group in turn, from the new end and the old end by turns. Each round takes a
-- record at least, so the number of records is fuel enough.
unfoldable pub alternate : ℕ → Bool → List Record → List Record → List Record
alternate zero oldest global project = []
alternate (suc fuel) oldest global project =
    let g = pop oldest global in
    let p = pop oldest project in g.0 ++ (p.0 ++ alternate fuel (not oldest) g.1 p.1)

module _ (sort : List Record → List Record) where
  unfoldable pub balance_startup_scopes : List Record → List Record
  unfolding group alternate
  balance_startup_scopes records =
      let groups = group records in
      let global = sort groups.global in
      let project = sort groups.project in
      alternate (length global + length project) false global project ++ groups.handoffs

module _ (size : Record → ℕ) (sort : List Record → List Record) where
  unfoldable pub bound_startup_records : List Record → ℕ → Page
  unfolding bound_records balance_startup_scopes
  bound_startup_records records budget =
      let page = bound_records size records budget 0 in
      if page.omitted == 0
      then page
      else bound_records size (balance_startup_scopes sort records) budget 0

  abbrev pub omit_all : Page → List Record → Page
  omit_all page [] = page
  omit_all page (r ∷ rs) = omit_all (omit page r) rs

  -- contextKeys, from the eligible records of its query.
  unfoldable pub context_page : List Record → ℕ → Page
  unfolding choose_handoff bound_startup_records
  context_page records budget =
      let chosen = choose_handoff records in
      omit_all (bound_startup_records chosen.0 budget) chosen.1
