-- ===== src/Startup/Preview.antt =====
-- The owner's preview of the startup context (StartupPreview, internal/memory/reader.go), from the
-- active records of its query. The shortening of the records' text for display is left out.
use grasshopper.Base.{
  ℕ, suc, not, ◌||◌, Bool, ◌≡◌, List, [], ◌∷◌, String, ◌==◌, nat_eq, string_eq, if◌then◌else◌, any,
  keep, length, ltb, take, count, option_eq, list_eq, ◌+◌,
}
use grasshopper.Scope.{Scope}
use grasshopper.Store.{Record}
use grasshopper.Startup.{is_handoff, snoc, choose_handoff, bound_startup_records}

pub record NotLoaded : Type 0 where
  pub id : ℕ
  pub revision : ℕ
  pub scope : Scope
  pub title : String
  pub purpose : String
  pub reason : String

pub record Preview : Type 0 where
  pub budget : ℕ
  pub records : List Record
  pub not_loaded : List NotLoaded
  pub not_loaded_total : ℕ

unfoldable pub add : String → Preview → Record → Preview
add reason p r = record p {
  not_loaded_total = suc p.not_loaded_total;
  not_loaded =
      if ltb (length p.not_loaded) 100
      then snoc p.not_loaded (record {
        id = r.id;
        revision = r.revision;
        scope = r.scope;
        title = r.title;
        purpose = r.purpose;
        reason = reason;
      })
      else p.not_loaded;
}

abbrev pub add_all : String → Preview → List Record → Preview
add_all reason p [] = p
add_all reason p (r ∷ rs) = add_all reason (add reason p r) rs

abbrev pub is_loaded : List Record → Record → Bool
is_loaded loaded r = any (λ (x : Record). x.id == r.id) loaded

abbrev pub is_eligible : Record → Bool
is_eligible r = r.confirmed || is_handoff r

module _ (size : Record → ℕ) (sort : List Record → List Record) where
  unfoldable pub startup_preview : List Record → ℕ → Preview
  unfolding choose_handoff bound_startup_records add
  startup_preview active budget =
      let chosen = choose_handoff (keep is_eligible active) in
      let page = bound_startup_records size sort chosen.0 budget in
      let empty : Preview = record {
        budget = budget;
        records = page.records;
        not_loaded = [];
        not_loaded_total = 0;
      } in
      add_all "unconfirmed"
        (add_all "older_handoff"
          (add_all "over_budget" empty (keep (λ r. not (is_loaded page.records r)) chosen.0))
          chosen.1)
        (keep (λ r. not (is_eligible r)) active)

abbrev detail : String → Record → NotLoaded
detail reason r = record {
  id = r.id;
  revision = r.revision;
  scope = r.scope;
  title = r.title;
  purpose = r.purpose;
  reason = reason;
}

abbrev has_id : ℕ → Record → Bool
has_id i r = r.id == i

-- The memories that are not loaded are all of `full`, and the first hundred of them have details.
abbrev Lists : List NotLoaded → Preview → Type 0
Lists full p = (p.not_loaded ≡ take 100 full) × (p.not_loaded_total ≡ length full)

-- Of the active memories, each one is either loaded or in the full list of those that are not, which
-- has the total as its length and of which the first hundred have details.
abbrev pub Exact : List Record → Preview → Type 0
Exact active p =
    (full : List NotLoaded) × (p.not_loaded ≡ take 100 full)
    × (p.not_loaded_total ≡ length full)
    × ((i : ℕ)
        → count (λ (r : Record). r.id == i) p.records + count (λ (x : NotLoaded). x.id == i) full
          ≡ count (λ (r : Record). r.id == i) active)

abbrev more : String → List NotLoaded → List Record → List NotLoaded
more reason full [] = full
more reason full (r ∷ rs) = more reason (snoc full (detail reason r)) rs
