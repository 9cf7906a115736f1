-- ===== src/Startup/Tests.antt =====
-- The selection at a concrete list.
use grasshopper.Base.{
  ℕ, ◌+◌, ◌≤◌, true, false, ◌≡◌, refl, not, none, some, Option, List, [], ◌∷◌, String, count,
  length, nat_eq, string_eq, option_eq, list_eq,
}
use grasshopper.Store.{Record}
use grasshopper.Startup.{balance_startup_scopes, context_page, is_handoff}
use grasshopper.Startup.Budget.{total}
use grasshopper.Startup.Handoff.{choose_handoff-divides}
use grasshopper.Startup.Budget.{bound_records-bounds}
use grasshopper.Startup.{choose_handoff, bound_records}
use grasshopper.Startup.Balance.{balance_startup_scopes-count}
use grasshopper.Startup.Context.{context_page-bounds}

abbrev memory : ℕ → Option String → String → Record
memory i project purpose = record {
  id = i;
  revision = 1;
  scope = record { project = project; device = none; platform = none; legacy = false };
  content = "text";
  title = "title";
  tags = "";
  memory_type = "knowledge";
  purpose = purpose;
  confirmed = true;
  provenance = record { harness = "codex"; device = "mini"; source = "chat" };
  key = none;
  archived = false;
  created_at = "12:00";
  updated_at = "12:00";
  content_truncated = false;
}

abbrev memories : List Record
memories =
    memory 1 none "decision"
    ∷ memory 2 none "handoff"
    ∷ memory 3 (some "id:app") "handoff"
    ∷ memory 4 (some "id:app") "lesson"
    ∷ memory 5 none ""
    ∷ []

abbrev large : Record → ℕ
large r = 600

balance_startup_scopes-count_example :
    count is_handoff (balance_startup_scopes (λ rs. rs) memories) ≡ 2
balance_startup_scopes-count_example =
    balance_startup_scopes-count (λ rs. rs) (λ p rs. refl) is_handoff memories

context_page-bounds_example :
    (count is_handoff (context_page large (λ rs. rs) memories 2048).records ≤ 1)
    × (total large (context_page large (λ rs. rs) memories 2048).records ≤ 2048)
    × (length (context_page large (λ rs. rs) memories 2048).records
          + (context_page large (λ rs. rs) memories 2048).omitted
        ≡ 5)
context_page-bounds_example = context_page-bounds large (λ rs. rs) (λ p rs. refl) memories 2048

choose_handoff-divides_example :
    (count is_handoff (choose_handoff memories).0 + count is_handoff (choose_handoff memories).1
      ≡ 2)
    × (count (λ r. not (is_handoff r)) (choose_handoff memories).1 ≡ 0)
    × (count is_handoff (choose_handoff memories).0 ≤ 1)
choose_handoff-divides_example = choose_handoff-divides is_handoff memories

bound_records-bounds_example :
    (total large (bound_records large memories 1500 0).records ≤ 1500)
    × (length (bound_records large memories 1500 0).records
          + (bound_records large memories 1500 0).omitted
        ≡ 5)
    × (length (bound_records large memories 1500 0).omitted_records ≤ 100)
bound_records-bounds_example = bound_records-bounds large memories 1500 0
