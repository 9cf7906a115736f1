-- ===== src/Reader/Tests.antt =====
-- Reads at concrete inputs.
use grasshopper.Base.{
  true, false, ◌≡◌, refl, none, some, contains, has_control, is_blank, has_prefix, contains_any,
  nat_eq, if◌then◌else◌, any, ◌==◌, string_eq, option_eq, list_eq, [], ◌∷◌, ◌↔◌, List,
}
use grasshopper.Outcome.{ok}
use grasshopper.Scope.{ScopeKey, scope_key_eq, Scope, document, key}
use grasshopper.Scope.Applies.{Applies}
use grasshopper.Store.{Db, Chunk, create_empty, put, scan_record}
use grasshopper.Store.Requests.{record_of, version_of, get_in_tx}
use grasshopper.Reader.{get, BrowseScope, browse_get, browse_scope_keys}
use grasshopper.Reader.Visible.{get-Applies, Shown, browse_get-browse_scope_keys}

abbrev global_scope : Scope
global_scope = record { project = none; device = none; platform = none; legacy = false }

abbrev project_scope : Scope
project_scope = record global_scope { project = some "id:app" }

abbrev global_row : Chunk
global_row = record {
  revision = 1;
  memory_scope = document global_scope;
  content = "text";
  title = "text";
  descriptors = "";
  memory_type = "knowledge";
  purpose = "decision";
  confirmed = true;
  provenance = record { harness = "codex"; device = "mini"; source = "chat" };
  content_hash = "text";
  created_at = "12:00";
  updated_at = "12:00";
  preference_key = none;
  agent_id = "codex";
  archived = false;
  embedding = none;
  embedding_model = "";
}

abbrev one_row : Db
one_row = record create_empty { next_id = 2; chunks = put create_empty.chunks 1 global_row }

get-done : get project_scope 1 none one_row ≡ ok (some (scan_record 1 global_row))
unfolding get record_of version_of contains has_control is_blank has_prefix contains_any
get-done = refl

get-Applies_example :
    (c : Chunk) × (one_row.chunks 1 ≡ some c) × Applies project_scope c.memory_scope
get-Applies_example =
    get-Applies project_scope 1 none one_row (scan_record 1 global_row) refl get-done

abbrev browsed : BrowseScope
browsed = record { scope = project_scope; all_projects = false }

project_scope-key : key project_scope ≡ ok (document project_scope)
unfolding key contains has_control is_blank has_prefix contains_any
project_scope-key = refl

abbrev stored_keys : List ScopeKey
stored_keys = document project_scope ∷ document global_scope ∷ []

browse_get-browse_scope_keys_example :
    ((any (λ x. x == document global_scope) (browse_scope_keys browsed stored_keys) ≡ true)
      ↔ Shown browsed (document global_scope))
    × (browse_get browsed 1 none one_row ≡ (
        if any (λ x. x == document global_scope) (browse_scope_keys browsed stored_keys)
        then get_in_tx global_scope 1 none one_row
        else ok none))
browse_get-browse_scope_keys_example =
    browse_get-browse_scope_keys browsed (document project_scope) 1 none one_row global_row
      stored_keys project_scope-key refl refl refl
