-- ===== src/Scope/Tests.antt =====
-- The scopes at concrete inputs.
use grasshopper.Base.{
  true, false, ◌≡◌, refl, none, some, List, [], ◌∷◌, ◌==◌, any, is_blank, has_control, has_prefix,
  contains, contains_any, ◌↔◌,
}
use grasshopper.Outcome.{ok}
use grasshopper.Scope.{Scope, ScopeKey, document, applicable_keys, scope_key_eq, key}
use grasshopper.Scope.Applies.{Applies, applicable_keys-iff-Applies}

abbrev device_scope : Scope
device_scope = record { project = none; device = some "mini"; platform = none; legacy = false }

abbrev device_keys : List ScopeKey
device_keys =
    document (record { project = none; device = none; platform = none; legacy = false })
    ∷ document device_scope
    ∷ []

device_scope-keys : applicable_keys device_scope ≡ ok device_keys
unfolding applicable_keys key contains has_control is_blank has_prefix contains_any
device_scope-keys = refl

applicable_keys-iff-Applies_example :
    (any (λ x. x == document device_scope) device_keys ≡ true)
    ↔ Applies device_scope (document device_scope)
applicable_keys-iff-Applies_example =
    applicable_keys-iff-Applies device_scope device_keys (document device_scope) device_scope-keys
