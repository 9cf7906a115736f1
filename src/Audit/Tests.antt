-- ===== src/Audit/Tests.antt =====
-- Two failures of one peer in a minute: the second is counted, and the next line tells it.
use grasshopper.Audit.Bounded.{Bounded, wrap-Bounded}
use grasshopper.Audit.{Windows, audit_route, failure_event, wrap}
use grasshopper.Base.{length, ◌≤◌, ◌≡◌, refl, none, some, [], arith}

abbrev one_failure : Windows
unfolding wrap audit_route
one_failure = wrap 1000 401 "/mcp" "10.0.0.7" []

abbrev two_failures : Windows
unfolding wrap audit_route one_failure
two_failures = wrap 2000 401 "/mcp" "10.0.0.7" one_failure

second-suppressed : (failure_event 3000 "auth_failed" "/mcp" "10.0.0.7" two_failures).0 ≡ none
unfolding failure_event audit_route two_failures
second-suppressed = refl

next_minute-tells :
    (failure_event 60000002000 "auth_failed" "/mcp" "10.0.0.7" two_failures).0 ≡ some 1
unfolding failure_event audit_route two_failures
next_minute-tells = refl

polls-quiet : wrap 1000 403 "/pair/poll" "10.0.0.7" [] ≡ []
unfolding wrap
polls-quiet = refl

wrap-Bounded_example : Bounded two_failures × (length two_failures ≤ 1025)
unfolding two_failures Bounded
wrap-Bounded_example =
    wrap-Bounded 2000 401 "/mcp" "10.0.0.7" one_failure
      (wrap-Bounded 1000 401 "/mcp" "10.0.0.7" [] empty-Bounded).0
  where
    empty-Bounded : Bounded []
    empty-Bounded = (omega arith, omega arith)
