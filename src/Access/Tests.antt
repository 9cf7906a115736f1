-- ===== src/Access/Tests.antt =====
-- The access components at concrete inputs.
use grasshopper.Base.{
  ◌≤◌, true, false, not, ◌&&◌, ◌||◌, ◌≡◌, refl, none, some, List, [], ◌∷◌, String, ◌==◌, nat_eq,
  string_eq, any, count, length, is_blank, has_control, arith, option_eq, list_eq,
}
use grasshopper.Outcome.{ok}
use grasshopper.Access.Tokens.{
  Tokens, ClientToken, has_hash, is_active, is_device, is_open, add_client_token,
  client_token_valid, revoke_client_token,
}
use grasshopper.Access.Revocation.{revoke_client_token-valid, add_client_token-valid}
use grasshopper.Access.Pairing.{PairingRequest, PairingManager, is_pending, start, poll, decide}
use grasshopper.Access.Approval.{pending-bounded, Approves, approve-Approves, approve_once}
use grasshopper.Access.Logins.{Attempts}
use grasshopper.Access.Sessions.{
  OwnerSession, add_owner_session, owner_session_valid, revoke_owner_session,
  add_owner_session-bounded, revoke_owner_session-valid,
}

abbrev token_row : ClientToken
token_row = record {
  id = 1;
  device = "mini";
  token_hash = "abc";
  created_at = "12:00";
  revoked_at = none;
}

abbrev no_tokens : Tokens
no_tokens = record { client_tokens = []; activity = λ _. none; labels = λ _. none }

abbrev one_token : Tokens
one_token = record no_tokens { client_tokens = token_row ∷ [] }

abbrev revoked : Tokens
revoked = record no_tokens { client_tokens = record token_row { revoked_at = some "13:00" } ∷ [] }

add-done : add_client_token "12:00" "mini" "abc" no_tokens ≡ ok (token_row, one_token)
unfolding add_client_token is_blank has_control
add-done = refl

revoke-done : revoke_client_token "13:00" 1 one_token ≡ ok (true, revoked)
unfolding revoke_client_token
revoke-done = refl

add_client_token-valid_example :
    (is_device "mini" ≡ true)
    × (any (has_hash "abc") no_tokens.client_tokens ≡ false)
    × (client_token_valid (λ t. t) "abc" one_token
        ≡ (◌==◌ {A = String} "abc" "abc" || client_token_valid (λ t. t) "abc" no_tokens))
add_client_token-valid_example =
    add_client_token-valid (λ t. t) "12:00" "abc" "mini" "abc" no_tokens one_token token_row
      add-done

revoke_client_token-valid_example :
    (client_token_valid (λ t. t) "abc" revoked
      ≡ any (λ t. is_active "abc" t && not (t.id == 1)) one_token.client_tokens)
    × (true ≡ (count (is_open 1) one_token.client_tokens == 1))
    × (revoked.labels ≡ one_token.labels)
    × (revoked.activity ≡ one_token.activity)
revoke_client_token-valid_example =
    revoke_client_token-valid (λ t. t) "13:00" "abc" 1 one_token revoked true revoke-done

abbrev waiting : PairingRequest
waiting = record {
  id = "q";
  code = "1a2b";
  device = "mini";
  hash = "abc";
  expires = 300;
  status = "pending";
}

abbrev manager : PairingManager
manager = record { requests = waiting ∷ []; store = no_tokens }

abbrev approved : PairingManager
approved = record { requests = record waiting { status = "approved" } ∷ []; store = one_token }

approve-done : decide 100 "12:00" "q" "1a2b" "approve" manager ≡ (204, approved)
unfolding decide is_blank has_control
approve-done = refl

approve-Approves_example : Approves 100 "12:00" "q" "1a2b" manager approved
approve-Approves_example = approve-Approves 100 "12:00" "q" "1a2b" manager approved approve-done

approve_once_example : decide 101 "12:01" "q" "1a2b" "deny" approved ≡ (404, approved)
approve_once_example =
    approve_once 100 101 "12:00" "12:01" "q" "1a2b" "1a2b" "deny" manager approved approve-done refl

pending-bounded_example :
    (count is_pending (start 100 "p" "c" "air" "def" manager).1.requests ≤ 16)
    × (count is_pending (poll 100 "p" manager).1.requests ≤ 16)
    × (count is_pending (decide 100 "12:00" "p" "c" "approve" manager).1.requests ≤ 16)
pending-bounded_example =
    pending-bounded manager 100 "p" "c" "air" "def" "12:00" "approve" (omega arith)

abbrev attempts : List Attempts
attempts = record { peer = "::1"; start = 5; tries = 9 } ∷ []

add_session-done :
    add_owner_session (λ v. v) 10 "cookie" 50 (record { session_hash = "old"; expires_at = 9 } ∷ [])
    ≡ ok (record { session_hash = "cookie"; expires_at = 50 } ∷ [])
unfolding add_owner_session
add_session-done = refl

abbrev sessions : List OwnerSession
sessions = record { session_hash = "cookie"; expires_at = 50 } ∷ []

add_owner_session-bounded_example :
    (length sessions ≤ 256) × (owner_session_valid (λ v. v) "cookie" 20 sessions ≡ true)
add_owner_session-bounded_example =
    add_owner_session-bounded (λ v. v) 10 "cookie" 50
      (record { session_hash = "old"; expires_at = 9 } ∷ []) sessions 20 add_session-done
      (omega arith)

revoke_owner_session-valid_example :
    owner_session_valid (λ v. v) "cookie" 20 (revoke_owner_session (λ v. v) "cookie" false sessions)
    ≡ not false
      && (not (◌==◌ {A = String} "cookie" "cookie")
          && owner_session_valid (λ v. v) "cookie" 20 sessions)
revoke_owner_session-valid_example =
    revoke_owner_session-valid (λ v. v) "cookie" "cookie" 20 false sessions
