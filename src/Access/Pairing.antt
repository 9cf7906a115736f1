-- ===== src/Access/Pairing.antt =====
-- Pairing requests (internal/service/pairing.go): the sections of start, poll and adminPairings that
-- hold the manager's lock. Times are nanoseconds, replies HTTP status codes.
use grasshopper.Base.{
  ℕ, ◌+◌, Bool, not, ◌&&◌, ◌||◌, Option, none, some, List, [], ◌∷◌, String, ◌==◌, nat_eq, string_eq,
  if◌then◌else◌, leb, count,
}
use grasshopper.Outcome.{ok, err, Result}
use grasshopper.Access.Tokens.{Tokens, add_client_token, ClientToken}

abbrev pub pairing_lifetime : ℕ
pairing_lifetime = 300000000000

abbrev pub max_pending_pairings : ℕ
max_pending_pairings = 16

pub record PairingRequest : Type 0 where
  pub id : String
  pub code : String
  pub device : String
  pub hash : String
  pub expires : ℕ
  pub status : String

pub record PairingManager : Type 0 where
  pub requests : List PairingRequest
  pub store : Tokens

abbrev pub is_pending : PairingRequest → Bool
is_pending r = r.status == "pending"

abbrev pub expire_one : ℕ → PairingRequest → PairingRequest
expire_one now r = if leb r.expires now && is_pending r then record r { status = "expired" } else r

-- Requests are kept for a second lifetime, and pending ones expire after the first.
unfoldable pub expire : ℕ → List PairingRequest → List PairingRequest
expire now [] = []
expire now (r ∷ rs) =
    let rest = expire now rs in
    if leb (r.expires + pairing_lifetime) now then rest else expire_one now r ∷ rest

-- requests[id] = request: a request of the same id is replaced.
abbrev pub without : String → List PairingRequest → List PairingRequest
without id [] = []
without id (r ∷ rs) = if r.id == id then without id rs else r ∷ without id rs

abbrev pub find : String → List PairingRequest → Option PairingRequest
find id [] = none
find id (r ∷ rs) = if r.id == id then some r else find id rs

unfoldable pub start : ℕ → String → String → String → String → PairingManager → ℕ × PairingManager
unfolding expire
start now id code device hash m =
    let rs = expire now m.requests in
    let request : PairingRequest = record {
      id = id;
      code = code;
      device = device;
      hash = hash;
      expires = now + pairing_lifetime;
      status = "pending";
    } in
    if leb max_pending_pairings (count is_pending rs)
    then (429, record m { requests = rs })
    else (201, record m { requests = request ∷ without id rs })

abbrev pub reply_of : Option PairingRequest → ℕ
reply_of none = 404
reply_of (some r) =
    if r.status == "expired"
    then 410
    else if r.status == "denied"
    then 403
    else if r.status == "approved"
    then 200
    else 202

unfoldable pub poll : ℕ → String → PairingManager → ℕ × PairingManager
unfolding expire
poll now id m =
    let rs = expire now m.requests in (reply_of (find id rs), record m { requests = rs })

abbrev pub set_status : String → String → List PairingRequest → List PairingRequest
set_status id status [] = []
set_status id status (r ∷ rs) =
    (if r.id == id then record r { status = status } else r) ∷ set_status id status rs

-- The reply to an approval, by what AddClientToken returned.
abbrev pub approved_with :
    PairingRequest → PairingManager → Result (ClientToken × Tokens) → ℕ × PairingManager
approved_with r m (err e) = (503, m)
approved_with r m (ok added) =
    (204, record { requests = set_status r.id "approved" m.requests; store = added.1 })

-- The owner's decision on a request that is pending and has not expired.
unfoldable pub settle : String → String → PairingRequest → PairingManager → ℕ × PairingManager
unfolding add_client_token
settle stamp decision r m =
    if decision == "approve"
    then approved_with r m (add_client_token stamp r.device r.hash m.store)
    else (204, record m { requests = set_status r.id "denied" m.requests })

abbrev pub decide_found :
    ℕ → String → String → String → Option PairingRequest → PairingManager → ℕ × PairingManager
decide_found now stamp code decision none m = (404, m)
decide_found now stamp code decision (some r) m =
    if leb r.expires now || not (is_pending r)
    then (404, m)
    else if not (r.code == code)
    then (400, m)
    else settle stamp decision r m

unfoldable pub decide : ℕ → String → String → String → String → PairingManager → ℕ × PairingManager
unfolding settle
decide now stamp id code decision m =
    if not (decision == "approve") && not (decision == "deny")
    then (400, m)
    else decide_found now stamp code decision (find id m.requests) m
