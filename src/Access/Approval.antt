-- ===== src/Access/Approval.antt =====
-- The limit on pending pairing requests, and the approval of a request.
use grasshopper.Base.{
  ℕ, ◌≤◌, ◌<◌, Bool, true, false, not, ◌&&◌, ◌||◌, ◌≡◌, refl, sym, ◌∙◌, ap, Option, none, some,
  List, [], ◌∷◌, String, ◌==◌, nat_eq, string_eq, arith, if◌then◌else◌, leb, count, inl, inr,
  Bool-cases, Option-cases, eq_of_test,
}
use grasshopper.Outcome.{Result, ok, err}
use grasshopper.Access.Tokens.{Tokens, ClientToken, add_client_token}
use grasshopper.Access.Pairing.{
  approved_with, PairingRequest, PairingManager, is_pending, expire, without, find, start, poll,
  set_status, settle, decide, decide_found,
}

expire-pending :
    (now : ℕ) (rs : List PairingRequest) → count is_pending (expire now rs) ≤ count is_pending rs
unfolding expire
expire-pending now [] = omega arith
expire-pending now (r ∷ rs) = let h = expire-pending now rs in ground (arith, h)

without-pending :
    (id : String) (rs : List PairingRequest)
    → count is_pending (without id rs) ≤ count is_pending rs
without-pending id [] = omega arith
without-pending id (r ∷ rs) = let h = without-pending id rs in ground (arith, h)

set_status-pending :
    (id status : String) (rs : List PairingRequest)
    → (status == "pending") ≡ false
    → count is_pending (set_status id status rs) ≤ count is_pending rs
set_status-pending id status [] s = omega arith
set_status-pending id status (r ∷ rs) s =
    let h = set_status-pending id status rs s in ground (arith, h, s)

-- The request of an id, after its status has been set.
find-set_status :
    (id status : String) (rs : List PairingRequest) (r : PairingRequest)
    → find id rs ≡ some r
    → find id (set_status id status rs) ≡ some (record r { status = status })
find-set_status id status [] r h = cc
find-set_status id status (x ∷ rs) r h = elim (Bool-cases (x.id == id)) [
  | inl same ↦
      rw (same, same)
        (ap
          (λ (o : Option PairingRequest). elim o [
            | none ↦ none
            | some y ↦ some (record y { status = status })
          ])
          (rw same at h))
  | inr other ↦ rw (other, other) (find-set_status id status rs r (rw other at h))
]

find-id :
    (id : String) (rs : List PairingRequest) (r : PairingRequest) → find id rs ≡ some r → r.id ≡ id
find-id id [] r h = cc
find-id id (x ∷ rs) r h = elim (Bool-cases (x.id == id)) [
  | inl same ↦
      ap (λ (y : PairingRequest). y.id) (sym (request_inj (rw same at h))) ∙ eq_of_test x.id id same
  | inr other ↦ find-id id rs r (rw other at h)
]
  where
    request_inj : {a b : PairingRequest} → some a ≡ some b → a ≡ b
    request_inj e = cc

settle-pending :
    (stamp decision : String) (r : PairingRequest) (m : PairingManager)
    → count is_pending (settle stamp decision r m).1.requests ≤ count is_pending m.requests
unfolding settle
settle-pending stamp decision r m = elim (Bool-cases (decision == "approve")) [
  | inl yes_it ↦ rw yes_it (stored (add_client_token stamp r.device r.hash m.store))
  | inr no_it ↦ rw no_it (set_status-pending r.id "denied" m.requests refl)
]
  where
    stored :
        (o : Result (ClientToken × Tokens))
        → count is_pending (approved_with r m o).1.requests ≤ count is_pending m.requests
    stored (err e) = omega arith
    stored (ok p) = set_status-pending r.id "approved" m.requests refl

decide-pending :
    (now : ℕ) (stamp id code decision : String) (m : PairingManager)
    → count is_pending (decide now stamp id code decision m).1.requests
      ≤ count is_pending m.requests
unfolding decide
decide-pending now stamp id code decision m =
    if_pending (not (decision == "approve") && not (decision == "deny")) 400 _
      (found (find id m.requests))
  where
    if_pending :
        (b : Bool) (n : ℕ) (p : ℕ × PairingManager)
        → count is_pending p.1.requests ≤ count is_pending m.requests
        → count is_pending (if b then (n, m) else p).1.requests ≤ count is_pending m.requests
    if_pending true n p h = omega arith
    if_pending false n p h = h

    found :
        (o : Option PairingRequest)
        → count is_pending (decide_found now stamp code decision o m).1.requests
          ≤ count is_pending m.requests
    found none = omega arith
    found (some r) =
        if_pending (leb r.expires now || not (is_pending r)) 404 _
          (if_pending (not (r.code == code)) 400 _ (settle-pending stamp decision r m))

not_leb : (n : ℕ) → leb 16 n ≡ false → n < 16
not_leb n e = ground arith

-- No section under the lock lets more than the limit of requests be pending: from at most sixteen,
-- start, poll and decide leave at most sixteen.
pub pending-bounded :
    (m : PairingManager) (now : ℕ) (id code device hash stamp decision : String)
    → count is_pending m.requests ≤ 16
    → (count is_pending (start now id code device hash m).1.requests ≤ 16)
      × (count is_pending (poll now id m).1.requests ≤ 16)
      × (count is_pending (decide now stamp id code decision m).1.requests ≤ 16)
unfolding start poll
pending-bounded m now id code device hash stamp decision h = (
  start_bounded,
  omega (arith, expire-pending now m.requests, h),
  omega (arith, decide-pending now stamp id code decision m, h),
)
  where
    start_bounded : count is_pending (start now id code device hash m).1.requests ≤ 16
    start_bounded = elim (Bool-cases (leb 16 (count is_pending (expire now m.requests)))) [
      | inl full ↦ rw (full) (omega (arith, expire-pending now m.requests, h))
      | inr room ↦
          rw (room) (omega (arith, without-pending id (expire now m.requests), not_leb _ room))
    ]

-- What an approval that succeeds has found and done.
pub record Approves (now : ℕ) (stamp id code : String) (m m' : PairingManager) : Type 0 where
  pub request : PairingRequest
  pub row : ClientToken
  pub found : find id m.requests ≡ some request
  pub unexpired : now < request.expires
  pub pending : request.status ≡ "pending"
  pub matches : request.code ≡ code
  pub added : add_client_token stamp request.device request.hash m.store ≡ ok (row, m'.store)
  pub approved : m'.requests ≡ set_status id "approved" m.requests

settle-Approves :
    (stamp id : String) (r : PairingRequest) (m m' : PairingManager)
    → r.id ≡ id
    → settle stamp "approve" r m ≡ (204, m')
    → (row : ClientToken) × (add_client_token stamp r.device r.hash m.store ≡ ok (row, m'.store))
      × (m'.requests ≡ set_status id "approved" m.requests)
unfolding settle
settle-Approves stamp id r m m' e h = split (add_client_token stamp r.device r.hash m.store) refl h
  where
    split :
        (o : Result (ClientToken × Tokens))
        → add_client_token stamp r.device r.hash m.store ≡ o
        → approved_with r m o ≡ (204, m')
        → (row : ClientToken) × (add_client_token stamp r.device r.hash m.store
            ≡ ok (row, m'.store))
          × (m'.requests ≡ set_status id "approved" m.requests)
    split (err x) a k = absurd (omega (arith, ap (λ (p : ℕ × PairingManager). p.0) k))
    split (ok p) a k =
        let s = ap (λ (q : ℕ × PairingManager). q.1) k in
        (
          p.0,
          a ∙ ap (λ t. ok (p.0, t)) (ap (λ (x : PairingManager). x.store) s),
          sym (ap (λ (x : PairingManager). x.requests) s)
              ∙ ap (λ i. set_status i "approved" m.requests) e,
        )

-- An approval answered with 204 is of a request that is pending, has not expired and has the shown
-- code; it adds one token, for the device and the hash of the request.
pub approve-Approves :
    (now : ℕ) (stamp id code : String) (m m' : PairingManager)
    → decide now stamp id code "approve" m ≡ (204, m')
    → Approves now stamp id code m m'
unfolding decide
approve-Approves now stamp id code m m' h = elim (Option-cases (find id m.requests)) [
  | inl none_there ↦
      absurd (omega (arith, ap (λ (p : ℕ × PairingManager). p.0) (rw (decide, none_there) at h)))
  | inr (r, at) ↦
      let h1 : decide_found now stamp code "approve" (some r) m ≡ (204, m') =
        rw (decide, at) at h in
      let (live, h2) =
        not_404 (leb r.expires now || not (is_pending r)) 404 _ (λ e. absurd (omega (arith, e)))
          h1 in
      let (same, h3) = not_404 (not (r.code == code)) 400 _ (λ e. absurd (omega (arith, e))) h2 in
      let (row, added, after) = settle-Approves stamp id r m m' (find-id id m.requests r at) h3 in
      record {
        request = r;
        row = row;
        found = at;
        unexpired = before r.expires (is_pending r) live;
        pending = eq_of_test r.status "pending" (still (leb r.expires now) (is_pending r) live);
        matches = eq_of_test r.code code (not_not (r.code == code) same);
        added = added;
        approved = after;
      }
]
  where
    not_404 :
        (b : Bool) (n : ℕ) (p : ℕ × PairingManager)
        → (n ≡ 204 → ⊥)
        → (if b then (n, m) else p) ≡ (204, m')
        → (b ≡ false) × (p ≡ (204, m'))
    not_404 true n p ne e = absurd (ne (ap (λ (q : ℕ × PairingManager). q.0) e))
    not_404 false n p ne e = (refl, e)

    before : (e : ℕ) (b : Bool) → (leb e now || not b) ≡ false → now < e
    before e b h = ground arith

    still : (a b : Bool) → (a || not b) ≡ false → b ≡ true
    still a b h = ground arith

    not_not : (b : Bool) → not b ≡ false → b ≡ true
    not_not b h = ground arith

-- A request is approved once: after an approval answered with 204, any decision on the same request is
-- refused and changes nothing.
pub approve_once :
    (now later : ℕ) (stamp stamp' id code code' decision : String) (m m' : PairingManager)
    → decide now stamp id code "approve" m ≡ (204, m')
    → (decision == "approve") || (decision == "deny") ≡ true
    → decide later stamp' id code' decision m' ≡ (404, m')
unfolding decide
approve_once now later stamp stamp' id code code' decision m m' h d =
    let a = approve-Approves now stamp id code m m' h in
    let found : find id m'.requests ≡ some (record a.request { status = "approved" }) =
      ap (find id) a.approved ∙ find-set_status id "approved" m.requests a.request a.found in
    let known : (not (decision == "approve") && not (decision == "deny")) ≡ false =
      known_decision (decision == "approve") (decision == "deny") d in
    rw (decide, known, found)
      (if_true (leb a.request.expires later || true) (or_true (leb a.request.expires later)) _)
  where
    known_decision : (x y : Bool) → (x || y) ≡ true → (not x && not y) ≡ false
    known_decision x y e = ground arith

    or_true : (b : Bool) → (b || true) ≡ true
    or_true b = ground arith

    if_true :
        (b : Bool) → b ≡ true → (p : ℕ × PairingManager) → (if b then (404, m') else p) ≡ (404, m')
    if_true true e p = refl
    if_true false e p = cc
