-- ===== src/Access/Sessions.antt =====
-- Owner sessions of browsers (internal/memory/owner_sessions.go). Times are seconds.
use grasshopper.Base.{
  ℕ, zero, suc, ◌-◌, ◌≤◌, ◌<◌, Bool, true, false, not, ◌&&◌, ◌||◌, ◌≡◌, refl, sym, ◌∙◌, ap, subst,
  List, [], ◌∷◌, String, ◌==◌, nat_eq, string_eq, arith, if◌then◌else◌, ltb, leb, any, length, inl,
  inr, Bool-cases, test_self, lt→ltb, eq_of_test,
}
use grasshopper.Outcome.{Result, ok, err, constraint_failed}

pub record OwnerSession : Type 0 where
  pub session_hash : String
  pub expires_at : ℕ

abbrev pub of_hash : String → OwnerSession → Bool
of_hash hash s = s.session_hash == hash

-- DELETE FROM owner_sessions WHERE expires_at<=?
abbrev pub drop_expired : ℕ → List OwnerSession → List OwnerSession
drop_expired now [] = []
drop_expired now (s ∷ ss) =
    if leb s.expires_at now then drop_expired now ss else s ∷ drop_expired now ss

abbrev pub earlier : ℕ → ℕ → ℕ
earlier a b = if ltb b a then b else a

abbrev pub soonest : ℕ → List OwnerSession → ℕ
soonest e [] = e
soonest e (s ∷ ss) = soonest (earlier e s.expires_at) ss

-- The first session that expires then, if there is one, is removed.
abbrev pub drop_at : ℕ → List OwnerSession → List OwnerSession
drop_at e [] = []
drop_at e (s ∷ ss) = if s.expires_at == e then ss else s ∷ drop_at e ss

abbrev pub drop_soonest : List OwnerSession → List OwnerSession
drop_soonest [] = []
drop_soonest (s ∷ ss) = drop_at (soonest s.expires_at ss) (s ∷ ss)

-- DELETE … ORDER BY expires_at LIMIT n
unfoldable pub drop_count : ℕ → List OwnerSession → List OwnerSession
drop_count zero ss = ss
drop_count (suc n) ss = drop_count n (drop_soonest ss)

abbrev pub capped : List OwnerSession → List OwnerSession
capped ss = if leb 256 (length ss) then drop_count (length ss - 255) ss else ss

unfoldable pub add_owner_session :
    (String → String) → ℕ → String → ℕ → List OwnerSession → Result (List OwnerSession)
unfolding drop_count
add_owner_session sha256 now value expires ss =
    let rest = capped (drop_expired now ss) in
    if any (of_hash (sha256 value)) rest
    then err constraint_failed
    else ok (record { session_hash = sha256 value; expires_at = expires } ∷ rest)

unfoldable pub owner_session_valid : (String → String) → String → ℕ → List OwnerSession → Bool
owner_session_valid sha256 value now ss =
    any (λ s. s.session_hash == sha256 value && ltb now s.expires_at) ss

unfoldable pub without_hash : String → List OwnerSession → List OwnerSession
without_hash hash [] = []
without_hash hash (s ∷ ss) =
    if of_hash hash s then without_hash hash ss else s ∷ without_hash hash ss

unfoldable pub revoke_owner_session :
    (String → String) → String → Bool → List OwnerSession → List OwnerSession
unfolding without_hash
revoke_owner_session sha256 value everywhere ss =
    if everywhere then [] else without_hash (sha256 value) ss

-- The soonest time is one of the list's.
drop_at-length :
    (e : ℕ) (ss : List OwnerSession)
    → any (λ (s : OwnerSession). s.expires_at == e) ss ≡ true
    → suc (length (drop_at e ss)) ≡ length ss
drop_at-length e [] h = cc
drop_at-length e (s ∷ ss) h = elim (Bool-cases (s.expires_at == e)) [
  | inl same ↦ rw same refl
  | inr other ↦ rw other (ap suc (drop_at-length e ss (rw other at h)))
]

soonest-there :
    (e : ℕ) (ss : List OwnerSession)
    → ((e == soonest e ss) || any (λ (s : OwnerSession). s.expires_at == soonest e ss) ss) ≡ true
soonest-there e [] = ground (arith, test_self e)
soonest-there e (s ∷ ss) = elim (Bool-cases (ltb s.expires_at e)) [
  | inl less ↦
      subst there (sym (pick_less less))
        (or_later (e == soonest s.expires_at ss) _ (soonest-there s.expires_at ss))
  | inr more ↦
      subst there (sym (pick_more more))
        (or_past (e == soonest e ss) (s.expires_at == soonest e ss) _ (soonest-there e ss))
]
  where
    there : ℕ → Type 0
    there m =
        ((e == soonest m ss)
          || ((s.expires_at == soonest m ss)
              || any (λ (x : OwnerSession). x.expires_at == soonest m ss) ss))
        ≡ true

    pick_less : ltb s.expires_at e ≡ true → earlier e s.expires_at ≡ s.expires_at
    pick_less h = rw h refl

    pick_more : ltb s.expires_at e ≡ false → earlier e s.expires_at ≡ e
    pick_more h = rw h refl

    or_later : (a b : Bool) → b ≡ true → (a || b) ≡ true
    or_later a b h = ground arith

    or_past : (a b c : Bool) → (a || c) ≡ true → (a || (b || c)) ≡ true
    or_past a b c h = ground arith

drop_soonest-length : (ss : List OwnerSession) → length (drop_soonest ss) ≡ length ss - 1
drop_soonest-length [] = refl
drop_soonest-length (s ∷ ss) =
    omega (arith, drop_at-length (soonest s.expires_at ss) (s ∷ ss) (soonest-there s.expires_at ss))

drop_count-length : (n : ℕ) (ss : List OwnerSession) → length (drop_count n ss) ≡ length ss - n
unfolding drop_count
drop_count-length zero ss = omega arith
drop_count-length (suc n) ss =
    omega (arith, drop_count-length n (drop_soonest ss), drop_soonest-length ss)

capped-length : (ss : List OwnerSession) → length (capped ss) ≤ 255
capped-length ss = elim (Bool-cases (leb 256 (length ss))) [
  | inl full ↦ rw full (omega (arith, drop_count-length (length ss - 255) ss))
  | inr room ↦ rw room (ground arith)
]

-- A session that is added leaves at most 256 sessions, however many there were, and is valid until it
-- expires.
pub add_owner_session-bounded :
    (sha256 : String → String) (now : ℕ) (value : String) (expires : ℕ) (ss ss' : List OwnerSession)
    (later : ℕ)
    → add_owner_session sha256 now value expires ss ≡ ok ss'
    → later < expires
    → (length ss' ≤ 256) × (owner_session_valid sha256 value later ss' ≡ true)
unfolding add_owner_session owner_session_valid
add_owner_session-bounded sha256 now value expires ss ss' later h lt =
    elim (Bool-cases (any (of_hash (sha256 value)) (capped (drop_expired now ss)))) [
      | inl taken ↦ cc (rw (add_owner_session, taken) at h)
      | inr free ↦
          let e = list_inj (rw (add_owner_session, free) at h) in
          subst
            (λ (xs : List OwnerSession).
              (length xs ≤ 256)
              × (any (λ s. s.session_hash == sha256 value && ltb later s.expires_at) xs ≡ true))
            e
            (
              omega (arith, capped-length (drop_expired now ss)),
              rw (test_self (sha256 value), lt→ltb later expires lt) refl,
            )
    ]
  where
    list_inj : {a b : List OwnerSession} → ok a ≡ ok b → a ≡ b
    list_inj e = cc

without_hash-valid :
    (sha256 : String → String) (value other : String) (now : ℕ) (ss : List OwnerSession)
    → owner_session_valid sha256 other now (without_hash (sha256 value) ss)
      ≡ not (sha256 other == sha256 value) && owner_session_valid sha256 other now ss
unfolding owner_session_valid without_hash
without_hash-valid sha256 value other now [] = ground arith
without_hash-valid sha256 value other now (s ∷ ss) =
    let h = without_hash-valid sha256 value other now ss in
    elim (Bool-cases (of_hash (sha256 value) s)) [
      | inl same ↦ rw same (
          h
          ∙ drop_case (sha256 other == sha256 value) (s.session_hash == sha256 other)
              (ltb now s.expires_at) _
              (λ e.
                ap (λ x. x == sha256 value) (sym (eq_of_test s.session_hash (sha256 other) e))
                ∙ same))
      | inr differs ↦ rw differs (
          ap (λ b. (s.session_hash == sha256 other && ltb now s.expires_at) || b) h
          ∙ keep_case (sha256 other == sha256 value) (s.session_hash == sha256 other)
              (ltb now s.expires_at) _
              (λ e.
                ap (λ x. x == sha256 value) (sym (eq_of_test s.session_hash (sha256 other) e))
                ∙ differs))
    ]
  where
    drop_case : (v o l b : Bool) → (o ≡ true → v ≡ true) → (not v && b) ≡ (not v && ((o && l) || b))
    drop_case v true l b f = rw (f refl) refl
    drop_case v false l b f = refl

    keep_case :
        (v o l b : Bool)
        → (o ≡ true → v ≡ false)
        → ((o && l) || (not v && b)) ≡ (not v && ((o && l) || b))
    keep_case v true l b f = rw (f refl) refl
    keep_case v false l b f = refl

-- Signing out ends the sessions of that cookie's digest and no other; signing out everywhere ends all.
pub revoke_owner_session-valid :
    (sha256 : String → String) (value other : String) (now : ℕ) (everywhere : Bool)
    (ss : List OwnerSession)
    → owner_session_valid sha256 other now (revoke_owner_session sha256 value everywhere ss)
      ≡ not everywhere
        && (not (sha256 other == sha256 value) && owner_session_valid sha256 other now ss)
unfolding revoke_owner_session owner_session_valid
revoke_owner_session-valid sha256 value other now true ss = refl
revoke_owner_session-valid sha256 value other now false ss =
    without_hash-valid sha256 value other now ss
