-- ===== src/Access/Revocation.antt =====
-- Which tokens are valid after AddClientToken and RevokeClientToken.
use grasshopper.Base.{
  ℕ, Bool, true, false, not, ◌&&◌, ◌||◌, ◌≡◌, refl, sym, ◌∙◌, ap, List, [], ◌∷◌, String, ◌==◌,
  nat_eq, string_eq, arith, if◌then◌else◌, ltb, any, count, inl, inr, Bool-cases,
}
use grasshopper.Outcome.{Result, ok, err, constraint_failed, invalid_device}
use grasshopper.Access.Tokens.{
  Tokens, ClientToken, has_hash, is_active, is_device, is_open, add_client_token,
  client_token_valid, revoke_rows, revoke_client_token,
}

revoke_rows-active :
    (now hash : String) (i : ℕ) (ts : List ClientToken)
    → any (is_active hash) (revoke_rows now i ts)
      ≡ any (λ t. is_active hash t && not (t.id == i)) ts
unfolding revoke_rows
revoke_rows-active now hash i [] = refl
revoke_rows-active now hash i (t ∷ ts) =
    let h = revoke_rows-active now hash i ts in ground (arith, h)

pair_inj {ℓ} : {A : Type ℓ} {a b : A} → ◌≡◌ {A = Result A} (ok a) (ok b) → a ≡ b
pair_inj h = cc

-- After a token id is revoked, exactly the tokens are valid that an unrevoked row of another id
-- matches; the answer says whether there was one unrevoked row of the id, and device names and the
-- record of activity are as before.
pub revoke_client_token-valid :
    (sha256 : String → String) (now token : String) (i : ℕ) (ts ts' : Tokens) (found : Bool)
    → revoke_client_token now i ts ≡ ok (found, ts')
    → (client_token_valid sha256 token ts'
        ≡ any (λ t. is_active (sha256 token) t && not (t.id == i)) ts.client_tokens)
      × (found ≡ (count (is_open i) ts.client_tokens == 1))
      × (ts'.labels ≡ ts.labels)
      × (ts'.activity ≡ ts.activity)
unfolding revoke_client_token client_token_valid
revoke_client_token-valid sha256 now token i ts ts' found h = elim (Bool-cases (ltb 0 i)) [
  | inl positive ↦
      let e = pair_inj (rw (revoke_client_token, positive) at h) in
      let s = ap (λ (p : Bool × Tokens). p.1) (sym e) in
      (
        ap (λ (x : Tokens). any (is_active (sha256 token)) x.client_tokens) s
            ∙ revoke_rows-active now (sha256 token) i ts.client_tokens,
        ap (λ (p : Bool × Tokens). p.0) (sym e),
        ap (λ (x : Tokens). x.labels) s,
        ap (λ (x : Tokens). x.activity) s,
      )
  | inr zero_id ↦ cc (rw (revoke_client_token, zero_id) at h)
]

add_cases :
    (a b : Bool) (row : ClientToken × Tokens) (r : ClientToken × Tokens)
    → ◌≡◌ {A = Result (ClientToken × Tokens)}
        (if not a then err invalid_device else if b then err constraint_failed else ok row)
        (ok r)
    → (a ≡ true) × (b ≡ false) × (row ≡ r)
add_cases false b row r h = cc
add_cases true true row r h = cc
add_cases true false row r h = (refl, refl, pair_inj h)

-- A token is only added for a valid device name and under a hash that no row has, revoked or not;
-- afterwards the tokens of that hash are valid and all others as before.
pub add_client_token-valid :
    (sha256 : String → String) (now token device hash : String) (ts ts' : Tokens)
    (row : ClientToken)
    → add_client_token now device hash ts ≡ ok (row, ts')
    → (is_device device ≡ true)
      × (any (has_hash hash) ts.client_tokens ≡ false)
      × (client_token_valid sha256 token ts'
          ≡ ((hash == sha256 token) || client_token_valid sha256 token ts))
unfolding add_client_token client_token_valid
add_client_token-valid sha256 now token device hash ts ts' row h =
    let (named, unused, e) =
      add_cases (is_device device) (any (has_hash hash) ts.client_tokens) _ (row, ts') h in
    (
      named,
      unused,
      ap (λ (p : ClientToken × Tokens). any (is_active (sha256 token)) p.1.client_tokens) (sym e)
          ∙ ap (λ b. b || any (is_active (sha256 token)) ts.client_tokens)
              (and_true (hash == sha256 token)),
    )
  where
    and_true : (b : Bool) → (b && true) ≡ b
    and_true b = ground arith
