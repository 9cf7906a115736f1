-- ===== src/Access/Tokens.antt =====
-- Device tokens (internal/memory/client_tokens.go): rows in the order of their ids, newest first.
use Prim.Native.String.{len}
use grasshopper.Base.{
  ℕ, suc, Bool, not, ◌&&◌, ◌||◌, Option, none, some, List, [], ◌∷◌, String, ◌==◌, nat_eq, string_eq,
  if◌then◌else◌, is_some, is_blank, has_control, ltb, any, count, length,
}
use grasshopper.Outcome.{
  Result, ok, err, constraint_failed, invalid_device, invalid_token_id, invalid_label,
  device_not_found,
}
use grasshopper.Store.{put}

pub record ClientToken : Type 0 where
  pub id : ℕ
  pub device : String
  pub token_hash : String
  pub created_at : String
  pub revoked_at : Option String

pub record Tokens : Type 0 where
  pub client_tokens : List ClientToken
  pub activity : ℕ → Option String
  pub labels : String → Option String

abbrev pub has_hash : String → ClientToken → Bool
has_hash hash t = t.token_hash == hash

-- An unrevoked row of the hash.
abbrev pub is_active : String → ClientToken → Bool
is_active hash t = t.token_hash == hash && not (is_some t.revoked_at)

abbrev pub is_device : String → Bool
is_device device = not (is_blank device || (ltb 64 (len device) || has_control device))

unfoldable pub add_client_token : String → String → String → Tokens → Result (ClientToken × Tokens)
unfolding is_blank has_control
add_client_token now device hash ts =
    let row : ClientToken = record {
      id = suc (length ts.client_tokens);
      device = device;
      token_hash = hash;
      created_at = now;
      revoked_at = none;
    } in
    if not (is_device device)
    then err invalid_device
    else if any (has_hash hash) ts.client_tokens
    then err constraint_failed
    else ok (row, record ts { client_tokens = row ∷ ts.client_tokens })

unfoldable pub client_token_valid : (String → String) → String → Tokens → Bool
client_token_valid sha256 token ts = any (is_active (sha256 token)) ts.client_tokens

abbrev pub device_in : String → List ClientToken → String
device_in hash [] = ""
device_in hash (t ∷ ts) = if is_active hash t then t.device else device_in hash ts

-- The device of an active token, and "" without one.
unfoldable pub client_token_device : (String → String) → String → Tokens → String
client_token_device sha256 token ts = device_in (sha256 token) ts.client_tokens

-- UPDATE … SET revoked_at=? WHERE id=? AND revoked_at IS NULL
abbrev pub revoke_row : String → ℕ → ClientToken → ClientToken
revoke_row now i t =
    if t.id == i && not (is_some t.revoked_at) then record t { revoked_at = some now } else t

unfoldable pub revoke_rows : String → ℕ → List ClientToken → List ClientToken
revoke_rows now i [] = []
revoke_rows now i (t ∷ ts) = revoke_row now i t ∷ revoke_rows now i ts

abbrev pub is_open : ℕ → ClientToken → Bool
is_open i t = t.id == i && not (is_some t.revoked_at)

unfoldable pub revoke_client_token : String → ℕ → Tokens → Result (Bool × Tokens)
unfolding revoke_rows
revoke_client_token now i ts =
    if ltb 0 i
    then ok (
      count (is_open i) ts.client_tokens == 1,
      record ts { client_tokens = revoke_rows now i ts.client_tokens },
    )
    else err invalid_token_id

abbrev pub touch_each : String → String → List ClientToken → (ℕ → Option String) → ℕ → Option String
touch_each stamp hash [] activity = activity
touch_each stamp hash (t ∷ ts) activity =
    if is_active hash t
    then put (touch_each stamp hash ts activity) t.id stamp
    else touch_each stamp hash ts activity

-- `stamp` is the time, truncated to the minute.
unfoldable pub touch_client_token : (String → String) → String → String → Tokens → Tokens
touch_client_token sha256 token stamp ts = record ts {
  activity = touch_each stamp (sha256 token) ts.client_tokens ts.activity;
}

-- `label` has been trimmed and `runes` counts its characters.
unfoldable pub set_device_label : (String → ℕ) → String → String → Tokens → Result Tokens
unfolding has_control
set_device_label runes device label ts =
    if ltb 64 (runes label) || has_control label
    then err invalid_label
    else if not (any (λ t. t.device == device) ts.client_tokens)
    then err device_not_found
    else if label == "" || label == device
    then ok (record ts { labels = λ d. if d == device then none else ts.labels d })
    else ok (record ts { labels = put ts.labels device label })
