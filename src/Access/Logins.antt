-- ===== src/Access/Logins.antt =====
-- The login limit of each peer (allowLogin and resetLogin, internal/service/visualizer_session.go).
-- Times are nanoseconds; the table has one window for each peer.
use grasshopper.Base.{
  ℕ, suc, ◌-◌, ◌≤◌, Bool, true, false, ◌≡◌, Option, none, some, List, [], ◌∷◌, String, ◌==◌, nat_eq,
  string_eq, if◌then◌else◌, leb, length, All, ltb, is_some, keep, option_eq, list_eq, ◌+◌, ◌&&◌,
  ◌||◌,
}

pub record Attempts : Type 0 where
  pub peer : String
  pub start : ℕ
  pub tries : ℕ

-- Windows of five minutes or older are dropped.
unfoldable pub drop_old : ℕ → List Attempts → List Attempts
drop_old now [] = []
drop_old now (w ∷ ws) =
    let rest = drop_old now ws in if leb 300000000000 (now - w.start) then rest else w ∷ rest

abbrev pub window : String → List Attempts → Option Attempts
window ip [] = none
window ip (w ∷ ws) = if w.peer == ip then some w else window ip ws

abbrev pub remove : String → List Attempts → List Attempts
remove ip [] = []
remove ip (w ∷ ws) = if w.peer == ip then remove ip ws else w ∷ remove ip ws

-- One more attempt in a window.
abbrev pub try : Attempts → List Attempts → Bool × List Attempts
try w ws =
    if leb 10 w.tries
    then (false, ws)
    else (true, record w { tries = suc w.tries } ∷ remove w.peer ws)

abbrev pub allow_in : ℕ → String → Option Attempts → List Attempts → Bool × List Attempts
allow_in now ip (some w) ws = try w ws
allow_in now ip none ws =
    if leb 1024 (length ws)
    then (false, ws)
    else try (record { peer = ip; start = now; tries = 0 }) ws

unfoldable pub allow_login : ℕ → String → List Attempts → Bool × List Attempts
unfolding drop_old
allow_login now ip attempts = let ws = drop_old now attempts in allow_in now ip (window ip ws) ws

unfoldable pub reset_login : String → List Attempts → List Attempts
reset_login ip attempts = remove ip attempts

-- What the limit keeps: no window has more than ten attempts, and the table at most 1024 windows.
unfoldable pub Limited : List Attempts → Type 0
Limited ws = All (λ (w : Attempts). w.tries ≤ 10) ws × (length ws ≤ 1024)

abbrev pub tries_of : Option Attempts → ℕ
tries_of none = 0
tries_of (some w) = w.tries

-- The windows of less than five minutes.
abbrev pub young : ℕ → List Attempts → List Attempts
young now ws = keep (λ w. ltb (now - w.start) 300000000000) ws

-- What the answer says of the windows: it is yes where the peer has tries left and a window, or room
-- for one, and then it is one more try of the peer, and of no other.
abbrev pub Answered : String → List Attempts → Bool × List Attempts → Type 0
Answered ip ws (allowed, after) =
    (allowed
      ≡ (ltb (tries_of (window ip ws)) 10 && (is_some (window ip ws) || ltb (length ws) 1024)))
    × ((peer : String)
        → tries_of (window peer after)
          ≡ tries_of (window peer ws) + (if ip == peer && allowed then 1 else 0))
