-- ===== src/Audit.antt =====
-- The audit log's limit on lines for failures (internal/service/audit.go). Times are nanoseconds.
pub mod Bounded
mod Tests
use grasshopper.Base.{
  ltb, leb, if◌then◌else◌, length, ◌==◌, nat_eq, string_eq, option_eq, list_eq, ℕ, suc, ◌+◌, String,
  Bool, false, not, ◌&&◌, ◌||◌, Option, none, some, List, [], ◌∷◌, ◌++◌, any,
}
use Prim.Native.String.{◌++◌ as append}

abbrev pub minute : ℕ
minute = 60000000000

pub record AuditWindow : Type 0 where
  pub until : ℕ
  pub suppressed : ℕ

-- The map `failures`: one window for each key.
abbrev pub Windows : Type 0
Windows = List (String × AuditWindow)

abbrev pub window_of : String → Windows → Option AuditWindow
window_of key [] = none
window_of key ((other, w) ∷ ws) = if other == key then some w else window_of key ws

abbrev pub replace_window : String → AuditWindow → Windows → Windows
replace_window key w [] = []
replace_window key w ((other, v) ∷ ws) =
    (other, if other == key then w else v) ∷ replace_window key w ws

abbrev pub put_found : String → AuditWindow → Option AuditWindow → Windows → Windows
put_found key w none ws = (key, w) ∷ ws
put_found key w (some v) ws = replace_window key w ws

-- failures[key] = w
unfoldable pub put_window : String → AuditWindow → Windows → Windows
put_window key w ws = put_found key w (window_of key ws) ws

abbrev pub window_open : ℕ → Option AuditWindow → Bool
window_open now none = false
window_open now (some w) = ltb now w.until

abbrev pub one_more : AuditWindow → AuditWindow
one_more w = record w { suppressed = suc w.suppressed }

abbrev pub count_in : Option AuditWindow → ℕ
count_in none = 0
count_in (some w) = w.suppressed

-- The line is written, with the number of those that the window before it left out.
unfoldable pub open_window : ℕ → String → Windows → Option ℕ × Windows
unfolding put_window
open_window now key ws = (
  some (count_in (window_of key ws)),
  put_window key (record { until = now + minute; suppressed = 0 }) ws,
)

abbrev pub add_to : String → Option AuditWindow → Windows → Windows
add_to key none ws = ws
add_to key (some w) ws = replace_window key (one_more w) ws

-- A window that is open takes the line; otherwise a new one is opened.
unfoldable pub admit : ℕ → String → Windows → Option ℕ × Windows
unfolding open_window
admit now key ws =
    if window_open now (window_of key ws)
    then (none, add_to key (window_of key ws) ws)
    else open_window now key ws

unfoldable pub prune : ℕ → Windows → Windows
prune now [] = []
prune now ((key, w) ∷ ws) =
    let rest = prune now ws in if ltb now w.until then (key, w) ∷ rest else rest

-- A new key: closed windows are dropped, and beyond 1024 windows one bucket takes all keys.
unfoldable pub admit_new : ℕ → String → Windows → Option ℕ × Windows
unfolding prune admit open_window
admit_new now key ws =
    let left = prune now ws in
    if leb 1024 (length left) then admit now "overflow" left else open_window now key left

unfoldable pub limit_found : ℕ → String → Option AuditWindow → Windows → Option ℕ × Windows
unfolding admit admit_new
limit_found now key none ws = admit_new now key ws
limit_found now key (some w) ws = admit now key ws

abbrev pub known_routes : List String
known_routes =
    "/mcp" ∷ "/healthz" ∷ "/connection" ∷ "/pair/start" ∷ "/pair/poll" ∷ "/visualizer/api/session"
    ∷ "/visualizer/api/session/revoke-all" ∷ "/visualizer/api/context" ∷ "/visualizer/api/search"
    ∷ "/visualizer/api/record" ∷ "/visualizer/api/update" ∷ "/visualizer/api/archive"
    ∷ "/visualizer/api/move" ∷ "/visualizer/api/startup" ∷ "/visualizer/api/export"
    ∷ "/visualizer/api/pairings" ∷ "/visualizer/api/devices" ∷ []

unfoldable pub audit_route : String → String
audit_route path = if any (λ route. route == path) known_routes then path else "other"

-- The failures of event: nothing, or the line's count of those suppressed before it.
unfoldable pub failure_event : ℕ → String → String → String → Windows → Option ℕ × Windows
unfolding limit_found audit_route
failure_event now name path peer ws =
    let key = append (append (append name ":") (audit_route path)) (append ":" peer) in
    limit_found now key (window_of key ws) ws

-- wrap: the failures that a response stands for
unfoldable pub response_events : ℕ → String → List String
response_events status path =
    (if (status == 401 || status == 403 || (status == 429 && path == "/visualizer/api/session"))
        && not (path == "/pair/poll")
      then "auth_failed" ∷ []
      else [])
    ++ (if leb 500 status then "server_error" ∷ [] else [])

unfoldable pub events_of : ℕ → String → String → List String → Windows → Windows
unfolding failure_event
events_of now path peer [] ws = ws
events_of now path peer (name ∷ names) ws =
    events_of now path peer names (failure_event now name path peer ws).1

unfoldable pub wrap : ℕ → ℕ → String → String → Windows → Windows
unfolding response_events events_of
wrap now status path peer ws = events_of now path peer (response_events status path) ws

-- WriteHeader and Write: the first status stays.
abbrev pub write_header : ℕ → ℕ → ℕ
write_header status before = if before == 0 then status else before

abbrev pub write_body : ℕ → ℕ
write_body before = if before == 0 then 200 else before
