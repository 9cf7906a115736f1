-- ===== src/Audit/Bounded.antt =====
-- The audit log keeps a bounded number of windows, whatever requests arrive.
use grasshopper.Audit.{
  Windows, window_of, replace_window, prune, AuditWindow, put_found, put_window, window_open,
  one_more, open_window, add_to, admit, admit_new, limit_found, failure_event, response_events,
  events_of, wrap,
}
use grasshopper.Base.{
  if◌then◌else◌, Bool-cases, length, count, ◌==◌, nat_eq, string_eq, option_eq, list_eq, ℕ, ◌+◌,
  ◌≤◌, String, ◌≡◌, refl, ap, inl, inr, Bool, not, none, [], ◌∷◌, arith, ltb, leb, eq_of_test,
  test_self, ◌<◌, sym, subst, ◌⊎◌, true, false, Option, some, List,
}

abbrev pub is_overflow : String × AuditWindow → Bool
is_overflow (key, w) = key == "overflow"

abbrev pub is_own : String × AuditWindow → Bool
is_own (key, w) = not (key == "overflow")

-- At most 1024 keys have a window of their own, and one window takes the others.
unfoldable pub Bounded : Windows → Type 0
Bounded ws = (count is_own ws ≤ 1024) × (count is_overflow ws ≤ 1)

length-counts : (ws : Windows) → length ws ≡ count is_own ws + count is_overflow ws
length-counts [] = refl
length-counts ((key, w) ∷ ws) = elim (Bool-cases (key == "overflow")) [
  | inl is_it ↦ rw is_it (omega (arith, length-counts ws))
  | inr other ↦ rw other (omega (arith, length-counts ws))
]

-- Setting a window that is there changes no key.
counts-replace_window :
    (key : String) (w : AuditWindow) (ws : Windows)
    → (count is_own (replace_window key w ws) ≡ count is_own ws)
      × (count is_overflow (replace_window key w ws) ≡ count is_overflow ws)
counts-replace_window key w [] = (refl, refl)
counts-replace_window key w ((other, v) ∷ ws) =
    let (a, b) = counts-replace_window key w ws in
    (
      ap (λ n. (if not (other == "overflow") then 1 else 0) + n) a,
      ap (λ n. (if other == "overflow" then 1 else 0) + n) b,
    )

-- What is not there does not count.
window_of-none : (ws : Windows) → window_of "overflow" ws ≡ none → count is_overflow ws ≡ 0
window_of-none [] h = refl
window_of-none ((key, w) ∷ ws) h = elim (Bool-cases (key == "overflow")) [
  | inl is_it ↦ absurd (cc (rw is_it at h))
  | inr other ↦ rw other (omega (arith, window_of-none ws (rw other at h)))
]

Bounded-replace_window :
    (key : String) (w : AuditWindow) (ws : Windows) → Bounded ws → Bounded (replace_window key w ws)
unfolding Bounded
Bounded-replace_window key w ws (a, b) =
    let (e, f) = counts-replace_window key w ws in (omega (arith, e, a), omega (arith, f, b))

counts-prune :
    (now : ℕ) (ws : Windows)
    → (count is_own (prune now ws) ≤ count is_own ws)
      × (count is_overflow (prune now ws) ≤ count is_overflow ws)
unfolding prune
counts-prune now [] = (omega arith, omega arith)
counts-prune now ((key, w) ∷ ws) =
    let (a, b) = counts-prune now ws in
    elim (Bool-cases (ltb now w.until)) [
      | inl stays ↦ rw stays (omega (arith, a), omega (arith, b))
      | inr goes ↦ rw goes (omega (arith, a), omega (arith, b))
    ]

Bounded-prune : (now : ℕ) (ws : Windows) → Bounded ws → Bounded (prune now ws)
unfolding Bounded
Bounded-prune now ws (a, b) =
    let (e, f) = counts-prune now ws in (omega (arith, e, a), omega (arith, f, b))

Bounded-first :
    (key : String) (w : AuditWindow) (ws : Windows)
    → Bounded ws
    → window_of key ws ≡ none
    → (key ≡ "overflow") ⊎ (length ws < 1024)
    → Bounded ((key, w) ∷ ws)
unfolding Bounded
Bounded-first key w ws (a, b) new (inl is_it) =
    let none_yet = window_of-none ws (subst (λ k. window_of k ws ≡ none) is_it new) in
    rw (subst (λ k. (k == "overflow") ≡ true) (sym is_it) (test_self {A = String} "overflow"))
      (omega (arith, a), omega (arith, none_yet))
Bounded-first key w ws (a, b) new (inr room) = elim (Bool-cases (key == "overflow")) [
  | inl is_it ↦
      let none_yet =
        window_of-none ws
          (subst (λ k. window_of k ws ≡ none) (eq_of_test key "overflow" is_it) new) in
      rw is_it (omega (arith, a), omega (arith, none_yet))
  | inr other ↦ rw other (omega (arith, length-counts ws, room), omega (arith, b))
]

Bounded-put_window :
    (key : String) (w : AuditWindow) (ws : Windows)
    → Bounded ws
    → (window_of key ws ≡ none → (key ≡ "overflow") ⊎ (length ws < 1024))
    → Bounded (put_window key w ws)
unfolding put_window
Bounded-put_window key w ws v room = split (window_of key ws) refl
  where
    split :
        (found : Option AuditWindow) → window_of key ws ≡ found → Bounded (put_found key w found ws)
    split none e = Bounded-first key w ws v e (room e)
    split (some before) e = Bounded-replace_window key w ws v

Bounded-admit :
    (now : ℕ) (key : String) (ws : Windows)
    → Bounded ws
    → (window_of key ws ≡ none → (key ≡ "overflow") ⊎ (length ws < 1024))
    → Bounded (admit now key ws).1
unfolding admit open_window
Bounded-admit now key ws v room = elim (Bool-cases (window_open now (window_of key ws))) [
  | inl opened ↦ rw opened (added (window_of key ws))
  | inr closed ↦ rw closed (Bounded-put_window key _ ws v room)
]
  where
    added : (found : Option AuditWindow) → Bounded (add_to key found ws)
    added none = v
    added (some w) = Bounded-replace_window key (one_more w) ws v

Bounded-admit_new :
    (now : ℕ) (key : String) (ws : Windows) → Bounded ws → Bounded (admit_new now key ws).1
unfolding admit_new
Bounded-admit_new now key ws v = elim (Bool-cases (leb 1024 (length (prune now ws)))) [
  | inl full ↦
      rw full (Bounded-admit now "overflow" (prune now ws) (Bounded-prune now ws v) (λ _. inl refl))
  | inr room ↦
      rw room (
        Bounded-put_window key _ (prune now ws) (Bounded-prune now ws v) (λ _. inr (not_full room)))
]
  where
    not_full : leb 1024 (length (prune now ws)) ≡ false → length (prune now ws) < 1024
    not_full h = ground arith

Bounded-limit_found :
    (now : ℕ) (key : String) (ws : Windows)
    → Bounded ws
    → Bounded (limit_found now key (window_of key ws) ws).1
unfolding limit_found
Bounded-limit_found now key ws v = split (window_of key ws) refl
  where
    split :
        (found : Option AuditWindow)
        → window_of key ws ≡ found
        → Bounded (limit_found now key found ws).1
    split none e = Bounded-admit_new now key ws v
    split (some w) e = Bounded-admit now key ws v (λ n. cc)

Bounded-failure_event :
    (now : ℕ) (name path peer : String) (ws : Windows)
    → Bounded ws
    → Bounded (failure_event now name path peer ws).1
unfolding failure_event
Bounded-failure_event now name path peer ws v = Bounded-limit_found now _ ws v

-- Whatever responses the server gives, the audit log keeps 1025 windows at most: 1024 of their own
-- key and one for all others.
pub wrap-Bounded :
    (now status : ℕ) (path peer : String) (ws : Windows)
    → Bounded ws
    → Bounded (wrap now status path peer ws) × (length (wrap now status path peer ws) ≤ 1025)
unfolding wrap events_of Bounded
wrap-Bounded now status path peer ws v =
    let b = all_events (response_events status path) ws v in
    (b, within (events_of now path peer (response_events status path) ws) b)
  where
    within : (left : Windows) → Bounded left → length left ≤ 1025
    within left (a, b) = omega (arith, length-counts left, a, b)

    all_events :
        (names : List String) (ws : Windows)
        → Bounded ws
        → Bounded (events_of now path peer names ws)
    all_events [] ws v = v
    all_events (name ∷ names) ws v =
        all_events names _ (Bounded-failure_event now name path peer ws v)
