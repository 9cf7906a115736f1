-- ===== src/Reader/Visible.antt =====
-- What a client and the owner can read.
use grasshopper.Store.Requests.{get_in_tx}
use grasshopper.Base.{
  ℕ, true, false, not, ◌&&◌, ◌||◌, Bool, ◌≡◌, refl, sym, ◌∙◌, Option, none, some, List, String,
  ◌==◌, nat_eq, string_eq, option_eq, if◌then◌else◌, any, is_some, arith, inl, inr, Bool-cases,
  Option-cases, keep, eq_of_test, test_self, list_eq, subst, [], ◌∷◌, ap, all, ◌↔◌, ◌⊎◌,
}
use grasshopper.Outcome.{ok, bind_ok, Result, invalid_visualizer_scope, err}
use grasshopper.Scope.{Scope, ScopeKey, legacy_key, key, document, applicable_keys, scope_key_eq}
use grasshopper.Scope.Applies.{Applies, applicable_keys-iff-Applies}
use grasshopper.Store.{Db, Chunk, Record, scope_of}
use grasshopper.Reader.{
  project_listed, stored_among, get_stored, get_keys, get, BrowseScope, differ, browse_visible,
  unset_or_same, is_listed, owner_found, owner_record, browse_with, browse_get, browse_scope_keys,
}

stored_among-found :
    (keys : List ScopeKey) (i : ℕ) (revision : Option ℕ) (db : Db) (r : Record)
    → get_stored (stored_among keys i db) i revision db ≡ ok (some r)
    → (c : Chunk) × (db.chunks i ≡ some c) × (any (λ k. k == c.memory_scope) keys ≡ true)
stored_among-found keys i revision db r h = elim (Option-cases (db.chunks i)) [
  | inl gone ↦ cc (rw (get_stored, gone) at h)
  | inr (c, at) ↦ elim (Bool-cases (any (λ k. k == c.memory_scope) keys)) [
    | inl among ↦ (c, at, among)
    | inr other ↦ cc (rw (get_stored, at, other) at h)
  ]
]

if_false {ℓ} : {A : Type ℓ} (b : Bool) (x y : A) → b ≡ false → (if b then x else y) ≡ y
if_false true x y e = cc
if_false false x y e = refl

-- A client with a scope that is not legacy reads a record only if the scope that the memory is stored
-- under applies to its own.
pub get-Applies :
    (scope : Scope) (i : ℕ) (revision : Option ℕ) (db : Db) (r : Record)
    → scope.legacy ≡ false
    → get scope i revision db ≡ ok (some r)
    → (c : Chunk) × (db.chunks i ≡ some c) × Applies scope c.memory_scope
unfolding get get_keys
get-Applies scope i revision db r live h =
    let (keys, e, h1) =
      bind_ok (applicable_keys scope) (λ keys. get_keys keys i revision db)
        (sym (if_false scope.legacy _ _ live) ∙ h) in
    let (c, at, among) = stored_among-found keys i revision db r h1 in
    (c, at, (applicable_keys-iff-Applies scope keys c.memory_scope e).0 among)

same_test : (a b : Option String) → not (differ b a) ≡ unset_or_same a b
same_test none none = refl
same_test none (some b) = refl
same_test (some a) none = refl
same_test (some a) (some b) = not_not (b == a)
  where
    not_not : (x : Bool) → not (not x) ≡ x
    not_not x = ground arith

project_test :
    (b : BrowseScope) (e : Option String)
    → not (
        is_some e
        && (not b.all_projects && (not (is_some b.scope.project) || differ b.scope.project e)))
      ≡ project_listed b e
project_test b none = refl
project_test b (some p) = split b.scope.project
  where
    split :
        (q : Option String)
        → not (true && (not b.all_projects && (not (is_some q) || differ q (some p))))
          ≡ (b.all_projects || q == some p)
    split none = ground arith
    split (some q) = ground arith

browse_visible-is_listed :
    (b : BrowseScope) (exact : Scope)
    → exact.legacy ≡ false
    → browse_visible b exact ≡ is_listed b (document exact)
browse_visible-is_listed b exact live = rw live (
    both (project_test b exact.project)
      (both (same_test exact.device b.scope.device) (same_test exact.platform b.scope.platform)))
  where
    both : {x y z w : Bool} → x ≡ y → z ≡ w → (x && z) ≡ (y && w)
    both p q = cc

-- A stored scope is among the listed ones if it is there and passes the filter.
listed-any :
    (b : BrowseScope) (k : ScopeKey) (stored : List ScopeKey)
    → any (λ x. x == k) (browse_scope_keys b stored) ≡ (any (λ x. x == k) stored && is_listed b k)
unfolding browse_scope_keys
listed-any b k [] = refl
listed-any b k (x ∷ rest) = elim (Bool-cases (x == k)) [
  | inl same ↦
      subst
        (λ y.
          any (λ z. z == k) (keep (is_listed b) (y ∷ rest))
          ≡ (any (λ z. z == k) (y ∷ rest) && is_listed b k))
        (sym (eq_of_test x k same)) (ground (arith, test_self k, listed-any b k rest))
  | inr other ↦ ground (arith, listed-any b k rest)
]

-- What BrowseGet opens, by the stored scope of the row.
owner_found-listed :
    (b : BrowseScope) (i : ℕ) (revision : Option ℕ) (db : Db) (k : ScopeKey)
    → owner_found (browse_visible b) i revision db k
      ≡ (if is_listed b k then get_in_tx (scope_of k) i revision db else ok none)
owner_found-listed b i revision db legacy_key = refl
owner_found-listed b i revision db (document exact) =
    agree exact.legacy (browse_visible b exact) (is_listed b (document exact)) _
      (λ legacy. rw legacy refl) (browse_visible-is_listed b exact)
  where
    agree :
        (legacy shown listed : Bool) (read : Result (Option Record))
        → (legacy ≡ true → listed ≡ false)
        → (legacy ≡ false → shown ≡ listed)
        → (if legacy || not shown then ok none else read) ≡ (if listed then read else ok none)
    agree true shown listed read hidden same =
        sym (ap (λ x. if x then read else ok none) (hidden refl))
    agree false true listed read hidden same = ap (λ x. if x then read else ok none) (same refl)
    agree false false listed read hidden same = ap (λ x. if x then read else ok none) (same refl)

browse_get-opens :
    (b : BrowseScope) (owner : ScopeKey) (i : ℕ) (revision : Option ℕ) (db : Db) (c : Chunk)
    → key b.scope ≡ ok owner
    → b.scope.legacy ≡ false
    → db.chunks i ≡ some c
    → browse_get b i revision db ≡ owner_found (browse_visible b) i revision db c.memory_scope
unfolding browse_get browse_with owner_record
browse_get-opens b owner i revision db c valid live at =
    ap (browse_with b i revision db) valid
    ∙ if_false b.scope.legacy (err invalid_visualizer_scope)
        (owner_record (browse_visible b) i revision db) live
    ∙ ap
        (λ (o : Option Chunk). elim o [
          | none ↦ ok none
          | some x ↦ owner_found (browse_visible b) i revision db x.memory_scope
        ])
        at

-- A device or a platform of a stored scope is shown where it is unset, where the owner chose none, or
-- where it is the one chosen.
abbrev pub DimensionShown : Option String → Option String → Type 0
DimensionShown stored chosen = (stored ≡ none) ⊎ ((chosen ≡ none) ⊎ (stored ≡ chosen))

-- The stored scopes that an owner who chose a scope is shown. A project must be the one chosen, unless
-- all projects are.
abbrev pub Shown : BrowseScope → ScopeKey → Type 0
Shown b legacy_key = ⊥
Shown b (document t) =
    (t.legacy ≡ false)
    × ((t.project ≡ none) ⊎ ((b.all_projects ≡ true) ⊎ (t.project ≡ b.scope.project)))
    × DimensionShown t.device b.scope.device
    × DimensionShown t.platform b.scope.platform

unset_or_same_iff :
    (stored chosen : Option String)
    → (unset_or_same stored chosen ≡ true) ↔ DimensionShown stored chosen
unset_or_same_iff none chosen = (λ _. inl refl, λ _. refl)
unset_or_same_iff (some a) none = (λ _. inr (inl refl), λ _. refl)
unset_or_same_iff (some a) (some c) = (
  λ h. inr (inr (ap some (sym (eq_of_test c a h)))),
  λ h. elim h [
    | inl gone ↦ absurd cc
    | inr (inl gone) ↦ absurd cc
    | inr (inr same) ↦ subst (λ o. unset_or_same (some a) o ≡ true) same (test_self a)
  ],
)

project_listed_iff :
    (b : BrowseScope) (stored : Option String)
    → (project_listed b stored ≡ true)
      ↔ ((stored ≡ none) ⊎ ((b.all_projects ≡ true) ⊎ (stored ≡ b.scope.project)))
project_listed_iff b none = (λ _. inl refl, λ _. refl)
project_listed_iff b (some p) = (
  λ h. elim (Bool-cases b.all_projects) [
    | inl all ↦ inr (inl all)
    | inr one ↦
        inr (inr (sym (eq_of_test b.scope.project (some p) (right_of b.all_projects _ one h))))
  ],
  λ h. elim h [
    | inl gone ↦ absurd cc
    | inr (inl all) ↦ or_left b.all_projects _ all
    | inr (inr same) ↦
        or_right b.all_projects _
          (subst (λ o. (o == some p) ≡ true) same (test_self {A = Option String} (some p)))
  ],
)
  where
    right_of : (x y : Bool) → x ≡ false → (x || y) ≡ true → y ≡ true
    right_of x y e h = ground arith

    or_left : (x y : Bool) → x ≡ true → (x || y) ≡ true
    or_left x y e = ground arith

    or_right : (x y : Bool) → y ≡ true → (x || y) ≡ true
    or_right x y e = ground arith

is_listed-iff-Shown : (b : BrowseScope) (k : ScopeKey) → (is_listed b k ≡ true) ↔ Shown b k
is_listed-iff-Shown b legacy_key = (λ h. cc, λ h. absurd h)
is_listed-iff-Shown b (document t) = (
  λ h.
      let (live, project, device, platform) = parts t.legacy _ _ _ h in
      (
        live,
        (project_listed_iff b t.project).0 project,
        (unset_or_same_iff t.device b.scope.device).0 device,
        (unset_or_same_iff t.platform b.scope.platform).0 platform,
      ),
  λ (live, project, device, platform).
      whole t.legacy _ _ _ live ((project_listed_iff b t.project).1 project)
        ((unset_or_same_iff t.device b.scope.device).1 device)
        ((unset_or_same_iff t.platform b.scope.platform).1 platform),
)
  where
    parts :
        (l p d f : Bool)
        → (not l && (p && (d && f))) ≡ true
        → (l ≡ false) × (p ≡ true) × (d ≡ true) × (f ≡ true)
    parts l p d f h = (ground arith, ground arith, ground arith, ground arith)

    whole :
        (l p d f : Bool)
        → l ≡ false
        → p ≡ true
        → d ≡ true
        → f ≡ true
        → (not l && (p && (d && f))) ≡ true
    whole l p d f hl hp hd hf = ground arith

-- For an owner's scope that is valid and not legacy, browseScopeKeys keeps a memory's scope, where that
-- is among the stored ones, exactly if the owner's choice shows it, and BrowseGet reads the memory in its
-- scope exactly then, and finds nothing otherwise. The list's further filters, by view and by purpose,
-- are not part of this.
pub browse_get-browse_scope_keys :
    (b : BrowseScope) (owner : ScopeKey) (i : ℕ) (revision : Option ℕ) (db : Db) (c : Chunk)
    (stored : List ScopeKey)
    → key b.scope ≡ ok owner
    → b.scope.legacy ≡ false
    → db.chunks i ≡ some c
    → any (λ x. x == c.memory_scope) stored ≡ true
    → ((any (λ x. x == c.memory_scope) (browse_scope_keys b stored) ≡ true)
        ↔ Shown b c.memory_scope)
      × (browse_get b i revision db ≡ (
          if any (λ x. x == c.memory_scope) (browse_scope_keys b stored)
          then get_in_tx (scope_of c.memory_scope) i revision db
          else ok none))
browse_get-browse_scope_keys b owner i revision db c stored valid live at among =
    let kept : any (λ x. x == c.memory_scope) (browse_scope_keys b stored)
        ≡ is_listed b c.memory_scope =
      listed-any b c.memory_scope stored ∙ ap (λ x. x && is_listed b c.memory_scope) among in
    let (shown, listed) = is_listed-iff-Shown b c.memory_scope in
    (
      (λ h. shown (sym kept ∙ h), λ h. kept ∙ listed h),
      browse_get-opens b owner i revision db c valid live at
          ∙ owner_found-listed b i revision db c.memory_scope
          ∙ ap (λ x. if x then get_in_tx (scope_of c.memory_scope) i revision db else ok none)
              (sym kept),
    )
