-- ===== src/Search/Terms.antt =====
-- The terms of a query: each once, none empty, and filler words only when there is nothing else.
use grasshopper.Search.{
  Word, has_word, Letters, is_filler, lowered, split_camel, keep_filler, is_empty, is_wanted,
  add_term, add_words, add_parts, query_terms,
}
use grasshopper.Base.{
  ◌≡◌, refl, false, List, [], ◌∷◌, ◌++◌, Bool-cases, All, ◌==◌, eq_of_test, test_self, ne_of_test,
  test_ne, nat_eq, string_eq, option_eq, list_eq, sym, ◌∙◌, subst, inl, inr, Bool, true, not, ◌||◌,
  arith, ◌&&◌,
}

-- No two of them are the same.
abbrev pub Distinct : List Word → Type 0
Distinct [] = Unit
Distinct (t ∷ ts) = (has_word t ts ≡ false) × Distinct ts

or-false-left : (a b : Bool) → (a || b) ≡ false → a ≡ false
or-false-left a b h = ground arith

or-false-right : (a b : Bool) → (a || b) ≡ false → b ≡ false
or-false-right a b h = ground arith

has_word-last :
    (w : Word) (ts : List Word) (t : Word) → has_word w (ts ++ (t ∷ [])) ≡ (has_word w ts || t == w)
has_word-last w [] t = ground arith
has_word-last w (x ∷ xs) t = rw (has_word-last w xs t) (or_assoc (x == w) (has_word w xs) (t == w))
  where
    or_assoc : (a b c : Bool) → (a || (b || c)) ≡ ((a || b) || c)
    or_assoc a b c = ground arith

test_flip : (a b : Word) → (a == b) ≡ false → (b == a) ≡ false
test_flip a b h = test_ne b a (λ e. ne_of_test a b h (sym e))

Distinct-last :
    (ts : List Word) (t : Word) → Distinct ts → has_word t ts ≡ false → Distinct (ts ++ (t ∷ []))
Distinct-last [] t d new = (refl, tt)
Distinct-last (x ∷ xs) t (first, d) new = (
  has_word-last x xs t ∙ rw (first, test_flip x t (or-false-left (x == t) _ new)) refl,
  Distinct-last xs t d (or-false-right (x == t) _ new),
)

-- A term that a query may have: filler only if filler is kept.
abbrev pub Allowed : Bool → Word → Type 0
Allowed kept t = (is_empty t ≡ false) × ((kept || not (is_filler t)) ≡ true)

All-last : (P : Word → Type 0) (ts : List Word) (t : Word) → All P ts → P t → All P (ts ++ (t ∷ []))
All-last P [] t all_so p = (p, tt)
All-last P (x ∷ xs) t (q, all_so) p = (q, All-last P xs t all_so p)

-- The terms so far: each once, and all of them allowed.
abbrev pub Good : Bool → List Word → Type 0
Good kept ts = Distinct ts × All (Allowed kept) ts

three_tests : (a b c : Bool) → (not a && not b && c) ≡ true → (a ≡ false) × (b ≡ false) × (c ≡ true)
three_tests true b c h = absurd cc
three_tests false true c h = absurd cc
three_tests false false c h = (refl, refl, h)

is_wanted-lem :
    (kept : Bool) (t : Word) (ts : List Word)
    → is_wanted kept t ts ≡ true
    → (is_empty t ≡ false) × (has_word t ts ≡ false) × ((kept || not (is_filler t)) ≡ true)
unfolding is_wanted
is_wanted-lem kept t ts h = three_tests (is_empty t) (has_word t ts) (kept || not (is_filler t)) h

module _ (u : Letters) where
  Good-add_term :
      (kept : Bool) (w : Word) (ts : List Word) → Good kept ts → Good kept (add_term u kept w ts)
  unfolding add_term
  Good-add_term kept w ts (d, ok_so) = elim (Bool-cases (is_wanted kept (lowered u w) ts)) [
    | inl wanted ↦
        let (full, new, allowed) = is_wanted-lem kept (lowered u w) ts wanted in
        rw wanted (
          Distinct-last ts (lowered u w) d new,
          All-last (Allowed kept) ts (lowered u w) ok_so (full, allowed),
        )
    | inr other ↦ rw other (d, ok_so)
  ]

  Good-add_words :
      (kept : Bool) (ws ts : List Word) → Good kept ts → Good kept (add_words u kept ws ts)
  unfolding add_words
  Good-add_words kept [] ts g = g
  Good-add_words kept (w ∷ ws) ts g = Good-add_words kept ws _ (Good-add_term kept w ts g)

  Good-add_parts :
      (kept : Bool) (ws ts : List Word) → Good kept ts → Good kept (add_parts u kept ws ts)
  unfolding add_parts
  Good-add_parts kept [] ts g = g
  Good-add_parts kept (w ∷ ws) ts g =
      Good-add_parts kept ws _ (Good-add_words kept (split_camel u w) ts g)

  -- What is a term stays one.
  add_term-has_word :
      (kept : Bool) (w : Word) (ts : List Word) (t : Word)
      → has_word t ts ≡ true
      → has_word t (add_term u kept w ts) ≡ true
  unfolding add_term
  add_term-has_word kept w ts t h = elim (Bool-cases (is_wanted kept (lowered u w) ts)) [
    | inl wanted ↦ rw wanted (has_word-last t ts (lowered u w) ∙ rw h refl)
    | inr other ↦ rw other h
  ]

  add_words-has_word :
      (kept : Bool) (ws ts : List Word) (t : Word)
      → has_word t ts ≡ true
      → has_word t (add_words u kept ws ts) ≡ true
  unfolding add_words
  add_words-has_word kept [] ts t h = h
  add_words-has_word kept (w ∷ ws) ts t h =
      add_words-has_word kept ws _ t (add_term-has_word kept w ts t h)

  add_parts-has_word :
      (kept : Bool) (ws ts : List Word) (t : Word)
      → has_word t ts ≡ true
      → has_word t (add_parts u kept ws ts) ≡ true
  unfolding add_parts
  add_parts-has_word kept [] ts t h = h
  add_parts-has_word kept (w ∷ ws) ts t h =
      add_parts-has_word kept ws _ t (add_words-has_word kept (split_camel u w) ts t h)

  -- An allowed word is a term once it is added.
  add_term-adds :
      (kept : Bool) (w : Word) (ts : List Word)
      → Allowed kept (lowered u w)
      → has_word (lowered u w) (add_term u kept w ts) ≡ true
  unfolding add_term is_wanted
  add_term-adds kept w ts (full, allowed) = elim (Bool-cases (has_word (lowered u w) ts)) [
    | inl there ↦ rw (full, there) there
    | inr new ↦
        rw (full, new, allowed)
          (has_word-last (lowered u w) ts (lowered u w)
            ∙ rw (test_self (lowered u w)) (ground arith))
  ]

  add_words-adds :
      (kept : Bool) (ws ts : List Word) (w : Word)
      → has_word w ws ≡ true
      → Allowed kept (lowered u w)
      → has_word (lowered u w) (add_words u kept ws ts) ≡ true
  unfolding add_words
  add_words-adds kept [] ts w h allowed = absurd cc
  add_words-adds kept (x ∷ xs) ts w h allowed = elim (Bool-cases (x == w)) [
    | inl is_it ↦ add_words-has_word kept xs _ (lowered u w) (
        subst (λ y. has_word (lowered u w) (add_term u kept y ts) ≡ true)
          (sym (eq_of_test x w is_it)) (add_term-adds kept w ts allowed))
    | inr other ↦ add_words-adds kept xs _ w (rw other at h) allowed
  ]

  -- The terms of a query are different from each other and not empty; filler words are among them
  -- only when every word is one; and every word that may be a term is, in lower case.
  pub query_terms-Good :
      (words : List Word)
      → Good (keep_filler u words) (query_terms u words)
        × ((w : Word)
            → has_word w words ≡ true
            → Allowed (keep_filler u words) (lowered u w)
            → has_word (lowered u w) (query_terms u words) ≡ true)
  unfolding query_terms
  query_terms-Good words = (
    Good-add_parts _ words _ (Good-add_words _ words [] (tt, tt)),
    λ w h allowed.
        add_parts-has_word _ words _ (lowered u w) (add_words-adds _ words [] w h allowed),
  )
