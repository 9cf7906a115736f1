-- ===== src/Search.antt =====
-- The text of a full-text query (internal/memory/search.go, prepareFTSQuery and splitCamel), on code
-- points. The classes of the package unicode are a parameter.
pub mod Terms
mod Tests
use grasshopper.Versions.{extend}
use grasshopper.Base.{
  if◌then◌else◌, any, all, codes, ◌==◌, nat_eq, string_eq, option_eq, list_eq, ℕ, Bool, true, false,
  not, ◌&&◌, ◌||◌, List, [], ◌∷◌, ◌++◌, map,
}

pub record Letters : Type 0 where
  pub is_letter : ℕ → Bool
  pub is_number : ℕ → Bool
  pub is_upper : ℕ → Bool
  pub is_lower : ℕ → Bool
  pub to_lower : ℕ → ℕ

abbrev pub Word : Type 0
Word = List ℕ

abbrev pub filler_words : List Word
filler_words = map codes (
    "a" ∷ "an" ∷ "and" ∷ "are" ∷ "as" ∷ "at" ∷ "be" ∷ "by" ∷ "can" ∷ "did" ∷ "do" ∷ "does" ∷ "for"
    ∷ "from" ∷ "has" ∷ "have" ∷ "how" ∷ "i" ∷ "in" ∷ "is" ∷ "it" ∷ "its" ∷ "me" ∷ "my" ∷ "of" ∷ "on"
    ∷ "or" ∷ "our" ∷ "so" ∷ "than" ∷ "that" ∷ "the" ∷ "their" ∷ "then" ∷ "there" ∷ "these" ∷ "this"
    ∷ "those" ∷ "to" ∷ "was" ∷ "we" ∷ "were" ∷ "what" ∷ "when" ∷ "where" ∷ "which" ∷ "who" ∷ "why"
    ∷ "will" ∷ "with" ∷ "you" ∷ "your" ∷ [])

abbrev pub has_word : Word → List Word → Bool
has_word word words = any (λ w. w == word) words

unfoldable pub is_filler : Word → Bool
is_filler word = has_word word filler_words

abbrev pub begin_word : ℕ → Bool → List Word → List Word
begin_word c true words = (c ∷ []) ∷ words
begin_word c false words = extend c words

abbrev pub is_empty : Word → Bool
is_empty [] = true
is_empty (c ∷ cs) = false

unfoldable pub is_wanted : Bool → Word → List Word → Bool
is_wanted kept term terms =
    not (is_empty term) && not (has_word term terms) && (kept || not (is_filler term))

module _ (u : Letters) where
  abbrev pub separates : ℕ → Bool
  separates c = not (u.is_letter c) && not (u.is_number c)

  abbrev pub ends_here : List ℕ → Bool
  ends_here [] = true
  ends_here (c ∷ cs) = separates c

  -- strings.FieldsFunc
  unfoldable pub words_of : List ℕ → List Word
  words_of [] = []
  words_of (c ∷ cs) =
      let rest = words_of cs in if separates c then rest else begin_word c (ends_here cs) rest

  -- strings.ToLower
  abbrev pub lowered : Word → Word
  lowered word = map u.to_lower word

  abbrev pub lower_next : List ℕ → Bool
  lower_next [] = false
  lower_next (c ∷ cs) = u.is_lower c

  -- A word begins at `c`: after a lower-case letter, or as the last of several capitals.
  unfoldable pub splits_at : ℕ → ℕ → List ℕ → Bool
  splits_at before c rest =
      u.is_upper c && (u.is_lower before || (u.is_upper before && lower_next rest))

  -- The parts of a word from its second letter on; the first part lacks the letters before.
  unfoldable pub camel_from : ℕ → List ℕ → List Word
  camel_from before [] = [] ∷ []
  camel_from before (c ∷ cs) =
      let rest = extend c (camel_from c cs) in if splits_at before c cs then [] ∷ rest else rest

  abbrev pub unless_whole : List Word → List Word
  unless_whole (a ∷ b ∷ parts) = a ∷ b ∷ parts
  unless_whole _ = []

  unfoldable pub split_camel : Word → List Word
  unfolding camel_from
  split_camel [] = []
  split_camel (c ∷ cs) = unless_whole (extend c (camel_from c cs))

  -- The loop of keepFiller
  unfoldable pub keep_filler : List Word → Bool
  keep_filler words = all (λ w. is_filler (lowered w)) words

  -- add, with the terms in the order in which they are added
  unfoldable pub add_term : Bool → Word → List Word → List Word
  unfolding is_wanted
  add_term kept word terms =
      if is_wanted kept (lowered word) terms then terms ++ (lowered word ∷ []) else terms

  unfoldable pub add_words : Bool → List Word → List Word → List Word
  unfolding add_term
  add_words kept [] terms = terms
  add_words kept (w ∷ ws) terms = add_words kept ws (add_term kept w terms)

  unfoldable pub add_parts : Bool → List Word → List Word → List Word
  unfolding split_camel add_words
  add_parts kept [] terms = terms
  add_parts kept (w ∷ ws) terms = add_parts kept ws (add_words kept (split_camel w) terms)

  unfoldable pub query_terms : List Word → List Word
  unfolding keep_filler add_words add_parts
  query_terms words = add_parts (keep_filler words) words (add_words (keep_filler words) words [])

  abbrev pub quoted : Word → Word
  quoted term = 34 ∷ (term ++ (34 ∷ []))

  -- strings.Join(terms, " OR ")
  abbrev pub join_terms : List Word → Word
  join_terms [] = []
  join_terms (t ∷ []) = quoted t
  join_terms (t ∷ (next ∷ terms)) = quoted t ++ (codes " OR " ++ join_terms (next ∷ terms))

  unfoldable pub prepare_fts_query : List ℕ → Word
  unfolding words_of query_terms
  prepare_fts_query query = join_terms (query_terms (words_of query))
