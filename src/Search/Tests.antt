-- ===== src/Search/Tests.antt =====
-- Queries of ASCII letters.
use grasshopper.Search.Terms.{Allowed, Good, query_terms-Good}
use grasshopper.Search.{
  Word, has_word, is_filler, lowered, splits_at, split_camel, keep_filler, query_terms,
  prepare_fts_query, Letters,
}
use grasshopper.Base.{
  leb, if◌then◌else◌, codes, ℕ, ◌+◌, ◌≡◌, refl, Bool, true, ◌&&◌, ◌||◌, List, [], ◌∷◌, map,
}

abbrev in_range : ℕ → ℕ → ℕ → Bool
in_range low high c = leb low c && leb c high

abbrev ascii : Letters
ascii = record {
  is_letter = λ c. in_range 65 90 c || in_range 97 122 c;
  is_number = in_range 48 57;
  is_upper = in_range 65 90;
  is_lower = in_range 97 122;
  to_lower = λ c. if in_range 65 90 c then c + 32 else c;
}

camel : split_camel ascii (codes "HTTPServerName") ≡ map codes ("HTTP" ∷ "Server" ∷ "Name" ∷ [])
unfolding split_camel splits_at
camel = refl

query :
    prepare_fts_query ascii (codes "where is the deployScript?")
    ≡ codes "\"deployscript\" OR \"deploy\" OR \"script\""
unfolding prepare_fts_query is_filler splits_at
query = refl

all_filler : prepare_fts_query ascii (codes "who are you") ≡ codes "\"who\" OR \"are\" OR \"you\""
unfolding prepare_fts_query is_filler splits_at
all_filler = refl

abbrev asked : List Word
asked = map codes ("where" ∷ "deployScript" ∷ [])

query_terms-Good_example :
    Good (keep_filler ascii asked) (query_terms ascii asked)
    × ((w : Word)
        → has_word w asked ≡ true
        → Allowed (keep_filler ascii asked) (lowered ascii w)
        → has_word (lowered ascii w) (query_terms ascii asked) ≡ true)
query_terms-Good_example = query_terms-Good ascii asked
