-- ===== src/Search/Suggestions.antt =====
-- `SuggestionIndex`: a trie with categories. A category is a dictionary's key, and its set is a
-- list without repetitions. Metadata is passed by value; its values are texts.
use headwater.Prelude.{
  ℕ, ◌*◌, Bool, false, Option, none, some, List, [], ◌∷◌, ◌++◌, Text, codes, lower, text_eq, take,
  keep, if◌then◌else◌,
}
use headwater.Dict
use headwater.Dict.{Dict, lookup}
use headwater.Dict.Sweep.{contains}
use headwater.Search.{
  Trie, empty_trie, insert, find_all_with_prefix, find_all_with_prefix_and_metadata,
}
use headwater.Search.Walk.{find_containing}

pub record SuggestionIndex : Type 0 where
  pub trie : Trie Text
  pub categories : Dict (List Text)

abbrev pub empty_index : SuggestionIndex
empty_index = record { trie = empty_trie; categories = [] }

-- `set.add`
abbrev pub add_to : Text → List Text → List Text
add_to x xs = if contains x xs then xs else xs ++ x ∷ []

abbrev pub or_empty : Option (List Text) → List Text
or_empty none = []
or_empty (some xs) = xs

unfoldable pub add_suggestion :
    (suggestion : Text) (category : Option Text) (metadata : Dict Text)
    → SuggestionIndex
    → SuggestionIndex
add_suggestion suggestion none metadata i = record i { trie = insert suggestion metadata i.trie }
add_suggestion suggestion (some []) metadata i = record i {
  trie = insert suggestion metadata i.trie;
}
add_suggestion suggestion (some (c ∷ category)) metadata i =
    let added = add_to (lower suggestion) (or_empty (lookup (c ∷ category) i.categories)) in
    record {
      trie = insert suggestion (Dict.put (codes "category") (c ∷ category) metadata) i.trie;
      categories = Dict.put (c ∷ category) added i.categories;
    }

unfoldable pub add_suggestions_batch :
    (suggestions : List Text) (category : Option Text) → SuggestionIndex → SuggestionIndex
add_suggestions_batch [] category i = i
add_suggestions_batch (s ∷ ss) category i =
    add_suggestions_batch ss category (add_suggestion s category [] i)

unfoldable pub search_prefix : (prefix : Text) (limit : ℕ) → SuggestionIndex → List Text
search_prefix prefix limit i = find_all_with_prefix prefix limit i.trie

unfoldable pub search_containing : (substring : Text) (limit : ℕ) → SuggestionIndex → List Text
search_containing substring limit i = find_containing substring limit i.trie

-- `r.get("metadata", {}).get("category") == category`
abbrev pub is_in_category : (category : Text) → Text × Dict Text → Bool
is_in_category category (w, m) = elim (lookup (codes "category") m) [
  | none ↦ false
  | some c ↦ text_eq c category
]

abbrev pub words_of : List (Text × Dict Text) → List Text
words_of [] = []
words_of ((w, m) ∷ rs) = w ∷ words_of rs

unfoldable pub search_in_category :
    (prefix category : Text) (limit : ℕ) → SuggestionIndex → List Text
search_in_category prefix category limit i =
    let results = find_all_with_prefix_and_metadata prefix (limit * 2) i.trie in
    elim (lookup category i.categories) [
      | none ↦ []
      | some suggestions ↦ take limit (words_of (keep (is_in_category category) results))
    ]

unfoldable pub get_suggestions_in_category : (category : Text) → SuggestionIndex → List Text
get_suggestions_in_category category i = or_empty (lookup category i.categories)

unfoldable pub search_prefix_with_metadata :
    (prefix : Text) (limit : ℕ) → SuggestionIndex → List (Text × Dict Text)
search_prefix_with_metadata prefix limit i = find_all_with_prefix_and_metadata prefix limit i.trie

abbrev keys : Dict (List Text) → List Text
keys [] = []
keys ((k, v) ∷ d) = k ∷ keys d

unfoldable pub get_categories : SuggestionIndex → List Text
get_categories i = keys i.categories

unfoldable pub clear : SuggestionIndex → SuggestionIndex
clear i = record { trie = empty_trie; categories = [] }

-- `__len__`
unfoldable pub len : SuggestionIndex → ℕ
len i = i.trie.size

-- The module's `_suggestion_index`, and the index that is returned
unfoldable pub get_suggestion_index :
    Option SuggestionIndex → SuggestionIndex × Option SuggestionIndex
get_suggestion_index none = (empty_index, some empty_index)
get_suggestion_index (some i) = (i, some i)

abbrev pub reset_suggestion_index : Option SuggestionIndex → Option SuggestionIndex
reset_suggestion_index i = none
