-- ===== src/Tests/Tries.antt =====
-- The search structures of app/core/search.py at concrete words.
use headwater.Prelude.{
  text_eq, is_some, is_empty, any, keep, take, lower, ◌↔◌, if◌then◌else◌, take, Text, codes, ℕ,
  List, [], ◌∷◌, some, ◌≡◌, refl, true,
}
use headwater.Search.{search, starts_with, find_all_with_prefix}
use headwater.Dict.{Dict}
use headwater.Dict.Sweep.{contains}
use headwater.Prelude
use headwater.Search.Walk.{count_nodes, walk, find_containing, is_in}
use headwater.Search.Inserted.{inserted, latest, distinct, begins, inserted_answers}
use headwater.Search.Prefixes.{find_all_with_prefix-inserted}
use headwater.Search.Walk.{walk, get_all_words-inserted}
use headwater.Search.Suggestions.{
  SuggestionIndex, add_suggestions_batch, empty_index, search_in_category,
  get_suggestions_in_category,
}
use headwater.Search.Categories.{Added}

abbrev cities : List (Text × Dict Text)
cities = (codes "Paris", []) ∷ (codes "Pau", []) ∷ (codes "paris", []) ∷ []

abbrev added : List Added
added =
    record { suggestion = codes "Paris"; category = some (codes "fr"); metadata = [] }
    ∷ record { suggestion = codes "Bonn"; category = some (codes "de"); metadata = [] }
    ∷ []

abbrev pa : Text
pa = codes "PA"

inserted_answers_example :
    ((inserted cities).size ≡ distinct cities)
    × (search pa (inserted cities) ≡ is_some (latest (lower pa) cities))
    × (starts_with pa (inserted cities)
        ≡ (if is_empty (lower pa) then true else any (begins (lower pa)) cities))
inserted_answers_example = inserted_answers cities pa

find_all_with_prefix-inserted_example :
    (all : List Text) × ((limit : ℕ)
      → find_all_with_prefix pa limit (inserted cities) ≡ take limit all)
    × ((x : Text)
        → (contains x all ≡ true) ↔ (
            (latest (lower x) cities ≡ some x) × (Prelude.starts_with (lower x) (lower pa) ≡ true)))
find_all_with_prefix-inserted_example = find_all_with_prefix-inserted cities pa

get_all_words-inserted_example :
    (all : List Text) × (walk (count_nodes (inserted cities).root) ((inserted cities).root ∷ [])
      ≡ some all)
    × ((x : Text) → (contains x all ≡ true) ↔ (latest (lower x) cities ≡ some x))
    × (find_containing pa 0 (inserted cities) ≡ take 1 (keep (λ w. is_in (lower pa) (lower w)) all))
get_all_words-inserted_example = get_all_words-inserted cities pa 0

-- The first two matches are of another category, so the third is not seen.
abbrev letters : SuggestionIndex
letters =
    add_suggestions_batch (codes "ac" ∷ []) (some (codes "y"))
      (add_suggestions_batch (codes "aa" ∷ codes "ab" ∷ []) (some (codes "x")) empty_index)

search_in_category-letters :
    (search_in_category (codes "a") (codes "y") 1 letters ≡ [])
    × (get_suggestions_in_category (codes "y") letters ≡ codes "ac" ∷ [])
unfolding search_in_category headwater.Dict.lookup add_suggestions_batch
    headwater.Search.Suggestions.add_suggestion headwater.Dict.put headwater.Prelude.text_eq
    headwater.Search.find_all_with_prefix_and_metadata headwater.Search.find_with_prefix
    headwater.Search.find_node headwater.Prelude.lower headwater.Search.insert
    headwater.Search.insert_node headwater.Search.find_child headwater.Search.update_child
    headwater.Search.collect get_suggestions_in_category
search_in_category-letters = (refl, refl)
