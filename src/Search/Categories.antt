-- ===== src/Search/Categories.antt =====
-- The sets of the categories against the suggestions that were added.
use headwater.Prelude.{
  ℕ, ◌≡◌, ◌∙◌, refl, ap, Bool, true, false, ◌&&◌, Option, none, some, List, [], ◌∷◌, Text, lower,
  text_eq, text_eq_iff, any, arith, Bool-cases, inl, inr, if◌then◌else◌,
}
use headwater.Dict.{Dict, lookup}
use headwater.Dict.Laws.{lookup-put}
use headwater.Dict.Sweep.{contains}
use headwater.Search.Members.{contains-append}
use headwater.Search.Suggestions.{
  SuggestionIndex, empty_index, add_suggestion, add_to, or_empty, get_suggestions_in_category,
}

pub record Added : Type 0 where
  pub suggestion : Text
  pub category : Option Text
  pub metadata : Dict Text

-- The index after the suggestions, of which the last comes first.
abbrev pub after : List Added → SuggestionIndex
after [] = empty_index
after (a ∷ as') = add_suggestion a.suggestion a.category a.metadata (after as')

-- The suggestion was added under the category, and is this one in lower case.
abbrev pub is_filed : (category x : Text) → Added → Bool
is_filed category x a = elim a.category [
  | none ↦ false
  | some c ↦ text_eq c category && text_eq (lower a.suggestion) x
]

contains-add_to :
    (x y : Text) (ys : List Text)
    → contains x (add_to y ys) ≡ (if text_eq y x then true else contains x ys)
contains-add_to x y ys = elim (Bool-cases (contains y ys)) [
  | inl e ↦ ground (arith, e, text_eq_iff y x)
  | inr e ↦ rw e (contains-append x ys (y ∷ []) ∙ ground arith)
]

nil_apart : (b : ℕ) (name : Text) → text_eq [] (b ∷ name) ≡ false
unfolding text_eq
nil_apart b name = refl

module _ (suggestion : Text) (metadata : Dict Text) (i : SuggestionIndex) (b : ℕ)
    (name x : Text) where
  add_step :
      (category : Option Text)
      → contains x
          (get_suggestions_in_category (b ∷ name) (add_suggestion suggestion category metadata i))
        ≡ (if is_filed
              (b ∷ name)
              x
              (record { suggestion = suggestion; category = category; metadata = metadata })
            then true
            else contains x (get_suggestions_in_category (b ∷ name) i))
  unfolding get_suggestions_in_category add_suggestion
  add_step none = refl
  add_step (some []) = rw (nil_apart b name) refl
  add_step (some (c ∷ category)) =
      let sets = i.categories in
      let added = add_to (lower suggestion) (or_empty (lookup (c ∷ category) sets)) in
      ap (λ o. contains x (or_empty o)) (lookup-put (c ∷ category) (b ∷ name) added sets)
      ∙ elim (Bool-cases (text_eq (c ∷ category) (b ∷ name))) [
        | inl e ↦ rw e (
            contains-add_to x (lower suggestion) (or_empty (lookup (c ∷ category) sets))
            ∙ ap
                (λ k.
                  if text_eq (lower suggestion) x
                  then true
                  else contains x (or_empty (lookup k sets)))
                ((text_eq_iff _ _).0 e))
        | inr e ↦ rw e refl
      ]

-- The set of a category holds exactly the suggestions, in lower case, that were added under it, if
-- its name is not empty.
pub get_suggestions_in_category-after :
    (as' : List Added) (b : ℕ) (name x : Text)
    → contains x (get_suggestions_in_category (b ∷ name) (after as'))
      ≡ any (is_filed (b ∷ name) x) as'
unfolding get_suggestions_in_category lookup
get_suggestions_in_category-after [] b name x = refl
get_suggestions_in_category-after (a ∷ as') b name x =
    add_step a.suggestion a.metadata (after as') b name x a.category
    ∙ ap (λ z. if is_filed (b ∷ name) x a then true else z)
        (get_suggestions_in_category-after as' b name x)
