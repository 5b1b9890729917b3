-- ===== src/Dict.antt =====
-- Python's `dict` with text keys: an association list in insertion order, which writing to a key
-- that is there leaves as it is.
pub mod Laws
pub mod Sweep
pub mod Entries
use headwater.Prelude.{◌≡◌, Bool, Option, none, some, List, [], ◌∷◌, Text, text_eq, if◌then◌else◌}

abbrev pub Dict {ℓ} : Type ℓ → Type ℓ
Dict V = List (Text × V)

module _ {ℓ} {V : Type ℓ} where
  -- `d.get(k)`
  unfoldable pub lookup : Text → Dict V → Option V
  lookup k [] = none
  lookup k ((j, v) ∷ d) = if text_eq j k then some v else lookup k d

  -- `d[k] = v`
  unfoldable pub put : Text → V → Dict V → Dict V
  put k v [] = (k, v) ∷ []
  put k v ((j, w) ∷ d) = if text_eq j k then (j, v) ∷ d else (j, w) ∷ put k v d

  -- `d.pop(k, None)`, and `del d[k]` where the key is there
  unfoldable pub remove : Text → Dict V → Dict V
  remove k [] = []
  remove k ((j, w) ∷ d) = if text_eq j k then d else (j, w) ∷ remove k d

  -- `[k for k, v in d.items() if p(k, v)]`
  unfoldable pub keys_where : (Text → V → Bool) → Dict V → List Text
  keys_where p [] = []
  keys_where p ((j, w) ∷ d) = if p j w then j ∷ keys_where p d else keys_where p d

  -- `for k in ks: d.pop(k, None)`
  unfoldable pub remove_all : List Text → Dict V → Dict V
  remove_all [] d = d
  remove_all (k ∷ ks) d = remove_all ks (remove k d)

  -- The keys are distinct, as those of a `dict` are.
  abbrev pub IsDict : Dict V → Type ℓ
  IsDict [] = Unit
  IsDict ((k, v) ∷ d) = (lookup k d ≡ none) × IsDict d
