-- ===== src/Nested.antt =====
-- Nested dictionaries, app/core/collection_utils.py: `merge_dicts`, `deep_get` and `deep_set`. A value
-- is a dictionary, in insertion order, or anything else. A separator is one character, by default
-- a dot. `flatten_dict` and `unflatten_dict` are left out.
pub mod Laws
use headwater.Prelude.{ℕ, Option, none, some, List, [], ◌∷◌, Text, text_eq, split, if◌then◌else◌}

mutual
  pub data Value (V : Type 0) : Type 0 where
    leaf : V → Value V
    dict : Nested V → Value V

  pub data Nested (V : Type 0) : Type 0 where
    empty : Nested V
    entry : (key : Text) → Value V → Nested V → Nested V

-- A dotted path, or the list of its keys
pub data KeyPath : Type 0 where
  dotted : Text → KeyPath
  listed : List Text → KeyPath

abbrev pub keys_of : (separator : ℕ) → KeyPath → List Text
keys_of separator (dotted t) = split separator t
keys_of separator (listed keys) = keys

module _ {V : Type 0} where
  -- `d.get(key)`
  unfoldable pub find : (key : Text) → Nested V → Option (Value V)
  find k empty = none
  find k (entry j v d) = if text_eq j k then some v else find k d

  -- `d[key] = value`
  unfoldable pub store : (key : Text) → Value V → Nested V → Nested V
  store k v empty = entry k v empty
  store k v (entry j w d) = if text_eq j k then entry j v d else entry j w (store k v d)

  -- The loop of `deep_get`, from the current value
  unfoldable pub get_from : Value V → (keys : List Text) → (default : Value V) → Value V
  get_from current [] default = current
  get_from (leaf x) (k ∷ ks) default = default
  get_from (dict d) (k ∷ ks) default = elim (find k d) [
    | none ↦ default
    | some v ↦ get_from v ks default
  ]

  unfoldable pub deep_get : Nested V → KeyPath → (default : Value V) → (separator : ℕ) → Value V
  deep_get d keys default separator = get_from (dict d) (keys_of separator keys) default

  -- The dictionary under a key, which is made if there is none
  abbrev pub inner : Option (Value V) → Nested V
  inner none = empty
  inner (some (leaf x)) = empty
  inner (some (dict d)) = d

  unfoldable pub set_at : (key : Text) (keys : List Text) → Value V → Nested V → Nested V
  set_at k [] v d = store k v d
  set_at k (j ∷ ks) v d = store k (dict (set_at j ks v (inner (find k d)))) d

  -- `none` is the `IndexError` of an empty list.
  abbrev pub set_along : List Text → Value V → Nested V → Option (Nested V)
  set_along [] v d = none
  set_along (k ∷ ks) v d = some (set_at k ks v d)

  unfoldable pub deep_set :
      Nested V → KeyPath → (value : Value V) → (separator : ℕ) → Option (Nested V)
  deep_set d keys value separator = set_along (keys_of separator keys) value d

  unfoldable mutual
    pub merge_dicts : (dict1 dict2 : Nested V) → Nested V
    merge_dicts result empty = result
    merge_dicts result (entry k v rest) =
        merge_dicts (store k (merged (find k result) v) result) rest

    -- The new value of a key, from the one that the result has
    pub merged : Option (Value V) → Value V → Value V
    merged old (leaf x) = leaf x
    merged none (dict b) = dict b
    merged (some (leaf x)) (dict b) = dict b
    merged (some (dict a)) (dict b) = dict (merge_dicts a b)
