-- ===== src/Nested/Laws.antt =====
-- What is read from a nested dictionary after a write and after a merge.
use headwater.Prelude.{
  ℕ, ◌≡◌, ◌≢◌, ◌⊎◌, ◌↔◌, ◌∙◌, refl, sym, ap, false, Option, none, some, List, [], ◌∷◌, Text,
  text_eq, text_eq_refl, text_eq_iff, arith, Bool-cases, inl, inr, if◌then◌else◌,
}
use headwater.Nested.{
  Value, Nested, leaf, dict, empty, entry, KeyPath, keys_of, find, store, get_from, deep_get, inner,
  set_at, deep_set, set_along, merge_dicts, merged,
}

-- The paths part at some key, before either ends.
abbrev pub Part : List Text → List Text → Type 0
Part [] q = ⊥
Part (k ∷ p) [] = ⊥
Part (k ∷ p) (j ∷ q) = (k ≢ j) ⊎ ((k ≡ j) × Part p q)

apart_eq : (k j : Text) → k ≢ j → text_eq k j ≡ false
apart_eq k j apart = elim (Bool-cases (text_eq k j)) [
  | inl e ↦ absurd (apart ((text_eq_iff k j).0 e))
  | inr e ↦ e
]

module _ {V : Type 0} where
  find-store :
      (k j : Text) (v : Value V) (d : Nested V)
      → find j (store k v d) ≡ (if text_eq k j then some v else find j d)
  unfolding find store
  find-store k j v empty = refl
  find-store k j v (entry i w d) =
      ground (arith, find-store k j v d, text_eq_iff i k, text_eq_iff i j, text_eq_iff k j)

  -- What follows a key on the way down
  abbrev from_found : Option (Value V) → (keys : List Text) → (default : Value V) → Value V
  from_found none ks default = default
  from_found (some v) ks default = get_from v ks default

  get_step :
      (d : Nested V) (k : Text) (ks : List Text) (default : Value V)
      → get_from (dict d) (k ∷ ks) default ≡ from_found (find k d) ks default
  unfolding get_from
  get_step d k ks default = ground arith

  get-inner :
      (o : Option (Value V)) (k : Text) (ks : List Text) (default : Value V)
      → get_from (dict (inner o)) (k ∷ ks) default ≡ from_found o (k ∷ ks) default
  unfolding get_from find
  get-inner none k ks default = refl
  get-inner (some (leaf x)) k ks default = refl
  get-inner (some (dict d)) k ks default = refl

  found_after :
      (k j : Text) (w : Value V) (d : Nested V) (ks : List Text) (default : Value V)
      → get_from (dict (store k w d)) (j ∷ ks) default
        ≡ from_found (if text_eq k j then some w else find j d) ks default
  found_after k j w d ks default =
      get_step (store k w d) j ks default ∙ ap (λ o. from_found o ks default) (find-store k j w d)

  get-set_at :
      (k : Text) (ks : List Text) (v : Value V) (d : Nested V) (default : Value V)
      → get_from (dict (set_at k ks v d)) (k ∷ ks) default ≡ v
  unfolding set_at get_from
  get-set_at k [] v d default = found_after k k v d [] default ∙ rw (text_eq_refl k) refl
  get-set_at k (j ∷ ks) v d default =
      found_after k k (dict (set_at j ks v (inner (find k d)))) d (j ∷ ks) default
      ∙ rw (text_eq_refl k) (get-set_at j ks v (inner (find k d)) default)

  get-set_at_other :
      (k : Text) (ks q : List Text) (v : Value V) (d : Nested V) (default : Value V)
      → Part (k ∷ ks) q
      → get_from (dict (set_at k ks v d)) q default ≡ get_from (dict d) q default
  unfolding set_at
  get-set_at_other k ks [] v d default h = absurd h
  get-set_at_other k [] (j ∷ q) v d default (inr (e, h)) = absurd h
  get-set_at_other k [] (j ∷ q) v d default (inl apart) =
      found_after k j v d q default ∙ rw (apart_eq k j apart) (sym (get_step d j q default))
  get-set_at_other k (i ∷ ks) (j ∷ q) v d default (inl apart) =
      found_after k j (dict (set_at i ks v (inner (find k d)))) d q default
      ∙ rw (apart_eq k j apart) (sym (get_step d j q default))
  get-set_at_other k (i ∷ ks) (j ∷ []) v d default (inr (e, h)) = absurd h
  get-set_at_other k (i ∷ ks) (j ∷ j' ∷ q) v d default (inr (e, h)) =
      found_after k j (dict (set_at i ks v (inner (find k d)))) d (j' ∷ q) default
      ∙ rw ((text_eq_iff k j).1 e) (
          get-set_at_other i ks (j' ∷ q) v (inner (find k d)) default h
          ∙ get-inner (find k d) j' q default
          ∙ ap (λ z. from_found (find z d) (j' ∷ q) default) e
          ∙ sym (get_step d j (j' ∷ q) default))

  -- A write along a path, dotted or listed, succeeds exactly if the path has a key; then a read
  -- along it gives the value, and a read along a path that parts from it is as before.
  pub deep_get-deep_set :
      (d : Nested V) (path other : KeyPath) (v default : Value V) (separator : ℕ)
      → ((deep_set d path v separator ≡ none) ↔ (keys_of separator path ≡ []))
        × ((d' : Nested V)
            → deep_set d path v separator ≡ some d'
            → (deep_get d' path default separator ≡ v)
              × (Part (keys_of separator path) (keys_of separator other)
                  → deep_get d' other default separator ≡ deep_get d other default separator))
  unfolding deep_get deep_set
  deep_get-deep_set d path other v default separator =
      along (keys_of separator path) (keys_of separator other)
    where
      along :
          (p q : List Text)
          → ((set_along p v d ≡ none) ↔ (p ≡ []))
            × ((d' : Nested V)
                → set_along p v d ≡ some d'
                → (get_from (dict d') p default ≡ v)
                  × (Part p q → get_from (dict d') q default ≡ get_from (dict d) q default))
      along [] q = ((λ h. refl, λ h. refl), λ d' e. absurd (cc (e)))
      along (k ∷ ks) q = (
        (λ h. absurd (cc (h)), λ h. absurd (cc (h))),
        λ d' e.
            let same : set_at k ks v d ≡ d' = cc (e) in
            (
              ap (λ z. get_from (dict z) (k ∷ ks) default) (sym same) ∙ get-set_at k ks v d default,
              λ h.
                  ap (λ z. get_from (dict z) q default) (sym same)
                  ∙ get-set_at_other k ks q v d default h,
            ),
      )

  -- The keys of a dictionary are distinct.
  abbrev pub IsDistinct : Nested V → Type 0
  IsDistinct empty = Unit
  IsDistinct (entry k v d) = (find k d ≡ none) × IsDistinct d

  -- What the merge has under a key, from what the two dictionaries have
  abbrev pub both : Option (Value V) → Option (Value V) → Option (Value V)
  both x none = x
  both x (some v) = some (merged x v)

  -- Under each key the merge of two dictionaries has what only one of them has, the merge of what
  -- both have if these are dictionaries, and otherwise what the second one has, if its keys are
  -- distinct.
  pub find-merge_dicts :
      (j : Text) (a b : Nested V)
      → IsDistinct b
      → find j (merge_dicts a b) ≡ both (find j a) (find j b)
  unfolding merge_dicts find
  find-merge_dicts j a empty h = refl
  find-merge_dicts j a (entry k v b) (new, h) =
      find-merge_dicts j (store k (merged (find k a) v) a) b h
      ∙ ap (λ o. both o (find j b)) (find-store k j (merged (find k a) v) a)
      ∙ elim (Bool-cases (text_eq k j)) [
        | inl e ↦
            let same = (text_eq_iff k j).0 e in
            rw (e, ap (λ z. find z b) (sym same) ∙ new) (ap (λ z. some (merged (find z a) v)) same)
        | inr e ↦ rw e refl
      ]
