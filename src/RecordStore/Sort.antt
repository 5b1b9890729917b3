-- ===== src/RecordStore/Sort.antt =====
-- `list.sort(key=…, reverse=…)`, which keeps the order of equal items either way, as an insertion
-- sort.
use headwater.Prelude.{inr, inl, Bool-cases, All, ℕ, Bool, List, [], ◌∷◌, ltb, if◌then◌else◌}

module _ {ℓ} {A : Type ℓ} (key : A → ℕ) (descending : Bool) where
  -- Whether `y` goes strictly before `x`.
  abbrev pub precedes : A → A → Bool
  precedes y x = if descending then ltb (key x) (key y) else ltb (key y) (key x)

  unfoldable pub insert : A → List A → List A
  insert x [] = x ∷ []
  insert x (y ∷ ys) = if precedes y x then y ∷ insert x ys else x ∷ y ∷ ys

  unfoldable pub sort : List A → List A
  sort [] = []
  sort (x ∷ xs) = insert x (sort xs)

  pub insert-All {κ} : (P : A → Type κ) (x : A) (xs : List A) → P x → All P xs → All P (insert x xs)
  unfolding insert
  insert-All P x [] p h = (p, tt)
  insert-All P x (y ∷ ys) p h = elim (Bool-cases (precedes y x)) [
    | inl e ↦ rw e (h.0, insert-All P x ys p h.1)
    | inr e ↦ rw e (p, (h.0, h.1))
  ]

  pub sort-All {κ} : (P : A → Type κ) (xs : List A) → All P xs → All P (sort xs)
  unfolding sort
  sort-All P [] h = tt
  sort-All P (x ∷ xs) h = insert-All P x (sort xs) h.0 (sort-All P xs h.1)
