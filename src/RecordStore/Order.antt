-- ===== src/RecordStore/Order.antt =====
-- Sorting and filtering: the order of the result, and what it holds.
use headwater.Prelude.{
  zero, suc, take, ℕ, ◌≡◌, ◌∙◌, refl, sym, ap, Bool, true, false, List, [], ◌∷◌, keep, Bool-cases,
  inl, inr, arith,
}
use mathlib.Core.List.{Memᴰ}
use mathlib.Core.List.Memᴰ
use headwater.RecordStore.Sort.{sort, insert, precedes}

-- No item stands before one that it follows strictly.
abbrev pub IsSorted : {A : Type 0} (key : A → ℕ) (descending : Bool) → List A → Type 0
IsSorted key descending [] = Unit
IsSorted key descending (x ∷ []) = Unit
IsSorted key descending (x ∷ y ∷ ys) =
    (precedes key descending y x ≡ false) × IsSorted key descending (y ∷ ys)

module _ {A : Type 0} (key : A → ℕ) (descending : Bool) where
  follows : (x y : A) → precedes key descending y x ≡ true → precedes key descending x y ≡ false
  follows x y h = ground (arith, h)

  insert-IsSorted :
      (x : A) (xs : List A)
      → IsSorted key descending xs
      → IsSorted key descending (insert key descending x xs)
  unfolding insert
  insert-IsSorted x [] h = tt
  insert-IsSorted x (y ∷ []) h = elim (Bool-cases (precedes key descending y x)) [
    | inl e ↦ rw e (follows x y e, tt)
    | inr e ↦ rw e (e, tt)
  ]
  insert-IsSorted x (y ∷ z ∷ zs) h = elim (Bool-cases (precedes key descending y x)) [
    | inr e ↦ rw e (e, h)
    | inl e ↦ elim (Bool-cases (precedes key descending z x)) [
      | inl f ↦ rw (e, f) (h.0, (let r = insert-IsSorted x (z ∷ zs) h.1 in rw f at r))
      | inr f ↦ rw (e, f) (follows x y e, (f, h.1))
    ]
  ]

  pub sort-IsSorted : (xs : List A) → IsSorted key descending (sort key descending xs)
  unfolding sort
  sort-IsSorted [] = tt
  sort-IsSorted (x ∷ xs) = insert-IsSorted x (sort key descending xs) (sort-IsSorted xs)

  insert-head : (x : A) (xs : List A) → Memᴰ x (insert key descending x xs)
  unfolding insert
  insert-head x [] = Memᴰ.head refl
  insert-head x (y ∷ ys) = elim (Bool-cases (precedes key descending y x)) [
    | inl e ↦ rw e (Memᴰ.tail (insert-head x ys))
    | inr e ↦ rw e (Memᴰ.head refl)
  ]

  insert-tail : (r x : A) (xs : List A) → Memᴰ r xs → Memᴰ r (insert key descending x xs)
  unfolding insert
  insert-tail r x [] m = absurd (Memᴰ.not-nil m)
  insert-tail r x (y ∷ ys) m = elim (Bool-cases (precedes key descending y x)) [
    | inr e ↦ rw e (Memᴰ.tail m)
    | inl e ↦ rw e (elim (Memᴰ.cases_cons m) [
      | inl same ↦ Memᴰ.head same
      | inr later ↦ Memᴰ.tail (insert-tail r x ys later)
    ])
  ]

  insert-Mem_of : (r x : A) (xs : List A) → Memᴰ r (insert key descending x xs) → Memᴰ r (x ∷ xs)
  unfolding insert
  insert-Mem_of r x [] m = m
  insert-Mem_of r x (y ∷ ys) m = elim (Bool-cases (precedes key descending y x)) [
    | inr e ↦ rw e at m
    | inl e ↦ elim (Memᴰ.cases_cons (rw e at m)) [
      | inl same ↦ Memᴰ.tail (Memᴰ.head same)
      | inr later ↦ elim (Memᴰ.cases_cons (insert-Mem_of r x ys later)) [
        | inl same ↦ Memᴰ.head same
        | inr there ↦ Memᴰ.tail (Memᴰ.tail there)
      ]
    ]
  ]

  pub sort-Mem_of : (r : A) (xs : List A) → Memᴰ r (sort key descending xs) → Memᴰ r xs
  unfolding sort
  sort-Mem_of r [] m = m
  sort-Mem_of r (x ∷ xs) m = elim (Memᴰ.cases_cons (insert-Mem_of r x (sort key descending xs) m)) [
    | inl same ↦ Memᴰ.head same
    | inr later ↦ Memᴰ.tail (sort-Mem_of r xs later)
  ]

  pub sort-Mem : (r : A) (xs : List A) → Memᴰ r xs → Memᴰ r (sort key descending xs)
  unfolding sort
  sort-Mem r [] m = m
  sort-Mem r (x ∷ xs) m = elim (Memᴰ.cases_cons m) [
    | inl same ↦ Memᴰ.cast same (insert-head x (sort key descending xs))
    | inr later ↦ insert-tail r x (sort key descending xs) (sort-Mem r xs later)
  ]

pub keep-Mem :
    {A : Type 0} (p : A → Bool) (r : A) (xs : List A) → p r ≡ true → Memᴰ r xs → Memᴰ r (keep p xs)
keep-Mem p r [] h m = m
keep-Mem p r (x ∷ xs) h m = elim (Memᴰ.cases_cons m) [
  | inl same ↦ rw (ap p (sym same) ∙ h) (Memᴰ.head same)
  | inr later ↦ elim (Bool-cases (p x)) [
    | inl e ↦ rw e (Memᴰ.tail (keep-Mem p r xs h later))
    | inr e ↦ rw e (keep-Mem p r xs h later)
  ]
]

pub keep-Mem_of :
    {A : Type 0} (p : A → Bool) (r : A) (xs : List A)
    → Memᴰ r (keep p xs)
    → (p r ≡ true) × Memᴰ r xs
keep-Mem_of p r [] m = absurd (Memᴰ.not-nil m)
keep-Mem_of p r (x ∷ xs) m = elim (Bool-cases (p x)) [
  | inl e ↦ elim (Memᴰ.cases_cons (rw e at m)) [
    | inl same ↦ (ap p same ∙ e, Memᴰ.head same)
    | inr later ↦ let (h, there) = keep-Mem_of p r xs later in (h, Memᴰ.tail there)
  ]
  | inr e ↦ let (h, there) = keep-Mem_of p r xs (rw e at m) in (h, Memᴰ.tail there)
]

pub take-Mem_of : {A : Type 0} (n : ℕ) (x : A) (xs : List A) → Memᴰ x (take n xs) → Memᴰ x xs
take-Mem_of zero x xs m = absurd (Memᴰ.not-nil m)
take-Mem_of (suc n) x [] m = m
take-Mem_of (suc n) x (y ∷ ys) m = elim (Memᴰ.cases_cons m) [
  | inl same ↦ Memᴰ.head same
  | inr later ↦ Memᴰ.tail (take-Mem_of n x ys later)
]
