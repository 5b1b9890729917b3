-- ===== src/Collections.antt =====
-- `chunks` and `batch_process` of app/core/collection_utils.py, for a chunk size of at least one
-- (a size of zero is an error of Python's `range`).
use headwater.Prelude.{
  ◌≡◌, ◌∙◌, ◌≤◌, refl, sym, ap, ℕ, zero, suc, List, [], ◌∷◌, ◌++◌, All, take, drop, length,
  length-take, length-drop, arith,
}

module _ {A : Type 0} where
  -- The slices `lst[i : i + n]` for `i` in steps of `n`: the head of what is left, and then the
  -- rest. The fuel is the number of items left, and each step takes one at least.
  unfoldable pub chunks_from : (fuel n : ℕ) → List A → List (List A)
  chunks_from zero n lst = []
  chunks_from (suc fuel) n [] = []
  chunks_from (suc fuel) n (x ∷ lst) = take n (x ∷ lst) ∷ chunks_from fuel n (drop n (x ∷ lst))

  unfoldable pub chunks : (lst : List A) (n : ℕ) → List (List A)
  chunks lst n = chunks_from (length lst) n lst

  unfoldable pub extend_all : {B : Type 0} → (List A → List B) → List (List A) → List B
  extend_all f [] = []
  extend_all f (batch ∷ batches) = f batch ++ extend_all f batches

  unfoldable pub batch_process :
      {B : Type 0} → (items : List A) → (List A → List B) → (batch_size : ℕ) → List B
  batch_process items process_func batch_size = extend_all process_func (chunks items batch_size)

  take-drop : (n : ℕ) (xs : List A) → take n xs ++ drop n xs ≡ xs
  take-drop zero xs = refl
  take-drop (suc n) [] = refl
  take-drop (suc n) (x ∷ xs) = ap (λ ys. x ∷ ys) (take-drop n xs)

  -- No chunk is empty or longer than `n`.
  abbrev pub IsChunk : ℕ → List A → Type 0
  IsChunk n c = (1 ≤ length c) × (length c ≤ n)

  chunks_from-All : (fuel n : ℕ) (xs : List A) → 1 ≤ n → All (IsChunk n) (chunks_from fuel n xs)
  unfolding chunks_from
  chunks_from-All zero n xs h = tt
  chunks_from-All (suc fuel) n [] h = tt
  chunks_from-All (suc fuel) n (x ∷ xs) h =
      let l = length-take n (x ∷ xs) in
      ((omega (arith, h, l), omega (arith, l)), chunks_from-All fuel n (drop n (x ∷ xs)) h)

  -- Where each item is processed by itself, the batches do not show.
  abbrev pub IsItemwise : {B : Type 0} → (List A → List B) → Type 0
  IsItemwise f = (f [] ≡ []) × ((xs ys : List A) → f (xs ++ ys) ≡ f xs ++ f ys)

  extend_all-chunks_from :
      {B : Type 0} (f : List A → List B) (fuel n : ℕ) (xs : List A)
      → IsItemwise f
      → 1 ≤ n
      → length xs ≤ fuel
      → extend_all f (chunks_from fuel n xs) ≡ f xs
  unfolding extend_all chunks_from
  extend_all-chunks_from f zero n [] (e, s) h l = sym e
  extend_all-chunks_from f zero n (x ∷ xs) (e, s) h l = absurd (omega (arith, l))
  extend_all-chunks_from f (suc fuel) n [] (e, s) h l = sym e
  extend_all-chunks_from f (suc fuel) n (x ∷ xs) (e, s) h l =
      let rest = drop n (x ∷ xs) in
      let shorter : length rest ≤ fuel = omega (arith, length-drop n (x ∷ xs), h, l) in
      ap (λ ys. f (take n (x ∷ xs)) ++ ys) (extend_all-chunks_from f fuel n rest (e, s) h shorter)
      ∙ sym (s (take n (x ∷ xs)) rest)
      ∙ ap f (take-drop n (x ∷ xs))

  -- With a batch size of at least one, no batch is empty or longer than that, and a function that
  -- maps a join of lists to the join of its results gives for the batches what it gives for all
  -- items at once.
  pub batch_process-IsItemwise :
      {B : Type 0} (f : List A → List B) (items : List A) (n : ℕ)
      → IsItemwise f
      → 1 ≤ n
      → All (IsChunk n) (chunks items n) × (batch_process items f n ≡ f items)
  unfolding batch_process chunks
  batch_process-IsItemwise f items n s h = (
    chunks_from-All (length items) n items h,
    extend_all-chunks_from f (length items) n items s h (omega arith),
  )
