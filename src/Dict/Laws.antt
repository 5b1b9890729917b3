-- ===== src/Dict/Laws.antt =====
-- What a lookup returns after a write or a deletion, and that both keep the keys distinct.
use headwater.Prelude.{
  ◌≡◌, refl, none, some, [], ◌∷◌, arith, Text, text_eq, text_eq_iff, if◌then◌else◌,
}
use headwater.Dict.{Dict, lookup, put, remove, IsDict}

module _ {ℓ} {V : Type ℓ} where
  pub lookup-put :
      (k j : Text) (v : V) (d : Dict V)
      → lookup j (put k v d) ≡ (if text_eq k j then some v else lookup j d)
  unfolding lookup put
  lookup-put k j v [] = refl
  lookup-put k j v ((i, w) ∷ d) =
      ground (arith, text_eq_iff k j, text_eq_iff i k, text_eq_iff i j, lookup-put k j v d)

  pub lookup-remove :
      (k j : Text) (d : Dict V)
      → IsDict d
      → lookup j (remove k d) ≡ (if text_eq k j then none else lookup j d)
  unfolding lookup remove
  lookup-remove k j [] h = ground arith
  lookup-remove k j ((i, w) ∷ d) h =
      ground (arith, text_eq_iff k j, text_eq_iff i k, text_eq_iff i j, lookup-remove k j d h.1)

  pub put-IsDict : (k : Text) (v : V) (d : Dict V) → IsDict d → IsDict (put k v d)
  unfolding put lookup
  put-IsDict k v [] h = ground arith
  put-IsDict k v ((i, w) ∷ d) h =
      ground (arith, put-IsDict k v d h.1, lookup-put k i v d, text_eq_iff i k, text_eq_iff k i)

  pub remove-IsDict : (k : Text) (d : Dict V) → IsDict d → IsDict (remove k d)
  unfolding remove lookup
  remove-IsDict k [] h = ground arith
  remove-IsDict k ((i, w) ∷ d) h =
      ground (arith, remove-IsDict k d h.1, lookup-remove k i d h.1, text_eq_iff k i)
