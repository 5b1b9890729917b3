-- ===== src/Dict/Sweep.antt =====
-- Removing every entry that a test selects, the way the program sweeps expired entries: collect
-- the keys, then delete them one by one.
use headwater.Prelude.{
  ◌≡◌, ◌∙◌, ◌+◌, refl, ap, Bool, false, not, Option, none, some, List, [], ◌∷◌, arith, Text,
  text_eq, text_eq_iff, text_eq_refl, any, keep, length, if◌then◌else◌, inl, inr, Bool-cases,
}
use headwater.Dict.{Dict, lookup, remove, keys_where, remove_all, IsDict}
use headwater.Dict.Laws.{lookup-remove, remove-IsDict}

-- `k in ks`
abbrev pub contains : Text → List Text → Bool
contains k = any (λ j. text_eq j k)

module _ {ℓ} {V : Type ℓ} where
  pub remove_all-IsDict : (ks : List Text) (d : Dict V) → IsDict d → IsDict (remove_all ks d)
  unfolding remove_all
  remove_all-IsDict [] d h = h
  remove_all-IsDict (k ∷ ks) d h = remove_all-IsDict ks (remove k d) (remove-IsDict k d h)

  pub lookup-remove_all :
      (ks : List Text) (j : Text) (d : Dict V)
      → IsDict d
      → lookup j (remove_all ks d) ≡ (if contains j ks then none else lookup j d)
  unfolding remove_all
  lookup-remove_all [] j d h = refl
  lookup-remove_all (k ∷ ks) j d h =
      ground
        (arith, lookup-remove_all ks j (remove k d) (remove-IsDict k d h), lookup-remove k j d h)

  -- The test at the entry of a key, if it has one.
  abbrev pub selects : (Text → V → Bool) → Text → Option V → Bool
  selects p k none = false
  selects p k (some v) = p k v

  pub contains-keys_where :
      (p : Text → V → Bool) (j : Text) (d : Dict V)
      → IsDict d
      → contains j (keys_where p d) ≡ selects p j (lookup j d)
  unfolding keys_where lookup
  contains-keys_where p j [] h = refl
  contains-keys_where p j ((i, w) ∷ d) h =
      ground (arith, contains-keys_where p j d h.1, text_eq_iff i j)

  -- A sweep drops exactly the entries that the test selects.
  pub lookup-sweep :
      (p : Text → V → Bool) (j : Text) (d : Dict V)
      → IsDict d
      → lookup j (remove_all (keys_where p d) d)
        ≡ (if selects p j (lookup j d) then none else lookup j d)
  lookup-sweep p j d h = rw (lookup-remove_all (keys_where p d) j d h, contains-keys_where p j d h)

  remove_all-skip :
      (ks : List Text) (j : Text) (w : V) (d : Dict V)
      → contains j ks ≡ false
      → remove_all ks ((j, w) ∷ d) ≡ (j, w) ∷ remove_all ks d
  unfolding remove_all remove
  remove_all-skip [] j w d h = refl
  remove_all-skip (k ∷ ks) j w d h = elim (Bool-cases (text_eq k j)) [
    | inl e ↦ absurd (ground arith)
    | inr e ↦
        let e' : text_eq j k ≡ false = ground (arith, text_eq_iff j k, text_eq_iff k j) in
        rw e' (remove_all-skip ks j w (remove k d) (ground arith))
  ]

  remove_all_head :
      (ks : List Text) (j : Text) (w : V) (d : Dict V)
      → remove_all (j ∷ ks) ((j, w) ∷ d) ≡ remove_all ks d
  unfolding remove_all remove
  remove_all_head ks j w d = rw (text_eq_refl j, remove_all)

  -- A sweep keeps the other entries, in their order.
  pub sweep-keep :
      (p : Text → V → Bool) (d : Dict V)
      → IsDict d
      → remove_all (keys_where p d) d ≡ keep (λ e. not (p e.0 e.1)) d
  unfolding keys_where
  sweep-keep p [] h = unfold remove_all in refl
  sweep-keep p ((j, w) ∷ d) h = elim (Bool-cases (p j w)) [
    | inl e ↦ rw e (remove_all_head (keys_where p d) j w d ∙ sweep-keep p d h.1)
    | inr e ↦
        let absent : contains j (keys_where p d) ≡ false = contains-keys_where p j d h.1 ∙ rw h.0 in
        rw e (remove_all-skip (keys_where p d) j w d absent ∙ ap (◌∷◌ (j, w)) (sweep-keep p d h.1))
  ]

  length-keys_where :
      (p : Text → V → Bool) (d : Dict V)
      → length (keep (λ e. not (p e.0 e.1)) d) + length (keys_where p d) ≡ length d
  unfolding keys_where
  length-keys_where p [] = omega arith
  length-keys_where p ((j, w) ∷ d) = ground (arith, length-keys_where p d)

  pub length-sweep :
      (p : Text → V → Bool) (d : Dict V)
      → IsDict d
      → length (remove_all (keys_where p d) d) + length (keys_where p d) ≡ length d
  length-sweep p d h = rw (sweep-keep p d h) (length-keys_where p d)
