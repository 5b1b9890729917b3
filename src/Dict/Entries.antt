-- ===== src/Dict/Entries.antt =====
-- Properties that hold of every entry of a dictionary.
use mathlib.Core.Path.{subst}
use headwater.Prelude.{
  ◌≡◌, sym, Bool, some, [], ◌∷◌, Text, text_eq, text_eq_iff, All, keep, Bool-cases, inl, inr, arith,
}
use headwater.Dict.{Dict, lookup, put, remove}

module _ {ℓ κ} {V : Type ℓ} (P : Text × V → Type κ) where
  pub lookup-All : (k : Text) (v : V) (d : Dict V) → lookup k d ≡ some v → All P d → P (k, v)
  unfolding lookup
  lookup-All k v [] e h = absurd (ground arith)
  lookup-All k v ((j, w) ∷ d) e h = elim (Bool-cases (text_eq j k)) [
    | inl same ↦
        let q : ◌≡◌ {A = Text × V} (j, w) (k, v) = ground (arith, text_eq_iff j k) in subst P q h.0
    | inr other ↦ lookup-All k v d (ground arith) h.1
  ]

  pub put-All : (k : Text) (v : V) (d : Dict V) → P (k, v) → All P d → All P (put k v d)
  unfolding put
  put-All k v [] p h = (p, tt)
  put-All k v ((j, w) ∷ d) p h = elim (Bool-cases (text_eq j k)) [
    | inl same ↦ rw same (subst (λ x. P (x, v)) (sym ((text_eq_iff j k).0 same)) p, h.1)
    | inr other ↦ rw other (h.0, put-All k v d p h.1)
  ]

  pub remove-All : (k : Text) (d : Dict V) → All P d → All P (remove k d)
  unfolding remove
  remove-All k [] h = tt
  remove-All k ((j, w) ∷ d) h = elim (Bool-cases (text_eq j k)) [
    | inl same ↦ rw same h.1
    | inr other ↦ rw other (h.0, remove-All k d h.1)
  ]

  pub keep-All : (p : Text × V → Bool) (d : Dict V) → All P d → All P (keep p d)
  keep-All p [] h = tt
  keep-All p (e ∷ d) h = elim (Bool-cases (p e)) [
    | inl yes' ↦ rw yes' (h.0, keep-All p d h.1)
    | inr no' ↦ rw no' (keep-All p d h.1)
  ]
