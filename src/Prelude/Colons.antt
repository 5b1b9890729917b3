-- ===== src/Prelude/Colons.antt =====
-- Texts up to their first colon, the separator of the keys.
use mathlib.Core.Path.{◌≡◌, refl}
use mathlib.Core.Bool.{true, false}
use mathlib.Core.List.{[], ◌∷◌, ◌++◌}
use native.Mathlib.Omega.{arith}
use headwater.Prelude.Tests.{◌==◌}
use headwater.Prelude.Lists.{All}
use headwater.Prelude.Strings.{Text, starts_with}

-- Of an owner or a namespace: no colon is in it.
abbrev pub NoColon : Text → Type 0
NoColon = All (λ c. (c == b':') ≡ false)

pub append-cancel : (p s t : Text) → p ++ s ≡ p ++ t → s ≡ t
append-cancel [] s t e = e
append-cancel (c ∷ p) s t e = append-cancel p s t (cc)

pub split_at_colon :
    (o o' i i' : Text)
    → NoColon o
    → NoColon o'
    → o ++ b':' ∷ i ≡ o' ++ b':' ∷ i'
    → (o ≡ o') × (i ≡ i')
split_at_colon [] [] i i' n n' e = (refl, cc)
split_at_colon [] (c ∷ o') i i' n n' e = absurd (ground arith)
split_at_colon (c ∷ o) [] i i' n n' e = absurd (ground arith)
split_at_colon (c ∷ o) (c' ∷ o') i i' n n' e =
    let (p, q) = split_at_colon o o' i i' n.1 n'.1 (cc) in (cc, q)

pub starts_with-append : (p s t : Text) → starts_with (p ++ s) (p ++ t) ≡ starts_with s t
unfolding starts_with
starts_with-append [] s t = refl
starts_with-append (c ∷ p) s t = ground (arith, starts_with-append p s t)

pub starts_at_colon :
    (o o' i : Text)
    → NoColon o
    → NoColon o'
    → starts_with (o ++ b':' ∷ i) (o' ++ b':' ∷ []) ≡ true
    → o ≡ o'
unfolding starts_with
starts_at_colon [] [] i n n' e = refl
starts_at_colon [] (c ∷ o') i n n' e = absurd (ground arith)
starts_at_colon (c ∷ o) [] i n n' e = absurd (ground arith)
starts_at_colon (c ∷ o) (c' ∷ o') i n n' e = ground (arith, starts_at_colon o o' i n.1 n'.1)

pub own_prefix : (o i : Text) → starts_with (o ++ b':' ∷ i) (o ++ b':' ∷ []) ≡ true
unfolding starts_with
own_prefix [] i = refl
own_prefix (c ∷ o) i = ground (arith, own_prefix o i)
