-- ===== src/Prelude/Tests.antt =====
-- Boolean tests on the native numbers, the conditional, and splits on computed values.
use Prim.Native.Nat.{ℕ, ◌≤◌, ◌<◌, compare, Ordering}
use mathlib.Core.Path.{◌≡◌, refl}
use mathlib.Core.Logic.{◌↔◌, ◌⊎◌, inl, inr}
use mathlib.Core.Bool.{Bool, true, false, ◌&&◌}
use mathlib.Core.Option.{Option, none, some}
use native.Mathlib.Omega.{arith}

abbrev pub ltb : ℕ → ℕ → Bool
ltb a b = elim (compare a b) [ Ordering.lt ↦ true | _ ↦ false ]

abbrev pub leb : ℕ → ℕ → Bool
leb a b = elim (compare a b) [ Ordering.gt ↦ false | _ ↦ true ]

infix 50 ◌==◌
abbrev pub ◌==◌ : ℕ → ℕ → Bool
a == b = elim (compare a b) [ Ordering.eq ↦ true | _ ↦ false ]

infix 1 if◌then◌else◌
abbrev pub if◌then◌else◌ {ℓ} : {A : Type ℓ} → Bool → A → A → A
if true then x else y = x
if false then x else y = y

pub ltb→lt : (a b : ℕ) → ltb a b ≡ true → a < b
ltb→lt a b h = ground arith

pub lt→ltb : (a b : ℕ) → a < b → ltb a b ≡ true
lt→ltb a b h = ground arith

pub le→ltb : (a b : ℕ) → b ≤ a → ltb a b ≡ false
le→ltb a b h = ground arith

pub leb→le : (a b : ℕ) → leb a b ≡ true → a ≤ b
leb→le a b h = ground arith

pub le→leb : (a b : ℕ) → a ≤ b → leb a b ≡ true
le→leb a b h = ground arith

pub ==_iff : (a b : ℕ) → ((a == b) ≡ true) ↔ (a ≡ b)
==_iff a b = ground arith

pub ruleset tests = (arith, ltb→lt, lt→ltb, le→ltb, leb→le, le→leb)

pub Bool-cases : (b : Bool) → (b ≡ true) ⊎ (b ≡ false)
Bool-cases true = inl refl
Bool-cases false = inr refl

pub both_true : (a b : Bool) → (a && b) ≡ true → (a ≡ true) × (b ≡ true)
both_true true b h = (refl, h)
both_true false b h = absurd (cc (h))

pub Option-cases {ℓ} : {A : Type ℓ} (o : Option A) → (o ≡ none) ⊎ ((a : A) × (o ≡ some a))
Option-cases none = inl refl
Option-cases (some a) = inr (a, refl)

abbrev pub is_some {ℓ} : {A : Type ℓ} → Option A → Bool
is_some none = false
is_some (some a) = true

-- What a conditional test asks for, from what its branches ask for.
pub if_iff {ℓ κ} :
    {P : Type ℓ} {Q : Type κ} (b x y : Bool)
    → ((x ≡ true) ↔ P)
    → ((y ≡ true) ↔ Q)
    → ((if b then x else y) ≡ true) ↔ (((b ≡ true) × P) ⊎ ((b ≡ false) × Q))
if_iff true x y p q =
    (λ h. inl (refl, p.0 h), λ w. elim w [ inl d ↦ p.1 d.1 | inr d ↦ absurd (ground (arith, d.0)) ])
if_iff false x y p q =
    (λ h. inr (refl, q.0 h), λ w. elim w [ inl d ↦ absurd (ground (arith, d.0)) | inr d ↦ q.1 d.1 ])

pub if_true_iff {ℓ κ} :
    {P : Type ℓ} {Q : Type κ} (x y : Bool)
    → ((x ≡ true) ↔ P)
    → ((y ≡ true) ↔ Q)
    → ((if x then true else y) ≡ true) ↔ (P ⊎ Q)
if_true_iff true y p q = (λ h. inl (p.0 refl), λ w. refl)
if_true_iff false y p q =
    (λ h. inr (q.0 h), λ w. elim w [ inl d ↦ absurd (ground (arith, p.1 d)) | inr d ↦ q.1 d ])
