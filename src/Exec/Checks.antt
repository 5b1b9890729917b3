-- ===== src/Exec/Checks.antt =====
-- Functions that may raise and change nothing: a chain of checks, each of which may refuse.
use headwater.Prelude.{◌≡◌, refl, Bool, true, false, Option, none, some}
use headwater.Exec.{Result, ok, raise}

module _ {E A B : Type 0} where
  infixl 5 ◌>>=◌ ◌>>◌
  abbrev pub ◌>>=◌ : Result E A → (A → Result E B) → Result E B
  ok a >>= f = f a
  raise e >>= f = raise e

  abbrev pub ◌>>◌ : Result E A → Result E B → Result E B
  m >> n = m >>= λ _. n

  -- A chain that ends well passed its first part.
  pub bind-ok :
      (m : Result E A) (f : A → Result E B) (b : B)
      → (m >>= f) ≡ ok b
      → (a : A) × (m ≡ ok a) × (f a ≡ ok b)
  bind-ok (ok a) f b e = (a, refl, e)
  bind-ok (raise x) f b e = absurd (cc (e))

module _ {E : Type 0} where
  -- `if b: raise e`
  abbrev pub refuse_if : Bool → E → Result E Unit
  refuse_if true e = raise e
  refuse_if false e = ok tt

  pub refuse_if-ok :
      {B : Type 0} (c : Bool) (e : E) (n : Result E B) (b : B)
      → (refuse_if c e >> n) ≡ ok b
      → (c ≡ false) × (n ≡ ok b)
  refuse_if-ok true e n b h = absurd (cc (h))
  refuse_if-ok false e n b h = (refl, h)

  -- What a call returns, or the error for its exception.
  abbrev pub given : {A : Type 0} → E → Option A → Result E A
  given e none = raise e
  given e (some a) = ok a

  pub given-ok :
      {A B : Type 0} (e : E) (o : Option A) (f : A → Result E B) (b : B)
      → (given e o >>= f) ≡ ok b
      → (a : A) × (o ≡ some a) × (f a ≡ ok b)
  given-ok e none f b h = absurd (cc (h))
  given-ok e (some a) f b h = (a, refl, h)
