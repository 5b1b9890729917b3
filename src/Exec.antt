-- ===== src/Exec.antt =====
-- Methods that change their object and may raise: what was written before a raise stays written.

pub mod Checks
use headwater.Prelude.{◌≡◌, refl, ap}

pub data Result {ℓ} (E A : Type ℓ) : Type ℓ where
  ok : A → Result E A
  raise : E → Result E A

abbrev pub Exec : Type 0 → Type 0 → Type 0 → Type 0
Exec S E A = S → Result E A × S

module _ {S E A B : Type 0} where
  abbrev after : Result E A → (A → Exec S E B) → Exec S E B
  after (ok a) f s = f a s
  after (raise e) f s = (raise e, s)

  infixl 5 ◌>>=◌ ◌>>◌
  abbrev pub ◌>>=◌ : Exec S E A → (A → Exec S E B) → Exec S E B
  ◌>>=◌ m f s = let (r, s') = m s in after r f s'

  abbrev pub ◌>>◌ : Exec S E A → Exec S E B → Exec S E B
  m >> n = m >>= λ _. n

module _ {S E A : Type 0} where
  abbrev pub pure : A → Exec S E A
  pure a s = (ok a, s)

  abbrev pub throw : E → Exec S E A
  throw e s = (raise e, s)

module _ {S E A B : Type 0} (b : B) where
  after-pure : (r : Result E A) (s : S) → (after r (λ _. pure b) s).1 ≡ s
  after-pure (ok a) s = refl
  after-pure (raise e) s = refl

  -- Returning a value after a call changes the state no further.
  pub then-pure : (m : Exec S E A) (s : S) → ((m >> pure b) s).1 ≡ (m s).1
  then-pure m s = after-pure (m s).0 (m s).1

-- What two calls keep is kept by the one after the other.
module _ {S E A B : Type 0} (P : S → Type 0) where
  after-keeps :
      (r : Result E A) (f : A → Exec S E B) (s : S)
      → ((a : A) (s : S) → P s → P (f a s).1)
      → P s
      → P (after r f s).1
  after-keeps (ok a) f s k p = k a s p
  after-keeps (raise e) f s k p = p

  pub bind-keeps :
      (m : Exec S E A) (f : A → Exec S E B) (s : S)
      → P (m s).1
      → ((a : A) (s : S) → P s → P (f a s).1)
      → P ((m >>= f) s).1
  bind-keeps m f s p k = after-keeps (m s).0 f (m s).1 k p

module _ {S E A B : Type 0} where
  -- After a call that returns, the next one goes on from its state.
  pub bind-returns :
      (m : Exec S E A) (f : A → Exec S E B) (s t : S) (a : A)
      → m s ≡ (ok a, t)
      → (m >>= f) s ≡ f a t
  bind-returns m f s t a e = ap (λ p. after p.0 f p.1) e

  -- After a call that raises, the next one is not made.
  pub bind-raises :
      (m : Exec S E A) (f : A → Exec S E B) (s t : S) (x : E)
      → m s ≡ (raise x, t)
      → (m >>= f) s ≡ (raise x, t)
  bind-raises m f s t x e = ap (λ p. after p.0 f p.1) e
