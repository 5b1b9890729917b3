-- ===== src/Webhooks/Delivery.antt =====
-- The loop of attempts: how often it posts, and what its result says.
use mathlib.Core.Path.{subst}
use headwater.Webhooks.Attempts.{paused}
use headwater.Prelude.{
  ◌≡◌, ◌≤◌, ◌<◌, refl, sym, ℕ, zero, suc, ◌+◌, true, false, none, some, is_some, Bool-cases, inl,
  inr, arith,
}
use headwater.Webhooks.Posts.{Posted, status, rejected, failed}
use headwater.Webhooks.Attempts.{Tally, attempt, counted, breaks, is_success, backoff}

-- A delivery that is reported as made got a response of the 200s last and has no error; any other
-- one has an error.
abbrev pub IsHonest : Tally → Type 0
IsHonest t =
    (t.delivered ≡ true
      → (c : ℕ) × (t.status_code ≡ some c) × (is_success c ≡ true) × (t.error ≡ none))
    × (t.delivered ≡ false → is_some t.error ≡ true)

counted-delivered : (p : Posted) (t : Tally) → t.delivered ≡ false → IsHonest (counted p t)
unfolding counted
counted-delivered (status c) t e = elim (Bool-cases (is_success c)) [
  | inl y ↦ rw y (λ z. (c, refl, y, refl), λ z. absurd (ground (arith, z)))
  | inr y ↦ rw y (λ z. absurd (ground (arith, e, z)), λ z. refl)
]
counted-delivered (rejected m) t e = (λ z. absurd (ground (arith, e, z)), λ z. refl)
counted-delivered (failed m) t e = (λ z. absurd (ground (arith, e, z)), λ z. refl)

counted-continues :
    (p : Posted) (t : Tally)
    → t.delivered ≡ false
    → breaks p ≡ false
    → (counted p t).delivered ≡ false
unfolding counted breaks
counted-continues (status c) t e b = elim (Bool-cases (is_success c)) [
  | inl y ↦ absurd (ground (arith, y, b))
  | inr y ↦ rw y e
]
counted-continues (rejected m) t e b = e
counted-continues (failed m) t e b = e

counted-status :
    (p : Posted) (t : Tally)
    → t.delivered ≡ false
    → (counted p t).delivered ≡ true
    → (c : ℕ) × (p ≡ status c) × ((counted p t).status_code ≡ some c) × (200 ≤ c) × (c < 300)
unfolding counted is_success
counted-status (status c) t e d = elim (Bool-cases (is_success c)) [
  | inl y ↦ rw y (c, refl, refl, ground (arith, y), ground (arith, y))
  | inr y ↦ let d' : t.delivered ≡ true = rw y at d in absurd (cc (e, d'))
]
counted-status (rejected m) t e d = absurd (ground (arith, e, d))
counted-status (failed m) t e d = absurd (ground (arith, e, d))

counted-attempts : (p : Posted) (t : Tally) → (counted p t).attempts ≡ t.attempts + 1
unfolding counted
counted-attempts (status c) t = elim (Bool-cases (is_success c)) [
  | inl y ↦ rw y refl
  | inr y ↦ rw y refl
]
counted-attempts (rejected m) t = refl
counted-attempts (failed m) t = refl

module _ {S : Type 0} (post : S → Posted × S) (sleep : ℕ → S → S) where
  paused-keeps :
      (I : S → Type 0)
      → ((k : ℕ) (s : S) → I s → I (sleep k s))
      → (left n : ℕ) (s : S) → I s
      → I (paused post sleep left n s)
  paused-keeps I hs zero n s h = h
  paused-keeps I hs (suc left) n s h = hs _ s h

  -- What holds of the number of attempts and the state holds in the end.
  pub attempt-keeps :
      (I : ℕ → S → Type 0)
      → ((n : ℕ) (s : S) → I n s → I (n + 1) ((post s).1))
      → ((n k : ℕ) (s : S) → I n s → I n (sleep k s))
      → (left : ℕ) (t : Tally) (s : S) → I t.attempts s
      → let r = attempt post sleep left t s in I (r.0.attempts) r.1
  unfolding attempt
  attempt-keeps I hp hs zero t s h = h
  attempt-keeps I hp hs (suc left) t s h =
      let t' = counted (post s).0 t in
      let h' : I t'.attempts (post s).1 =
        subst (λ n. I n (post s).1) (sym (counted-attempts (post s).0 t)) (hp _ s h) in
      elim (Bool-cases (breaks (post s).0)) [
        | inl y ↦ rw y h'
        | inr y ↦ rw y (
            attempt-keeps I hp hs left t' _
              (paused-keeps (I t'.attempts) (hs t'.attempts) left t'.attempts _ h'))
      ]

  -- The bounds on the attempts and the honesty of a result that the loop reaches from `t`.
  abbrev pub IsResult : (left : ℕ) → Tally → Tally → Type 0
  IsResult left t r = (t.attempts + 1 ≤ r.attempts) × (r.attempts ≤ t.attempts + left) × IsHonest r

  counted-IsResult :
      (p : Posted) (left : ℕ) (t : Tally)
      → t.delivered ≡ false
      → IsResult (suc left) t (counted p t)
  counted-IsResult p left t e = (
    omega (arith, counted-attempts p t),
    omega (arith, counted-attempts p t),
    counted-delivered p t e,
  )

  pub attempt-IsResult :
      (left : ℕ) (t : Tally) (s : S)
      → t.delivered ≡ false
      → IsResult (suc left) t (attempt post sleep (suc left) t s).0
  unfolding attempt
  attempt-IsResult zero t s e = elim (Bool-cases (breaks (post s).0)) [
    | inl y ↦ rw y (counted-IsResult (post s).0 0 t e)
    | inr y ↦ rw y (counted-IsResult (post s).0 0 t e)
  ]
  attempt-IsResult (suc left) t s e = elim (Bool-cases (breaks (post s).0)) [
    | inl y ↦ rw y (counted-IsResult (post s).0 (suc left) t e)
    | inr y ↦
        let (a, b, h) =
          attempt-IsResult left (counted (post s).0 t)
            (sleep (backoff (counted (post s).0 t).attempts) (post s).1)
            (counted-continues (post s).0 t e y) in
        rw y (
          omega (arith, a, counted-attempts (post s).0 t),
          omega (arith, b, counted-attempts (post s).0 t),
          h,
        )
  ]

  -- A delivery that is made ends with a post that had a status of the 200s; what holds of each post
  -- and the state after it holds of that one and the state in the end.
  pub attempt-delivered :
      (P : Posted → S → Type 0)
      → ((s : S) → P (post s).0 (post s).1)
      → (left : ℕ) (t : Tally) (s : S) → t.delivered ≡ false
      → let r = attempt post sleep left t s in
        r.0.delivered ≡ true
        → (c : ℕ) × (r.0.status_code ≡ some c) × (200 ≤ c) × (c < 300) × P (status c) r.1
  unfolding attempt
  attempt-delivered P h zero t s e d = absurd (cc (e, d))
  attempt-delivered P h (suc left) t s e d = elim (Bool-cases (breaks (post s).0)) [
    | inl y ↦
        let d' : (counted (post s).0 t).delivered ≡ true = rw y at d in
        let (c, is, code, lo, hi) = counted-status (post s).0 t e d' in
        rw y (c, code, lo, hi, subst (λ p. P p (post s).1) is (h s))
    | inr y ↦
        let t' = counted (post s).0 t in
        let s' = paused post sleep left t'.attempts (post s).1 in
        let d' : (attempt post sleep left t' s').0.delivered ≡ true = rw y at d in
        rw y (attempt-delivered P h left t' s' (counted-continues (post s).0 t e y) d')
  ]
