-- ===== src/RateLimiter/Memory/Window.antt =====
-- How many requests of one bucket a window lets through, whatever the other buckets do.
use headwater.Prelude.{
  ℕ, ◌+◌, ◌-◌, ◌*◌, ◌≤◌, ◌<◌, min, max, ◌≡◌, ◌∙◌, refl, true, false, Option, none, some, List, [],
  ◌∷◌, arith, Text, text_eq, text_eq_iff, ltb, lt→ltb, if◌then◌else◌, Bool-cases, inl, inr,
}
use headwater.Dict.{lookup}
use headwater.Dict.Laws.{lookup-put}
use headwater.RateLimiter.Info.{second}
use headwater.RateLimiter.Memory.{Store, Window, count, check_rate_limit_memory}

-- A check: the bucket, and the two readings of the clock.
pub record Check : Type 0 where
  pub key : Text
  pub now : ℕ
  pub later : ℕ

module _ (limit timeframe : ℕ) where
  -- The store after the checks, in the order in which they take the lock.
  unfoldable pub run : List Check → Store → Store
  run [] s = s
  run (c ∷ cs) s = run cs (check_rate_limit_memory c.key limit timeframe c.now c.later s).1

  -- How many of the checks of bucket `key` were let through.
  unfoldable pub admitted : Text → List Check → Store → ℕ
  admitted key [] s = 0
  admitted key (c ∷ cs) s =
      let r = check_rate_limit_memory c.key limit timeframe c.now c.later s in
      (if text_eq c.key key then (if r.0.0 then 0 else 1) else 0) + admitted key cs r.1

-- How many of the checks are of bucket `key`.
unfoldable pub of_key : Text → List Check → ℕ
of_key key [] = 0
of_key key (c ∷ cs) = (if text_eq c.key key then 1 else 0) + of_key key cs

-- No check of bucket `key` reads a clock past the end of the window.
abbrev pub Within : ℕ → Text → ℕ → List Check → Type 0
Within timeframe key start [] = Unit
Within timeframe key start (c ∷ cs) =
    (text_eq c.key key ≡ true → c.now ≤ start + timeframe * second) × Within timeframe key start cs

module _ (limit timeframe : ℕ) where
  check-other :
      (key k : Text) (now later : ℕ) (s : Store)
      → text_eq k key ≡ false
      → lookup key (check_rate_limit_memory k limit timeframe now later s).1 ≡ lookup key s
  unfolding check_rate_limit_memory
  check-other key k now later s h = rw (lookup-put, h)

  check-counts :
      (key k : Text) (now later n start : ℕ) (s : Store)
      → text_eq k key ≡ true
      → lookup key s ≡ some (n, start)
      → now ≤ start + timeframe * second
      → (lookup key (check_rate_limit_memory k limit timeframe now later s).1 ≡ some (n + 1, start))
        × ((check_rate_limit_memory k limit timeframe now later s).0.0 ≡ ltb limit (n + 1))
  unfolding check_rate_limit_memory count
  check-counts key k now later n start s same h w =
      let here : lookup k s ≡ some (n, start) = rw ((text_eq_iff k key).0 same) h in
      let e : count timeframe now (lookup k s) ≡ (false, (n + 1, start)) = rw here (ground arith) in
      (rw (lookup-put, same, e), rw e)

  -- `count` at a bucket with no entry, or with one whose window is over.
  count_opens :
      (now : ℕ) (o : Option Window)
      → ((n start : ℕ) → o ≡ some (n, start) → start + timeframe * second < now)
      → count timeframe now o ≡ (true, (1, now))
  unfolding count
  count_opens now none fresh = refl
  count_opens now (some (n, start)) fresh =
      let late = fresh n start refl in rw (lt→ltb (timeframe * second) (now - start) (omega arith))

  check_opens :
      (key k : Text) (now later : ℕ) (s : Store)
      → text_eq k key ≡ true
      → ((n start : ℕ) → lookup key s ≡ some (n, start) → start + timeframe * second < now)
      → (lookup key (check_rate_limit_memory k limit timeframe now later s).1 ≡ some (1, now))
        × ((check_rate_limit_memory k limit timeframe now later s).0.0 ≡ false)
  unfolding check_rate_limit_memory
  check_opens key k now later s same fresh =
      let e : count timeframe now (lookup k s) ≡ (true, (1, now)) =
        rw ((text_eq_iff k key).0 same) (count_opens now (lookup key s) fresh) in
      (rw (lookup-put, same, e), rw e)

  -- From an entry `(n, start)`: the bucket's entry counts every request of the window ...
  run-counts :
      (key : Text) (cs : List Check) (n start : ℕ) (s : Store)
      → lookup key s ≡ some (n, start)
      → Within timeframe key start cs
      → lookup key (run limit timeframe cs s) ≡ some (n + of_key key cs, start)
  unfolding run of_key
  run-counts key [] n start s h w = rw h (ground arith)
  run-counts key (c ∷ cs) n start s h w =
      let s' = (check_rate_limit_memory c.key limit timeframe c.now c.later s).1 in
      elim (Bool-cases (text_eq c.key key)) [
        | inr other ↦
            let h' = check-other key c.key c.now c.later s other in
            rw (other) (run-counts key cs n start s' (h' ∙ h) w.1 ∙ ground arith)
        | inl same ↦
            let (h', _) = check-counts key c.key c.now c.later n start s same h (w.0 same) in
            rw (same) (run-counts key cs (n + 1) start s' h' w.1 ∙ ground arith)
      ]

  -- ... and lets through what the limit leaves.
  admitted-counts :
      (key : Text) (cs : List Check) (n start : ℕ) (s : Store)
      → lookup key s ≡ some (n, start)
      → Within timeframe key start cs
      → admitted limit timeframe key cs s ≡ min (of_key key cs) (limit - n)
  unfolding admitted of_key
  admitted-counts key [] n start s h w = omega arith
  admitted-counts key (c ∷ cs) n start s h w =
      let s' = (check_rate_limit_memory c.key limit timeframe c.now c.later s).1 in
      elim (Bool-cases (text_eq c.key key)) [
        | inr other ↦
            let h' = check-other key c.key c.now c.later s other in
            rw other (omega (arith, admitted-counts key cs n start s' (h' ∙ h) w.1))
        | inl same ↦
            let (h', e) = check-counts key c.key c.now c.later n start s same h (w.0 same) in
            rw (same, e) (ground (arith, admitted-counts key cs (n + 1) start s' h' w.1))
      ]

  -- Where the first check of a bucket finds no entry, or one whose window is over, the requests
  -- that are let through until the end of the window that it opens are as many as were made, up to
  -- the limit, and up to one where the limit is 0; the checks of the other buckets, and the order
  -- in which all of them take the lock, change nothing.
  pub admitted-window :
      (key : Text) (c : Check) (cs : List Check) (s : Store)
      → c.key ≡ key
      → ((n start : ℕ) → lookup key s ≡ some (n, start) → start + timeframe * second < c.now)
      → Within timeframe key c.now cs
      → admitted limit timeframe key (c ∷ cs) s ≡ min (of_key key (c ∷ cs)) (max 1 limit)
  unfolding admitted of_key
  admitted-window key c cs s same fresh w =
      let s' = (check_rate_limit_memory c.key limit timeframe c.now c.later s).1 in
      let (h', e) = check_opens key c.key c.now c.later s ((text_eq_iff c.key key).1 same) fresh in
      rw ((text_eq_iff c.key key).1 same, e)
        (ground (arith, admitted-counts key cs 1 c.now s' h' w))
