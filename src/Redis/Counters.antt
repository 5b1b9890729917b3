-- ===== src/Redis/Counters.antt =====
-- What `rate_limit_check` counts.
use headwater.Prelude.{
  ℕ, ◌+◌, ◌≡◌, refl, ◌∙◌, ap, Bool, true, leb, Text, Bool-cases, inl, inr, arith, ◌⊎◌,
}
use headwater.Redis.Client.{Server, Reply, ok, redis_error, Ttl, no_expiry, IsCounting}
use headwater.Redis.{
  Manager, get_client, initialize, attempt, caught, counted_check, rate_limit_check, connect,
  after_expire,
}

module _ (srv : Server) (counter : srv.State → Text → ℕ) (law : IsCounting srv counter) where
  get_client-counter :
      (j : Text) (m : Manager srv) → counter (get_client srv m).1.server j ≡ counter m.server j
  unfolding get_client initialize connect
  get_client-counter j m = ground (arith, law.ping_keeps j m.server)

  pub initialize-counter :
      (j : Text) (m : Manager srv) → counter (initialize srv m).server j ≡ counter m.server j
  unfolding initialize connect
  initialize-counter j m = ground (arith, law.ping_keeps j m.server)

  -- What a reply of the check says, from the counter before it.
  abbrev Counted : Text → ℕ → ℕ → Reply (Bool × ℕ × ℕ) × srv.State → Type 0
  Counted key limit before (ok (allowed, n, r), s) =
      (n ≡ before + 1) × (allowed ≡ leb n limit) × (counter s key ≡ n)
  Counted key limit before (redis_error, s) = Unit

  after_expire-Counted :
      (key : Text) (limit window before n : ℕ) (r : Reply Bool × srv.State)
      → n ≡ before + 1
      → counter r.1 key ≡ n
      → Counted key limit before (after_expire srv (leb n limit, n, window) r)
  after_expire-Counted key limit window before n (ok b, s) e c = (e, refl, c)
  after_expire-Counted key limit window before n (redis_error, s) e c = tt

  counted_check-Counted :
      (key : Text) (limit window before : ℕ) (r : Reply (ℕ × Ttl) × srv.State)
      → ((n : ℕ) (t : Ttl) → r.0 ≡ ok (n, t) → (n ≡ before + 1) × (counter r.1 key ≡ n))
      → Counted key limit before (counted_check srv key limit window r)
  unfolding counted_check
  counted_check-Counted key limit window before (redis_error, s) h = tt
  counted_check-Counted key limit window before (ok (n, no_expiry), s) h =
      let (e, c) = h n no_expiry refl in
      after_expire-Counted key limit window before n (srv.expire key window s) e
        (law.expire_keeps key key window s ∙ c)
  counted_check-Counted key limit window before (ok (n, t), s) h =
      let (e, c) = h n t refl in (e, refl, c)

  -- What the manager returns of it.
  abbrev Outcome : Text → ℕ → ℕ → (Bool × ℕ × ℕ) × Manager srv → Type 0
  Outcome key limit before ((allowed, n, reset), m) =
      (allowed ≡ true) × (n ≡ 0)
      ⊎ (n ≡ before + 1) × (allowed ≡ leb n limit) × (counter m.server key ≡ n)

  caught-Outcome :
      (key : Text) (limit before : ℕ) (r : Reply (Bool × ℕ × ℕ) × srv.State) (m : Manager srv)
      → Counted key limit before r
      → Outcome key limit before (caught srv (true, 0, 0) r m)
  caught-Outcome key limit before (ok (allowed, n, t), s) m c = inr c
  caught-Outcome key limit before (redis_error, s) m c = inl (refl, refl)

  -- On a server that counts, a check answers in one of two ways: it reports the count 0, and
  -- allows the request, where the request could not be counted; or it reports the counter's value
  -- with this request in it, allows the request exactly if that is within the limit, and leaves the
  -- counter at that value.
  pub rate_limit_check-counts :
      (key : Text) (limit window : ℕ) (m : Manager srv)
      → let r = rate_limit_check srv key limit window m in
        (r.0.0 ≡ true) × (r.0.1 ≡ 0)
        ⊎ (r.0.1 ≡ counter m.server key + 1)
          × (r.0.0 ≡ leb r.0.1 limit)
          × (counter r.1.server key ≡ r.0.1)
  unfolding rate_limit_check attempt
  rate_limit_check-counts key limit window m =
      let s = (get_client srv m).1.server in
      let checked : Counted key limit (counter m.server key)
          (counted_check srv key limit window (srv.incr_ttl key s)) =
        counted_check-Counted key limit window (counter m.server key) (srv.incr_ttl key s) (λ n t e.
          (
            law.counts key s n t e ∙ ap (λ c. c + 1) (get_client-counter key m),
            law.counted key s n t e,
          )) in
      elim (Bool-cases (get_client srv m).0) [
        | inl there ↦
            rw there
              (caught-Outcome key limit (counter m.server key) _ (get_client srv m).1 checked)
        | inr gone ↦ rw gone (inl (refl, refl))
      ]
