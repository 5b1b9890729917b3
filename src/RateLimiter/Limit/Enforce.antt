-- ===== src/RateLimiter/Limit/Enforce.antt =====
-- No request passes an enabled limiter uncounted.
use headwater.Prelude.{
  is_some, none, ◌∙◌, ◌+◌, ap, text_eq_refl, ℕ, zero, suc, ◌≤◌, ◌<◌, ◌≡◌, refl, sym, max, Bool,
  true, false, not, Option, some, Text, leb, Bool-cases, inl, inr, ◌⊎◌, arith,
}
use mathlib.Core.Path.{subst}
use headwater.Dict.{lookup, put}
use headwater.Dict.Laws.{lookup-put}
use headwater.Redis.{is_available}
use headwater.Redis.Client.{Server, IsCounting}
use headwater.Redis.Counters.{initialize-counter, rate_limit_check-counts}
use headwater.RateLimiter.Deployment.{
  Settings, fail_open_enabled, get_worker_count, redis_url_of, requires_shared_store,
}
use headwater.RateLimiter.Identity.{configured_api_keys, get_rate_limit_key, Request}
use headwater.RateLimiter.Info.{Info, get_rate_limit_headers}
use headwater.RateLimiter.Memory.{Store, Window, count, expired, check_rate_limit_memory}
use headwater.RateLimiter.Limit.{
  Process, Limiter, requests, timeframe, Verdict, off, decided, unavailable, Response, Outcome,
  response, too_many_response, unavailable_response, add_headers, handle_unavailable, answer, World,
  get_instance, read_redis, check_rate_limit_redis, decide, is_rate_limited, limit,
}

-- A verdict of an enabled limiter, where `K` says what was counted: a request that is let through
-- is within the limit (or is the first of its window), and one that is refused is past it.
abbrev pub IsSound : (K : ℕ → Type 0) → ℕ → Verdict → Type 0
IsSound K n off = ⊥
IsSound K n (unavailable e) = Unit
IsSound K n (decided true info) = K info.current × (n < info.current) × (info.limit ≡ n)
IsSound K n (decided false info) =
    K info.current × (1 ≤ info.current) × (info.current ≤ max 1 n) × (info.limit ≡ n)

decided-IsSound :
    (K : ℕ → Type 0) (n : ℕ) (refused : Bool) (info : Info)
    → K info.current
    → info.limit ≡ n
    → (refused ≡ true → n < info.current)
    → (refused ≡ false → (1 ≤ info.current) × (info.current ≤ max 1 n))
    → IsSound K n (decided refused info)
decided-IsSound K n true info k e past within = (k, past refl, e)
decided-IsSound K n false info k e past within = (k, (within refl).0, (within refl).1, e)

-- A count is at least one, and is one where a window opens.
count_pos :
    (tf now : ℕ) (o : Option Window)
    → (1 ≤ (count tf now o).1.0) × ((count tf now o).0 ≡ true → (count tf now o).1.0 ≡ 1)
unfolding count
count_pos tf now o = ground arith

-- The bucket stands at `k` afterwards, which is 1 in a new window, and otherwise one more than
-- before in the same one.
abbrev pub InStore : (key : Text) (before after : Store) (k : ℕ) → Type 0
InStore key before after k =
    (start : ℕ) × (lookup key after ≡ some (k, start))
    × ((k ≡ 1) ⊎ ((j : ℕ) × (lookup key before ≡ some (j, start)) × (k ≡ j + 1)))

count_step :
    (tf now : ℕ) (o : Option Window)
    → let c = (count tf now o).1 in (c.0 ≡ 1) ⊎ ((j : ℕ) × (o ≡ some (j, c.1)) × (c.0 ≡ j + 1))
unfolding count
count_step tf now none = inl refl
count_step tf now (some (j, start)) = elim (Bool-cases (expired tf now (j, start))) [
  | inl e ↦ rw e (inl refl)
  | inr e ↦ rw e (inr (j, refl, refl))
]

check-IsSound :
    (key : Text) (n tf now later : ℕ) (s : Store)
    → let r = check_rate_limit_memory key n tf now later s in
      IsSound (InStore key s r.1) n (decided r.0.0 r.0.1)
unfolding check_rate_limit_memory get_rate_limit_headers
check-IsSound key n tf now later s =
    let c = count_pos tf now (lookup key s) in
    let w = (count tf now (lookup key s)).1 in
    decided-IsSound (InStore key s (put key w s)) n _ _
      (w.1, lookup-put key key w s ∙ rw (text_eq_refl key) refl, count_step tf now (lookup key s))
      refl (λ h. ground arith) (λ h. (c.0, ground arith))

module _ (srv : Server) (counter : srv.State → Text → ℕ) (law : IsCounting srv counter) where
  -- The counter of the server stands at `k` afterwards, one more than before.
  abbrev pub InRedis : (key : Text) (before after : World srv) (k : ℕ) → Type 0
  InRedis key before after k =
      (counter after.manager.server key ≡ k) × (k ≡ counter before.manager.server key + 1)

  get_instance-counter :
      (key : Text) (w : World srv)
      → counter (get_instance srv w).manager.server key ≡ counter w.manager.server key
  unfolding get_instance
  get_instance-counter key w = elim (Bool-cases w.created) [
    | inl e ↦ rw e refl
    | inr e ↦ rw e (initialize-counter srv counter law key w.manager)
  ]

  read_redis-IsSound :
      (K : ℕ → Type 0) (n tf now : ℕ) (r : Bool × ℕ × ℕ)
      → K r.1
      → r.0 ≡ leb r.1 n
      → IsSound K n (read_redis srv n tf now r)
  unfolding read_redis get_rate_limit_headers
  read_redis-IsSound K n tf now (allowed, zero, reset) c h = tt
  read_redis-IsSound K n tf now (allowed, suc k, reset) c h =
      decided-IsSound K n (not allowed) _ c refl (λ e. ground arith)
        (λ e. (omega arith, ground arith))

  read_uncounted :
      (K : ℕ → Type 0) (n tf now : ℕ) (r : Bool × ℕ × ℕ)
      → r.1 ≡ 0
      → IsSound K n (read_redis srv n tf now r)
  unfolding read_redis
  read_uncounted K n tf now (allowed, zero, reset) h = tt
  read_uncounted K n tf now (allowed, suc k, reset) h = absurd (omega arith)

  check_redis-IsSound :
      (key : Text) (n tf now : ℕ) (w : World srv)
      → let r = check_rate_limit_redis srv key n tf now w in IsSound (InRedis key w r.1) n r.0
  unfolding check_rate_limit_redis
  check_redis-IsSound key n tf now w =
      let after = (check_rate_limit_redis srv key n tf now w).1 in
      elim (rate_limit_check-counts srv counter law key n tf w.manager) [
        | inl lost ↦ read_uncounted (InRedis key w after) n tf now _ lost.1
        | inr kept ↦ read_redis-IsSound (InRedis key w after) n tf now _ (kept.2, kept.0) kept.1
      ]

  -- What was counted: in Redis where one is configured, and in the process's store otherwise.
  abbrev pub Counted :
      (settings : Settings) (key : Text) (before after : World srv) (k : ℕ) → Type 0
  Counted settings key before after k =
      ((is_some (redis_url_of settings) ≡ true) × InRedis key before after k)
      ⊎ ((is_some (redis_url_of settings) ≡ false) × InStore key before.store after.store k)

  IsSound-map :
      (K L : ℕ → Type 0) (n : ℕ) (v : Verdict)
      → ((k : ℕ) → K k → L k)
      → IsSound K n v
      → IsSound L n v
  IsSound-map K L n off f h = h
  IsSound-map K L n (unavailable e) f h = tt
  IsSound-map K L n (decided true info) f h = (f info.current h.0, h.1, h.2)
  IsSound-map K L n (decided false info) f h = (f info.current h.0, h.1, h.2, h.3)

  decide-IsSound :
      (p : Process) (settings : Settings) (key : Text) (n tf now later : ℕ) (w : World srv)
      → let r = decide srv p settings key n tf now later w in
        IsSound (Counted settings key w r.1) n r.0
  unfolding decide
  decide-IsSound p settings key n tf now later w =
      elim (Bool-cases (is_some (redis_url_of settings))) [
        | inl redis ↦ elim (Bool-cases (is_available srv (get_instance srv w).manager)) [
          | inl up ↦
              let w' = get_instance srv w in
              let r = check_rate_limit_redis srv key n tf later w' in
              rw (redis, up)
                (IsSound-map (InRedis key w' r.1) _ n r.0
                  (λ k c. inl (redis, (c.0, c.1 ∙ ap (λ j. j + 1) (get_instance-counter key w))))
                  (check_redis-IsSound key n tf later w'))
          | inr down ↦ rw (redis, down) tt
        ]
        | inr memory ↦
            elim (Bool-cases (requires_shared_store settings (get_worker_count p.getenv p.argv))) [
              | inl shared ↦ rw (memory, shared) tt
              | inr alone ↦
                  let r = check_rate_limit_memory key n tf now later w.store in
                  let after = record w { store = r.1 } in
                  let sound : IsSound (Counted settings key w after) n (decided r.0.0 r.0.1) =
                    IsSound-map (InStore key w.store r.1) (Counted settings key w after) n
                      (decided r.0.0 r.0.1) (λ k c. inr (memory, c))
                      (check-IsSound key n tf now later w.store) in
                  rw (memory, alone) sound
            ]
      ]

  -- What a client of an enforcing limiter gets, where `K` says what was counted: the handler's
  -- response with the limiter's headers, for a request that is within the limit; 429 past the
  -- limit; or 503.
  abbrev pub Enforced : (K : ℕ → Type 0) → ℕ → Response → Outcome → Type 0
  Enforced K n handled o =
      ((info : Info) × (o ≡ response (add_headers info.headers handled))
        × K info.current
        × (1 ≤ info.current)
        × (info.current ≤ max 1 n)
        × (info.limit ≡ n))
      ⊎ ((info : Info) × (o ≡ response (too_many_response info))
          × K info.current
          × (n < info.current)
          × (info.limit ≡ n))
      ⊎ (o ≡ response unavailable_response)

  answer-Enforced :
      (K : ℕ → Type 0) (p : Process) (h : Request → Response) (r : Request) (n : ℕ) (v : Verdict)
      → fail_open_enabled p.getenv ≡ false
      → IsSound K n v
      → Enforced K n (h r) (answer p (some h) r v)
  unfolding answer handle_unavailable
  answer-Enforced K p h r n off closed s = absurd s
  answer-Enforced K p h r n (unavailable e) closed s = rw closed (inr (inr refl))
  answer-Enforced K p h r n (decided true info) closed s = inr (inl (info, refl, s.0, s.1, s.2))
  answer-Enforced K p h r n (decided false info) closed s = inl (info, refl, s.0, s.1, s.2, s.3)

  -- The bucket of a request
  abbrev pub bucket : Process → Limiter → Request → Text
  bucket p l r =
      get_rate_limit_key p.keyed_digest
        (configured_api_keys p.json_loads p.getenv l.settings.api_keys p.auth_keys) r

  -- With rate limiting enabled and no `RATE_LIMIT_FAIL_OPEN`, over a Redis server that counts or
  -- the in-memory store, in every deployment, a request has one of three outcomes. The handler
  -- answers it; then the bucket of the request, which is in Redis where one is configured, stands
  -- one higher than before (or at 1, in a new window of the store), and that count is within the
  -- limit or is 1. Or it gets 429; then the bucket was counted up in the same way, and the count is
  -- past the limit. Or it gets 503.
  pub limit-Enforced :
      (p : Process) (l : Limiter) (h : Request → Response) (r : Request) (now later : ℕ)
      (w : World srv)
      → l.settings.enabled ≡ true
      → fail_open_enabled p.getenv ≡ false
      → let o = limit srv p l (some h) r now later w in
        Enforced (Counted l.settings (bucket p l r) w o.1) (requests l) (h r) o.0
  unfolding limit is_rate_limited
  limit-Enforced p l h r now later w on closed =
      let key = bucket p l r in
      let v = decide srv p l.settings key (requests l) (timeframe l) now later w in
      let e : is_rate_limited srv p l r now later w ≡ v = ground arith in
      subst
        (λ (x : Verdict × World srv).
          Enforced (Counted l.settings key w x.1) (requests l) (h r) (answer p (some h) r x.0))
        (sym e)
        (answer-Enforced (Counted l.settings key w v.1) p h r (requests l) v.0 closed
          (decide-IsSound p l.settings key (requests l) (timeframe l) now later w))
