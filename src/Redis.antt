-- ===== src/Redis.antt =====
-- `RedisManager` of app/core/redis_manager.py. The Redis client library and the server behind it
-- are parameters: an operation of `Server` answers, or raises `RedisError`. Other exceptions of the
-- client, the locking of `get_instance` and the pool's settings are not modelled.
use headwater.Redis.Client.{seconds, missing, Ttl}
pub mod Client
pub mod Counters
pub mod Failures
pub mod Available
use headwater.Prelude.{
  leb, [], ◌∷◌, List, ℕ, zero, suc, ◌+◌, Bool, true, false, not, ◌&&◌, Option, none, some, Text,
  ltb, is_empty, if◌then◌else◌,
}
use Client.{Server, Reply, ok, redis_error, Ttl, seconds, no_expiry, missing}

module _ (srv : Server) where
  open srv use {State, ping, get, setex, set, delete, exists, incr, expire, ttl, keys, incr_ttl}

  -- `client` says whether `_client` is set.
  pub record Manager : Type 0 where
    pub redis_url : Option Text
    pub client : Bool
    pub initialized : Bool
    pub connection_error_count : ℕ
    pub server : State

  abbrev max_connection_errors : ℕ
  max_connection_errors = 5

  unfoldable pub is_available : Manager → Bool
  is_available m = m.client && m.initialized

  abbrev configured : Option Text → Bool
  configured none = false
  configured (some url) = not (is_empty url)

  -- `from_url` followed by `ping`; a failure of either leaves no client.
  connect : Reply (Unit {0}) × State → Manager → Manager
  connect (ok _, s) m = record m {
    client = true;
    initialized = true;
    connection_error_count = 0;
    server = s;
  }
  connect (redis_error, s) m = record m { client = false; server = s }

  unfoldable pub initialize : Manager → Manager
  unfolding connect
  initialize m =
      if m.initialized then m else if configured m.redis_url then connect (ping m.server) m else m

  -- Whether there is a client, after an attempt to connect if there is none.
  unfoldable pub get_client : Manager → Bool × Manager
  unfolding initialize
  get_client m =
      let m' =
        if not m.client && ltb m.connection_error_count max_connection_errors
        then initialize m
        else m in
      (m'.client, m')

  unfoldable pub handle_connection_error : Manager → Manager
  handle_connection_error m = record m { connection_error_count = m.connection_error_count + 1 }

  -- The answer, or `fallback` where the client raises `RedisError`, which is counted.
  abbrev caught : {A : Type 0} → A → Reply A × State → Manager → A × Manager
  caught fallback (ok a, s) m = (a, record m { server = s })
  caught fallback (redis_error, s) m = (fallback, handle_connection_error (record m { server = s }))

  -- How an operation is wrapped: `fallback` where there is no client either.
  unfoldable pub attempt : {A : Type 0} → A → (State → Reply A × State) → Manager → A × Manager
  unfolding get_client handle_connection_error
  attempt fallback op m =
      let (client, m') = get_client m in
      if client then caught fallback (op m'.server) m' else (fallback, m')

  -- `none` is the failure of an operation whose answer is otherwise `some`.
  abbrev mapped : {A B : Type 0} → (A → B) → Reply A × State → Reply B × State
  mapped f (ok a, s) = (ok (f a), s)
  mapped f (redis_error, s) = (redis_error, s)

  unfoldable pub manager_get : Text → Manager → Option Text × Manager
  unfolding attempt
  manager_get key = attempt none (get key)

  -- `if ttl:` is false at 0 too.
  unfoldable pub manager_set : (key value : Text) → Option ℕ → Manager → Bool × Manager
  unfolding attempt
  manager_set key value none = attempt false (λ s. mapped (λ _. true) (set key value s))
  manager_set key value (some zero) = attempt false (λ s. mapped (λ _. true) (set key value s))
  manager_set key value (some (suc t)) =
      attempt false (λ s. mapped (λ _. true) (setex key (suc t) value s))

  -- The client is asked for before the keys are looked at.
  unfoldable pub manager_delete : List Text → Manager → ℕ × Manager
  unfolding attempt
  manager_delete [] m = (0, (get_client m).1)
  manager_delete (k ∷ ks) m = attempt 0 (delete (k ∷ ks)) m

  unfoldable pub manager_exists : List Text → Manager → ℕ × Manager
  unfolding attempt
  manager_exists [] m = (0, (get_client m).1)
  manager_exists (k ∷ ks) m = attempt 0 (exists (k ∷ ks)) m

  unfoldable pub manager_incr : Text → Manager → Option ℕ × Manager
  unfolding attempt
  manager_incr key = attempt none (λ s. mapped some (incr key s))

  unfoldable pub manager_expire : Text → ℕ → Manager → Bool × Manager
  unfolding attempt
  manager_expire key t = attempt false (expire key t)

  unfoldable pub manager_ttl : Text → Manager → Ttl × Manager
  unfolding attempt
  manager_ttl key = attempt missing (ttl key)

  unfoldable pub manager_keys : Text → Manager → List Text × Manager
  unfolding attempt
  manager_keys pattern = attempt [] (keys pattern)

  -- `max(0, ttl)`
  abbrev pub reset_time : Ttl → ℕ
  reset_time (seconds n) = n
  reset_time no_expiry = 0
  reset_time missing = 0

  -- The request has been counted. A key with no expiry is given one; if that fails the exception
  -- ends the check.
  abbrev after_expire : Bool × ℕ × ℕ → Reply Bool × State → Reply (Bool × ℕ × ℕ) × State
  after_expire r (ok _, s) = (ok r, s)
  after_expire r (redis_error, s) = (redis_error, s)

  unfoldable pub counted_check :
      (key : Text) (limit window : ℕ) → Reply (ℕ × Ttl) × State → Reply (Bool × ℕ × ℕ) × State
  counted_check key limit window (redis_error, s) = (redis_error, s)
  counted_check key limit window (ok (current, no_expiry), s) =
      after_expire (leb current limit, current, window) (expire key window s)
  counted_check key limit window (ok (current, t), s) =
      (ok (leb current limit, current, reset_time t), s)

  -- (allowed, current_count, reset_time)
  unfoldable pub rate_limit_check :
      (key : Text) (limit window : ℕ) → Manager → (Bool × ℕ × ℕ) × Manager
  unfolding attempt counted_check
  rate_limit_check key limit window =
      attempt (true, 0, 0) (λ s. counted_check key limit window (incr_ttl key s))

  -- `reset_connection`: the old client is closed, and a new connection tried.
  unfoldable pub reset_connection : Manager → Bool × Manager
  unfolding initialize
  reset_connection m =
      let m' =
        initialize (record m { client = false; initialized = false; connection_error_count = 0 }) in
      (m'.initialized, m')

  unfoldable pub close : Manager → Manager
  close m = if m.client then record m { client = false; initialized = false } else m
