-- ===== src/CacheManager/Calls.antt =====
-- `cached` and `get_cached_or_fetch` of app/core/cache_manager.py: a function whose result is
-- remembered. The function is a parameter, which may change its world and may raise.
use headwater.Prelude.{ℕ, Bool, true, false, Option, none, Text, if◌then◌else◌}
use headwater.Exec.{Exec, Result, ok, raise, ◌>>=◌}
use headwater.Redis.Client.{Server}
use headwater.CacheManager.{Config, Caches, CacheFault, get, set}
use headwater.CacheManager.Values.{Types, Value, Codec, null}

-- What leaves a call: the function's own exception, or that of `set`.
pub data Raised (E : Type 0) : Type 0 where
  from_function : E → Raised E
  from_cache : CacheFault → Raised E

module _ {T : Types} where
  -- `value is None`
  abbrev pub is_none : Value T → Bool
  is_none null = true
  is_none _ = false

module _ {srv : Server} {T : Types} {W E : Type 0} where
  abbrev pub fetched :
      Result E (Value T) × W → Caches srv T → Result (Raised E) (Value T) × (Caches srv T × W)
  fetched (ok v, w) s = (ok v, (s, w))
  fetched (raise e, w) s = (raise (from_function e), (s, w))

  -- `await func(*args, **kwargs)`
  unfoldable pub fetch : Exec W E (Value T) → Exec (Caches srv T × W) (Raised E) (Value T)
  fetch func (s, w) = fetched (func w) s

  abbrev pub stored :
      Value T
      → Result CacheFault Bool × Caches srv T
      → W
      → Result (Raised E) (Value T) × (Caches srv T × W)
  stored v (ok _, s) w = (ok v, (s, w))
  stored v (raise f, s) w = (raise (from_cache f), (s, w))

module _ {srv : Server} {T : Types} {W E : Type 0} (C : Codec T) (cfg : Config) where
  -- `set`, and then the value itself, as the function has returned it.
  unfoldable pub store_result :
      (key : Text) (namespace : Option Text) (ttl : Option ℕ) (now : ℕ)
      → Value T
      → Exec (Caches srv T × W) (Raised E) (Value T)
  store_result key namespace ttl now v (s, w) = stored v (set C cfg key v ttl namespace now s) w

  -- `now` is the time of the read, and `later` that of the write.
  unfoldable pub get_or_fetch :
      Exec W E (Value T)
      → (key : Text) (namespace : Option Text) (ttl : Option ℕ) (now later : ℕ)
      → Exec (Caches srv T × W) (Raised E) (Value T)
  unfolding fetch store_result
  get_or_fetch func key namespace ttl now later (s, w) =
      let (value, s') = get C cfg key namespace null now s in
      if is_none value
      then (fetch func >>= store_result key namespace ttl later) (s', w)
      else (ok value, (s', w))

  -- The wrapper, at a key that was built from the arguments.
  unfoldable pub cached :
      Exec W E (Value T)
      → (key : Text) (namespace : Option Text) (ttl : Option ℕ) (now later : ℕ)
      → Exec (Caches srv T × W) (Raised E) (Value T)
  unfolding get_or_fetch
  cached func key namespace ttl now later =
      if cfg.enabled then get_or_fetch func key namespace ttl now later else fetch func

  unfoldable pub get_cached_or_fetch :
      Exec W E (Value T)
      → (cache_key : Text) (ttl : Option ℕ) (now later : ℕ)
      → Exec (Caches srv T × W) (Raised E) (Value T)
  unfolding get_or_fetch
  get_cached_or_fetch func cache_key ttl = get_or_fetch func cache_key none ttl
