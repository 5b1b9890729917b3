-- ===== src/CacheManager.antt =====
-- `CacheManager` of app/core/cache_manager.py over the shared Redis manager, which
-- `RedisManager.get_instance` always returns, and the process-local store. `_cache_lock` makes each
-- access to the store one step. Times to live are natural numbers.
pub mod Values
pub mod Envelope
pub mod Keys
pub mod Restored
pub mod RoundTrip
pub mod Reads
pub mod Calls
pub mod Remembered
pub mod Namespaces
pub mod Local
pub mod Erased
use headwater.Prelude.{
  ℕ, ◌+◌, Bool, true, false, not, ◌||◌, Option, none, some, [], ◌∷◌, ◌++◌, Text, codes, is_empty,
  is_some, starts_with, ltb, leb, if◌then◌else◌,
}
use headwater.Dict.{Dict, lookup, put, remove, keys_where, remove_all}
use headwater.Exec.{Result, ok, raise}
use headwater.Redis.{Manager, is_available, manager_get, manager_set, manager_delete, manager_keys}
use headwater.Redis.Client.{Server}
use Values.{Types, Value, Codec}
use Envelope.{serialize, deserialize}
use Keys.{prefix_of, generate_key}

-- An exception of `_deserialize` leaves `set`.
pub data CacheFault : Type 0 where
  undecodable : CacheFault

-- The fields of the manager that its settings fix.
pub record Config : Type 0 where
  pub enabled : Bool
  pub ttl : ℕ

module _ (srv : Server) (T : Types) where
  pub record Caches : Type 0 where
    pub redis : Manager srv
    pub cache_store : Dict (Value T × ℕ)

abbrev ttl_or : Config → Option ℕ → ℕ
ttl_or cfg none = cfg.ttl
ttl_or cfg (some t) = t

module _ {T : Types} where
  abbrev found_or : Value T → Option (Value T) → Value T
  found_or default none = default
  found_or default (some v) = v

module _ {srv : Server} {T : Types} where
  abbrev read_entry :
      Text → (now : ℕ) → Option (Value T × ℕ) → Caches srv T → Option (Value T) × Caches srv T
  read_entry full_key now none s = (none, s)
  read_entry full_key now (some (value, expiry)) s =
      if ltb now expiry
      then (some value, s)
      else (none, record s { cache_store = remove full_key s.cache_store })

  unfoldable pub get_local : Text → (now : ℕ) → Caches srv T → Option (Value T) × Caches srv T
  get_local full_key now s = read_entry full_key now (lookup full_key s.cache_store) s

  unfoldable pub set_remote : Text → Text → (ttl : ℕ) → Caches srv T → Bool × Caches srv T
  set_remote full_key serialized ttl s =
      if not (is_available srv s.redis)
      then (false, s)
      else (let (success, m) = manager_set srv full_key serialized (some ttl) s.redis in
          (success, record s { redis = m }))

  -- The store gets the value as it is read back.
  abbrev store_local :
      Text → (expiry : ℕ) → Option (Value T) → Caches srv T → Result CacheFault Bool × Caches srv T
  store_local full_key expiry none s = (raise undecodable, s)
  store_local full_key expiry (some v) s =
      (ok true, record s { cache_store = put full_key (v, expiry) s.cache_store })

  -- A value that cannot be serialized is refused.
  abbrev when_serialized :
      Option Text
      → (Text → Caches srv T → Result CacheFault Bool × Caches srv T)
      → Caches srv T
      → Result CacheFault Bool × Caches srv T
  when_serialized none f s = (ok false, s)
  when_serialized (some raw) f s = f raw s

  unfoldable pub delete_remote : Text → Caches srv T → Bool × Caches srv T
  delete_remote full_key s =
      if not (is_available srv s.redis)
      then (false, s)
      else (let (count, m) = manager_delete srv (full_key ∷ []) s.redis in
          (ltb 0 count, record s { redis = m }))

  unfoldable pub delete_local : Text → Caches srv T → Bool × Caches srv T
  delete_local full_key s =
      if is_some (lookup full_key s.cache_store)
      then (true, record s { cache_store = remove full_key s.cache_store })
      else (false, s)

  unfoldable pub delete :
      (cfg : Config) (key : Text) (namespace : Option Text) → Caches srv T → Bool × Caches srv T
  unfolding delete_remote delete_local generate_key
  delete cfg key namespace s =
      if not cfg.enabled
      then (false, s)
      else (let (deleted, s') = delete_remote (generate_key key namespace) s in
          let (deleted_here, s'') = delete_local (generate_key key namespace) s' in
          (deleted || deleted_here, s''))

  -- `prefix_of`, and a star
  unfoldable pub clear_remote : (namespace : Option Text) → Caches srv T → Caches srv T
  clear_remote namespace s =
      if not (is_available srv s.redis)
      then s
      else (let (keys, m) = manager_keys srv (prefix_of namespace ++ codes "*") s.redis in
          if is_empty keys
          then record s { redis = m }
          else record s { redis = (manager_delete srv keys m).1 })

  -- All of the store, or the keys of the namespace.
  unfoldable pub clear_local : (namespace : Option Text) → Caches srv T → Caches srv T
  clear_local none s = record s { cache_store = [] }
  clear_local (some []) s = record s { cache_store = [] }
  clear_local (some (c ∷ ns)) s =
      let prefix = prefix_of (some (c ∷ ns)) in
      record s {
        cache_store =
            remove_all (keys_where (λ k v. starts_with k prefix) s.cache_store) s.cache_store;
      }

  unfoldable pub clear :
      (cfg : Config) (namespace : Option Text) → Caches srv T → Bool × Caches srv T
  unfolding clear_remote clear_local
  clear cfg namespace s =
      if not cfg.enabled
      then (false, s)
      else (true, clear_local namespace (clear_remote namespace s))

  -- A pass of the loop of `cleanup_cache_store`.
  unfoldable pub cleanup : (now : ℕ) → Caches srv T → Caches srv T
  cleanup now s = record s {
    cache_store = remove_all (keys_where (λ k e. leb e.1 now) s.cache_store) s.cache_store;
  }

module _ {srv : Server} {T : Types} (C : Codec T) where
  -- The value of a key in Redis, if there is one, no operation fails and it can be decoded.
  unfoldable pub get_remote : Text → Caches srv T → Option (Value T) × Caches srv T
  unfolding deserialize
  get_remote full_key s =
      if not (is_available srv s.redis)
      then (none, s)
      else (let (value, m) = manager_get srv full_key s.redis in
          elim value [
            | none ↦ (none, record s { redis = m })
            | some raw ↦ (deserialize C raw, record s { redis = m })
          ])

  -- What `get` finds, `none` for a miss, where the caller's default stands in.
  unfoldable pub find : Text → (now : ℕ) → Caches srv T → Option (Value T) × Caches srv T
  unfolding get_remote get_local
  find full_key now s =
      let (value, s') = get_remote full_key s in
      elim value [ none ↦ get_local full_key now s' | some v ↦ (some v, s') ]

  unfoldable pub get :
      (cfg : Config) (key : Text) (namespace : Option Text) (default : Value T) (now : ℕ)
      → Caches srv T
      → Value T × Caches srv T
  unfolding find generate_key
  get cfg key namespace default now s =
      if not cfg.enabled
      then (default, s)
      else (let (value, s') = find (generate_key key namespace) now s in
          (found_or default value, s'))

  unfoldable pub set_local :
      Text → Text → (ttl now : ℕ) → Caches srv T → Result CacheFault Bool × Caches srv T
  unfolding deserialize
  set_local full_key serialized ttl now s =
      store_local full_key (now + ttl) (deserialize C serialized) s

  unfoldable pub set_serialized :
      (full_key serialized : Text) (ttl now : ℕ)
      → Caches srv T
      → Result CacheFault Bool × Caches srv T
  unfolding set_remote set_local
  set_serialized full_key serialized ttl now s =
      let (success, s') = set_remote full_key serialized ttl s in
      let kept = set_local full_key serialized ttl now s' in if success then (ok true, s') else kept

  unfoldable pub set :
      (cfg : Config) (key : Text) (value : Value T) (ttl : Option ℕ) (namespace : Option Text)
      (now : ℕ)
      → Caches srv T
      → Result CacheFault Bool × Caches srv T
  unfolding serialize set_serialized generate_key
  set cfg key value ttl namespace now s =
      if not cfg.enabled
      then (ok false, s)
      else when_serialized (serialize C value)
          (λ raw. set_serialized (generate_key key namespace) raw (ttl_or cfg ttl) now) s
