-- ===== src/Cache/Remote.antt =====
-- `RedisCacheBackend` of app/core/cache_backends.py, over the shared manager. The JSON encoding of
-- `_serialize` and `_deserialize` is a pair of parameters. The statistics are those of the backend;
-- `get_stats` and `health_check`, which report a latency, are not modelled.
use headwater.Prelude.{
  ℕ, ◌+◌, Bool, true, false, not, Option, none, some, [], ◌∷◌, Text, codes, is_empty, ltb,
  if◌then◌else◌,
}
use headwater.Redis.{
  Manager, is_available, manager_get, manager_set, manager_delete, manager_exists, manager_keys,
}
use headwater.Redis.Client.{Server}

module _ (srv : Server) where
  pub record Remote : Type 0 where
    pub manager : Manager srv
    pub hits : ℕ
    pub misses : ℕ
    pub sets : ℕ
    pub deletes : ℕ

  module _ {V : Type 0} (serialize : Option V → Text) (deserialize : Text → Option V) where
    unfoldable pub get : Text → Remote → Option V × Remote
    get key r =
        if not (is_available srv r.manager)
        then (none, r)
        else (let (value, m) = manager_get srv key r.manager in
            elim value [
              | none ↦ (none, record r { manager = m; misses = r.misses + 1 })
              | some raw ↦ (deserialize raw, record r { manager = m; hits = r.hits + 1 })
            ])

    unfoldable pub set : (key : Text) (value : Option V) (ttl : ℕ) → Remote → Bool × Remote
    set key value ttl r =
        if not (is_available srv r.manager)
        then (false, r)
        else (let (success, m) = manager_set srv key (serialize value) (some ttl) r.manager in
            (success, record r { manager = m; sets = if success then r.sets + 1 else r.sets }))

  unfoldable pub delete : Text → Remote → Bool × Remote
  delete key r =
      if not (is_available srv r.manager)
      then (false, r)
      else (let (count, m) = manager_delete srv (key ∷ []) r.manager in
          if ltb 0 count
          then (true, record r { manager = m; deletes = r.deletes + 1 })
          else (false, record r { manager = m }))

  -- `pattern if pattern else "cache:*"`
  abbrev search_pattern : Option Text → Text
  search_pattern none = codes "cache:*"
  search_pattern (some []) = codes "cache:*"
  search_pattern (some (c ∷ p)) = c ∷ p

  unfoldable pub clear : Option Text → Remote → ℕ × Remote
  clear pattern r =
      if not (is_available srv r.manager)
      then (0, r)
      else (let (keys, m) = manager_keys srv (search_pattern pattern) r.manager in
          if is_empty keys
          then (0, record r { manager = m })
          else (let (count, m') = manager_delete srv keys m in (count, record r { manager = m' })))

  unfoldable pub exists : Text → Remote → Bool × Remote
  exists key r =
      if not (is_available srv r.manager)
      then (false, r)
      else (let (count, m) = manager_exists srv (key ∷ []) r.manager in
          (ltb 0 count, record r { manager = m }))
