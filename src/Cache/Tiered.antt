-- ===== src/Cache/Tiered.antt =====
-- `TieredCacheBackend` of app/core/cache_backends.py: the memory cache before a Redis that may not
-- be configured. A method reads the memory cache's clock once for each call that it makes of it.
pub mod Reads
use headwater.Prelude.{
  ℕ, ◌+◌, Bool, true, false, ◌||◌, Option, none, some, Text, min, if◌then◌else◌,
}
use headwater.Cache.Memory
use headwater.Cache.Memory.{Memory}
use headwater.Cache.Remote
use headwater.Cache.Remote.{Remote}
use headwater.Redis.Client.{Server}

module _ (srv : Server) (V : Type 0) where
  pub record Tiered : Type 0 where
    pub memory : Memory V
    pub redis : Option (Remote srv)

module _ (srv : Server) {V : Type 0} where
  module _ (serialize : Option V → Text) (deserialize : Text → Option V) where
    -- The value that Redis gave is put into the memory cache for 60 seconds.
    abbrev promote :
        (key : Text) (now : ℕ) → Option V × Remote srv → Memory V → Option V × Tiered srv V
    promote key now (none, r) m = (none, record { memory = m; redis = some r })
    promote key now (some value, r) m =
        (some value, record { memory = (Memory.set key (some value) 60 now m).1; redis = some r })

    unfoldable pub get : (key : Text) (now later : ℕ) → Tiered srv V → Option V × Tiered srv V
    get key now later c =
        let (value, m) = Memory.get key now c.memory in
        elim value [
          | some v ↦ (some v, record c { memory = m })
          | none ↦ elim c.redis [
            | none ↦ (none, record c { memory = m })
            | some r ↦ promote key later (Remote.get srv serialize deserialize key r) m
          ]
        ]

    -- The memory cache keeps a value for 300 seconds at most.
    unfoldable pub set :
        (key : Text) (value : Option V) (ttl now : ℕ) → Tiered srv V → Bool × Tiered srv V
    set key value ttl now c =
        let (memory_result, m) = Memory.set key value (min ttl 300) now c.memory in
        elim c.redis [
          | none ↦ (true, record c { memory = m })
          | some r ↦
              let (redis_result, r') = Remote.set srv serialize deserialize key value ttl r in
              (memory_result || redis_result, record { memory = m; redis = some r' })
        ]

  unfoldable pub delete : Text → Tiered srv V → Bool × Tiered srv V
  delete key c =
      let (memory_result, m) = Memory.delete key c.memory in
      elim c.redis [
        | none ↦ (memory_result || true, record c { memory = m })
        | some r ↦
            let (redis_result, r') = Remote.delete srv key r in
            (memory_result || redis_result, record { memory = m; redis = some r' })
      ]

  unfoldable pub clear : Option Text → Tiered srv V → ℕ × Tiered srv V
  clear pattern c =
      let (memory_count, m) = Memory.clear pattern c.memory in
      elim c.redis [
        | none ↦ (memory_count + 0, record c { memory = m })
        | some r ↦
            let (redis_count, r') = Remote.clear srv pattern r in
            (memory_count + redis_count, record { memory = m; redis = some r' })
      ]

  unfoldable pub exists : (key : Text) (now : ℕ) → Tiered srv V → Bool × Tiered srv V
  exists key now c =
      let (here, m) = Memory.exists key now c.memory in
      if here then (true, record c { memory = m }) else elim c.redis [
        | none ↦ (false, record c { memory = m })
        | some r ↦
            let (there, r') = Remote.exists srv key r in
            (there, record { memory = m; redis = some r' })
      ]
