-- ===== src/Cache/Memory.antt =====
-- `MemoryCacheBackend` of app/core/cache_backends.py. A stored value may be Python's `None`, so
-- values are optional. Times are whole millionths of a second, a method reads the clock once,
-- under its lock, and times to live are not negative. The hit rate of `get_stats`, a formatted
-- float, is not modelled.
pub mod View
pub mod Refines
use headwater.Prelude.{
  ℕ, ◌+◌, ◌*◌, Bool, true, false, Option, none, some, List, [], ◌∷◌, Text, rstrip, starts_with,
  length, leb, ltb, ◌==◌, if◌then◌else◌,
}
use headwater.Dict.{Dict, lookup, put, remove, keys_where, remove_all}
use headwater.RateLimiter.Info.{second}

-- `(value, expiry)`
abbrev pub Entry : Type 0 → Type 0
Entry V = Option V × ℕ

pub record Memory (V : Type 0) : Type 0 where
  pub store : Dict (Entry V)
  pub hits : ℕ
  pub misses : ℕ
  pub sets : ℕ
  pub deletes : ℕ

module _ {V : Type 0} where
  abbrev pub empty : Memory V
  empty = record { store = []; hits = 0; misses = 0; sets = 0; deletes = 0 }

  unfoldable pub get : (key : Text) (now : ℕ) → Memory V → Option V × Memory V
  get key now m = elim (lookup key m.store) [
    | none ↦ (none, record m { misses = m.misses + 1 })
    | some (value, expiry) ↦
        if ltb now expiry
        then (value, record m { hits = m.hits + 1 })
        else (none, record m { store = remove key m.store; misses = m.misses + 1 })
  ]

  unfoldable pub set : (key : Text) (value : Option V) (ttl now : ℕ) → Memory V → Bool × Memory V
  set key value ttl now m =
      (true, record m { store = put key (value, now + ttl * second) m.store; sets = m.sets + 1 })

  unfoldable pub delete : (key : Text) → Memory V → Bool × Memory V
  delete key m = elim (lookup key m.store) [
    | none ↦ (false, m)
    | some entry ↦ (true, record m { store = remove key m.store; deletes = m.deletes + 1 })
  ]

  unfoldable pub matching : Text → Dict (Entry V) → List Text
  matching prefix = keys_where (λ k _. starts_with k prefix)

  -- A pattern without a prefix of its own, such as `"*"`, matches every key; so does none at all.
  unfoldable pub clear : (pattern : Option Text) → Memory V → ℕ × Memory V
  unfolding matching rstrip
  clear none m = (length m.store, record m { store = [] })
  clear (some []) m = (length m.store, record m { store = [] })
  clear (some (c ∷ p)) m =
      let keys_to_delete = matching (rstrip (λ x. x == b'*') (c ∷ p)) m.store in
      (length keys_to_delete, record m { store = remove_all keys_to_delete m.store })

  unfoldable pub exists : (key : Text) (now : ℕ) → Memory V → Bool × Memory V
  exists key now m = elim (lookup key m.store) [
    | none ↦ (false, m)
    | some (value, expiry) ↦
        if ltb now expiry then (true, m) else (false, record m { store = remove key m.store })
  ]

  unfoldable pub cleanup_expired : (now : ℕ) → Memory V → ℕ × Memory V
  cleanup_expired now m =
      let expired_keys = keys_where (λ _ e. leb e.1 now) m.store in
      (length expired_keys, record m { store = remove_all expired_keys m.store })
