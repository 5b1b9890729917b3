-- ===== src/Cache/Memory/Refines.antt =====
-- The memory cache against an ideal one, which is only a function from times and keys to values.
use headwater.Prelude.{
  is_some, ℕ, ◌+◌, ◌*◌, ◌≤◌, ◌≡◌, ◌∙◌, refl, Option, none, some, List, [], ◌∷◌, Text, text_eq, ltb,
  if◌then◌else◌, All,
}
use mathlib.Core.Path.{fun_ext, ap}
use headwater.Dict.Laws.{put-IsDict}
use headwater.RateLimiter.Info.{second}
use headwater.Cache.Memory.{Memory, cleanup_expired}
use headwater.Cache.Memory.View.{
  view, flat, IsValid, cleared, view-get, reply-get, view-exists, view-set, view-delete, view-clear,
  view-cleanup, reply-exists, get-IsValid, exists-IsValid, delete-IsValid, clear-IsValid,
  cleanup-IsValid,
}

-- A call of a method, and the clock that it reads.
pub data Method (V : Type 0) : Type 0 where
  get exists delete : Text → Method V
  set : Text → Option V → ℕ → Method V
  clear : Option Text → Method V
  cleanup : Method V

pub record Call (V : Type 0) : Type 0 where
  pub method : Method V
  pub now : ℕ

module _ {V : Type 0} where
  unfoldable pub step : Method V → ℕ → Memory V → Memory V
  step (Method.get key) now m = (headwater.Cache.Memory.get key now m).1
  step (Method.exists key) now m = (headwater.Cache.Memory.exists key now m).1
  step (Method.delete key) now m = (headwater.Cache.Memory.delete key m).1
  step (Method.set key value ttl) now m = (headwater.Cache.Memory.set key value ttl now m).1
  step (Method.clear pattern) now m = (headwater.Cache.Memory.clear pattern m).1
  step Method.cleanup now m = (cleanup_expired now m).1

  unfoldable pub run : List (Call V) → Memory V → Memory V
  run [] m = m
  run (c ∷ cs) m = run cs (step c.method c.now m)

  -- The ideal cache at time `t`: reads and sweeps leave it alone, `delete` and `clear` remove what
  -- they name, and a value that is set at `now` is there until its time to live is over.
  abbrev pub ideal_step :
      Method V → (now t : ℕ) → (Text → Option (Option V)) → Text → Option (Option V)
  ideal_step (Method.get key) now t cache = cache
  ideal_step (Method.exists key) now t cache = cache
  ideal_step Method.cleanup now t cache = cache
  ideal_step (Method.delete key) now t cache = λ j. if text_eq key j then none else cache j
  ideal_step (Method.clear pattern) now t cache = λ j. if cleared pattern j then none else cache j
  ideal_step (Method.set key value ttl) now t cache = λ j.
      if text_eq key j then (if ltb t (now + ttl * second) then some value else none) else cache j

  unfoldable pub ideal : List (Call V) → ℕ → (Text → Option (Option V)) → Text → Option (Option V)
  ideal [] t cache = cache
  ideal (c ∷ cs) t cache = ideal cs t (ideal_step c.method c.now t cache)

  step-IsValid : (o : Method V) (now : ℕ) (m : Memory V) → IsValid m → IsValid (step o now m)
  unfolding step
  step-IsValid (Method.get key) now m h = get-IsValid key now m h
  step-IsValid (Method.exists key) now m h = exists-IsValid key now m h
  step-IsValid (Method.delete key) now m h = delete-IsValid key m h
  step-IsValid (Method.set key value ttl) now m h =
      unfold headwater.Cache.Memory.set in put-IsDict key _ m.store h
  step-IsValid (Method.clear pattern) now m h = clear-IsValid pattern m h
  step-IsValid Method.cleanup now m h = cleanup-IsValid now m h

  view-step :
      (o : Method V) (now t : ℕ) (m : Memory V)
      → IsValid m
      → now ≤ t
      → view (step o now m) t ≡ ideal_step o now t (view m t)
  unfolding step
  view-step (Method.get key) now t m h later = fun_ext λ j. view-get key j now t m h later
  view-step (Method.exists key) now t m h later = fun_ext λ j. view-exists key j now t m h later
  view-step (Method.delete key) now t m h later = fun_ext λ j. view-delete key j t m h
  view-step (Method.set key value ttl) now t m h later =
      fun_ext λ j. view-set key j value ttl now t m
  view-step (Method.clear pattern) now t m h later = fun_ext λ j. view-clear pattern j t m h
  view-step Method.cleanup now t m h later = fun_ext λ j. view-cleanup j now t m h later

  view-run :
      (cs : List (Call V)) (t : ℕ) (m : Memory V)
      → IsValid m
      → All (λ c. c.now ≤ t) cs
      → (view (run cs m) t ≡ ideal cs t (view m t)) × IsValid (run cs m)
  unfolding run ideal
  view-run [] t m h past = (refl, h)
  view-run (c ∷ cs) t m h past =
      let (e, v) = view-run cs t (step c.method c.now m) (step-IsValid c.method c.now m h) past.1 in
      (e ∙ ap (λ cache. ideal cs t cache) (view-step c.method c.now t m h past.0), v)

  -- After any calls, none of which read a clock past `t`, on a cache with distinct keys, `get` and
  -- `exists` at time `t` answer for every key what the ideal cache holds at `t` after those calls:
  -- neither expiry nor the deletion of expired entries can be told from it.
  pub run-refines :
      (cs : List (Call V)) (t : ℕ) (key : Text) (m : Memory V)
      → IsValid m
      → All (λ c. c.now ≤ t) cs
      → ((headwater.Cache.Memory.get key t (run cs m)).0 ≡ flat (ideal cs t (view m t) key))
        × ((headwater.Cache.Memory.exists key t (run cs m)).0 ≡ is_some (ideal cs t (view m t) key))
  run-refines cs t key m h past =
      let (e, v) = view-run cs t m h past in
      (
        reply-get key t (run cs m) ∙ ap (λ cache. flat (cache key)) e,
        reply-exists key t (run cs m) ∙ ap (λ cache. is_some (cache key)) e,
      )
