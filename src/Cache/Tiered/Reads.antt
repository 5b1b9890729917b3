-- ===== src/Cache/Tiered/Reads.antt =====
-- What the two tiers return together.
use headwater.Prelude.{
  ℕ, ◌+◌, ◌*◌, ◌<◌, ◌≡◌, ◌∙◌, ap, true, Option, none, some, Text, text_eq_refl, min, lt→ltb, arith,
  Option-cases, inl, inr,
}
use headwater.RateLimiter.Info.{second}
use headwater.Redis.Client.{Server}
use headwater.Cache.Memory
use headwater.Cache.Memory.{Memory}
use headwater.Cache.Memory.View.{flat, IsValid, reply-get, view-set, view-delete}
use headwater.Cache.Remote.{Remote}
use headwater.Cache.Tiered.{Tiered, get, set, delete}

module _ {V : Type 0} where
  -- A value in the memory cache is found there until its time is over.
  found :
      (key : Text) (v : V) (ttl now t : ℕ) (m : Memory V)
      → t < now + ttl * second
      → (Memory.get key t (Memory.set key (some v) ttl now m).1).0 ≡ some v
  found key v ttl now t m h =
      reply-get key t (Memory.set key (some v) ttl now m).1
      ∙ ap flat (view-set key key (some v) ttl now t m)
      ∙ rw (text_eq_refl key, lt→ltb t (now + ttl * second) h)

module _ (srv : Server) {V : Type 0} (serialize : Option V → Text)
    (deserialize : Text → Option V) where
  hit :
      (key : Text) (t later : ℕ) (c : Tiered srv V) (v : V)
      → (Memory.get key t c.memory).0 ≡ some v
      → (get srv serialize deserialize key t later c).0 ≡ some v
  unfolding get
  hit key t later c v h = ground arith

  set_memory :
      (key : Text) (value : Option V) (ttl now : ℕ) (c : Tiered srv V)
      → (set srv serialize deserialize key value ttl now c).1.memory
        ≡ (Memory.set key value (min ttl 300) now c.memory).1
  unfolding set
  set_memory key value ttl now c = ground arith

  -- A value that is set is returned until its time to live, or 300 seconds, are over, whether or
  -- not there is a Redis and whatever it answers.
  pub get-set :
      (key : Text) (v : V) (ttl now t later : ℕ) (c : Tiered srv V)
      → t < now + min ttl 300 * second
      → (get srv serialize deserialize key t later
          (set srv serialize deserialize key (some v) ttl now c).1).0
        ≡ some v
  get-set key v ttl now t later c h =
      hit key t later (set srv serialize deserialize key (some v) ttl now c).1 v
        (rw (set_memory key (some v) ttl now c) (found key v (min ttl 300) now t c.memory h))

  promoted :
      (key : Text) (now later : ℕ) (c : Tiered srv V) (v : V)
      → (Memory.get key now c.memory).0 ≡ none
      → (get srv serialize deserialize key now later c).0 ≡ some v
      → (get srv serialize deserialize key now later c).1.memory
        ≡ (Memory.set key (some v) 60 later (Memory.get key now c.memory).1).1
  unfolding get
  promoted key now later c v miss e = elim (Option-cases c.redis) [
    | inl off ↦ absurd (ground arith)
    | inr (r, on) ↦ ground arith
  ]

  -- A value that Redis gave at `later` is returned for 60 seconds more, whatever becomes of Redis
  -- in the meantime: it is returned after its key has lapsed or was deleted there.
  pub get-promoted :
      (key : Text) (now later t after : ℕ) (c : Tiered srv V) (v : V) (r : Option (Remote srv))
      → (Memory.get key now c.memory).0 ≡ none
      → (get srv serialize deserialize key now later c).0 ≡ some v
      → t < later + 60 * second
      → (get srv serialize deserialize key t after
          (record ((get srv serialize deserialize key now later c).1) { redis = r })).0
        ≡ some v
  get-promoted key now later t after c v r miss e h =
      hit key t after (record ((get srv serialize deserialize key now later c).1) { redis = r }) v
        (rw (promoted key now later c v miss e)
          (found key v 60 later t (Memory.get key now c.memory).1 h))

  -- Without Redis, on a valid memory cache, a key that is deleted is gone for every later read; and
  -- the answer is `True`, whether or not the key was there.
  pub get-delete :
      (key : Text) (t later : ℕ) (c : Tiered srv V)
      → IsValid c.memory
      → c.redis ≡ none
      → ((get srv serialize deserialize key t later (delete srv key c).1).0 ≡ none)
        × ((delete srv key c).0 ≡ true)
  unfolding delete get
  get-delete key t later c h none_set =
      let gone : (Memory.get key t (Memory.delete key c.memory).1).0 ≡ none =
        reply-get key t (Memory.delete key c.memory).1
        ∙ ap flat (view-delete key key t c.memory h)
        ∙ rw (text_eq_refl key) in
      (ground arith, ground arith)
