-- ===== src/CacheManager/Reads.antt =====
-- What `get` returns after `set`.
use headwater.Prelude.{
  ◌≡◌, ◌∙◌, refl, ap, ℕ, suc, ◌+◌, ◌<◌, ◌⊎◌, inl, inr, true, false, Option, none, some, Text,
  text_eq_refl, lt→ltb,
}
use headwater.Dict.{lookup, put}
use headwater.Dict.Laws.{lookup-put}
use headwater.Exec.{ok}
use headwater.Redis.Client.{Server, Reply}
use headwater.Redis.Available.{manager_set-accepted, manager_get-found}
use headwater.Redis.{is_available}
use headwater.CacheManager.{
  Config, Caches, ttl_or, get_remote, get_local, find, get, set_remote, set_local, set_serialized,
  set,
}
use headwater.CacheManager.Values.{Types, Value, Codec}
use headwater.CacheManager.Envelope.{serialize, deserialize}
use headwater.CacheManager.Restored.{IsFaithful, IsClear, restored}
use headwater.CacheManager.RoundTrip.{deserialize-serialize}
use headwater.CacheManager.Keys.{generate_key}

-- The documented behaviour of the server while no key lapses: `GET` answers what `SETEX` has
-- stored.
pub record IsStoring (srv : Server) : Type 0 where
  pub get-setex :
      (key value : Text) (ttl : ℕ) (s : srv.State)
      → (srv.setex key ttl value s).0 ≡ Reply.ok tt
      → (srv.get key (srv.setex key ttl value s).1).0 ≡ Reply.ok (some value)

module _ {srv : Server} {T : Types} where
  -- The connection is lost.
  abbrev pub lost : Caches srv T → Caches srv T
  lost s = let m = record s.redis { client = false } in record s { redis = m }

  -- There is a connection, and `SETEX` succeeds.
  abbrev pub Accepts : (full_key raw : Text) (ttl : ℕ) → Caches srv T → Type 0
  Accepts full_key raw ttl s =
      (is_available srv s.redis ≡ true)
      × ((srv.setex full_key ttl raw s.redis.server).0 ≡ Reply.ok tt)

module _ {srv : Server} {T : Types} (C : Codec T) where
  get_remote-gone :
      (k : Text) (s : Caches srv T)
      → is_available srv s.redis ≡ false
      → get_remote C k s ≡ (none, s)
  unfolding get_remote
  get_remote-gone k s h = rw h refl

  set_remote-gone :
      (k raw : Text) (ttl : ℕ) (s : Caches srv T)
      → is_available srv s.redis ≡ false
      → set_remote k raw ttl s ≡ (false, s)
  unfolding set_remote
  set_remote-gone k raw ttl s h = rw h refl

  abbrev with_server : srv.State → Caches srv T → Caches srv T
  with_server t s = let m = record s.redis { server = t } in record s { redis = m }

  set_remote-accepted :
      (k raw : Text) (t : ℕ) (s : Caches srv T)
      → Accepts k raw (suc t) s
      → set_remote k raw (suc t) s
        ≡ (true, with_server (srv.setex k (suc t) raw s.redis.server).1 s)
  unfolding set_remote
  set_remote-accepted k raw t s (h, e) = rw (h, manager_set-accepted srv k raw t s.redis h e) refl

  get_remote-found :
      (k raw : Text) (s : Caches srv T)
      → is_available srv s.redis ≡ true
      → (srv.get k s.redis.server).0 ≡ Reply.ok (some raw)
      → (get_remote C k s).0 ≡ deserialize C raw
  unfolding get_remote
  get_remote-found k raw s h e = rw (h, manager_get-found srv k (some raw) s.redis h e) refl

  -- `find` when Redis is gone is `get_local`, and the rest of it when Redis answers.
  pub find-gone :
      (k : Text) (now : ℕ) (s : Caches srv T)
      → is_available srv s.redis ≡ false
      → find C k now s ≡ get_local k now s
  unfolding find
  find-gone k now s h =
      ap (λ p. elim p.0 [ none ↦ get_local k now p.1 | some v ↦ (some v, p.1) ])
        (get_remote-gone k s h)

  find-found :
      (k : Text) (now : ℕ) (v : Value T) (s : Caches srv T)
      → (get_remote C k s).0 ≡ some v
      → (find C k now s).0 ≡ some v
  unfolding find
  find-found k now v s h = rw (h, find) refl

  get_local-live :
      (k : Text) (now expiry : ℕ) (v : Value T) (s : Caches srv T)
      → lookup k s.cache_store ≡ some (v, expiry)
      → now < expiry
      → (get_local k now s).0 ≡ some v
  unfolding get_local
  get_local-live k now expiry v s e l = rw (e, lt→ltb now expiry l) refl

  get-some :
      (cfg : Config) (key : Text) (ns : Option Text) (default v : Value T) (now : ℕ)
      (s : Caches srv T)
      → cfg.enabled ≡ true
      → (find C (generate_key key ns) now s).0 ≡ some v
      → (get C cfg key ns default now s).0 ≡ v
  unfolding get
  get-some cfg key ns default v now s on e = rw (on, e) refl

  set-some :
      (cfg : Config) (key raw : Text) (v : Value T) (ttl : Option ℕ) (ns : Option Text) (now : ℕ)
      (s : Caches srv T)
      → cfg.enabled ≡ true
      → serialize C v ≡ some raw
      → set C cfg key v ttl ns now s
        ≡ set_serialized C (generate_key key ns) raw (ttl_or cfg ttl) now s
  unfolding set
  set-some cfg key raw v ttl ns now s on e = rw (on, e) refl

  set_serialized-gone :
      (k raw : Text) (v : Value T) (ttl now : ℕ) (s : Caches srv T)
      → is_available srv s.redis ≡ false
      → deserialize C raw ≡ some v
      → set_serialized C k raw ttl now s
        ≡ (ok true, record s { cache_store = put k (v, now + ttl) s.cache_store })
  unfolding set_serialized set_local
  set_serialized-gone k raw v ttl now s h e = rw (set_remote-gone k raw ttl s h, e) refl

  set_serialized-accepted :
      (k raw : Text) (t now : ℕ) (s : Caches srv T)
      → Accepts k raw (suc t) s
      → set_serialized C k raw (suc t) now s
        ≡ (ok true, with_server (srv.setex k (suc t) raw s.redis.server).1 s)
  unfolding set_serialized
  set_serialized-accepted k raw t now s h = rw (set_remote-accepted k raw t s h) refl

  module _ (faithful : IsFaithful C) (cfg : Config) (key raw : Text) (v default : Value T)
      (ns : Option Text) (t now later : ℕ) (s : Caches srv T) (on : cfg.enabled ≡ true)
      (written : serialize C v ≡ some raw) (clear : IsClear C v) where
    -- What the text is read back as.
    read_back : deserialize C raw ≡ some (restored v)
    read_back = deserialize-serialize C faithful v raw written clear

    get-set_gone :
        is_available srv s.redis ≡ false
        → later < now + suc t
        → ((set C cfg key v (some (suc t)) ns now s).0 ≡ ok true)
          × ((get C cfg key ns default later (set C cfg key v (some (suc t)) ns now s).1).0
              ≡ restored v)
    get-set_gone h l =
        let k = generate_key key ns in
        let s' : Caches srv T = record s {
          cache_store = put k (restored v, now + suc t) s.cache_store;
        } in
        let done =
          set-some cfg key raw v (some (suc t)) ns now s on written
          ∙ set_serialized-gone k raw (restored v) (suc t) now s h read_back in
        let there : lookup k s'.cache_store ≡ some (restored v, now + suc t) =
          lookup-put k k (restored v, now + suc t) s.cache_store ∙ rw (text_eq_refl k) refl in
        rw done (
          refl,
          get-some cfg key ns default (restored v) later s' on (
              ap (λ r. r.0) (find-gone k later s' h)
              ∙ get_local-live k later (now + suc t) (restored v) s' there l),
        )

    get-set_accepted :
        IsStoring srv
        → Accepts (generate_key key ns) raw (suc t) s
        → ((set C cfg key v (some (suc t)) ns now s).0 ≡ ok true)
          × ((get C cfg key ns default later (set C cfg key v (some (suc t)) ns now s).1).0
              ≡ restored v)
    unfolding is_available
    get-set_accepted storing (h, e) =
        let k = generate_key key ns in
        let s' = with_server (srv.setex k (suc t) raw s.redis.server).1 s in
        let done =
          set-some cfg key raw v (some (suc t)) ns now s on written
          ∙ set_serialized-accepted k raw t now s (h, e) in
        let there = storing.get-setex k raw (suc t) s.redis.server e in
        rw done (
          refl,
          get-some cfg key ns default (restored v) later s' on
              (find-found k later (restored v) s' (get_remote-found k raw s' h there ∙ read_back)),
        )

    -- A value that is set while there is no Redis, or that Redis accepts, is what a read of its key
    -- returns, as a reader gets it, until its time to live is over: the same from either store. The
    -- cache is enabled, the value can be serialized and read back, the time to live is positive, and
    -- the server answers what was stored.
    pub get-set_kept :
        IsStoring srv
        → (is_available srv s.redis ≡ false) ⊎ Accepts (generate_key key ns) raw (suc t) s
        → later < now + suc t
        → ((set C cfg key v (some (suc t)) ns now s).0 ≡ ok true)
          × ((get C cfg key ns default later (set C cfg key v (some (suc t)) ns now s).1).0
              ≡ restored v)
    get-set_kept storing (inl gone) l = get-set_gone gone l
    get-set_kept storing (inr taken) l = get-set_accepted storing taken

    -- A value that Redis accepts leaves what the process's own store has under its key, which is
    -- what a read returns, until it expires, when the connection is lost.
    pub get-set_lost :
        (old : Value T) (expiry : ℕ)
        → Accepts (generate_key key ns) raw (suc t) s
        → lookup (generate_key key ns) s.cache_store ≡ some (old, expiry)
        → later < expiry
        → ((set C cfg key v (some (suc t)) ns now s).0 ≡ ok true)
          × ((get C cfg key ns default later (lost (set C cfg key v (some (suc t)) ns now s).1)).0
              ≡ old)
    unfolding is_available
    get-set_lost old expiry (h, e) there l =
        let k = generate_key key ns in
        let s' = with_server (srv.setex k (suc t) raw s.redis.server).1 s in
        let done =
          set-some cfg key raw v (some (suc t)) ns now s on written
          ∙ set_serialized-accepted k raw t now s (h, e) in
        rw done (
          refl,
          get-some cfg key ns default old later (lost s') on (
              ap (λ r. r.0) (find-gone k later (lost s') refl)
              ∙ get_local-live k later expiry old (lost s') there l),
        )
