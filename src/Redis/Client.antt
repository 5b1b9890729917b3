-- ===== src/Redis/Client.antt =====
-- The Redis server as the client library shows it, with what the program relies on.
use headwater.Prelude.{ℕ, ◌+◌, ◌≡◌, Bool, Option, List, Text, text_eq, false}

-- An answer, or `RedisError`.
pub data Reply {ℓ} (A : Type ℓ) : Type ℓ where
  ok : A → Reply A
  redis_error : Reply A

-- The integer that `TTL` answers: the seconds left, -1 or -2.
pub data Ttl : Type 0 where
  seconds : ℕ → Ttl
  no_expiry missing : Ttl

-- `setex` is also `SET` with an expiry.
pub record Server : Type 1 where
  pub State : Type 0
  pub ping : State → Reply (Unit {0}) × State
  pub get : Text → State → Reply (Option Text) × State
  pub setex : Text → ℕ → Text → State → Reply (Unit {0}) × State
  pub set : Text → Text → State → Reply (Unit {0}) × State
  pub delete : List Text → State → Reply ℕ × State
  pub exists : List Text → State → Reply ℕ × State
  pub incr : Text → State → Reply ℕ × State
  pub expire : Text → ℕ → State → Reply Bool × State
  pub ttl : Text → State → Reply Ttl × State
  pub keys : Text → State → Reply (List Text) × State
  -- What `scan_iter` yields for a pattern.
  pub scan : Text → State → Reply (List Text) × State
  -- The pipeline `INCR key; TTL key`.
  pub incr_ttl : Text → State → Reply (ℕ × Ttl) × State

-- The documented behaviour of the server while no key lapses: `INCR` adds one to the counter of its key and answers the new count, also in
-- a pipeline with `TTL`, and `PING` and `EXPIRE` change no counter.
pub record IsCounting (srv : Server) (counter : srv.State → Text → ℕ) : Type 0 where
  pub counts :
      (key : Text) (s : srv.State) (n : ℕ) (t : Ttl)
      → (srv.incr_ttl key s).0 ≡ ok (n, t)
      → n ≡ counter s key + 1
  pub counted :
      (key : Text) (s : srv.State) (n : ℕ) (t : Ttl)
      → (srv.incr_ttl key s).0 ≡ ok (n, t)
      → counter (srv.incr_ttl key s).1 key ≡ n
  pub other_kept :
      (key j : Text) (s : srv.State)
      → text_eq key j ≡ false
      → counter (srv.incr_ttl key s).1 j ≡ counter s j
  pub ping_keeps : (j : Text) (s : srv.State) → counter (srv.ping s).1 j ≡ counter s j
  pub expire_keeps :
      (key j : Text) (window : ℕ) (s : srv.State)
      → counter (srv.expire key window s).1 j ≡ counter s j
