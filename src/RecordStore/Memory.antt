-- ===== src/RecordStore/Memory.antt =====
-- The in-memory store: isolation of the owners, and what a read after a write returns.
use headwater.Prelude.{
  ℕ, ◌+◌, ◌*◌, ◌≤◌, ◌≡◌, ap, false, Option, none, some, Text, text_eq, text_eq_iff, ltb, All,
  if◌then◌else◌, arith, Bool-cases, Option-cases, inl, inr,
}
use headwater.Dict
use headwater.Dict.{Dict, lookup, IsDict}
use headwater.Dict.Laws.{lookup-put, lookup-remove, remove-IsDict}
use headwater.Dict.Entries.{remove-All, put-All}
use headwater.Exec.{ok}
use headwater.RateLimiter.Info.{second}
use headwater.Redis.{is_available}
use headwater.Redis.Client.{Server}
use headwater.RecordStore.{
  Decoding, StoredRecord, RecordStore, key_of, get_redis, get_memory, get, put, store, created,
}
use headwater.Prelude.{NoColon}

module _ (srv : Server) {D : Type 0} where
  -- Every entry stands under the key of its record's owner and id, and owners have no colon.
  abbrev pub Filed : Text → Text × (ℕ × StoredRecord D) → Type 0
  Filed ns (key, (expires_at, r)) = (key ≡ key_of ns r.owner r.id) × NoColon r.owner

  pub record IsOwned (s : RecordStore srv D) : Type 0 where
    pub filed : All (Filed s.namespace) s.memory
    pub distinct : IsDict s.memory

  -- There is no connection to Redis.
  abbrev pub IsLocal : RecordStore srv D → Type 0
  IsLocal s = is_available srv s.manager ≡ false

  pub get_memory-IsLocal :
      (owner id : Text) (now : ℕ) (s : RecordStore srv D)
      → IsLocal s
      → IsLocal (get_memory srv owner id now s).1
  unfolding get_memory
  get_memory-IsLocal owner id now s l = ground arith

  pub get_memory-namespace :
      (owner id : Text) (now : ℕ) (s : RecordStore srv D)
      → ((get_memory srv owner id now s).1.namespace ≡ s.namespace)
        × ((get_memory srv owner id now s).1.ttl_seconds ≡ s.ttl_seconds)
  unfolding get_memory
  get_memory-namespace owner id now s = ground arith

  -- The record of an entry, until it has expired.
  abbrev pub live : ℕ → Option (ℕ × StoredRecord D) → Option (StoredRecord D)
  live t none = none
  live t (some (expires_at, r)) = if ltb expires_at t then none else some r

  get_memory-live :
      (owner id : Text) (now : ℕ) (s : RecordStore srv D)
      → (get_memory srv owner id now s).0 ≡ live now (lookup (key_of s.namespace owner id) s.memory)
  unfolding get_memory
  get_memory-live owner id now s = ground arith

  -- A read changes nothing that a later read can tell.
  get_memory-keeps :
      (owner id j : Text) (now t : ℕ) (s : RecordStore srv D)
      → IsDict s.memory
      → now ≤ t
      → live t (lookup j (get_memory srv owner id now s).1.memory) ≡ live t (lookup j s.memory)
  unfolding get_memory
  get_memory-keeps owner id j now t s d past =
      let key = key_of s.namespace owner id in
      ground (arith, lookup-remove key j s.memory d, text_eq_iff key j)

  pub get_memory-IsOwned :
      (owner id : Text) (now : ℕ) (s : RecordStore srv D)
      → IsOwned s
      → IsOwned (get_memory srv owner id now s).1
  unfolding get_memory
  get_memory-IsOwned owner id now s h =
      let key = key_of s.namespace owner id in
      let kept = remove-All (Filed s.namespace) key s.memory h.filed in
      let d = remove-IsDict key s.memory h.distinct in
      elim (Option-cases (lookup key s.memory)) [
        | inl e ↦ rw (e, get_memory) h
        | inr ((x, r), e) ↦ elim (Bool-cases (ltb x now)) [
          | inl past ↦ rw (e, get_memory, past) (record { filed = kept; distinct = d })
          | inr there ↦ rw (e, get_memory, there) h
        ]
      ]

  -- What holds of all entries holds of them after a read.
  pub get_memory-All :
      (P : Text × (ℕ × StoredRecord D) → Type 0) (owner id : Text) (now : ℕ) (s : RecordStore srv D)
      → All P s.memory
      → All P (get_memory srv owner id now s).1.memory
  unfolding get_memory
  get_memory-All P owner id now s h =
      let key = key_of s.namespace owner id in
      elim (Option-cases (lookup key s.memory)) [
        | inl e ↦ rw (e, get_memory) h
        | inr ((x, r), e) ↦ elim (Bool-cases (ltb x now)) [
          | inl past ↦ rw (e, get_memory, past) (remove-All P key s.memory h)
          | inr there ↦ rw (e, get_memory, there) h
        ]
      ]

  get_memory-other :
      (owner id j : Text) (now : ℕ) (s : RecordStore srv D)
      → IsDict s.memory
      → text_eq (key_of s.namespace owner id) j ≡ false
      → lookup j (get_memory srv owner id now s).1.memory ≡ lookup j s.memory
  unfolding get_memory
  get_memory-other owner id j now s d e =
      let key = key_of s.namespace owner id in ground (arith, e, lookup-remove key j s.memory d)

  pub get_redis_local : (s : RecordStore srv D) → IsLocal s → get_redis srv s ≡ (ok false, s)
  unfolding get_redis
  get_redis_local s l = ground arith

  module _ (to_json : StoredRecord D → Text) (from_json : Text → Decoding D) where
    pub get_local :
        (owner id : Text) (now : ℕ) (s : RecordStore srv D)
        → IsLocal s
        → get srv to_json from_json owner id now s
          ≡ (ok (get_memory srv owner id now s).0, (get_memory srv owner id now s).1)
    unfolding get
    get_local owner id now s l = rw (get_redis_local s l)

    abbrev pub written :
        (owner id : Text) (content : D) (now later : ℕ) → RecordStore srv D → StoredRecord D
    written owner id content now later s = record {
      id = id;
      owner = owner;
      content = content;
      created_at = created srv to_json from_json (get_memory srv owner id later s).0 now;
      updated_at = now;
    }

    pub put_local :
        (owner id : Text) (content : D) (now later : ℕ) (s : RecordStore srv D)
        → IsLocal s
        → let s' = (get_memory srv owner id later s).1 in
          let r = written owner id content now later s in
          put srv to_json from_json owner id content now later s ≡ (
            ok r,
            record s' {
              memory =
                  Dict.put
                    (key_of s'.namespace owner id)
                    (now + s'.ttl_seconds * second, r)
                    s'.memory;
            },
          )
    unfolding put
    put_local owner id content now later s l =
        let s' = (get_memory srv owner id later s).1 in
        rw (get_local owner id later s l)
          (unfold store in rw (get_redis_local s' (get_memory-IsLocal owner id later s l)))

    -- The answer of a read at `t`, from the entry of its key.
    pub get_live :
        (owner id : Text) (t : ℕ) (s : RecordStore srv D)
        → IsLocal s
        → (get srv to_json from_json owner id t s).0
          ≡ ok (live t (lookup (key_of s.namespace owner id) s.memory))
    get_live owner id t s l = rw (get_local owner id t s l) (ap ok (get_memory-live owner id t s))

    pub put_entry :
        (owner id j : Text) (content : D) (now later t : ℕ) (s : RecordStore srv D)
        → IsOwned s
        → IsLocal s
        → later ≤ t
        → live t (lookup j (put srv to_json from_json owner id content now later s).1.memory) ≡ (
            if text_eq (key_of s.namespace owner id) j
            then live t (some (now + s.ttl_seconds * second, written owner id content now later s))
            else live t (lookup j s.memory))
    put_entry owner id j content now later t s h l past =
        let (ns, ttl) = get_memory-namespace owner id later s in
        rw (put_local owner id content now later s l, ns, ttl)
          (rw lookup-put (ground (arith, get_memory-keeps owner id j later t s h.distinct past)))

    pub put_state :
        (owner id : Text) (content : D) (now later : ℕ) (s : RecordStore srv D)
        → IsLocal s
        → IsLocal (put srv to_json from_json owner id content now later s).1
          × ((put srv to_json from_json owner id content now later s).1.namespace ≡ s.namespace)
    put_state owner id content now later s l =
        rw (put_local owner id content now later s l)
          (get_memory-IsLocal owner id later s l, (get_memory-namespace owner id later s).0)

    pub get-IsLocal :
        (owner id : Text) (now : ℕ) (s : RecordStore srv D)
        → IsLocal s
        → IsLocal (get srv to_json from_json owner id now s).1
    get-IsLocal owner id now s l =
        rw (get_local owner id now s l) (get_memory-IsLocal owner id now s l)

    -- What holds of all entries, and of the one that is written, holds of all after a `put`.
    pub put-All_local :
        (P : Text × (ℕ × StoredRecord D) → Type 0) (owner id : Text) (content : D) (now later : ℕ)
        (s : RecordStore srv D)
        → IsLocal s
        → P (
          key_of s.namespace owner id,
          (now + s.ttl_seconds * second, written owner id content now later s),
        )
        → All P s.memory
        → All P (put srv to_json from_json owner id content now later s).1.memory
    put-All_local P owner id content now later s l p h =
        let (ns, ttl) = get_memory-namespace owner id later s in
        let s' = (get_memory srv owner id later s).1 in
        let r = written owner id content now later s in
        rw (put_local owner id content now later s l) (
          put-All P (key_of s'.namespace owner id) (now + s'.ttl_seconds * second, r) s'.memory
            (rw (ns, ttl) p) (get_memory-All P owner id later s h))

    -- A `put` changes the entry of its key and no other.
    pub lookup-put_local :
        (owner id j : Text) (content : D) (now later : ℕ) (s : RecordStore srv D)
        → IsDict s.memory
        → IsLocal s
        → lookup j (put srv to_json from_json owner id content now later s).1.memory ≡ (
            if text_eq (key_of s.namespace owner id) j
            then some (now + s.ttl_seconds * second, written owner id content now later s)
            else lookup j s.memory)
    lookup-put_local owner id j content now later s d l =
        let (ns, ttl) = get_memory-namespace owner id later s in
        rw (put_local owner id content now later s l, ns, ttl)
          (rw lookup-put (ground (arith, get_memory-other owner id j later s d)))

    pub put-settings :
        (owner id : Text) (content : D) (now later : ℕ) (s : RecordStore srv D)
        → IsLocal s
        → ((put srv to_json from_json owner id content now later s).1.namespace ≡ s.namespace)
          × ((put srv to_json from_json owner id content now later s).1.ttl_seconds ≡ s.ttl_seconds)
    put-settings owner id content now later s l =
        rw (put_local owner id content now later s l) (get_memory-namespace owner id later s)
