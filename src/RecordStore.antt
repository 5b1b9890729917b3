-- ===== src/RecordStore.antt =====
-- `RecordStore` of app/services/record_store.py, over the shared Redis manager and, where that has
-- no connection, an in-memory dictionary. The JSON encoding of a record is a pair of parameters, of
-- which the decoder may raise; the payload is of any type. Times are whole millionths of a second.
pub mod Sort
pub mod Keys
pub mod Memory
pub mod Isolation
pub mod Listing
pub mod Order
pub mod Complete
use headwater.Prelude.{
  keep, drop, length, take, true, false, codes, is_some, ℕ, ◌+◌, ◌*◌, Bool, false, not, Option,
  none, some, List, [], ◌∷◌, ◌++◌, Text, ltb, starts_with, rstrip, ◌==◌, if◌then◌else◌,
}
use headwater.Dict
use headwater.Dict.{Dict, lookup, remove, keys_where, remove_all}
use Sort.{sort}
use headwater.Exec.{Exec, Result, ok, raise, pure, ◌>>=◌, ◌>>◌}
use headwater.RateLimiter.Info.{second}
use headwater.Redis.{Manager, is_available, get_client}
use headwater.Redis.Client.{Server, Reply, redis_error}

pub record StoredRecord (D : Type 0) : Type 0 where
  pub id : Text
  pub owner : Text
  pub content : D
  pub created_at : ℕ
  pub updated_at : ℕ

-- What the Redis client raises, and the `TypeError` of a record that is no dictionary.
pub data Failure : Type 0 where
  redis_failure record_failure : Failure

-- What `StoredRecord.from_json` returns, or raises: a `ValueError` or `KeyError`, or a `TypeError`.
pub data Decoding (D : Type 0) : Type 0 where
  decoded : StoredRecord D → Decoding D
  corrupt type_error : Decoding D

-- `_key` and the prefix of `_owner_pattern`
unfoldable pub prefix_of : (namespace owner : Text) → Text
prefix_of namespace owner = namespace ++ (b':' ∷ (owner ++ b':' ∷ []))

unfoldable pub key_of : (namespace owner record_id : Text) → Text
key_of namespace owner record_id = namespace ++ (b':' ∷ (owner ++ b':' ∷ record_id))

-- `namespace.rstrip(":")`, of `__init__`
unfoldable pub namespace_of : Text → Text
unfolding rstrip
namespace_of namespace = rstrip (λ c. c == b':') namespace

module _ (srv : Server) (D : Type 0) where
  pub record RecordStore : Type 0 where
    pub namespace : Text
    pub ttl_seconds : ℕ
    pub memory : Dict (ℕ × StoredRecord D)
    pub manager : Manager srv

module _ (srv : Server) {D : Type 0} where
  -- `_get_redis`: whether there is a live client.
  unfoldable pub get_redis : Exec (RecordStore srv D) Failure Bool
  get_redis s =
      if not (is_available srv s.manager)
      then (ok false, s)
      else (let (client, m) = get_client srv s.manager in (ok client, record s { manager = m }))

  unfoldable pub is_durable : Exec (RecordStore srv D) Failure Bool
  is_durable = get_redis

  -- A call of the client, which the store does not guard.
  abbrev answered :
      {A : Type 0} → Reply A × srv.State → RecordStore srv D → Result Failure A × RecordStore srv D
  answered (Reply.ok a, t) s = (ok a, record s { manager = record (s.manager) { server = t } })
  answered (redis_error, t) s =
      (raise redis_failure, record s { manager = record (s.manager) { server = t } })

  abbrev call :
      {A : Type 0} → (srv.State → Reply A × srv.State) → Exec (RecordStore srv D) Failure A
  call op s = answered (op s.manager.server) s

  -- The in-memory half of `get`; an entry that has expired is removed.
  unfoldable pub get_memory :
      (owner record_id : Text) (now : ℕ)
      → RecordStore srv D
      → Option (StoredRecord D) × RecordStore srv D
  get_memory owner record_id now s =
      let key = key_of s.namespace owner record_id in
      elim (lookup key s.memory) [
        | none ↦ (none, s)
        | some (expires_at, r) ↦
            if ltb expires_at now
            then (none, record s { memory = remove key s.memory })
            else (some r, s)
      ]

  abbrev lift :
      {A : Type 0}
      → (RecordStore srv D → A × RecordStore srv D)
      → Exec (RecordStore srv D) Failure A
  lift f s = let (a, s') = f s in (ok a, s')

  abbrev returned : {A : Type 0} → Result Failure A → Exec (RecordStore srv D) Failure A
  returned r s = (r, s)

  module _ (to_json : StoredRecord D → Text) (from_json : Text → Decoding D) where
    -- A corrupt record is reported as absent; a `TypeError` is not caught.
    abbrev read_record : Decoding D → Result Failure (Option (StoredRecord D))
    read_record (decoded r) = ok (some r)
    read_record corrupt = ok none
    read_record type_error = raise record_failure

    abbrev read : Option Text → Result Failure (Option (StoredRecord D))
    read none = ok none
    read (some raw) = read_record (from_json raw)

    unfoldable pub get :
        (owner record_id : Text) (now : ℕ)
        → Exec (RecordStore srv D) Failure (Option (StoredRecord D))
    get owner record_id now = do
      client ← get_redis
      if client
          then (λ s.
              (do raw ← call (srv.get (key_of s.namespace owner record_id)); returned (read raw)) s)
          else lift (get_memory owner record_id now)

    abbrev pub created : Option (StoredRecord D) → ℕ → ℕ
    created none now = now
    created (some existing) now = existing.created_at

    -- The last part of `put`, once the old record has been read.
    unfoldable pub store :
        StoredRecord D → (now : ℕ) → Exec (RecordStore srv D) Failure (StoredRecord D)
    store r now = do
      client ← get_redis
      if client
          then (λ s.
              (do
                call (srv.setex (key_of s.namespace r.owner r.id) s.ttl_seconds (to_json r))
                pure r)
                s)
          else (λ s. (
            ok r,
            record s {
              memory =
                  Dict.put (key_of s.namespace r.owner r.id) (now + s.ttl_seconds * second, r)
                    s.memory;
            },
          ))

    -- The clock is read once in `put` and, on the in-memory path, once in `get`.
    unfoldable pub put :
        (owner record_id : Text) (content : D) (now later : ℕ)
        → Exec (RecordStore srv D) Failure (StoredRecord D)
    put owner record_id content now later = do
      existing ← get owner record_id later
      store
          (record {
            id = record_id;
            owner = owner;
            content = content;
            created_at = created existing now;
            updated_at = now;
          })
          now

  unfoldable pub delete : (owner record_id : Text) → Exec (RecordStore srv D) Failure Bool
  delete owner record_id = do
    client ← get_redis
    if client
        then (λ s.
            (do n ← call (srv.delete (key_of s.namespace owner record_id ∷ [])); pure (ltb 0 n)) s)
        else (λ s.
            let key = key_of s.namespace owner record_id in
            (ok (is_some (lookup key s.memory)), record s { memory = remove key s.memory }))

  -- The in-memory half of `list_for_owner`: a sweep, then the entries whose key has the prefix.
  unfoldable pub sweep : (now : ℕ) → Dict (ℕ × StoredRecord D) → Dict (ℕ × StoredRecord D)
  sweep now memory = remove_all (keys_where (λ _ e. ltb e.0 now) memory) memory

  unfoldable pub records_of : Text → Dict (ℕ × StoredRecord D) → List (StoredRecord D)
  records_of prefix [] = []
  records_of prefix ((k, (expires_at, r)) ∷ d) =
      if starts_with k prefix then r ∷ records_of prefix d else records_of prefix d

  -- What one key adds to a listing; a corrupt record is left out, and a `TypeError` is raised.
  abbrev found_record : Decoding D → Result Failure (List (StoredRecord D))
  found_record (decoded r) = ok (r ∷ [])
  found_record corrupt = ok []
  found_record type_error = raise record_failure

  -- `if not raw: continue`
  abbrev found_by : (Text → Decoding D) → Option Text → Result Failure (List (StoredRecord D))
  found_by from_json none = ok []
  found_by from_json (some []) = ok []
  found_by from_json (some (c ∷ raw)) = found_record (from_json (c ∷ raw))

  module _ (from_json : Text → Decoding D) where
    -- The loop over `scan_iter`: what is gone, empty or corrupt by then is left out.
    unfoldable pub fetch : List Text → Exec (RecordStore srv D) Failure (List (StoredRecord D))
    fetch [] = pure []
    fetch (key ∷ keys) = do
      raw ← call (srv.get key)
      found ← returned (found_by from_json raw)
      rest ← fetch keys
      pure (found ++ rest)

    unfoldable pub scan_records :
        (owner : Text) → Exec (RecordStore srv D) Failure (List (StoredRecord D))
    scan_records owner s =
        (do keys ← call (srv.scan (prefix_of s.namespace owner ++ codes "*")); fetch keys) s

    -- The records before the filter. On the in-memory path expired entries are removed first.
    unfoldable pub all_records :
        (owner : Text) (now : ℕ) → Exec (RecordStore srv D) Failure (List (StoredRecord D))
    all_records owner now = do
      client ← get_redis
      if client then scan_records owner else (λ s.
          let memory = sweep now s.memory in
          (ok (records_of (prefix_of s.namespace owner) memory), record s { memory = memory }))

    -- `predicate` is constantly true where none is given.
    unfoldable pub list_for_owner :
        (owner : Text) (limit offset : ℕ) (predicate : StoredRecord D → Bool)
        (sort_key : StoredRecord D → ℕ) (reverse : Bool) (now : ℕ)
        → Exec (RecordStore srv D) Failure (List (StoredRecord D))
    list_for_owner owner limit offset predicate sort_key reverse now = do
      records ← all_records owner now
      pure (take limit (drop offset (sort sort_key reverse (keep predicate records))))

    unfoldable pub count_for_owner : (owner : Text) (now : ℕ) → Exec (RecordStore srv D) Failure ℕ
    count_for_owner owner now = do
      records ← list_for_owner owner 10000 0 (λ r. true) (λ r. r.created_at) true now
      pure (length records)
