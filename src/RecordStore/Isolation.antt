-- ===== src/RecordStore/Isolation.antt =====
-- One owner's calls and another's records, on the in-memory path.
use headwater.Prelude.{
  ℕ, ◌+◌, ◌*◌, ◌≤◌, ◌≡◌, ◌≢◌, ◌∙◌, sym, refl, ap, false, Option, none, some, Text, text_eq,
  text_eq_iff, text_eq_refl, le→ltb, if◌then◌else◌, arith, Bool-cases, inl, inr,
}
use headwater.Dict.{lookup}
use headwater.Dict.Laws.{put-IsDict}
use headwater.Dict.Entries.{lookup-All, put-All}
use headwater.Exec.{ok}
use headwater.RateLimiter.Info.{second}
use headwater.Redis.Client.{Server}
use headwater.RecordStore.{Decoding, StoredRecord, RecordStore, key_of, get, put, get_memory}
use headwater.RecordStore.Keys.{key_of-injective}
use headwater.Prelude.{NoColon}
use headwater.RecordStore.Memory.{
  get_local, Filed, IsOwned, IsLocal, live, written, get_live, put_entry, put_state, put_local,
  get_memory-IsOwned,
}

module _ (srv : Server) {D : Type 0} (to_json : StoredRecord D → Text)
    (from_json : Text → Decoding D) where
  live_record :
      (t : ℕ) (o : Option (ℕ × StoredRecord D)) (r : StoredRecord D)
      → live srv t o ≡ some r
      → (x : ℕ) × (o ≡ some (x, r))
  live_record t none r e = absurd (ground arith)
  live_record t (some (x, r')) r e = (x, ground arith)

  -- In a store whose entries are filed under their owners, with no connection to Redis, `get`
  -- returns only a record of the owner that asks, with the id that was asked for.
  pub get-owner :
      (owner id : Text) (t : ℕ) (s : RecordStore srv D) (r : StoredRecord D)
      → IsOwned srv s
      → IsLocal srv s
      → NoColon owner
      → (get srv to_json from_json owner id t s).0 ≡ ok (some r)
      → (owner ≡ r.owner) × (id ≡ r.id)
  get-owner owner id t s r h l n e =
      let key = key_of s.namespace owner id in
      let found : live srv t (lookup key s.memory) ≡ some r =
        cc (get_live srv to_json from_json owner id t s l) in
      let (x, entry) = live_record t (lookup key s.memory) r found in
      let (filed, n') = lookup-All (Filed srv s.namespace) key (x, r) s.memory entry h.filed in
      key_of-injective s.namespace owner r.owner id r.id n n' filed

  -- On a store with no connection to Redis, of which every entry stands under the key of its record
  -- and the keys are distinct, a `put` for an owner without a colon leads to such a store.
  pub put-IsOwned :
      (owner id : Text) (content : D) (now later : ℕ) (s : RecordStore srv D)
      → IsOwned srv s
      → IsLocal srv s
      → NoColon owner
      → IsOwned srv (put srv to_json from_json owner id content now later s).1
  put-IsOwned owner id content now later s h l n =
      let s' = (get_memory srv owner id later s).1 in
      let h' : IsOwned srv s' = get_memory-IsOwned srv owner id later s h in
      let r = written srv to_json from_json owner id content now later s in
      let key = key_of s'.namespace owner id in
      rw (put_local srv to_json from_json owner id content now later s l) (record {
        filed =
            put-All (Filed srv s'.namespace) key (now + s'.ttl_seconds * second, r) s'.memory
              (refl, n) h'.filed;
        distinct = put-IsDict key (now + s'.ttl_seconds * second, r) s'.memory h'.distinct;
      })

  keys_apart :
      (ns o o' i i' : Text)
      → NoColon o
      → NoColon o'
      → o ≢ o'
      → text_eq (key_of ns o i) (key_of ns o' i') ≡ false
  keys_apart ns o o' i i' n n' differ =
      elim (Bool-cases (text_eq (key_of ns o i) (key_of ns o' i'))) [
        | inl same ↦
            absurd (differ (key_of-injective ns o o' i i' n n' ((text_eq_iff _ _).0 same)).0)
        | inr apart ↦ apart
      ]

  get_put :
      (owner id o i : Text) (content : D) (now later t : ℕ) (s : RecordStore srv D)
      → IsOwned srv s
      → IsLocal srv s
      → later ≤ t
      → (get srv to_json from_json o i t
          (put srv to_json from_json owner id content now later s).1).0
        ≡ ok (
            if text_eq (key_of s.namespace owner id) (key_of s.namespace o i)
            then live srv t (
                some (
                  now + s.ttl_seconds * second,
                  written srv to_json from_json owner id content now later s,
                ))
            else live srv t (lookup (key_of s.namespace o i) s.memory))
  get_put owner id o i content now later t s h l past =
      let s' = (put srv to_json from_json owner id content now later s).1 in
      let (l', ns) = put_state srv to_json from_json owner id content now later s l in
      get_live srv to_json from_json o i t s' l'
      ∙ rw ns (
          ap ok (
            put_entry srv to_json from_json owner id (key_of s.namespace o i) content now later t s
              h l past))

  created_as :
      (owner id : Text) (content : D) (now later : ℕ) (s : RecordStore srv D)
      → IsLocal srv s
      → (old : StoredRecord D) → (get srv to_json from_json owner id later s).0 ≡ ok (some old)
      → (written srv to_json from_json owner id content now later s).created_at ≡ old.created_at
  created_as owner id content now later s l old e =
      let found : (get_memory srv owner id later s).0 ≡ some old =
        cc (get_local srv to_json from_json owner id later s l) in
      rw found

  -- In a store whose entries are filed under their owners, with no connection to Redis, and until
  -- the time to live is over, a later read returns the record that the last `put`
  -- of its owner and id returned, which has the content, owner and id that were given, the time of
  -- the write, and the creation time of the record that was there, if there was one.
  pub get-put_self :
      (owner id : Text) (content : D) (now later t : ℕ) (s : RecordStore srv D)
      → IsOwned srv s
      → IsLocal srv s
      → later ≤ t
      → t ≤ now + s.ttl_seconds * second
      → (r : StoredRecord D) × ((get srv to_json from_json owner id t
            (put srv to_json from_json owner id content now later s).1).0
          ≡ ok (some r))
        × ((put srv to_json from_json owner id content now later s).0 ≡ ok r)
        × ((r.owner ≡ owner) × (r.id ≡ id) × (r.content ≡ content) × (r.updated_at ≡ now))
        × ((old : StoredRecord D)
            → (get srv to_json from_json owner id later s).0 ≡ ok (some old)
            → r.created_at ≡ old.created_at)
  get-put_self owner id content now later t s h l past fresh =
      let r = written srv to_json from_json owner id content now later s in
      let key = key_of s.namespace owner id in
      let here : live srv t (some (now + s.ttl_seconds * second, r)) ≡ some r =
        rw (le→ltb (now + s.ttl_seconds * second) t fresh) in
      (
        r,
        get_put owner id owner id content now later t s h l past
            ∙ rw (text_eq_refl key) (ap ok here),
        ap (λ x. x.0) (put_local srv to_json from_json owner id content now later s l),
        (refl, refl, refl, refl),
        λ old e. created_as owner id content now later s l old e,
      )

  -- In a store whose entries are filed under their owners, with no connection to Redis, a `put` of
  -- one owner changes no later read of another owner, for any two ids and two owners without a
  -- colon.
  pub get-put_other :
      (owner id other id' : Text) (content : D) (now later t : ℕ) (s : RecordStore srv D)
      → IsOwned srv s
      → IsLocal srv s
      → NoColon owner
      → NoColon other
      → owner ≢ other
      → later ≤ t
      → (get srv to_json from_json other id' t
          (put srv to_json from_json owner id content now later s).1).0
        ≡ (get srv to_json from_json other id' t s).0
  get-put_other owner id other id' content now later t s h l n n' differ past =
      let key = key_of s.namespace owner id in
      let key' = key_of s.namespace other id' in
      let apart : text_eq key key' ≡ false =
        keys_apart s.namespace owner other id id' n n' differ in
      get_put owner id other id' content now later t s h l past
      ∙ rw apart (sym (get_live srv to_json from_json other id' t s l))
