-- ===== src/RecordStore/Listing.antt =====
-- What a listing returns, on the in-memory path.
use headwater.Prelude.{
  ap, ℕ, ◌≤◌, ◌≡◌, Bool, true, List, [], ◌∷◌, Text, starts_with, length, take, drop, keep,
  length-take, All, All-take, All-drop, All-keep_of, arith, Bool-cases, inl, inr, ltb, not,
}
use headwater.Dict.{Dict, IsDict, keys_where}
use headwater.Dict.Entries.{keep-All}
use headwater.Dict.Sweep.{sweep-keep, remove_all-IsDict}
use headwater.Exec.{ok}
use headwater.Redis.Client.{Server}
use headwater.RecordStore.{
  Decoding, StoredRecord, RecordStore, key_of, prefix_of, all_records, list_for_owner, records_of,
  sweep,
}
use headwater.RecordStore.Keys.{owner_of_prefix}
use headwater.Prelude.{NoColon}
use headwater.RecordStore.Memory.{Filed, IsOwned, IsLocal, get_redis_local}
use headwater.RecordStore.Sort.{sort, sort-All}

module _ (srv : Server) {D : Type 0} where
  records_of-owner :
      (ns owner : Text) (d : Dict (ℕ × StoredRecord D))
      → NoColon owner
      → All (Filed srv ns) d
      → All (λ r. r.owner ≡ owner) (records_of srv (prefix_of ns owner) d)
  unfolding records_of
  records_of-owner ns owner [] n h = tt
  records_of-owner ns owner ((k, (x, r)) ∷ d) n h =
      elim (Bool-cases (starts_with k (prefix_of ns owner))) [
        | inl e ↦
            let e' : starts_with (key_of ns r.owner r.id) (prefix_of ns owner) ≡ true =
              rw (← h.0.0) e in
            rw e
              (owner_of_prefix ns r.owner owner r.id h.0.1 n e', records_of-owner ns owner d n h.1)
        | inr e ↦ rw e (records_of-owner ns owner d n h.1)
      ]

  -- What holds of all entries holds of those that a sweep keeps.
  pub sweep-All :
      (P : Text × (ℕ × StoredRecord D) → Type 0) (now : ℕ) (d : Dict (ℕ × StoredRecord D))
      → IsDict d
      → All P d
      → All P (sweep srv now d)
  unfolding sweep
  sweep-All P now d h q =
      rw (sweep-keep (λ _ e. ltb e.0 now) d h) (keep-All P (λ e. not (ltb e.1.0 now)) d q)

  pub sweep-IsOwned :
      (now : ℕ) (s : RecordStore srv D)
      → IsOwned srv s
      → IsOwned srv (record s { memory = sweep srv now s.memory })
  unfolding sweep
  sweep-IsOwned now s h = record {
    filed = sweep-All (Filed srv s.namespace) now s.memory h.distinct h.filed;
    distinct = remove_all-IsDict (keys_where (λ _ e. ltb e.0 now) s.memory) s.memory h.distinct;
  }

  records_of-All :
      (Q : StoredRecord D → Type 0) (prefix : Text) (d : Dict (ℕ × StoredRecord D))
      → All (λ e. Q e.1.1) d
      → All Q (records_of srv prefix d)
  unfolding records_of
  records_of-All Q prefix [] h = tt
  records_of-All Q prefix ((k, (x, r)) ∷ d) h = elim (Bool-cases (starts_with k prefix)) [
    | inl e ↦ rw e (h.0, records_of-All Q prefix d h.1)
    | inr e ↦ rw e (records_of-All Q prefix d h.1)
  ]

  module _ (owner : Text) (predicate : StoredRecord D → Bool) (sort_key : StoredRecord D → ℕ)
      (reverse : Bool) (now : ℕ) (s : RecordStore srv D) where
    -- The records of a listing on the in-memory path, before the limit and the offset
    abbrev pub listed : List (StoredRecord D)
    listed =
        sort sort_key reverse
          (keep predicate (records_of srv (prefix_of s.namespace owner) (sweep srv now s.memory)))

    -- What holds of the records of all entries holds of those listed.
    pub listed-All :
        (Q : StoredRecord D → Type 0) → IsOwned srv s → All (λ e. Q e.1.1) s.memory → All Q listed
    listed-All Q h q =
        let found = records_of srv (prefix_of s.namespace owner) (sweep srv now s.memory) in
        let kept = sweep-All (λ e. Q e.1.1) now s.memory h.distinct q in
        sort-All sort_key reverse Q (keep predicate found) (
          All-keep_of Q predicate found
            (records_of-All Q (prefix_of s.namespace owner) (sweep srv now s.memory) kept))

    pub listed-owner : IsOwned srv s → NoColon owner → All (λ r. r.owner ≡ owner) listed
    listed-owner h n =
        let found = records_of srv (prefix_of s.namespace owner) (sweep srv now s.memory) in
        sort-All sort_key reverse (λ r. r.owner ≡ owner) (keep predicate found)
          (All-keep_of (λ r. r.owner ≡ owner) predicate found
            (records_of-owner s.namespace owner (sweep srv now s.memory) n
              (sweep-IsOwned now s h).filed))

    pub list_local :
        (from_json : Text → Decoding D) (limit offset : ℕ)
        → IsLocal srv s
        → list_for_owner srv from_json owner limit offset predicate sort_key reverse now s
          ≡ (ok (take limit (drop offset listed)), record s { memory = sweep srv now s.memory })
    unfolding list_for_owner all_records
    list_local from_json limit offset l = rw (get_redis_local srv s l)

  module _ (from_json : Text → Decoding D) where
    -- On the in-memory path, from a store whose entries are filed under their owners: a listing
    -- succeeds, holds records of the owner that asks only, and no more than the limit, whatever
    -- the filter, the sort key, the direction and the offset.
    pub list-owner :
        (owner : Text) (limit offset : ℕ) (predicate : StoredRecord D → Bool)
        (sort_key : StoredRecord D → ℕ) (reverse : Bool) (now : ℕ) (s : RecordStore srv D)
        → IsOwned srv s
        → IsLocal srv s
        → NoColon owner
        → (rs : List (StoredRecord D)) × ((list_for_owner srv from_json owner limit offset predicate
              sort_key reverse now s).0
            ≡ ok rs)
          × All (λ r. r.owner ≡ owner) rs
          × (length rs ≤ limit)
    list-owner owner limit offset predicate sort_key reverse now s h l n =
        let all = listed owner predicate sort_key reverse now s in
        (
          take limit (drop offset all),
          ap (λ x. x.0)
              (list_local owner predicate sort_key reverse now s from_json limit offset l),
          All-take (λ r. r.owner ≡ owner) limit (drop offset all)
              (All-drop (λ r. r.owner ≡ owner) offset all
                (listed-owner owner predicate sort_key reverse now s h n)),
          omega (arith, length-take limit (drop offset all)),
        )
