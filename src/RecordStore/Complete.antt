-- ===== src/RecordStore/Complete.antt =====
-- A listing against the single reads, on the in-memory path: which records it has, and in what
-- order.
use headwater.Prelude.{
  ℕ, ◌≡◌, ◌∙◌, ◌↔◌, refl, sym, ap, Bool, true, not, Option, none, some, List, [], ◌∷◌, Text,
  text_eq, text_eq_iff, starts_with, take, drop, keep, ltb, Bool-cases, inl, inr,
}
use mathlib.Core.Path.{subst}
use mathlib.Core.List.{Memᴰ}
use mathlib.Core.List.Memᴰ
use headwater.Dict.{Dict, lookup, IsDict}
use headwater.Dict.Entries.{lookup-All}
use headwater.Dict.Sweep.{sweep-keep}
use headwater.Exec.{ok}
use headwater.Redis.Client.{Server}
use headwater.RecordStore.{
  Decoding, StoredRecord, RecordStore, key_of, prefix_of, get, list_for_owner, records_of, sweep,
}
use headwater.RecordStore.Keys.{prefix_of_owner, owner_of_prefix}
use headwater.Prelude.{NoColon}
use headwater.RecordStore.Memory.{Filed, IsOwned, IsLocal, live, get_live}
use headwater.RecordStore.Listing.{listed, list_local}
use headwater.RecordStore.Order.{
  IsSorted, sort-IsSorted, sort-Mem, sort-Mem_of, keep-Mem, keep-Mem_of,
}

module _ {W : Type 0} where
  lookup-Mem : (k : Text) (v : W) (d : Dict W) → lookup k d ≡ some v → Memᴰ (k, v) d
  unfolding lookup
  lookup-Mem k v [] e = absurd (cc (e))
  lookup-Mem k v ((j, w) ∷ d) e = elim (Bool-cases (text_eq j k)) [
    | inl same ↦
        let q : w ≡ v = cc (rw same at e) in
        let p = (text_eq_iff j k).0 same in
        Memᴰ.head (ap (λ z. (z, v)) (sym p) ∙ ap (λ z. (j, z)) (sym q))
    | inr apart ↦ Memᴰ.tail (lookup-Mem k v d (rw apart at e))
  ]

  -- The entries of a dictionary are what a lookup finds.
  lookup-entries : (k : Text) (v : W) (d : Dict W) → IsDict d → Memᴰ (k, v) d → lookup k d ≡ some v
  unfolding lookup
  lookup-entries k v [] h m = absurd (Memᴰ.not-nil m)
  lookup-entries k v ((j, w) ∷ d) h m = elim (Memᴰ.cases_cons m) [
    | inl same ↦
        let p : k ≡ j = ap (λ e. e.0) same in
        let q : v ≡ w = ap (λ e. e.1) same in rw ((text_eq_iff j k).1 (sym p)) (ap some (sym q))
    | inr later ↦
        let found = lookup-entries k v d h.1 later in
        elim (Bool-cases (text_eq j k)) [
          | inl e ↦
              let absent : lookup k d ≡ none =
                ap (λ z. lookup z d) (sym ((text_eq_iff j k).0 e)) ∙ h.0 in
              absurd (cc (found, absent))
          | inr e ↦ rw e found
        ]
  ]

module _ (srv : Server) {D : Type 0} where
  records_of-Mem :
      (prefix k : Text) (x : ℕ) (r : StoredRecord D) (d : Dict (ℕ × StoredRecord D))
      → starts_with k prefix ≡ true
      → Memᴰ (k, (x, r)) d
      → Memᴰ r (records_of srv prefix d)
  unfolding records_of
  records_of-Mem prefix k x r [] h m = absurd (Memᴰ.not-nil m)
  records_of-Mem prefix k x r ((j, (y, q)) ∷ d) h m = elim (Memᴰ.cases_cons m) [
    | inl same ↦
        rw (ap (λ e. starts_with e.0 prefix) (sym same) ∙ h) (Memᴰ.head (ap (λ e. e.1.1) same))
    | inr later ↦ elim (Bool-cases (starts_with j prefix)) [
      | inl e ↦ rw e (Memᴰ.tail (records_of-Mem prefix k x r d h later))
      | inr e ↦ rw e (records_of-Mem prefix k x r d h later)
    ]
  ]

  -- A record that is listed stands in some entry under the prefix.
  records_of-entry :
      (prefix : Text) (r : StoredRecord D) (d : Dict (ℕ × StoredRecord D))
      → Memᴰ r (records_of srv prefix d)
      → (k : Text) × (x : ℕ) × (starts_with k prefix ≡ true) × Memᴰ (k, (x, r)) d
  unfolding records_of
  records_of-entry prefix r [] m = absurd (Memᴰ.not-nil m)
  records_of-entry prefix r ((j, (y, q)) ∷ d) m = elim (Bool-cases (starts_with j prefix)) [
    | inl e ↦ elim (Memᴰ.cases_cons (rw e at m)) [
      | inl same ↦ (j, y, e, Memᴰ.head (ap (λ z. (j, (y, z))) same))
      | inr later ↦
          let (k, x, h, there) = records_of-entry prefix r d later in (k, x, h, Memᴰ.tail there)
    ]
    | inr e ↦
        let (k, x, h, there) = records_of-entry prefix r d (rw e at m) in (k, x, h, Memᴰ.tail there)
  ]

-- A read that finds a record, from the entry of its key
module _ (srv : Server) {D : Type 0} where
  live_entry :
      (t x : ℕ) (r : StoredRecord D) → (live srv t (some (x, r)) ≡ some r) ↔ (not (ltb x t) ≡ true)
  live_entry t x r = (
    λ e. elim (Bool-cases (ltb x t)) [
      | inl past ↦ absurd (cc (rw past at e))
      | inr there ↦ rw there refl
    ],
    λ h. elim (Bool-cases (ltb x t)) [
      | inl past ↦ absurd (cc (rw past at h))
      | inr there ↦ rw there refl
    ],
  )

  live-some :
      (t : ℕ) (o : Option (ℕ × StoredRecord D)) (r : StoredRecord D)
      → live srv t o ≡ some r
      → (x : ℕ) × (o ≡ some (x, r)) × (not (ltb x t) ≡ true)
  live-some t none r e = absurd (cc (e))
  live-some t (some (x, q)) r e = elim (Bool-cases (ltb x t)) [
    | inl past ↦ absurd (cc (rw past at e))
    | inr there ↦
        let same : q ≡ r = cc (rw there at e) in (x, ap (λ z. some (x, z)) same, rw there refl)
  ]

  module _ (to_json : StoredRecord D → Text) (from_json : Text → Decoding D) where
    found-read :
        (owner : Text) (now : ℕ) (s : RecordStore srv D) (r : StoredRecord D)
        → IsOwned srv s
        → IsLocal srv s
        → NoColon owner
        → Memᴰ r (records_of srv (prefix_of s.namespace owner) (sweep srv now s.memory))
        → (r.owner ≡ owner) × ((get srv to_json from_json owner r.id now s).0 ≡ ok (some r))
    unfolding sweep
    found-read owner now s r h l n m =
        let prefix = prefix_of s.namespace owner in
        let (k, x, pre, there) = records_of-entry srv prefix r (sweep srv now s.memory) m in
        let kept =
          subst (λ d. Memᴰ (k, (x, r)) d) (sweep-keep (λ _ e. ltb e.0 now) s.memory h.distinct)
            there in
        let (alive, stands) = keep-Mem_of (λ e. not (ltb e.1.0 now)) (k, (x, r)) s.memory kept in
        let entry = lookup-entries k (x, r) s.memory h.distinct stands in
        let (filed, n') = lookup-All (Filed srv s.namespace) k (x, r) s.memory entry h.filed in
        let own : r.owner ≡ owner =
          owner_of_prefix s.namespace r.owner owner r.id n' n
            (ap (λ z. starts_with z prefix) (sym filed) ∙ pre) in
        let key : key_of s.namespace owner r.id ≡ k =
          ap (λ o. key_of s.namespace o r.id) (sym own) ∙ sym filed in
        (
          own,
          get_live srv to_json from_json owner r.id now s l
              ∙ ap (λ z. ok (live srv now z)) (ap (λ z. lookup z s.memory) key ∙ entry)
              ∙ ap ok ((live_entry now x r).1 alive),
        )

    pub read-found :
        (owner : Text) (now : ℕ) (s : RecordStore srv D) (r : StoredRecord D)
        → IsOwned srv s
        → IsLocal srv s
        → (get srv to_json from_json owner r.id now s).0 ≡ ok (some r)
        → Memᴰ r (records_of srv (prefix_of s.namespace owner) (sweep srv now s.memory))
    unfolding sweep
    read-found owner now s r h l e =
        let key = key_of s.namespace owner r.id in
        let got = get_live srv to_json from_json owner r.id now s l in
        let (x, entry, alive) = live-some now (lookup key s.memory) r (cc (got, e)) in
        let stands =
          keep-Mem (λ e. not (ltb e.1.0 now)) (key, (x, r)) s.memory alive
            (lookup-Mem key (x, r) s.memory entry) in
        records_of-Mem srv (prefix_of s.namespace owner) key x r (sweep srv now s.memory)
          (prefix_of_owner s.namespace owner r.id)
          (subst (λ d. Memᴰ (key, (x, r)) d)
            (sym (sweep-keep (λ _ e. ltb e.0 now) s.memory h.distinct)) stands)

    -- On the in-memory path, from a store whose entries are filed under their owners: a listing is
    -- the part of one list that the offset and the limit cut out; that list is in order of the sort
    -- key, in the direction asked for, and it holds exactly the records that pass the filter and
    -- that the owner can read by their ids at that time.
    pub list_for_owner-get :
        (owner : Text) (predicate : StoredRecord D → Bool) (sort_key : StoredRecord D → ℕ)
        (reverse : Bool) (now : ℕ) (s : RecordStore srv D)
        → IsOwned srv s
        → IsLocal srv s
        → NoColon owner
        → (all : List (StoredRecord D)) × ((limit offset : ℕ)
            → (list_for_owner srv from_json owner limit offset predicate sort_key reverse now s).0
              ≡ ok (take limit (drop offset all)))
          × IsSorted sort_key reverse all
          × ((r : StoredRecord D)
              → Memᴰ r all ↔ (
                  (predicate r ≡ true)
                  × (r.owner ≡ owner)
                  × ((get srv to_json from_json owner r.id now s).0 ≡ ok (some r))))
    list_for_owner-get owner predicate sort_key reverse now s h l n =
        let prefix = prefix_of s.namespace owner in
        let found = records_of srv prefix (sweep srv now s.memory) in
        (
          listed srv owner predicate sort_key reverse now s,
          λ limit offset.
              ap (λ p. p.0)
                (list_local srv owner predicate sort_key reverse now s from_json limit offset l),
          sort-IsSorted sort_key reverse (keep predicate found),
          λ r. (
            λ m.
                let (passes, there) =
                  keep-Mem_of predicate r found
                    (sort-Mem_of sort_key reverse r (keep predicate found) m) in
                let (own, read) = found-read owner now s r h l n there in (passes, own, read),
            λ w.
                sort-Mem sort_key reverse r (keep predicate found)
                  (keep-Mem predicate r found w.0 (read-found owner now s r h l w.2)),
          ),
        )
