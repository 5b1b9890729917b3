-- ===== src/Scheduler/Known.antt =====
-- The owners that a tick visits.
use mathlib.Core.List.{Memᴰ}
use mathlib.Core.List.Memᴰ
use headwater.Prelude.{
  ℕ, suc, ◌≤◌, ◌≡◌, ◌∙◌, refl, sym, ap, Bool, true, some, List, [], ◌∷◌, map, Text, length, take,
  keep, take_all, starts_with, ltb, Bool-cases, inl, inr, arith,
}
use headwater.Dict.{Dict, IsDict}
use headwater.Dict.Sweep.{length-sweep}
use headwater.Exec.{ok}
use headwater.Redis.Client.{Server}
use headwater.RecordStore
use headwater.RecordStore.{StoredRecord, RecordStore, records_of, sweep, prefix_of}
use headwater.RecordStore.Sort.{sort, insert, precedes}
use headwater.RecordStore.Listing.{listed, list_local}
use mathlib.Core.Path.{subst}
use headwater.RecordStore.Order.{sort-Mem, keep-Mem}
use headwater.RecordStore.Complete.{read-found}
use headwater.RecordStore.Isolation.{get-owner}
use headwater.Prelude.{NoColon}
use headwater.Webhooks.{Http}
use headwater.Monitors.{Monitor}
use headwater.Scheduler.{Env, Service, Seen, under, on_monitors, index_owner}
use headwater.Scheduler.Index.{IsIndexed, under-IsOwned, index_owner-NoColon}
use headwater.Scheduler.Reached.{Call, IsOrdered, reached, reached-IsIndexed, reached-owner}
use headwater.Scheduler.Local.{failing-ok}
use headwater.Scheduler.Ticks.{known_owners}

module _ {A : Type 0} (key : A → ℕ) (descending : Bool) where
  length-insert : (x : A) (xs : List A) → length (insert key descending x xs) ≡ suc (length xs)
  unfolding insert
  length-insert x [] = refl
  length-insert x (y ∷ ys) = elim (Bool-cases (precedes key descending y x)) [
    | inl e ↦ rw e (ap suc (length-insert x ys))
    | inr e ↦ rw e refl
  ]

  length-sort : (xs : List A) → length (sort key descending xs) ≡ length xs
  unfolding sort
  length-sort [] = refl
  length-sort (x ∷ xs) = length-insert x (sort key descending xs) ∙ ap suc (length-sort xs)

length-keep : {A : Type 0} (p : A → Bool) (xs : List A) → length (keep p xs) ≤ length xs
length-keep p [] = omega arith
length-keep p (x ∷ xs) = elim (Bool-cases (p x)) [
  | inl e ↦ rw e (omega (arith, length-keep p xs))
  | inr e ↦ rw e (omega (arith, length-keep p xs))
]

map-Mem : {A B : Type 0} (f : A → B) (x : A) (xs : List A) → Memᴰ x xs → Memᴰ (f x) (map f xs)
map-Mem f x [] m = absurd (Memᴰ.not-nil m)
map-Mem f x (y ∷ ys) m = elim (Memᴰ.cases_cons m) [
  | inl e ↦ Memᴰ.head (ap f e)
  | inr later ↦ Memᴰ.tail (map-Mem f x ys later)
]

module _ (srv : Server) {D : Type 0} where
  length-records_of :
      (prefix : Text) (d : Dict (ℕ × StoredRecord D)) → length (records_of srv prefix d) ≤ length d
  unfolding records_of
  length-records_of prefix [] = omega arith
  length-records_of prefix ((k, (x, r)) ∷ d) = elim (Bool-cases (starts_with k prefix)) [
    | inl e ↦ rw e (omega (arith, length-records_of prefix d))
    | inr e ↦ rw e (omega (arith, length-records_of prefix d))
  ]

  -- A listing holds no more records than the store has entries.
  length-listed :
      (owner : Text) (predicate : StoredRecord D → Bool) (sort_key : StoredRecord D → ℕ)
      (reverse : Bool) (now : ℕ) (s : RecordStore srv D)
      → IsDict s.memory
      → length (listed srv owner predicate sort_key reverse now s) ≤ length s.memory
  unfolding sweep
  length-listed owner predicate sort_key reverse now s h =
      let d = sweep srv now s.memory in
      let found = records_of srv (prefix_of s.namespace owner) d in
      omega (
        arith,
        length-sort sort_key reverse (keep predicate found),
        length-keep predicate found,
        length-records_of (prefix_of s.namespace owner) d,
        length-sweep (λ _ e. ltb e.0 now) s.memory h,
      )

module _ {srv : Server} {http : Http} {V : Type 0} (env : Env V) where
  known-listed :
      (now : ℕ) (s : Service srv http V) (all : List (StoredRecord Seen))
      → (RecordStore.list_for_owner srv env.owner_codec.from_json index_owner 10000 0
          (λ r. true)
          (λ r. r.created_at)
          true
          now
          (under s.manager s.owners)).0
        ≡ ok all
      → (known_owners env now s).0 ≡ ok (map (λ r. r.content.owner) all)
  unfolding known_owners
  known-listed now s all e = rw e refl

  -- With no connection to Redis, from a service whose index is complete, after any calls of the
  -- handlers that create, check and delete monitors, at times that do not go back, by owners
  -- without a colon: an owner who can read a monitor at some time is among the owners that a tick
  -- visits at that time, as long as the index has no more than 10,000 entries.
  pub reached-known :
      (start : ℕ) (cs : List (Call V)) (s0 : Service srv http V) (owner id : Text) (t : ℕ)
      (r : StoredRecord (Monitor V))
      → IsIndexed start s0
      → IsOrdered start cs
      → NoColon owner
      → length (reached env cs s0).owners.memory ≤ 10000
      → (on_monitors
          (RecordStore.get srv env.monitor_codec.to_json env.monitor_codec.from_json owner id t)
          (reached env cs s0)).0
        ≡ ok (some r)
      → (owners : List Text) × ((known_owners env t (reached env cs s0)).0 ≡ ok owners)
        × Memᴰ owner owners
  reached-known start cs s0 owner id t r h o n few e =
      let s = reached env cs s0 in
      let i = reached-IsIndexed env start cs s0 h o in
      let store = under s.manager s.owners in
      let mine = under-IsOwned s.manager s.owners i.owners_owned in
      let to_json = env.owner_codec.to_json in
      let from_json = env.owner_codec.from_json in
      let (q, there, name) = reached-owner env start cs s0 owner id t r h o n e in
      let read : (RecordStore.get srv to_json from_json index_owner owner t store).0 ≡ ok (some q) =
        failing-ok (RecordStore.get srv to_json from_json index_owner owner t store).0 (some q)
          there in
      let (mine', named) =
        get-owner srv to_json from_json index_owner owner t store q mine i.local index_owner-NoColon
          read in
      let all = listed srv index_owner (λ r. true) (λ r. r.created_at) true t store in
      let cut : take 10000 all ≡ all = take_all 10000 all (
        omega (
          arith,
          few,
          length-listed srv index_owner (λ r. true) (λ r. r.created_at) true t store mine.distinct,
        )) in
      let lists =
        ap (λ p. p.0)
          (list_local srv index_owner (λ r. true) (λ r. r.created_at) true t store from_json 10000 0
            i.local)
        ∙ ap ok cut in
      let again : (RecordStore.get srv to_json from_json index_owner q.id t store).0 ≡ ok (some q) =
        ap (λ z. (RecordStore.get srv to_json from_json index_owner z t store).0) (sym named)
        ∙ read in
      let found =
        records_of srv (prefix_of store.namespace index_owner) (sweep srv t store.memory) in
      let stands : Memᴰ q all =
        sort-Mem (λ r. r.created_at) true q (keep (λ r. true) found)
          (keep-Mem (λ r. true) q found refl
            (read-found srv to_json from_json index_owner t store q mine i.local again)) in
      (
        map (λ r. r.content.owner) all,
        known-listed t s all lists,
        subst (λ z. Memᴰ z (map (λ r. r.content.owner) all)) name
            (map-Mem (λ r. r.content.owner) q all stands),
      )
