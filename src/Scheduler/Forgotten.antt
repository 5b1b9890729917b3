-- ===== src/Scheduler/Forgotten.antt =====
-- The deletion of a monitor forgets its owner only with the last one.
use mathlib.Core.Path.{subst}
use headwater.Prelude.{
  ℕ, ◌≡◌, ◌≢◌, ◌∙◌, refl, sym, ap, Bool, true, false, List, [], ◌∷◌, Text, text_eq, text_eq_iff,
  starts_with, keep, take, drop, is_empty, is_some, All, Bool-cases, inl, inr, arith, if◌then◌else◌,
}
use headwater.Dict.{Dict, lookup, remove}
use headwater.Dict.Laws.{lookup-remove, remove-IsDict}
use headwater.Dict.Entries.{remove-All}
use headwater.Exec.{◌>>◌, ok, pure, bind-returns}
use headwater.Redis.Client.{Server}
use headwater.RecordStore
use headwater.RecordStore.{StoredRecord, RecordStore, key_of, prefix_of, records_of, sweep}
use headwater.RecordStore.Sort.{sort, insert}
use headwater.RecordStore.Keys.{prefix_of_owner, key_of-injective}
use headwater.RecordStore.Memory.{IsOwned, IsLocal, Filed, get_redis_local}
use headwater.RecordStore.Listing.{list_local, listed, sweep-All, sweep-IsOwned}
use headwater.Webhooks.{Http}
use headwater.Monitors.{Monitor}
use headwater.Scheduler.{Env, Service, Seen, under, on_monitors, on_owners, failing, index_owner}
use headwater.Scheduler.Calls.{Times, forget_owner_if_empty}
use headwater.Scheduler.Index.{IsIndexed, IsCovered, IsNoted, under-IsOwned, index_owner-NoColon}
use headwater.Scheduler.Kept.{fewer-IsIndexed}

-- The record store's deletion, with no connection to Redis
module _ (srv : Server) {D : Type 0} (owner id : Text) (s : RecordStore srv D) where
  abbrev pub deleted : RecordStore srv D
  deleted = record s { memory = remove (key_of s.namespace owner id) s.memory }

  pub delete_local :
      IsLocal srv s
      → RecordStore.delete srv owner id s
        ≡ (ok (is_some (lookup (key_of s.namespace owner id) s.memory)), deleted)
  unfolding RecordStore.delete
  delete_local l = rw (get_redis_local srv s l) refl

  pub deleted-IsOwned : IsOwned srv s → IsOwned srv deleted
  deleted-IsOwned h = record {
    filed = remove-All (Filed srv s.namespace) (key_of s.namespace owner id) s.memory h.filed;
    distinct = remove-IsDict (key_of s.namespace owner id) s.memory h.distinct;
  }

module _ (srv : Server) {D : Type 0} where
  -- Where no entry has an owner's prefix, no record is this owner's.
  records_of-none :
      (ns owner : Text) (d : Dict (ℕ × StoredRecord D))
      → records_of srv (prefix_of ns owner) d ≡ []
      → All (Filed srv ns) d
      → All (λ e. e.1.1.owner ≢ owner) d
  unfolding records_of
  records_of-none ns owner [] e h = tt
  records_of-none ns owner ((k, (x, r)) ∷ d) e h =
      elim (Bool-cases (starts_with k (prefix_of ns owner))) [
        | inl there ↦ absurd (cc (rw there at e))
        | inr gone ↦ (
          λ same.
              let under_prefix : starts_with k (prefix_of ns owner) ≡ true =
                ap (λ z. starts_with z (prefix_of ns owner)) h.0.0
                ∙ ap (λ o. starts_with (key_of ns o r.id) (prefix_of ns owner)) same
                ∙ prefix_of_owner ns owner r.id in
              absurd (cc (under_prefix, gone)),
          records_of-none ns owner d (rw gone at e) h.1,
        )
      ]

insert-is_empty :
    {A : Type 0} (key : A → ℕ) (b : Bool) (x : A) (xs : List A)
    → is_empty (insert key b x xs) ≡ false
unfolding insert
insert-is_empty key b x [] = refl
insert-is_empty key b x (y ∷ ys) = ground arith

page_of-is_empty :
    {A : Type 0} (xs : List A) → is_empty xs ≡ false → is_empty (take 1 (drop 0 xs)) ≡ false
page_of-is_empty [] h = h
page_of-is_empty (x ∷ xs) h = refl

-- A listing of one item is empty only if there is none.
page-is_empty :
    {A : Type 0} (key : A → ℕ) (b : Bool) (xs : List A)
    → is_empty (take 1 (drop 0 (sort key b (keep (λ x. true) xs)))) ≡ true
    → xs ≡ []
unfolding sort
page-is_empty key b [] h = refl
page-is_empty key b (x ∷ xs) h =
    let there =
      page_of-is_empty (insert key b x (sort key b (keep (λ x. true) xs)))
        (insert-is_empty key b x (sort key b (keep (λ x. true) xs))) in
    absurd (cc (there, h))

All_and :
    {A : Type 0} (P Q R : A → Type 0) (xs : List A)
    → ((x : A) → P x → Q x → R x)
    → All P xs
    → All Q xs
    → All R xs
All_and P Q R [] f p q = tt
All_and P Q R (x ∷ xs) f p q = (f x p.0 q.0, All_and P Q R xs f p.1 q.1)

still-IsNoted :
    {srv : Server} (owner other : Text) (x : ℕ) (s : RecordStore srv Seen)
    → IsOwned srv s
    → other ≢ owner
    → IsNoted s.namespace s.memory other x
    → IsNoted s.namespace (deleted _ index_owner owner s).memory other x
still-IsNoted owner other x s h differ (y, q, e, name, le) =
    let key = key_of s.namespace index_owner owner in
    let key' = key_of s.namespace index_owner other in
    elim (Bool-cases (text_eq key key')) [
      | inl same ↦ absurd (
          differ (
            sym
              (key_of-injective s.namespace index_owner index_owner owner other index_owner-NoColon
                index_owner-NoColon ((text_eq_iff key key').0 same)).1))
      | inr apart ↦ (y, q, lookup-remove key key' s.memory h.distinct ∙ rw apart e, name, le)
    ]

module _ {srv : Server} {http : Http} {V : Type 0} where
  -- The index forgets an owner without monitors.
  forgotten-IsIndexed :
      (owner : Text) (now : ℕ) (s : Service srv http V)
      → IsIndexed now s
      → All (λ e. e.1.1.owner ≢ owner) s.monitors.memory
      → let o = deleted srv index_owner owner (under s.manager s.owners) in
        IsIndexed now (record s { owners = o; manager = o.manager })
  forgotten-IsIndexed owner now s h none_left =
      let o = deleted srv index_owner owner (under s.manager s.owners) in
      let s' : Service srv http V = record s { owners = o; manager = o.manager } in
      record {
        local = h.local;
        monitors_owned = h.monitors_owned;
        owners_owned =
            deleted-IsOwned srv index_owner owner (under s.manager s.owners)
              (under-IsOwned s.manager s.owners h.owners_owned);
        same_ttl = h.same_ttl;
        covered =
            All_and (IsCovered now s) (λ e. e.1.1.owner ≢ owner) (IsCovered now s')
              s.monitors.memory
              (λ e c differ. (
                c.0,
                still-IsNoted owner e.1.1.owner e.1.0 (under s.manager s.owners)
                    (under-IsOwned s.manager s.owners h.owners_owned) differ c.1,
              ))
              h.covered none_left;
      }

module _ {srv : Server} {http : Http} {V : Type 0} (env : Env V) where
  pub forget_owner_if_empty-IsIndexed :
      (owner : Text) (t : Times) (now : ℕ) (s : Service srv http V)
      → IsIndexed now s
      → IsIndexed now (forget_owner_if_empty env owner t s).1
  unfolding forget_owner_if_empty
  forget_owner_if_empty-IsIndexed owner t now s h =
      let m = under s.manager s.monitors in
      let found = records_of srv (prefix_of m.namespace owner) (sweep srv t.listed m.memory) in
      let left : RecordStore srv (Monitor V) = record m { memory = sweep srv t.listed m.memory } in
      let s1 : Service srv http V = record s { monitors = left; manager = left.manager } in
      let mine = under-IsOwned s.manager s.monitors h.monitors_owned in
      let owned = sweep-IsOwned srv t.listed m mine in
      let i1 : IsIndexed now s1 =
        fewer-IsIndexed now s left h h.local owned refl
          (sweep-All srv (IsCovered now s) t.listed m.memory mine.distinct h.covered) in
      let page =
        take 1 (drop 0 (listed srv owner (λ r. true) (λ r. r.created_at) true t.listed m)) in
      let lists =
        bind-returns
          (on_monitors (
            RecordStore.list_for_owner srv env.monitor_codec.from_json owner 1 0 (λ r. true)
              (λ r. r.created_at) true t.listed))
          (λ remaining.
            if is_empty remaining
            then (on_owners (RecordStore.delete srv index_owner owner) >> pure tt)
            else pure tt)
          s s1 page
          (ap (λ p. (failing p.0, record s { monitors = p.1; manager = p.1.manager }))
            (list_local srv owner (λ r. true) (λ r. r.created_at) true t.listed m
              env.monitor_codec.from_json 1 0 h.local)) in
      subst (λ p. IsIndexed now p.1) (sym lists)
        (elim (Bool-cases (is_empty page)) [
          | inr e ↦ rw e i1
          | inl e ↦
              let none_left =
                records_of-none srv m.namespace owner (sweep srv t.listed m.memory)
                  (page-is_empty (λ r. r.created_at) true found e) owned.filed in
              rw e (
                subst (λ p. IsIndexed now p.1)
                  (sym (
                    bind-returns (on_owners (RecordStore.delete srv index_owner owner))
                      (λ _. pure tt) s1 _ _
                      (ap (λ p. (failing p.0, record s1 { owners = p.1; manager = p.1.manager }))
                        (delete_local srv index_owner owner (under s1.manager s1.owners) h.local))))
                  (forgotten-IsIndexed owner now s1 i1 none_left))
        ])
