-- ===== src/Scheduler/Reached.antt =====
-- The owner index after any calls.
use headwater.Prelude.{
  ℕ, ◌≤◌, ◌≡◌, ◌∙◌, refl, sym, ap, Option, none, some, List, [], ◌∷◌, Text, le→ltb, ltb, Bool-cases,
  inl, inr, arith,
}
use headwater.Dict.{lookup}
use headwater.Dict.Entries.{lookup-All}
use headwater.Exec.{ok}
use headwater.Redis.Client.{Server}
use headwater.RecordStore
use headwater.RecordStore.{StoredRecord, RecordStore, key_of}
use headwater.Prelude.{NoColon}
use headwater.RecordStore.Memory.{live, get_live}
use headwater.RecordStore.Isolation.{get-owner}
use headwater.Webhooks.{Http}
use headwater.Monitors.{Monitor, Fetched}
use headwater.Scheduler.{Env, Service, Seen, under, on_monitors, on_owners, failing, index_owner}
use headwater.Scheduler.Calls.{Times, create_monitor, check_monitor, delete_monitor}
use headwater.Scheduler.Index.{IsIndexed, IsCovered, under-IsOwned}
use headwater.Scheduler.Local.{failing-ok}
use headwater.Scheduler.Kept.{IsIndexed-later, create_monitor-IsIndexed}
use headwater.Scheduler.Handlers.{delete_monitor-IsIndexed, check_monitor-IsIndexed}

-- A handler's call, with its readings of the clock
pub data Call (V : Type 0) : Type 0 where
  create :
      (owner id : Text) (place_id url webhook_url : Option Text) (hours : ℕ)
      (track_fields : List Text)
      → Times
      → Call V
  check : (owner id : Text) → (Monitor V → Fetched V) → Times → Call V
  delete : (owner id : Text) → Times → Call V

module _ {V : Type 0} where
  abbrev pub caller : Call V → Text
  caller (create owner id p u w hours fields t) = owner
  caller (check owner id fetch t) = owner
  caller (delete owner id t) = owner

  abbrev pub times : Call V → Times
  times (create owner id p u w hours fields t) = t
  times (check owner id fetch t) = t
  times (delete owner id t) = t

  abbrev pub last_time : (start : ℕ) → List (Call V) → ℕ
  last_time start [] = start
  last_time start (c ∷ cs) = (times c).noted

  -- The clock does not go back between the calls, nor within one, and owners have no colon.
  abbrev pub IsOrdered : (start : ℕ) → List (Call V) → Type 0
  IsOrdered start [] = Unit
  IsOrdered start (c ∷ cs) =
      NoColon (caller c)
      × (last_time start cs ≤ (times c).stored)
      × ((times c).stored ≤ (times c).noted)
      × IsOrdered start cs

module _ {srv : Server} {http : Http} {V : Type 0} (env : Env V) where
  abbrev pub run : Call V → Service srv http V → Service srv http V
  run (create owner id p u w hours fields t) s =
      (create_monitor env owner id p u w hours fields t s).1
  run (check owner id fetch t) s = (check_monitor env owner id fetch t s).1
  run (delete owner id t) s = (delete_monitor env owner id t s).1

  -- The service after the calls, and the time of the last one, which comes first
  abbrev pub reached : List (Call V) → Service srv http V → Service srv http V
  reached [] s = s
  reached (c ∷ cs) s = run c (reached cs s)

  run-IsIndexed :
      (c : Call V) (now : ℕ) (s : Service srv http V)
      → NoColon (caller c)
      → now ≤ (times c).stored
      → (times c).stored ≤ (times c).noted
      → IsIndexed now s
      → IsIndexed (times c).noted (run c s)
  run-IsIndexed (create owner id p u w hours fields t) now s n o1 o2 h =
      create_monitor-IsIndexed env owner id t now n o1 o2 p u w hours fields s h
  run-IsIndexed (check owner id fetch t) now s n o1 o2 h =
      check_monitor-IsIndexed env owner id fetch t now s n o1 o2 h
  run-IsIndexed (delete owner id t) now s n o1 o2 h =
      IsIndexed-later now t.noted (delete_monitor env owner id t s).1 (omega (arith, o1, o2))
        (delete_monitor-IsIndexed env owner id t now s h)

  -- With no connection to Redis: after any calls of the handlers that create, check and delete
  -- monitors, at times that do not go back, by owners without a colon, each stored monitor's owner
  -- stands in the owner index, until the monitor expires at least, if it was so at the start.
  pub reached-IsIndexed :
      (start : ℕ) (cs : List (Call V)) (s : Service srv http V)
      → IsIndexed start s
      → IsOrdered start cs
      → IsIndexed (last_time start cs) (reached cs s)
  reached-IsIndexed start [] s h o = h
  reached-IsIndexed start (c ∷ cs) s h (n, o1, o2, o) =
      run-IsIndexed c (last_time start cs) (reached cs s) n o1 o2 (reached-IsIndexed start cs s h o)

read_as : {A : Type 0} (o : Option A) (r : A) → failing (ok o) ≡ ok (some r) → o ≡ some r
read_as o r e = cc (failing-ok (ok o) (some r) e)

module _ (srv : Server) {D : Type 0} where
  live_fresh :
      (t : ℕ) (o : Option (ℕ × StoredRecord D)) (r : StoredRecord D)
      → live srv t o ≡ some r
      → (x : ℕ) × (o ≡ some (x, r)) × (t ≤ x)
  live_fresh t none r e = absurd (cc (e))
  live_fresh t (some (x, r')) r e = elim (Bool-cases (ltb x t)) [
    | inl past ↦ absurd (cc (rw past at e))
    | inr there ↦ (x, ap some (ground (arith, rw there at e)), ground arith)
  ]

module _ {srv : Server} {http : Http} {V : Type 0} (env : Env V) where
  -- With no connection to Redis, from a service whose index is complete, after any calls of the
  -- handlers that create, check and delete monitors, at times that do not go back, by owners
  -- without a colon: an owner who can read a monitor at some time can be read in the owner index at
  -- that time, in a record with the owner's name.
  pub reached-owner :
      (start : ℕ) (cs : List (Call V)) (s0 : Service srv http V) (owner id : Text) (t : ℕ)
      (r : StoredRecord (Monitor V))
      → IsIndexed start s0
      → IsOrdered start cs
      → NoColon owner
      → (on_monitors
          (RecordStore.get srv env.monitor_codec.to_json env.monitor_codec.from_json owner id t)
          (reached env cs s0)).0
        ≡ ok (some r)
      → (q : StoredRecord Seen) × ((on_owners
            (RecordStore.get srv env.owner_codec.to_json env.owner_codec.from_json index_owner owner
              t)
            (reached env cs s0)).0
          ≡ ok (some q))
        × (q.content.owner ≡ owner)
  reached-owner start cs s0 owner id t r h o n e =
      let s = reached env cs s0 in
      let i = reached-IsIndexed env start cs s0 h o in
      let m = under s.manager s.monitors in
      let mine = under-IsOwned s.manager s.monitors i.monitors_owned in
      let key = key_of m.namespace owner id in
      let got =
        get_live srv env.monitor_codec.to_json env.monitor_codec.from_json owner id t m i.local in
      let found : live srv t (lookup key m.memory) ≡ some r =
        read_as (live srv t (lookup key m.memory)) r (sym (ap failing got) ∙ e) in
      let (x, entry, fresh) = live_fresh srv t (lookup key m.memory) r found in
      let (past, (y, q, noted, name, le)) =
        lookup-All (IsCovered (last_time start cs) s) key (x, r) m.memory entry i.covered in
      let own =
        (get-owner srv env.monitor_codec.to_json env.monitor_codec.from_json owner id t m r mine
          i.local n (got ∙ ap ok found)).0 in
      let alive : live srv t (some (y, q)) ≡ some q =
        rw (le→ltb y t (omega (arith, le, fresh))) refl in
      (
        q,
        ap failing (
            get_live srv env.owner_codec.to_json env.owner_codec.from_json index_owner owner t
              (under s.manager s.owners) i.local
            ∙ ap
                (λ z.
                  ok
                    (live srv t (lookup (key_of s.owners.namespace index_owner z) s.owners.memory)))
                own
            ∙ ap (λ z. ok (live srv t z)) noted
            ∙ ap ok alive),
        name ∙ sym own,
      )
