-- ===== src/Scheduler/Handlers.antt =====
-- The handlers that delete and check monitors keep the owner index.
use mathlib.Core.Path.{subst}
use headwater.Prelude.{
  ℕ, ◌≤◌, refl, sym, ap, none, some, Text, is_some, Bool-cases, Option-cases, inl, inr, arith,
  if◌then◌else◌,
}
use headwater.Dict.{lookup}
use headwater.Dict.Entries.{remove-All}
use headwater.Exec.{throw, bind-returns}
use headwater.Redis.Client.{Server}
use headwater.RecordStore
use headwater.RecordStore.{RecordStore, key_of, get_memory}
use headwater.Prelude.{NoColon}
use headwater.RecordStore.Memory.{
  get_local, get_memory-IsLocal, get_memory-IsOwned, get_memory-namespace, get_memory-All,
}
use headwater.Webhooks.{Http}
use headwater.Monitors.{Monitor, Fetched}
use headwater.Scheduler.{Env, Service, under, on_monitors, failing, monitor_not_found}
use headwater.Scheduler.Calls.{
  Times, check_monitor, delete_monitor, conclude, forget_owner_if_empty,
}
use headwater.Scheduler.Index.{IsIndexed, IsCovered, under-IsOwned}
use headwater.Scheduler.Kept.{fewer-IsIndexed, IsIndexed-later, conclude-IsIndexed}
use headwater.Scheduler.Forgotten.{
  deleted, delete_local, deleted-IsOwned, forget_owner_if_empty-IsIndexed,
}

module _ {srv : Server} {http : Http} {V : Type 0} (env : Env V) where
  pub delete_monitor-IsIndexed :
      (owner id : Text) (t : Times) (now : ℕ) (s : Service srv http V)
      → IsIndexed now s
      → IsIndexed now (delete_monitor env owner id t s).1
  unfolding delete_monitor
  delete_monitor-IsIndexed owner id t now s h =
      let m = under s.manager s.monitors in
      let mine = under-IsOwned s.manager s.monitors h.monitors_owned in
      let d = deleted srv owner id m in
      let s1 : Service srv http V = record s { monitors = d; manager = d.manager } in
      let i1 : IsIndexed now s1 =
        fewer-IsIndexed now s d h h.local (deleted-IsOwned srv owner id m mine) refl
          (remove-All (IsCovered now s) (key_of m.namespace owner id) m.memory h.covered) in
      let there = is_some (lookup (key_of m.namespace owner id) m.memory) in
      let steps =
        bind-returns (on_monitors (RecordStore.delete srv owner id))
          (λ there. if there then forget_owner_if_empty env owner t else throw monitor_not_found) s
          s1 there
          (ap (λ p. (failing p.0, record s { monitors = p.1; manager = p.1.manager }))
            (delete_local srv owner id m h.local)) in
      subst (λ p. IsIndexed now p.1) (sym steps)
        (elim (Bool-cases there) [
          | inl e ↦ rw e (forget_owner_if_empty-IsIndexed env owner t now s1 i1)
          | inr e ↦ rw e i1
        ])

  pub check_monitor-IsIndexed :
      (owner id : Text) (fetch : Monitor V → Fetched V) (t : Times) (now : ℕ)
      (s : Service srv http V)
      → NoColon owner
      → now ≤ t.stored
      → t.stored ≤ t.noted
      → IsIndexed now s
      → IsIndexed t.noted (check_monitor env owner id fetch t s).1
  unfolding check_monitor
  check_monitor-IsIndexed owner id fetch t now s n order1 order2 h =
      let m = under s.manager s.monitors in
      let mine = under-IsOwned s.manager s.monitors h.monitors_owned in
      let (found, m') = get_memory srv owner id t.read m in
      let s1 : Service srv http V = record s { monitors = m'; manager = m'.manager } in
      let i1 : IsIndexed now s1 =
        fewer-IsIndexed now s m' h (get_memory-IsLocal srv owner id t.read m h.local)
          (get_memory-IsOwned srv owner id t.read m mine)
          (get_memory-namespace srv owner id t.read m).1
          (get_memory-All srv (IsCovered now s) owner id t.read m h.covered) in
      let steps =
        bind-returns
          (on_monitors (
            RecordStore.get srv env.monitor_codec.to_json env.monitor_codec.from_json owner id
              t.read))
          (λ found. elim found [
            | none ↦ throw monitor_not_found
            | some r ↦ conclude env owner id r.content (fetch r.content) t
          ])
          s s1 found
          (ap (λ p. (failing p.0, record s { monitors = p.1; manager = p.1.manager }))
            (get_local srv env.monitor_codec.to_json env.monitor_codec.from_json owner id t.read m
              h.local)) in
      subst (λ p. IsIndexed t.noted p.1) (sym steps)
        (elim (Option-cases found) [
          | inl e ↦ rw e (IsIndexed-later now t.noted s1 (omega (arith, order1, order2)) i1)
          | inr (r, e) ↦ rw e (
              conclude-IsIndexed env owner id t now n order1 order2 r.content (fetch r.content) s1
                i1)
        ])
