-- ===== src/Scheduler/Kept.antt =====
-- Every handler keeps the owner index.
use mathlib.Core.Path.{subst}
use headwater.Prelude.{
  ℕ, ◌≤◌, ◌≡◌, ◌∙◌, sym, false, Option, List, [], ◌∷◌, Text, All, inl, inr, arith, if◌then◌else◌,
}
use headwater.Dict.{Dict}
use headwater.Exec.{Exec, pure, ◌>>=◌, bind-keeps, bind-returns}
use headwater.Redis.{is_available}
use headwater.Redis.Client.{Server}
use headwater.RecordStore
use headwater.RecordStore.{StoredRecord, RecordStore}
use headwater.Prelude.{NoColon}
use headwater.RecordStore.Memory.{IsOwned, IsLocal, put_state}
use headwater.Webhooks.{Http}
use headwater.Monitors.{
  Monitor, Fetched, Changes, checked, created, diff, snapshot, tracked, is_failed,
}
use headwater.Scheduler.{Env, Service, Problem, under, on_monitors}
use headwater.Scheduler.Calls.{
  Times, check_request, create_monitor, fire_if, conclude, remember_owner,
}
use headwater.Scheduler.Local.{result_cases, fire_monitor_webhooks-IsLocal}
use headwater.Scheduler.Noted.{noted_state-IsIndexed}
use headwater.Scheduler.Index.{
  IsIndexed, IsCovered, All_imp, put_ok, remember_ok, stored_state, noted_state,
}

module _ {srv : Server} {http : Http} {V : Type 0} where
  pub IsIndexed-later :
      (now later : ℕ) (s : Service srv http V) → now ≤ later → IsIndexed now s → IsIndexed later s
  IsIndexed-later now later s order h = record {
    local = h.local;
    monitors_owned = h.monitors_owned;
    owners_owned = h.owners_owned;
    same_ttl = h.same_ttl;
    covered =
        All_imp (IsCovered now s) (IsCovered later s) s.monitors.memory
          (λ e c. (omega (arith, c.0, order), c.1)) h.covered;
  }

  -- Fewer monitors are covered as well.
  pub fewer-IsIndexed :
      (now : ℕ) (s : Service srv http V) (m : RecordStore srv (Monitor V))
      → IsIndexed now s
      → IsLocal srv m
      → IsOwned srv m
      → m.ttl_seconds ≡ s.monitors.ttl_seconds
      → All (IsCovered now s) m.memory
      → IsIndexed now (record s { monitors = m; manager = m.manager })
  fewer-IsIndexed now s m h l o ttl c = record {
    local = l;
    monitors_owned = o;
    owners_owned = h.owners_owned;
    same_ttl = ttl ∙ h.same_ttl;
    covered = c;
  }

module _ {srv : Server} {http : Http} {V : Type 0} (env : Env V) where
  fire_if-IsIndexed :
      (changes : Changes V) (owner id : Text) (m : Monitor V) (snap : Dict V) (t : Times) (now : ℕ)
      (s : Service srv http V)
      → IsIndexed now s
      → IsIndexed now (fire_if env changes owner id m snap t s).1
  fire_if-IsIndexed [] owner id m snap t now s h = h
  fire_if-IsIndexed (c ∷ changes) owner id m snap t now s h = record {
    local =
        fire_monitor_webhooks-IsLocal srv http env owner
          (record {
            monitor_id = id;
            place_id = m.place_id;
            url = m.url;
            changes = c ∷ changes;
            snapshot = snap;
          })
          m.webhook_url t.listed (under s.manager s.webhooks) s.wire h.local;
    monitors_owned = h.monitors_owned;
    owners_owned = h.owners_owned;
    same_ttl = h.same_ttl;
    covered = h.covered;
  }

  module _ (owner id : Text) (t : Times) (now : ℕ) (n : NoColon owner) (order1 : now ≤ t.stored)
      (order2 : t.stored ≤ t.noted) where
    -- The write of a monitor, the one of the index, and what keeps the index after them
    written_then :
        {A : Type 0} (m : Monitor V)
        (k : StoredRecord (Monitor V) → Exec (Service srv http V) Problem A)
        (s : Service srv http V)
        → IsIndexed now s
        → ((a : StoredRecord (Monitor V)) (s2 : Service srv http V)
            → IsIndexed t.noted s2
            → IsIndexed t.noted (k a s2).1)
        → IsIndexed t.noted
            ((on_monitors (
                  RecordStore.put srv env.monitor_codec.to_json env.monitor_codec.from_json owner id
                    m t.stored t.reread)
                >>= λ a. remember_owner env owner t >>= λ _. k a)
              s).1
    written_then m k s h keeps =
        let s1 = stored_state env owner id m t s in
        let indexed = noted_state-IsIndexed env owner id m t now s h n order1 order2 in
        let l1 : is_available srv s1.manager ≡ false =
          (put_state srv env.monitor_codec.to_json env.monitor_codec.from_json owner id m t.stored
            t.reread (under s.manager s.monitors) h.local).0 in
        let write : Exec (Service srv http V) Problem (StoredRecord (Monitor V)) = on_monitors (
          RecordStore.put srv env.monitor_codec.to_json env.monitor_codec.from_json owner id m
            t.stored t.reread) in
        let steps =
          bind-returns write (λ a. remember_owner env owner t >>= λ _. k a) s s1 _
            (put_ok env owner id m t s h.local)
          ∙ bind-returns (remember_owner env owner t) _ s1 (noted_state env owner t s1) _
              (remember_ok env owner t s1 l1) in
        subst (λ p. IsIndexed t.noted p.1) (sym steps)
          (keeps _ (noted_state env owner t s1) indexed)

    pub create_monitor-IsIndexed :
        (place_id url webhook_url : Option Text) (hours : ℕ) (fields : List Text)
        (s : Service srv http V)
        → IsIndexed now s
        → IsIndexed t.noted
            (create_monitor env owner id place_id url webhook_url hours fields t s).1
    unfolding create_monitor
    create_monitor-IsIndexed place_id url webhook_url hours fields s h =
        elim (result_cases (check_request env place_id url webhook_url)) [
          | inl (u, e) ↦
              rw (e, create_monitor)
                (written_then (created place_id url webhook_url hours fields t.now) (λ a. pure a) s
                  h (λ a s2 i. i))
          | inr (p, e) ↦
              rw (e, create_monitor)
                (IsIndexed-later now t.noted s (omega (arith, order1, order2)) h)
        ]

    pub conclude-IsIndexed :
        (m : Monitor V) (result : Fetched V) (s : Service srv http V)
        → IsIndexed now s
        → IsIndexed t.noted (conclude env owner id m result t s).1
    unfolding conclude
    conclude-IsIndexed m result s h =
        let after = checked env.same t.now result m in
        let snap = snapshot result.place (tracked env.same m.track_fields) in
        let changes : Changes V =
          if is_failed env.same result then [] else diff env.same m.last_snapshot snap in
        written_then after _ s h (λ a s2 i.
          bind-keeps (IsIndexed t.noted) (fire_if env changes owner id after snap t) _ s2
            (fire_if-IsIndexed changes owner id after snap t t.noted s2 i) (λ deliveries s3 j. j))
