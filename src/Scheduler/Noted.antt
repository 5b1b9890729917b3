-- ===== src/Scheduler/Noted.antt =====
-- The write of a monitor and of the owner index, one after the other.
use headwater.Prelude.{ℕ, ◌+◌, ◌*◌, ◌≤◌, ◌≡◌, sym, ◌∙◌, false, Text, arith}
use headwater.RateLimiter.Info.{second}
use headwater.Redis.{is_available}
use headwater.Redis.Client.{Server}
use headwater.Prelude.{NoColon}
use headwater.RecordStore.Memory.{put_state, put-settings}
use headwater.RecordStore.Isolation.{put-IsOwned}
use headwater.Webhooks.{Http}
use headwater.Monitors.{Monitor}
use headwater.Scheduler.{Env, Service, Seen, under, index_owner}
use headwater.Scheduler.Calls.{Times}
use headwater.Scheduler.Index.{
  All_imp, IsCovered, IsHalf, IsIndexed, under-IsOwned, index_owner-NoColon, stored_state,
  noted_state, stored-IsHalf, half-IsNoted,
}

module _ {srv : Server} {http : Http} {V : Type 0} (env : Env V) where
  -- A monitor is written, and then the index: all monitors are covered again.
  pub noted_state-IsIndexed :
      (owner id : Text) (m : Monitor V) (t : Times) (now : ℕ) (s : Service srv http V)
      → IsIndexed now s
      → NoColon owner
      → now ≤ t.stored
      → t.stored ≤ t.noted
      → IsIndexed t.noted (noted_state env owner t (stored_state env owner id m t s))
  noted_state-IsIndexed owner id m t now s h n order1 order2 =
      let s1 = stored_state env owner id m t s in
      let to_json = env.monitor_codec.to_json in
      let from_json = env.monitor_codec.from_json in
      let l1 : is_available srv s1.manager ≡ false =
        (put_state srv to_json from_json owner id m t.stored t.reread (under s.manager s.monitors)
          h.local).0 in
      let note : Seen = record { owner = owner; seen_at = t.seen_at } in
      let set1 =
        put-settings srv to_json from_json owner id m t.stored t.reread (under s.manager s.monitors)
          h.local in
      let set2 =
        put-settings srv env.owner_codec.to_json env.owner_codec.from_json index_owner owner note
          t.noted t.renoted (under s1.manager s.owners) l1 in
      record {
        local =
            (put_state srv env.owner_codec.to_json env.owner_codec.from_json index_owner owner note
              t.noted t.renoted (under s1.manager s.owners) l1).0;
        monitors_owned =
            put-IsOwned srv to_json from_json owner id m t.stored t.reread
              (under s.manager s.monitors) (under-IsOwned s.manager s.monitors h.monitors_owned)
              h.local n;
        owners_owned =
            put-IsOwned srv env.owner_codec.to_json env.owner_codec.from_json index_owner owner note
              t.noted t.renoted (under s1.manager s.owners)
              (under-IsOwned s1.manager s.owners h.owners_owned) l1 index_owner-NoColon;
        same_ttl = set1.1 ∙ h.same_ttl ∙ sym set2.1;
        covered =
            All_imp (IsHalf env owner t.stored s) (IsCovered t.noted (noted_state env owner t s1))
              s1.monitors.memory
              (λ e half.
                let past : e.1.0 ≤ t.noted + s.owners.ttl_seconds * second =
                  omega (arith, half.0, order2) in
                let kept =
                  half-IsNoted env owner t s1 e.1.1.owner e.1.0 l1 h.owners_owned past half.1 in
                (rw set2.1 past, rw set2.0 kept))
              (stored-IsHalf env owner id m t s now h order1);
      }
