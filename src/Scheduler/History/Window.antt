-- ===== src/Scheduler/History/Window.antt =====
-- What the history of a place is made of, and its order.
use mathlib.Core.List.{Memᴰ}
use mathlib.Core.List.Memᴰ
use headwater.Prelude.{inl, inr, ◌≡◌, ℕ, some, List, Text, inl, inr}
use headwater.Exec.{ok}
use headwater.Redis.Client.{Server}
use headwater.RecordStore
use headwater.RecordStore.{StoredRecord, RecordStore}
use headwater.Webhooks.{Http}
use headwater.Monitors.{Entry, Monitor}
use headwater.Scheduler.{Env, Service, on_monitors}
use headwater.Scheduler.History.{Observed}

module _ {V : Type 0} (P : Entry V → Type 0) where
  -- An observation is an entry of the history of one of the monitors, and `P` holds of it.
  abbrev pub IsObserved : List (StoredRecord (Monitor V)) → Observed V → Type 0
  IsObserved monitors o =
      (r : StoredRecord (Monitor V)) × Memᴰ r monitors
      × (o.monitor_id ≡ r.id)
      × Memᴰ o.entry r.content.history
      × P o.entry

module _ {srv : Server} {http : Http} {V : Type 0} (env : Env V) where
  -- The owner can read the record by its id at this time.
  abbrev CanRead :
      (owner : Text) (now : ℕ) (s : Service srv http V) → StoredRecord (Monitor V) → Type 0
  CanRead owner now s r =
      (on_monitors
        (RecordStore.get srv env.monitor_codec.to_json env.monitor_codec.from_json owner r.id now)
        s).0
      ≡ ok (some r)

  -- A monitor of this owner for the place
  abbrev pub Covers :
      (owner place_id : Text) (now : ℕ) (s : Service srv http V) → StoredRecord (Monitor V) → Type 0
  Covers owner place_id now s r =
      (r.content.place_id ≡ some place_id) × (r.owner ≡ owner) × CanRead owner now s r
