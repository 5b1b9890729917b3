-- ===== src/Scheduler.antt =====
-- The service of place monitors in app/services/google_maps_monitors.py: its monitors, the index of
-- the owners that have some, and its webhooks, in three record stores over one Redis manager, with
-- the HTTP client beside them. The JSON codecs, the signature, what `json.dumps`, `uuid4` and the
-- clock make of an event, and the scrape are parameters. The task that runs the ticks in the
-- background is left out. A handler runs to its end before the next one.
pub mod Fire
pub mod Calls
pub mod Local
pub mod Index
pub mod Noted
pub mod Kept
pub mod Forgotten
pub mod Handlers
pub mod Reached
pub mod Ticks
pub mod Known
pub mod Views
pub mod History
use headwater.Prelude.{ℕ, Bool, Option, List, [], ◌∷◌, Text, codes}
use headwater.Exec.{Exec, Result, ok, raise}
use headwater.Dict.{Dict}
use headwater.Redis.{Manager}
use headwater.Redis.Client.{Server}
use headwater.RecordStore.{Decoding, StoredRecord, RecordStore, Failure}
use headwater.UrlGuard.{Net}
use headwater.Webhooks.{Http, Wire, Clock}
use headwater.Webhooks.Stored.{Webhook}
use headwater.Monitors.{Monitor, Changes}

pub record Codec (D : Type 0) : Type 0 where
  pub to_json : StoredRecord D → Text
  pub from_json : Text → Decoding D

-- The data of the owner index
pub record Seen : Type 0 where
  pub owner : Text
  pub seen_at : ℕ

-- The payload of `monitor.changed`, without the time, which is of the encoding
pub record Event (V : Type 0) : Type 0 where
  pub monitor_id : Text
  pub place_id : Option Text
  pub url : Option Text
  pub changes : Changes V
  pub snapshot : Dict V

-- One delivery of an event: its body, its headers with and without a signature, and the clock.
pub record Outgoing : Type 0 where
  pub body : Text
  pub headers : Option Text → Dict Text
  pub clock : Clock

pub record Env (V : Type 0) : Type 0 where
  pub net : Net
  pub allowed : Option (List Text)
  pub monitor_codec : Codec (Monitor V)
  pub owner_codec : Codec Seen
  pub webhook_codec : Codec Webhook
  pub same : V → V → Bool
  pub sign : (secret body : Text) → Text
  pub outgoing : ℕ → Event V → Outgoing

-- `ValueError`, `InvalidWebhookTarget`, `MonitorNotFound`, `WebhookNotFound`, and what the record
-- store raises
pub data Problem : Type 0 where
  value_error monitor_not_found webhook_not_found : Problem
  invalid_target : (message : Text) → Problem
  store_failure : Failure → Problem

pub record Service (srv : Server) (http : Http) (V : Type 0) : Type 0 where
  pub manager : Manager srv
  pub monitors : RecordStore srv (Monitor V)
  pub owners : RecordStore srv Seen
  pub webhooks : RecordStore srv Webhook
  pub wire : Wire http

abbrev pub failing : {A : Type 0} → Result Failure A → Result Problem A
failing (ok a) = ok a
failing (raise e) = raise (store_failure e)

-- A store as it is called: the manager is the process's.
abbrev pub under : {srv : Server} {D : Type 0} → Manager srv → RecordStore srv D → RecordStore srv D
under m s = record s { manager = m }

module _ {srv : Server} {http : Http} {V : Type 0} {A : Type 0} where
  abbrev pub on_monitors :
      Exec (RecordStore srv (Monitor V)) Failure A → Exec (Service srv http V) Problem A
  on_monitors m s =
      let (r, t) = m (under s.manager s.monitors) in
      (failing r, record s { monitors = t; manager = t.manager })

  abbrev pub on_owners : Exec (RecordStore srv Seen) Failure A → Exec (Service srv http V) Problem A
  on_owners m s =
      let (r, t) = m (under s.manager s.owners) in
      (failing r, record s { owners = t; manager = t.manager })

  abbrev pub on_webhooks :
      Exec (RecordStore srv Webhook) Failure A → Exec (Service srv http V) Problem A
  on_webhooks m s =
      let (r, t) = m (under s.manager s.webhooks) in
      (failing r, record s { webhooks = t; manager = t.manager })

  -- A call that also sends requests
  abbrev pub on_wire :
      (RecordStore srv Webhook × Wire http → Result Problem A × RecordStore srv Webhook × Wire http)
      → Exec (Service srv http V) Problem A
  on_wire m s =
      let (r, t, w) = m (under s.manager s.webhooks, s.wire) in
      (r, record s { webhooks = t; manager = t.manager; wire = w })

abbrev pub index_owner : Text
index_owner = codes "__scheduler_index__"

abbrev pub monitor_changed_event : Text
monitor_changed_event = codes "monitor.changed"

abbrev pub maps_allowed_hosts : List Text
maps_allowed_hosts =
    codes "www.google.com"
    ∷ codes "maps.google.com"
    ∷ codes "www.google.co.uk"
    ∷ codes "goo.gl"
    ∷ codes "maps.app.goo.gl"
    ∷ []
