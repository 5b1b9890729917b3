-- ===== src/Scheduler/Views.antt =====
-- What callers see of monitors and webhooks, and the registration and deletion of webhooks, in
-- app/services/google_maps_monitors.py. Times stand as numbers, where the source formats them.
use headwater.Prelude.{
  ℕ, Bool, true, false, not, Option, none, some, List, [], ◌∷◌, map, keep, length, Text, lower,
  strip, text_eq, is_empty, if◌then◌else◌,
}
use headwater.Exec.{Exec, Result, ok, raise, pure, throw, ◌>>=◌, ◌>>◌}
use headwater.Redis.Client.{Server}
use headwater.RecordStore
use headwater.RecordStore.{StoredRecord}
use headwater.Webhooks.{Http}
use headwater.Webhooks.Stored.{Status, Webhook, registered}
use headwater.Monitors.{Entry, Monitor}
use headwater.Scheduler.{
  Env, Service, Problem, value_error, monitor_not_found, webhook_not_found, on_monitors,
  on_webhooks,
}
use headwater.Scheduler.Calls.{permitted_hook}
use headwater.Webhooks.Targets.{validate_webhook_target}

pub record MonitorView (V : Type 0) : Type 0 where
  pub monitor_id : Text
  pub created_at : ℕ
  pub updated_at : ℕ
  pub history_entries : ℕ
  pub place_id : Option Text
  pub url : Option Text
  pub webhook_url : Option Text
  pub check_interval_hours : ℕ
  pub track_fields : List Text
  pub status : Text
  pub next_check : ℕ
  pub last_checked : Option ℕ
  pub last_error : Option Text
  pub check_count : ℕ
  pub change_count : ℕ
  pub history : Option (List (Entry V))

pub record WebhookView : Type 0 where
  pub webhook_id : Text
  pub created_at : ℕ
  pub updated_at : ℕ
  pub url : Text
  pub events : List Text
  pub status : Status
  pub delivery_count : ℕ
  pub success_count : ℕ
  pub failure_count : ℕ
  pub consecutive_failures : ℕ
  pub last_delivery_at : Option ℕ
  pub last_status : Option ℕ
  pub last_error : Option Text

-- `_monitor_view`, without `last_snapshot`
unfoldable pub monitor_view :
    {V : Type 0} (include_history : Bool) → StoredRecord (Monitor V) → MonitorView V
monitor_view include_history r =
    let m = r.content in
    record {
      monitor_id = r.id;
      created_at = r.created_at;
      updated_at = r.updated_at;
      history_entries = length m.history;
      place_id = m.place_id;
      url = m.url;
      webhook_url = m.webhook_url;
      check_interval_hours = m.check_interval_hours;
      track_fields = m.track_fields;
      status = m.status;
      next_check = m.next_check;
      last_checked = m.last_checked;
      last_error = m.last_error;
      check_count = m.check_count;
      change_count = m.change_count;
      history = if include_history then some m.history else none;
    }

-- `_webhook_view`, without the secret
unfoldable pub webhook_view : StoredRecord Webhook → WebhookView
webhook_view r =
    let h = r.content in
    record {
      webhook_id = r.id;
      created_at = r.created_at;
      updated_at = r.updated_at;
      url = h.url;
      events = h.events;
      status = h.status;
      delivery_count = h.delivery_count;
      success_count = h.success_count;
      failure_count = h.failure_count;
      consecutive_failures = h.consecutive_failures;
      last_delivery_at = h.last_delivery_at;
      last_status = h.last_status;
      last_error = h.last_error;
    }

-- The filter of `list_monitors`: none where no status is given, or an empty one
unfoldable pub status_matches : {V : Type 0} → Option Text → StoredRecord (Monitor V) → Bool
status_matches none r = true
status_matches (some []) r = true
status_matches (some (c ∷ status)) r = text_eq (lower r.content.status) (lower (c ∷ status))

-- `secret or secrets.token_urlsafe(32)`
abbrev signing_secret : (secret : Option Text) (token : Text) → Text
signing_secret none token = token
signing_secret (some []) token = token
signing_secret (some (c ∷ secret)) token = c ∷ secret

abbrev accepted : {S : Type 0} → Result Problem Unit → Exec S Problem Unit
accepted r s = (r, s)

module _ {srv : Server} {http : Http} {V : Type 0} (env : Env V) where
  -- The views, and the total: the store is listed twice.
  unfoldable pub list_monitors :
      (owner : Text) (status : Option Text) (limit offset now later : ℕ)
      → Exec (Service srv http V) Problem (List (MonitorView V) × ℕ)
  unfolding monitor_view status_matches
  list_monitors owner status limit offset now later = do
    records ← on_monitors (
        RecordStore.list_for_owner srv env.monitor_codec.from_json owner limit offset
          (status_matches status) (λ r. r.created_at) true now)
    all ← on_monitors (
        RecordStore.list_for_owner srv env.monitor_codec.from_json owner 10000 0
          (status_matches status) (λ r. r.created_at) true later)
    pure (map (monitor_view false) records, length all)

  abbrev monitor_or_raise :
      (include_history : Bool)
      → Option (StoredRecord (Monitor V))
      → Exec (Service srv http V) Problem (MonitorView V)
  monitor_or_raise include_history none = throw monitor_not_found
  monitor_or_raise include_history (some r) = pure (monitor_view include_history r)

  unfoldable pub get_monitor :
      (owner monitor_id : Text) (include_history : Bool) (now : ℕ)
      → Exec (Service srv http V) Problem (MonitorView V)
  unfolding monitor_view
  get_monitor owner monitor_id include_history now = do
    found ← on_monitors (
        RecordStore.get srv env.monitor_codec.to_json env.monitor_codec.from_json owner monitor_id
          now)
    monitor_or_raise include_history found

  -- The view and the secret, which no other call returns. `token` is the new random secret.
  unfoldable pub register_webhook :
      (owner webhook_id url : Text) (events : List Text) (secret : Option Text) (token : Text)
      (now later : ℕ)
      → Exec (Service srv http V) Problem (WebhookView × Text)
  unfolding webhook_view
  register_webhook owner webhook_id url events secret token now later =
      let event_list = keep (λ e. not (is_empty (strip e))) events in
      (do
        accepted (if is_empty event_list then raise value_error else ok tt)
        accepted (permitted_hook (validate_webhook_target env.net env.allowed url true))
        r ← on_webhooks (
            RecordStore.put srv env.webhook_codec.to_json env.webhook_codec.from_json owner
              webhook_id (registered url event_list (signing_secret secret token)) now later)
        pure (webhook_view r, signing_secret secret token))

  unfoldable pub list_webhooks :
      (owner : Text) (limit offset now later : ℕ)
      → Exec (Service srv http V) Problem (List WebhookView × ℕ)
  unfolding webhook_view
  list_webhooks owner limit offset now later = do
    records ← on_webhooks (
        RecordStore.list_for_owner srv env.webhook_codec.from_json owner limit offset (λ r. true)
          (λ r. r.created_at) true now)
    total ← on_webhooks (RecordStore.count_for_owner srv env.webhook_codec.from_json owner later)
    pure (map webhook_view records, total)

module _ {srv : Server} {http : Http} {V : Type 0} where
  unfoldable pub delete_webhook : (owner webhook_id : Text) → Exec (Service srv http V) Problem Unit
  delete_webhook owner webhook_id = do
    there ← on_webhooks (RecordStore.delete srv owner webhook_id)
    if there then pure tt else throw webhook_not_found
