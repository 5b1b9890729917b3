-- ===== src/Scheduler/Fire.antt =====
-- `_fire_monitor_webhooks` of app/services/google_maps_monitors.py.
use headwater.Prelude.{
  ℕ, suc, Bool, true, Option, none, some, List, [], ◌∷◌, ◌++◌, Text, text_eq, any, length,
}
use headwater.Exec.{Result, ok, raise}
use headwater.Redis.Client.{Server}
use headwater.RecordStore
use headwater.RecordStore.{StoredRecord, RecordStore, Failure, redis_failure}
use headwater.Webhooks
use headwater.Webhooks.{Http, Wire, deliver_webhook, deliver_inline, max_delivery_attempts}
use headwater.Webhooks.Stored.{Webhook}
use headwater.Webhooks.Attempts.{Tally}
use headwater.Scheduler.{Env, Event, Problem, store_failure, monitor_changed_event}

module _ (srv : Server) (http : Http) {V : Type 0} (env : Env V) where
  abbrev Hooks : Type 0
  Hooks = RecordStore srv Webhook

  -- `results.append` of a delivery that has been made
  abbrev pub joined :
      Tally
      → Result Problem (List Tally) × Hooks × Wire http
      → Result Problem (List Tally) × Hooks × Wire http
  joined t (ok ts, s, w) = (ok (t ∷ ts), s, w)
  joined t (raise p, s, w) = (raise p, s, w)

  -- The loop over the registered webhooks, of which `i` have been taken; one that is gone by then
  -- is passed over.
  unfoldable pub deliver_all :
      (owner : Text) (event : Event V) (i : ℕ)
      → List (StoredRecord Webhook)
      → Hooks × Wire http
      → Result Problem (List Tally) × Hooks × Wire http
  deliver_all owner event i [] (s, w) = (ok [], s, w)
  deliver_all owner event i (r ∷ rs) (s, w) =
      let o = env.outgoing i event in
      let (d, s1, w1) =
        deliver_webhook srv env.webhook_codec.to_json env.webhook_codec.from_json env.net http
          env.allowed env.sign (λ signature. o.headers (some signature)) owner r.id o.body
          (max_delivery_attempts env.net http env.allowed) o.clock (s, w) in
      elim d [
        | raise Webhooks.store_failed ↦ (raise (store_failure redis_failure), s1, w1)
        | raise Webhooks.webhook_not_found ↦ deliver_all owner event (suc i) rs (s1, w1)
        | ok t ↦ joined t (deliver_all owner event (suc i) rs (s1, w1))
      ]

  abbrev pub is_subscriber : StoredRecord Webhook → Bool
  is_subscriber r = any (λ e. text_eq e monitor_changed_event) r.content.events

  -- The delivery to the monitor's own `webhook_url`, after the others
  abbrev pub with_inline :
      (event : Event V) (count : ℕ) (webhook_url : Option Text)
      → Result Problem (List Tally) × Hooks × Wire http
      → Result Problem (List Tally) × Hooks × Wire http
  with_inline event count webhook_url (raise p, s, w) = (raise p, s, w)
  with_inline event count none (ok ts, s, w) = (ok ts, s, w)
  with_inline event count (some []) (ok ts, s, w) = (ok ts, s, w)
  with_inline event count (some (c ∷ url)) (ok ts, s, w) =
      let o = env.outgoing count event in
      let (t, w1) = deliver_inline env.net http env.allowed (c ∷ url) o.body (o.headers none) w in
      (ok (ts ++ t ∷ []), s, w1)

  abbrev after_listing :
      (owner : Text) (event : Event V) (webhook_url : Option Text)
      → Result Failure (List (StoredRecord Webhook))
      → Hooks × Wire http
      → Result Problem (List Tally) × Hooks × Wire http
  after_listing owner event webhook_url (raise e) (s, w) = (raise (store_failure e), s, w)
  after_listing owner event webhook_url (ok rs) (s, w) =
      with_inline event (length rs) webhook_url (deliver_all owner event 0 rs (s, w))

  unfoldable pub fire_monitor_webhooks :
      (owner : Text) (event : Event V) (webhook_url : Option Text) (now : ℕ)
      → Hooks × Wire http
      → Result Problem (List Tally) × Hooks × Wire http
  fire_monitor_webhooks owner event webhook_url now (s, w) =
      let (found, s1) =
        RecordStore.list_for_owner srv env.webhook_codec.from_json owner 100 0 is_subscriber
          (λ r. r.created_at) true now s in
      after_listing owner event webhook_url found (s1, w)
