-- ===== src/Scheduler/Local.antt =====
-- The handlers with no connection to Redis: that they make none, and the states they lead to.
use mathlib.Core.Path.{subst}
use headwater.Prelude.{
  ◌⊎◌, ℕ, suc, ◌≡◌, refl, sym, ap, true, Option, none, some, List, [], ◌∷◌, Text, length, take,
  drop, Option-cases, inl, inr,
}
use headwater.Exec.{then-pure, Result, ok, raise}
use headwater.Dict.{Dict}
use headwater.Redis.Client.{Server}
use headwater.RecordStore
use headwater.RecordStore.{StoredRecord, RecordStore, get_memory, sweep}
use headwater.RecordStore.Memory.{get_memory-IsLocal, IsLocal, get-IsLocal, put_state, get_local}
use headwater.RecordStore.Listing.{list_local, listed}
use headwater.Webhooks
use headwater.Webhooks.{
  max_delivery_attempts, Http, Wire, Clock, deliver_webhook, deliver, record_delivery_outcome,
}
use headwater.Webhooks.Stored.{Webhook, with_outcome}
use headwater.Webhooks.Attempts.{Tally}
use headwater.RecordStore.{Failure}
use headwater.Scheduler.{failing, Env, Event, Problem}
use headwater.Scheduler.Fire.{
  joined, with_inline, is_subscriber, deliver_all, fire_monitor_webhooks,
}

pub result_cases :
    {E A : Type 0} (r : Result E A) → ((a : A) × (r ≡ ok a)) ⊎ ((e : E) × (r ≡ raise e))
result_cases (ok a) = inl (a, refl)
result_cases (raise e) = inr (e, refl)

pub failing-ok : {A : Type 0} (r : Result Failure A) (a : A) → failing r ≡ ok a → r ≡ ok a
failing-ok (ok b) a e = cc (e)
failing-ok (raise x) a e = absurd (cc (e))

module _ (srv : Server) (http : Http) {V : Type 0} (env : Env V) where
  record_delivery_outcome-IsLocal :
      (owner id : Text) (t : Tally) (c : Clock) (s : RecordStore srv Webhook)
      → IsLocal srv s
      → IsLocal srv
          (record_delivery_outcome srv env.webhook_codec.to_json env.webhook_codec.from_json owner
            id t c s).1
  unfolding record_delivery_outcome
  record_delivery_outcome-IsLocal owner id t c s l =
      let g =
        get_local srv env.webhook_codec.to_json env.webhook_codec.from_json owner id c.ended s l in
      let s' = (get_memory srv owner id c.ended s).1 in
      let l' = get_memory-IsLocal srv owner id c.ended s l in
      elim (Option-cases (get_memory srv owner id c.ended s).0) [
        | inl e ↦ rw (g, e) l'
        | inr (r, e) ↦
            let content = with_outcome t.delivered t.status_code t.error c.delivered_at r.content in
            rw (g, e)
              (subst (IsLocal srv)
                (sym (
                  then-pure tt
                    (RecordStore.put srv env.webhook_codec.to_json env.webhook_codec.from_json owner
                      id content c.written c.reread)
                    s'))
                (put_state srv env.webhook_codec.to_json env.webhook_codec.from_json owner id
                  content c.written c.reread s' l').0)
      ]

  deliver_webhook-IsLocal :
      (sign : (secret body : Text) → Text) (headers : (signature : Text) → Dict Text)
      (owner id body : Text) (n : ℕ) (c : Clock) (s : RecordStore srv Webhook) (w : Wire http)
      → IsLocal srv s
      → IsLocal srv
          (deliver_webhook srv env.webhook_codec.to_json env.webhook_codec.from_json env.net http
            env.allowed sign headers owner id body n c
            (s, w)).1
  unfolding deliver_webhook
  deliver_webhook-IsLocal sign headers owner id body n c s w l =
      let to_json = env.webhook_codec.to_json in
      let from_json = env.webhook_codec.from_json in
      let g = ap (λ x. x.0) (get_local srv to_json from_json owner id c.started s l) in
      let s' = (RecordStore.get srv to_json from_json owner id c.started s).1 in
      let l' = get-IsLocal srv to_json from_json owner id c.started s l in
      elim (Option-cases (get_memory srv owner id c.started s).0) [
        | inl e ↦ rw (g, e, deliver_webhook) l'
        | inr (r, e) ↦
            let t =
              (deliver env.net http env.allowed n r.content.url body
                (headers (sign r.content.secret body)) w).0 in
            let l'' = record_delivery_outcome-IsLocal owner id t c s' l' in
            rw (g, e, deliver_webhook)
              (elim (result_cases
                (record_delivery_outcome srv to_json from_json owner id t c s').0) [
                  | inl (u, d) ↦ rw d l''
                  | inr (x, d) ↦ rw d l''
                ])
      ]

  joined-store :
      (t : Tally) (p : Result Problem (List Tally) × RecordStore srv Webhook × Wire http)
      → (joined srv http env t p).1 ≡ p.1
  joined-store t (ok ts, s, w) = refl
  joined-store t (raise x, s, w) = refl

  deliver_all-IsLocal :
      (owner : Text) (event : Event V) (i : ℕ) (rs : List (StoredRecord Webhook))
      (s : RecordStore srv Webhook) (w : Wire http)
      → IsLocal srv s
      → IsLocal srv (deliver_all srv http env owner event i rs (s, w)).1
  unfolding deliver_all
  deliver_all-IsLocal owner event i [] s w l = l
  deliver_all-IsLocal owner event i (r ∷ rs) s w l =
      let o = env.outgoing i event in
      let d =
        deliver_webhook srv env.webhook_codec.to_json env.webhook_codec.from_json env.net http
          env.allowed env.sign (λ signature. o.headers (some signature)) owner r.id o.body
          (max_delivery_attempts env.net http env.allowed) o.clock (s, w) in
      let l' =
        deliver_webhook-IsLocal env.sign (λ signature. o.headers (some signature)) owner r.id o.body
          (max_delivery_attempts env.net http env.allowed) o.clock s w l in
      let rest = deliver_all-IsLocal owner event (suc i) rs d.1 d.2 l' in
      elim (result_cases d.0) [
        | inl (t, e) ↦
            rw (e, deliver_all)
              (subst (IsLocal srv)
                (sym (joined-store t (deliver_all srv http env owner event (suc i) rs (d.1, d.2))))
                rest)
        | inr (Webhooks.webhook_not_found, e) ↦ rw (e, deliver_all) rest
        | inr (Webhooks.store_failed, e) ↦ rw (e, deliver_all) l'
      ]

  with_inline-store :
      (event : Event V) (count : ℕ) (url : Option Text)
      (p : Result Problem (List Tally) × RecordStore srv Webhook × Wire http)
      → (with_inline srv http env event count url p).1 ≡ p.1
  with_inline-store event count none (ok ts, s, w) = refl
  with_inline-store event count (some []) (ok ts, s, w) = refl
  with_inline-store event count (some (c ∷ url)) (ok ts, s, w) = refl
  with_inline-store event count url (raise x, s, w) = refl

  -- Firing the webhooks of a monitor makes no connection.
  pub fire_monitor_webhooks-IsLocal :
      (owner : Text) (event : Event V) (url : Option Text) (now : ℕ) (s : RecordStore srv Webhook)
      (w : Wire http)
      → IsLocal srv s
      → IsLocal srv (fire_monitor_webhooks srv http env owner event url now (s, w)).1
  unfolding fire_monitor_webhooks
  fire_monitor_webhooks-IsLocal owner event url now s w l =
      let listing =
        list_local srv owner (is_subscriber srv http env) (λ r. r.created_at) true now s
          env.webhook_codec.from_json 100 0 l in
      let rs =
        take 100
          (drop 0 (listed srv owner (is_subscriber srv http env) (λ r. r.created_at) true now s)) in
      let s' : RecordStore srv Webhook = record s { memory = sweep srv now s.memory } in
      rw (listing, fire_monitor_webhooks)
        (subst (IsLocal srv)
          (sym (
            with_inline-store event (length rs) url
              (deliver_all srv http env owner event 0 rs (s', w))))
          (deliver_all-IsLocal owner event 0 rs s' w l))
