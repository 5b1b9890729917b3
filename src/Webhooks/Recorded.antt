-- ===== src/Webhooks/Recorded.antt =====
-- The outcome of a delivery in the in-memory store.
use mathlib.Core.Path.{subst}
use headwater.Prelude.{◌≡◌, ◌≤◌, ◌∙◌, sym, ap, ℕ, ◌+◌, ◌*◌, some, Text}
use headwater.Exec.{ok, then-pure}
use headwater.RateLimiter.Info.{second}
use headwater.Redis.Client.{Server}
use headwater.RecordStore.{Decoding, StoredRecord, RecordStore, get, put, get_memory}
use headwater.RecordStore.Memory.{
  IsOwned, IsLocal, get_local, get_memory-IsLocal, get_memory-IsOwned, get_memory-namespace,
}
use headwater.RecordStore.Isolation.{get-put_self}
use headwater.Webhooks.{Clock, record_delivery_outcome}
use headwater.Webhooks.Stored.{Webhook, with_outcome}
use headwater.Webhooks.Attempts.{Tally}

module _ (srv : Server) (to_json : StoredRecord Webhook → Text)
    (from_json : Text → Decoding Webhook) where
  outcome_put :
      (owner id : Text) (d : Tally) (c : Clock) (s : RecordStore srv Webhook)
      (h : StoredRecord Webhook)
      → IsLocal srv s
      → (get srv to_json from_json owner id c.ended s).0 ≡ ok (some h)
      → let content = with_outcome d.delivered d.status_code d.error c.delivered_at h.content in
        (record_delivery_outcome srv to_json from_json owner id d c s).1
        ≡ (put srv to_json from_json owner id content c.written c.reread
            (get_memory srv owner id c.ended s).1).1
  unfolding record_delivery_outcome
  outcome_put owner id d c s h l e =
      let g = get_local srv to_json from_json owner id c.ended s l in
      let found : (get_memory srv owner id c.ended s).0 ≡ some h = cc (g, e) in
      rw (g, found)
        (then-pure tt
          (put srv to_json from_json owner id
            (with_outcome d.delivered d.status_code d.error c.delivered_at h.content) c.written
            c.reread)
          (get_memory srv owner id c.ended s).1)

  -- On the in-memory path, from a store whose entries are filed under their owners, and with a
  -- webhook that is still there when its delivery is over: until the time to live is over, a later
  -- read returns the webhook with the outcome counted.
  pub get-record_delivery_outcome :
      (owner id : Text) (d : Tally) (c : Clock) (t : ℕ) (s : RecordStore srv Webhook)
      (h : StoredRecord Webhook)
      → IsOwned srv s
      → IsLocal srv s
      → (get srv to_json from_json owner id c.ended s).0 ≡ ok (some h)
      → c.reread ≤ t
      → t ≤ c.written + s.ttl_seconds * second
      → (r : StoredRecord Webhook) × ((get srv to_json from_json owner id t
            (record_delivery_outcome srv to_json from_json owner id d c s).1).0
          ≡ ok (some r))
        × (r.content ≡ with_outcome d.delivered d.status_code d.error c.delivered_at h.content)
  get-record_delivery_outcome owner id d c t s h o l e past fresh =
      let content = with_outcome d.delivered d.status_code d.error c.delivered_at h.content in
      let s' = (get_memory srv owner id c.ended s).1 in
      let fresh' =
        subst (λ z. t ≤ c.written + z * second)
          (sym (get_memory-namespace srv owner id c.ended s).1) fresh in
      let (r, found, _, same, _) =
        get-put_self srv to_json from_json owner id content c.written c.reread t s'
          (get_memory-IsOwned srv owner id c.ended s o)
          (get_memory-IsLocal srv owner id c.ended s l) past fresh' in
      (
        r,
        ap (λ z. (get srv to_json from_json owner id t z).0) (outcome_put owner id d c s h l e)
            ∙ found,
        same.2,
      )
