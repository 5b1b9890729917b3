-- ===== src/Webhooks.antt =====
-- Webhooks of app/services/google_maps_monitors.py: the guarded post, the delivery with retries, and
-- the outcome written back. The HTTP client, the signature and the JSON encoder are parameters; what
-- is sent and how long the code sleeps are kept as lists.
pub mod Stored
pub mod Targets
pub mod Posts
pub mod Attempts
pub mod Counts
pub mod Delivery
pub mod Sent
pub mod Recorded
use headwater.Prelude.{
  ℕ, zero, suc, max, Bool, true, Option, none, some, List, [], ◌∷◌, ◌++◌, Text, any, ◌==◌,
  if◌then◌else◌,
}
use headwater.Exec.{Exec, Result, ok, raise, pure, ◌>>=◌, ◌>>◌}
use headwater.Redis.Client.{Server}
use headwater.RecordStore
use Stored.{Webhook, with_outcome}
use Targets.{invalid_message, validate_webhook_target}
use Posts.{Posted, status, rejected, failed}
use Attempts.{Tally, fresh, attempt}
use headwater.Dict.{Dict}
use headwater.RecordStore.{Decoding, StoredRecord, RecordStore, Failure, get, put}
use headwater.UrlGuard.{Net, ValidatedUrl}

pub record Request : Type 0 where
  pub target : ValidatedUrl
  pub url : Text
  pub host_header : Option Text
  pub content : Text
  pub headers : Dict Text

-- What the client answers to one request: a response and its `location`, or an exception.
pub data Answer : Type 0 where
  response : ℕ → Option Text → Answer
  exception : Text → Answer

pub record Http : Type 1 where
  pub State : Type 0
  pub post : Request → State → Answer × State
  pub copy_with : (url host : Text) → ℕ → Text
  pub join : (url location : Text) → Result Text Text

abbrev bracketed : Text → Text
bracketed address = if any (λ c. c == b':') address then b'[' ∷ (address ++ b']' ∷ []) else address

-- The client with what has gone through it: the requests sent and the seconds slept, last first.
pub record Wire (http : Http) : Type 0 where
  pub state : http.State
  pub sent : List Request
  pub slept : List ℕ

-- One turn of the loop over redirects.
pub data Hop : Type 0 where
  final : Posted → Hop
  redirected : (url location : Text) → Hop

abbrev is_redirect : ℕ → Bool
is_redirect c = any (λ d. c == d) (301 ∷ 302 ∷ 303 ∷ 307 ∷ 308 ∷ [])

-- The response's part of the turn; an empty location is none.
unfoldable pub read_answer : ValidatedUrl → Answer → Hop
read_answer v (exception t) = final (failed t)
read_answer v (response c none) = final (status c)
read_answer v (response c (some [])) = final (status c)
read_answer v (response c (some (x ∷ location))) =
    if is_redirect c then redirected v.url (x ∷ location) else final (status c)

module _ (net : Net) (http : Http) (allowed : Option (List Text)) where
  unfoldable pub pinned_request : ValidatedUrl → (body : Text) (headers : Dict Text) → Request
  pinned_request v body headers = elim v.ip_addresses [
    | [] ↦ record { target = v; url = v.url; host_header = none; content = body; headers = headers }
    | address ∷ rest ↦ record {
      target = v;
      url = http.copy_with v.url (bracketed address) v.port;
      host_header = some v.host;
      content = body;
      headers = headers;
    }
  ]

  abbrev pub send : Request → Wire http → Answer × Wire http
  send r w = let (a, s) = http.post r w.state in (a, record w { state = s; sent = r ∷ w.sent })

  unfoldable pub hop : (target body : Text) (headers : Dict Text) → Wire http → Hop × Wire http
  hop target body headers w = elim (validate_webhook_target net allowed target true) [
    | raise message ↦ (final (rejected message), w)
    | ok v ↦ (let (a, w') = send (pinned_request v body headers) w in (read_answer v a, w'))
  ]

  -- `_post_with_redirect_guard`, with `hops` more redirects to follow
  unfoldable pub follow :
      (hops : ℕ) (target body : Text) (headers : Dict Text) → Wire http → Posted × Wire http
  follow zero target body headers w =
      let (h, w') = hop target body headers w in
      elim h [ final p ↦ (p, w') | redirected url location ↦ (rejected invalid_message, w') ]
  follow (suc hops) target body headers w =
      let (h, w') = hop target body headers w in
      elim h [
        | final p ↦ (p, w')
        | redirected url location ↦ elim (http.join url location) [
          | raise t ↦ (failed t, w')
          | ok next ↦ follow hops next body headers w'
        ]
      ]

  abbrev max_redirect_hops : ℕ
  max_redirect_hops = 2

  unfoldable pub post_with_redirect_guard :
      (url body : Text) (headers : Dict Text) → Wire http → Posted × Wire http
  post_with_redirect_guard = follow max_redirect_hops

  unfoldable pub sleep : ℕ → Wire http → Wire http
  sleep seconds w = record w { slept = seconds ∷ w.slept }

  abbrev pub max_delivery_attempts : ℕ
  max_delivery_attempts = 4

  -- The loop of a delivery to `url`
  unfoldable pub deliver :
      (max_attempts : ℕ) (url body : Text) (headers : Dict Text) → Wire http → Tally × Wire http
  deliver max_attempts url body headers =
      attempt (post_with_redirect_guard url body headers) sleep (max 1 max_attempts) fresh

  -- `_deliver_inline`
  unfoldable pub deliver_inline :
      (url body : Text) (headers : Dict Text) → Wire http → Tally × Wire http
  deliver_inline = deliver max_delivery_attempts

-- The readings of the clock in one delivery: of the first `get`, of the second one, of
-- `last_delivery_at`, and the two of `put`.
pub record Clock : Type 0 where
  pub started : ℕ
  pub ended : ℕ
  pub delivered_at : ℕ
  pub written : ℕ
  pub reread : ℕ

-- `deliver_webhook` of an unknown webhook raises `WebhookNotFound`.
pub data Refusal : Type 0 where
  webhook_not_found store_failed : Refusal

module _ (srv : Server) (to_json : StoredRecord Webhook → Text)
    (from_json : Text → Decoding Webhook) where
  abbrev Store : Type 0
  Store = RecordStore srv Webhook

  -- `_record_delivery_outcome`: a webhook that is gone by then is left alone.
  unfoldable pub record_delivery_outcome :
      (owner webhook_id : Text) → Tally → Clock → Exec Store Failure Unit
  record_delivery_outcome owner webhook_id t c = do
    found ← RecordStore.get srv to_json from_json owner webhook_id c.ended
    elim found [
      | none ↦ pure tt
      | some r ↦ (do
        RecordStore.put srv to_json from_json owner webhook_id
            (with_outcome t.delivered t.status_code t.error c.delivered_at r.content) c.written
            c.reread
        pure tt)
    ]

  module _ (net : Net) (http : Http) (allowed : Option (List Text)) where
    -- What the request says of the delivery, from the record and the body: the body that is signed
    -- is the body that is sent.
    unfoldable pub deliver_webhook :
        (sign : (secret body : Text) → Text) (headers : (signature : Text) → Dict Text)
        (owner webhook_id body : Text) (max_attempts : ℕ) (c : Clock)
        → Store × Wire http
        → Result Refusal Tally × Store × Wire http
    deliver_webhook sign headers owner webhook_id body max_attempts c (s, w) =
        let (found, s1) = RecordStore.get srv to_json from_json owner webhook_id c.started s in
        elim found [
          | raise e ↦ (raise store_failed, s1, w)
          | ok none ↦ (raise webhook_not_found, s1, w)
          | ok (some r) ↦
              (let (t, w1) =
                  deliver net http allowed max_attempts r.content.url body
                    (headers (sign r.content.secret body)) w in
                let (done, s2) = record_delivery_outcome owner webhook_id t c s1 in
                elim done [ raise e ↦ (raise store_failed, s2, w1) | ok u ↦ (ok t, s2, w1) ])
        ]
