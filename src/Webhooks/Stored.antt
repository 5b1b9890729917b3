-- ===== src/Webhooks/Stored.antt =====
-- The data of a webhook in app/services/google_maps_monitors.py: as register_webhook makes it, and
-- as _record_delivery_outcome writes it back.
use headwater.Prelude.{ℕ, ◌+◌, Bool, Option, none, some, List, Text, leb, if◌then◌else◌}

-- The stored data of a webhook
pub data Status : Type 0 where
  active failing : Status

pub record Webhook : Type 0 where
  pub url : Text
  pub events : List Text
  pub secret : Text
  pub status : Status
  pub delivery_count : ℕ
  pub success_count : ℕ
  pub failure_count : ℕ
  pub consecutive_failures : ℕ
  pub last_delivery_at : Option ℕ
  pub last_status : Option ℕ
  pub last_error : Option Text

-- The data that `register_webhook` stores.
abbrev pub registered : (url : Text) (events : List Text) (secret : Text) → Webhook
registered url events secret = record {
  url = url;
  events = events;
  secret = secret;
  status = active;
  delivery_count = 0;
  success_count = 0;
  failure_count = 0;
  consecutive_failures = 0;
  last_delivery_at = none;
  last_status = none;
  last_error = none;
}

-- The data that `_record_delivery_outcome` writes back.
unfoldable pub with_outcome :
    (delivered : Bool) (status_code : Option ℕ) (error : Option Text) (now : ℕ) → Webhook → Webhook
with_outcome delivered status_code error now h =
    let seen = record h {
      delivery_count = h.delivery_count + 1;
      last_delivery_at = some now;
      last_status = status_code;
      last_error = error;
    } in
    if delivered
    then record seen {
      success_count = h.success_count + 1;
      consecutive_failures = 0;
      status = active;
    }
    else record seen {
      failure_count = h.failure_count + 1;
      consecutive_failures = h.consecutive_failures + 1;
      status = if leb 10 (h.consecutive_failures + 1) then failing else h.status;
    }
