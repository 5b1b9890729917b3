-- ===== src/Tests/Outcomes.antt =====
-- A delivery's outcome in the in-memory store.
use headwater.RecordStore
use headwater.Prelude.{◌≡◌, refl, false, some, [], ◌∷◌, Text, codes}
use headwater.Dict.{lookup}
use headwater.Exec.{ok}
use headwater.Redis.{is_available}
use headwater.RecordStore.{Decoding, StoredRecord, RecordStore, get, key_of}
use headwater.RecordStore.Memory.{IsOwned, IsLocal}
use headwater.Tests.Fixtures.{counters, fresh_manager}
use headwater.Webhooks.{Clock}
use headwater.Webhooks.Stored.{Webhook, registered}
use headwater.Webhooks.Attempts.{Tally}

abbrev to_json : StoredRecord Webhook → Text
to_json r = codes "{}"

abbrev from_json : Text → Decoding Webhook
from_json t = RecordStore.corrupt

abbrev hook : StoredRecord Webhook
hook = record {
  id = codes "1";
  owner = codes "ann";
  content = registered (codes "u") [] (codes "s");
  created_at = 0;
  updated_at = 0;
}

abbrev hooks : RecordStore counters Webhook
hooks = record {
  namespace = codes "hooks";
  ttl_seconds = 60;
  memory = (codes "hooks:ann:1", (60000000, hook)) ∷ [];
  manager = fresh_manager;
}

hooks-IsOwned : IsOwned counters hooks
unfolding key_of lookup
hooks-IsOwned = record { filed = ((refl, (refl, (refl, (refl, tt)))), tt); distinct = (refl, tt) }

hooks-IsLocal : IsLocal counters hooks
unfolding is_available
hooks-IsLocal = refl

get_hook : (get counters to_json from_json (codes "ann") (codes "1") 5 hooks).0 ≡ ok (some hook)
unfolding get key_of lookup is_available headwater.RecordStore.get_redis
    headwater.RecordStore.get_memory headwater.Prelude.text_eq
get_hook = refl

abbrev failed_once : Tally
failed_once = record { attempts = 4; status_code = some 500; error = some []; delivered = false }

abbrev clock : Clock
clock = record { started = 4; ended = 5; delivered_at = 5; written = 5; reread = 6 }
