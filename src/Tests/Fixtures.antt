-- ===== src/Tests/Fixtures.antt =====
-- Inputs that the tests share.
use headwater.Prelude.{
  Option, ℕ, ◌+◌, refl, true, false, none, some, [], ◌∷◌, Text, codes, text_eq, text_eq_refl,
  if◌then◌else◌, arith,
}
use headwater.Redis.{Manager}
use headwater.Redis.Client.{Server, ok, seconds, IsCounting}
use headwater.RateLimiter.Identity.{Request, Decoded}
use headwater.RateLimiter.Deployment.{Settings}
use headwater.RateLimiter.Limit.{Process, Limiter, Response, Body, World}

-- A server of counters that is always up and never lets a key lapse.
abbrev pub counters : Server
counters = record {
  State = Text → ℕ;
  ping = λ s. (ok tt, s);
  get = λ k s. (ok none, s);
  setex = λ k t v s. (ok tt, s);
  set = λ k v s. (ok tt, s);
  delete = λ ks s. (ok 0, s);
  exists = λ ks s. (ok 0, s);
  incr = λ k s. (ok (s k + 1), λ j. if text_eq k j then s k + 1 else s j);
  expire = λ k t s. (ok true, s);
  ttl = λ k s. (ok (seconds 60), s);
  keys = λ p s. (ok [], s);
  scan = λ p s. (ok [], s);
  incr_ttl = λ k s. (ok (s k + 1, seconds 60), λ j. if text_eq k j then s k + 1 else s j);
}

abbrev pub counter : counters.State → Text → ℕ
counter s k = s k

pub counters-IsCounting : IsCounting counters counter
counters-IsCounting = record {
  counts = λ k s n t e. ground arith;
  counted = λ k s n t e. rw (text_eq_refl k) (ground arith);
  other_kept = λ k j s e. rw e;
  ping_keeps = λ j s. refl;
  expire_keeps = λ k j w s. refl;
}

abbrev pub fresh_manager : Manager counters
fresh_manager = record {
  redis_url = some (codes "redis://cache");
  client = false;
  initialized = false;
  connection_error_count = 0;
  server = λ k. 0;
}

abbrev pub world : World counters
world = record { manager = fresh_manager; created = false; store = [] }

abbrev pub settings : Settings
settings = record {
  enabled = true;
  requests = 2;
  timeframe = 60;
  redis_url = some (codes "redis://cache");
  environment = codes "production";
  api_keys = codes "alpha" ∷ [];
}

abbrev pub limiter : Limiter
limiter = record { requests_override = none; timeframe_override = none; settings = settings }

abbrev pub process : Process
process = record {
  getenv = λ name. none;
  argv = [];
  auth_keys = [];
  json_loads = λ t. Decoded.value_error;
  keyed_digest = λ t. t;
}

abbrev pub request : Request
request = record {
  api_key_header = some (codes " alpha ");
  host = some (codes "10.0.0.1");
  path = codes "/api/v1/jobs";
}

abbrev pub handler : Request → Response
handler r = record { status = 200; headers = []; body = Body.content r.path }

-- The same, holding the text `7` under every key, and a manager that is connected to it.
abbrev pub holder : Server
holder = record counters { get = λ k s. (ok (some (codes "7")), s) }

abbrev pub connected : Manager holder
connected = record {
  redis_url = some (codes "redis://cache");
  client = true;
  initialized = true;
  connection_error_count = 0;
  server = λ k. 0;
}

abbrev pub serialize : Option ℕ → Text
serialize v = codes "7"

abbrev pub deserialize : Text → Option ℕ
deserialize t = some 7
