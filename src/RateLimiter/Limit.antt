-- ===== src/RateLimiter/Limit.antt =====
-- `RateLimiter` of app/core/rate_limiter.py: which store decides, what a request gets for an
-- answer, and the middleware's `dispatch`. The shared `RedisManager` and the in-memory store are
-- the state; the two readings of the clock are arguments; logging is left out.
pub mod Enforce
use headwater.Prelude.{
  is_some, ℕ, zero, suc, Bool, true, false, not, Option, none, some, List, [], ◌∷◌, ◌++◌, Text,
  codes, str, if◌then◌else◌,
}
use headwater.Dict.{Dict, put}
use headwater.Dict.Sweep.{contains}
use headwater.Redis.{Manager, initialize, is_available, rate_limit_check}
use headwater.Redis.Client.{Server}
use headwater.RateLimiter.Deployment.{
  Settings, fail_open_enabled, get_worker_count, redis_url_of, requires_shared_store,
}
use headwater.RateLimiter.Identity.{Request, Decoded, configured_api_keys, get_rate_limit_key}
use headwater.RateLimiter.Info.{Info, get_rate_limit_headers, retry_after, too_many_requests}
use headwater.RateLimiter.Memory.{Store, check_rate_limit_memory}

-- The process: its environment and command line, the keys of `app.core.auth`, and the functions of
-- other libraries that the limiter calls.
pub record Process : Type 0 where
  pub getenv : Text → Option Text
  pub argv : List Text
  pub auth_keys : List Text
  pub json_loads : Text → Decoded
  pub keyed_digest : Text → Text

pub record Limiter : Type 0 where
  pub requests_override : Option ℕ
  pub timeframe_override : Option ℕ
  pub settings : Settings

-- `value or default`
abbrev or_default : ℕ → ℕ → ℕ
or_default zero d = d
or_default (suc n) d = suc n

unfoldable pub requests : Limiter → ℕ
requests l = elim l.requests_override [ none ↦ or_default l.settings.requests 100 | some n ↦ n ]

unfoldable pub timeframe : Limiter → ℕ
timeframe l = elim l.timeframe_override [ none ↦ or_default l.settings.timeframe 3600 | some n ↦ n ]

-- `RateLimiterBackendError` and `RateLimiterConfigurationError`
pub data Unavailable : Type 0 where
  backend_error configuration_error : Unavailable

-- What `is_rate_limited` returns or raises; `off` is `(False, {})`.
pub data Verdict : Type 0 where
  off : Verdict
  decided : Bool → Info → Verdict
  unavailable : Unavailable → Verdict

pub data Body : Type 0 where
  content : Text → Body
  problem : (kind title : Text) → (status : ℕ) → (detail : Text) → (limits : Option (ℕ × ℕ)) → Body

pub record Response : Type 0 where
  pub status : ℕ
  pub headers : Dict Text
  pub body : Body

-- What `limit` returns or raises.
pub data Outcome : Type 0 where
  response : Response → Outcome
  nothing : Outcome
  raise_limited : (detail : Text) → (headers : Dict Text) → (reset limit : ℕ) → Outcome
  raise_unavailable : (detail : Text) → (headers : Dict Text) → Outcome

abbrev detail_of : Info → Text
detail_of info = codes "Rate limit exceeded. Try again in " ++ (str info.reset ++ codes " seconds.")

unfoldable pub too_many_response : Info → Response
too_many_response info = record {
  status = 429;
  headers = too_many_requests info;
  body =
      problem (codes "https://headwater.com/problems/rate_limit_exceeded")
        (codes "Too Many Requests") 429 (detail_of info) (some (info.limit, info.reset));
}

abbrev unavailable_detail : Text
unavailable_detail = codes "Rate limiting is temporarily unavailable. Please retry shortly."

abbrev unavailable_headers : Dict Text
unavailable_headers = (codes "Retry-After", retry_after 1) ∷ []

unfoldable pub unavailable_response : Response
unavailable_response = record {
  status = 503;
  headers = unavailable_headers;
  body =
      problem (codes "https://headwater.com/problems/service_unavailable")
        (codes "Service Unavailable") 503 unavailable_detail none;
}

-- `for header, value in headers.items(): response.headers[header] = value`
unfoldable pub add_headers : Dict Text → Response → Response
add_headers [] r = r
add_headers ((name, value) ∷ hs) r =
    add_headers hs (record r { headers = put name value r.headers })

-- `call_next`, where there is one
abbrev pub Handler : Type 0
Handler = Option (Request → Response)

abbrev forward : Handler → Request → Outcome
forward none r = nothing
forward (some call_next) r = response (call_next r)

abbrev fail_closed : Handler → Outcome
fail_closed none = raise_unavailable unavailable_detail unavailable_headers
fail_closed (some call_next) = response unavailable_response

unfoldable pub handle_unavailable : Process → Handler → Request → Outcome
handle_unavailable p call_next r =
    if fail_open_enabled p.getenv then forward call_next r else fail_closed call_next

unfoldable pub answer : Process → Handler → Request → Verdict → Outcome
answer p call_next r off = forward call_next r
answer p call_next r (unavailable e) = handle_unavailable p call_next r
answer p none r (decided true info) =
    raise_limited (detail_of info) (too_many_requests info) info.reset info.limit
answer p (some h) r (decided true info) = response (too_many_response info)
answer p none r (decided false info) = nothing
answer p (some h) r (decided false info) = response (add_headers info.headers (h r))

module _ (srv : Server) where
  -- The manager counts once `get_instance` has created it; until then it is the one that it will
  -- create.
  pub record World : Type 0 where
    pub manager : Manager srv
    pub created : Bool
    pub store : Store

  unfoldable pub get_instance : World → World
  get_instance w =
      if w.created then w else record w { manager = initialize srv w.manager; created = true }

  -- `_check_rate_limit_redis`, from the manager's answer: a count of 0 is no count.
  unfoldable pub read_redis : (limit timeframe now : ℕ) → Bool × ℕ × ℕ → Verdict
  read_redis limit timeframe now (allowed, zero, reset) = unavailable backend_error
  read_redis limit timeframe now (allowed, suc n, reset) =
      decided (not allowed) (get_rate_limit_headers (suc n) limit timeframe none (some reset) now)

  unfoldable pub check_rate_limit_redis :
      (key : Text) (limit timeframe now : ℕ) → World → Verdict × World
  check_rate_limit_redis key limit timeframe now w =
      let (r, m) = rate_limit_check srv key limit timeframe w.manager in
      (read_redis limit timeframe now r, record w { manager = m })

  -- The branches of `is_rate_limited` for an enabled limiter, from the key of the bucket.
  unfoldable pub decide :
      Process → Settings → (key : Text) (limit timeframe now later : ℕ) → World → Verdict × World
  decide p settings key limit timeframe now later w =
      if is_some (redis_url_of settings)
      then (let w' = get_instance w in
          if is_available srv w'.manager
          then check_rate_limit_redis key limit timeframe later w'
          else (unavailable backend_error, w'))
      else if requires_shared_store settings (get_worker_count p.getenv p.argv)
      then (unavailable configuration_error, w)
      else (let ((limited, info), store) =
            check_rate_limit_memory key limit timeframe now later w.store in
          (decided limited info, record w { store = store }))

  unfoldable pub is_rate_limited :
      Process → Limiter → Request → (now later : ℕ) → World → Verdict × World
  is_rate_limited p l r now later w =
      let keys = configured_api_keys p.json_loads p.getenv l.settings.api_keys p.auth_keys in
      let key = get_rate_limit_key p.keyed_digest keys r in
      if not l.settings.enabled
      then (off, w)
      else decide p l.settings key (requests l) (timeframe l) now later w

  -- `limit`, as a middleware or, with no handler, as a dependency
  unfoldable pub limit :
      Process → Limiter → Handler → Request → (now later : ℕ) → World → Outcome × World
  limit p l call_next r now later w =
      let (verdict, w') = is_rate_limited p l r now later w in (answer p call_next r verdict, w')

  -- `RateLimitMiddleware.dispatch`
  unfoldable pub dispatch :
      Process → Limiter → (Request → Response) → Request → (now later : ℕ) → World → Outcome × World
  dispatch p l call_next r now later w =
      if contains r.path (codes "/health" ∷ codes "/ping" ∷ [])
      then (response (call_next r), w)
      else limit p l (some call_next) r now later w
