-- ===== src/RateLimiter/Deployment.antt =====
-- Whether this deployment can enforce its limits: the configuration helpers of
-- app/core/rate_limiter.py. The environment is a function, the command line a list of texts, and
-- the settings are the fields of app/core/config.py that the limiter reads.
use headwater.Prelude.{
  ◌&&◌, ◌||◌, is_some, ltb, not, is_empty, max, parse_int, drop, ℕ, zero, suc, Bool, false, Option,
  none, some, List, [], ◌∷◌, Text, codes, text_eq, strip, lower, starts_with, ℤ, pos, negsuc,
  if◌then◌else◌,
}
use headwater.Dict.Sweep.{contains}

pub record Settings : Type 0 where
  pub enabled : Bool
  pub requests : ℕ
  pub timeframe : ℕ
  pub redis_url : Option Text
  pub environment : Text
  pub api_keys : List Text

-- `_env_flag`
unfoldable pub env_flag : (Text → Option Text) → Text → Bool → Bool
unfolding strip lower
env_flag getenv name default = elim (getenv name) [
  | none ↦ default
  | some raw ↦
      contains (lower (strip raw)) (codes "1" ∷ codes "true" ∷ codes "yes" ∷ codes "on" ∷ [])
]

unfoldable pub fail_open_enabled : (Text → Option Text) → Bool
unfolding env_flag
fail_open_enabled getenv = env_flag getenv (codes "RATE_LIMIT_FAIL_OPEN") false

-- The count that a value declares, if it is a positive integer.
abbrev pub positive : Option ℤ → Option ℕ
positive (some (pos (suc n))) = some (suc n)
positive (some (pos zero)) = none
positive (some (negsuc n)) = none
positive none = none

abbrev next_token : List Text → Option Text
next_token [] = none
next_token (value ∷ after) = some value

-- The value that `--workers N`, `-w N` or `--workers=N` gives, at a token and those after it.
unfoldable pub declared : Text → List Text → Option Text
unfolding starts_with
declared token rest =
    if (text_eq token (codes "--workers") || text_eq token (codes "-w")) && not (is_empty rest)
    then next_token rest
    else if starts_with token (codes "--workers=")
    then some (drop 10 token)
    else none

abbrev pub positive_text : Option Text → Option ℕ
positive_text none = none
positive_text (some t) = positive (parse_int (strip t))

-- `_worker_count_from_argv`: the first usable declaration, else 1.
unfoldable pub worker_count_from_argv : List Text → ℕ
unfolding declared parse_int strip
worker_count_from_argv [] = 1
worker_count_from_argv (token ∷ rest) = elim (positive_text (declared token rest)) [
  | some workers ↦ workers
  | none ↦ worker_count_from_argv rest
]

abbrev worker_count_env_vars : List Text
worker_count_env_vars =
    codes "WEB_CONCURRENCY"
    ∷ codes "UVICORN_WORKERS"
    ∷ codes "GUNICORN_WORKERS"
    ∷ codes "WORKERS"
    ∷ []

-- The loop over the variables stops at the first usable one. (An empty value is no integer, so it
-- is passed over as the source's `continue` does.)
unfoldable pub worker_count_from_env : (Text → Option Text) → List Text → Option ℕ
unfolding parse_int strip
worker_count_from_env getenv [] = none
worker_count_from_env getenv (var ∷ vars) = elim (positive_text (getenv var)) [
  | some workers ↦ some workers
  | none ↦ worker_count_from_env getenv vars
]

unfoldable pub get_worker_count : (Text → Option Text) → List Text → ℕ
unfolding worker_count_from_argv worker_count_from_env
get_worker_count getenv argv = elim (worker_count_from_env getenv worker_count_env_vars) [
  | none ↦ worker_count_from_argv argv
  | some workers ↦ max (worker_count_from_argv argv) workers
]

unfoldable pub is_production : Settings → Bool
unfolding strip lower
is_production settings =
    contains (lower (strip settings.environment))
      (codes "production" ∷ codes "prod" ∷ codes "staging" ∷ [])

-- `_redis_url`
abbrev pub redis_url_of : Settings → Option Text
redis_url_of settings = elim settings.redis_url [
  | none ↦ none
  | some url ↦ if is_empty url then none else some url
]

unfoldable pub requires_shared_store : Settings → ℕ → Bool
requires_shared_store settings workers =
    if not settings.enabled
    then false
    else if is_some (redis_url_of settings)
    then false
    else if not (is_production settings)
    then false
    else ltb 1 workers
