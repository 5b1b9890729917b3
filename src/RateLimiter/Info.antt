-- ===== src/RateLimiter/Info.antt =====
-- What app/core/rate_limiter.py reports about a bucket: `_get_rate_limit_headers`, `_retry_after`
-- and `_too_many_requests`. Times are whole millionths of a second, limits and timeframes are not
-- negative, and a header's value is the number that `str` prints.
use headwater.Prelude.{ℕ, ◌+◌, ◌-◌, ◌*◌, ◌/◌, max, Option, none, some, [], ◌∷◌, Text, codes, str}
use headwater.Dict.{Dict, put}

abbrev pub second : ℕ
second = 1000000

pub record Info : Type 0 where
  pub headers : Dict Text
  pub current : ℕ
  pub limit : ℕ
  pub reset : ℕ

-- `reset_seconds` where the backend reports it, else the whole seconds that are left at `now`;
-- where none are left the source's `max(0, …)` of a negative number is the truncated difference.
abbrev pub reset_of : ℕ → Option ℕ → Option ℕ → ℕ → ℕ
reset_of timeframe window_start (some reset_seconds) now = reset_seconds
reset_of timeframe none none now = timeframe * second / second
reset_of timeframe (some start) none now = (start + timeframe * second - now) / second

unfoldable pub get_rate_limit_headers :
    (current limit timeframe : ℕ) (window_start reset_seconds : Option ℕ) (now : ℕ) → Info
unfolding str
get_rate_limit_headers current limit timeframe window_start reset_seconds now =
    let reset = reset_of timeframe window_start reset_seconds now in
    record {
      headers =
          (codes "X-RateLimit-Limit", str limit)
          ∷ (codes "X-RateLimit-Remaining", str (limit - current))
          ∷ (codes "X-RateLimit-Reset", str reset)
          ∷ [];
      current = current;
      limit = limit;
      reset = reset;
    }

unfoldable pub retry_after : ℕ → Text
unfolding str
retry_after reset = str (max 1 reset)

unfoldable pub too_many_requests : Info → Dict Text
unfolding retry_after
too_many_requests info = put (codes "Retry-After") (retry_after info.reset) info.headers
