-- ===== src/RateLimiter/Memory.antt =====
-- The process-local store of app/core/rate_limiter.py: `_check_rate_limit_memory` and
-- `purge_expired_entries`. The two readings of the clock in a check are two arguments, since other
-- tasks may run between the first one and the lock.
pub mod Window
pub mod Purge
use headwater.Prelude.{
  ℕ, ◌+◌, ◌-◌, ◌*◌, Bool, true, false, Option, none, some, Text, ltb, length, if◌then◌else◌,
}
use headwater.Dict.{Dict, lookup, put, keys_where, remove_all}
use headwater.RateLimiter.Info.{Info, second, get_rate_limit_headers}

-- `(requests_count, window_start_timestamp)`
abbrev pub Window : Type 0
Window = ℕ × ℕ

abbrev pub Store : Type 0
Store = Dict Window

-- `now - entry[1] > timeframe`
unfoldable pub expired : ℕ → ℕ → Window → Bool
expired timeframe now (_, start) = ltb (timeframe * second) (now - start)

-- The new entry of the bucket: its window opens anew, or one more request is counted.
unfoldable pub count : ℕ → ℕ → Option Window → Bool × Window
unfolding expired
count timeframe now none = (true, (1, now))
count timeframe now (some (requests_count, start)) =
    if expired timeframe now (requests_count, start)
    then (true, (1, now))
    else (false, (requests_count + 1, start))

unfoldable pub check_rate_limit_memory :
    (key : Text) (limit timeframe now later : ℕ) → Store → (Bool × Info) × Store
unfolding count
check_rate_limit_memory key limit timeframe now later store =
    let (opened, (new_count, window_start)) = count timeframe now (lookup key store) in
    let info = get_rate_limit_headers new_count limit timeframe (some window_start) none later in
    ((if opened then false else ltb limit new_count, info), put key (new_count, window_start) store)

-- The number of entries removed, and the store without them.
unfoldable pub purge_expired_entries : (now timeframe : ℕ) → Store → ℕ × Store
purge_expired_entries now timeframe store =
    let expired_keys = keys_where (λ _ w. expired timeframe now w) store in
    (length expired_keys, remove_all expired_keys store)
