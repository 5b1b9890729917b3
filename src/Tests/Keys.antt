-- ===== src/Tests/Keys.antt =====
-- API keys, and the limits of the scrapes.
use headwater.Prelude.{
  ℕ, ◌≡◌, ◌≤◌, refl, true, none, some, is_some, List, [], ◌∷◌, codes, inr, length, take, min, pos,
}
use headwater.Auth.{
  Settings, AuthState, initialize_api_keys, validate_api_key, get_api_key_metadata,
  authenticate_api_key,
}
use headwater.Auth.Accepted.{is_accepted, judged, authenticate_api_key-judged}
use headwater.ScrapeLimits.{
  Call, configure, semaphore, after_calls, loaded, browser_semaphore, cap_fanout,
  after_calls-limits,
}

-- The key `old` has been replaced by `new`.
abbrev before : Settings
before = record {
  identity = 1;
  api_keys = codes "old" ∷ [];
  api_key = none;
  enable_api_key_auth = true;
}

abbrev now : Settings
now = record {
  identity = 2;
  api_keys = [];
  api_key = some (codes " new ");
  enable_api_key_auth = true;
}

abbrev kept : AuthState
kept = initialize_api_keys before

other : (s : Settings) → kept.settings ≡ some s → s.identity ≡ now.identity → s ≡ now
unfolding initialize_api_keys
other s e f = absurd (cc (e, f))

authenticate_api_key-judged_example :
    ((authenticate_api_key (some (codes "old")) now kept).0 ≡ judged (some (codes "old")) now)
    × ((authenticate_api_key (some (codes "old")) now kept).1 ≡ initialize_api_keys now)
    × ((validate_api_key (some (codes "new")) now kept).0 ≡ is_accepted now (codes "new"))
    × (is_some (get_api_key_metadata (codes "new") now kept).0 ≡ is_accepted now (codes "new"))
authenticate_api_key-judged_example =
    authenticate_api_key-judged now kept (inr (before, refl)) other (some (codes "old")) b'n'
      (codes "ew")

abbrev calls : List Call
calls = configure (some (pos 2)) (some (pos 0)) ∷ semaphore (codes "loop") ∷ []

abbrev points : List ℕ
points = 1 ∷ 2 ∷ []

after_calls-limits_example :
    let l = after_calls calls (loaded (λ name. some (codes "-3")) (codes "B") (codes "F")) in
    (1 ≤ l.max_concurrent_browsers)
    × (1 ≤ l.max_fanout)
    × ((browser_semaphore (codes "loop") l).0 ≡ l.max_concurrent_browsers)
    × (cap_fanout l points ≡ take l.max_fanout points)
    × (length (cap_fanout l points) ≡ min l.max_fanout (length points))
after_calls-limits_example =
    after_calls-limits (λ name. some (codes "-3")) (codes "B") (codes "F") (codes "loop") calls
      points
