-- ===== src/Tests/Limiter.antt =====
-- The rate limiter.
use headwater.Prelude.{◌≡◌, ◌↔◌, min, refl, some, List, [], ◌∷◌, codes, arith, text_eq}
use headwater.Dict.{lookup}
use headwater.RateLimiter.Memory.{Store, purge_expired_entries}
use headwater.RateLimiter.Memory.Window.{Check, admitted, of_key, admitted-window}
use headwater.RateLimiter.Memory.Purge.{admitted-purge}
use headwater.RateLimiter.Identity.{get_rate_limit_key}
use headwater.RateLimiter.Identity.Buckets.{identity, Same, get_rate_limit_key-eq_iff}
use headwater.RateLimiter.Limit.{requests, limit}
use headwater.RateLimiter.Limit.Enforce.{Enforced, Counted, bucket, limit-Enforced}
use headwater.Tests.Fixtures.{
  counters, counter, counters-IsCounting, world, settings, limiter, process, request, handler,
}

abbrev check_a : Check
check_a = record { key = codes "a"; now = 5; later = 5 }

abbrev check_b : Check
check_b = record { key = codes "b"; now = 6; later = 7 }

abbrev checks : List Check
checks = check_b ∷ check_a ∷ check_a ∷ []

admitted-window_example :
    admitted 2 60 (codes "a") (check_a ∷ checks) [] ≡ min (of_key (codes "a") (check_a ∷ checks)) 2
unfolding lookup text_eq
admitted-window_example =
    admitted-window 2 60 (codes "a") check_a checks [] refl (λ n start e. ground arith)
      (λ e. omega arith, (λ e. omega arith, (λ e. omega arith, tt)))

abbrev old_store : Store
old_store = (codes "a", (9, 0)) ∷ (codes "b", (1, 4)) ∷ []

admitted-purge_example :
    admitted 2 60 (codes "a") checks (purge_expired_entries 3 60 old_store).1
    ≡ admitted 2 60 (codes "a") checks old_store
unfolding lookup text_eq
admitted-purge_example =
    admitted-purge 60 2 3 (codes "a") checks old_store (refl, (refl, tt))
      (omega arith, (omega arith, (omega arith, tt)))

get_rate_limit_key-eq_iff_example :
    (get_rate_limit_key process.keyed_digest settings.api_keys request
      ≡ get_rate_limit_key process.keyed_digest settings.api_keys
          (record request { api_key_header = some (codes "made-up") }))
    ↔ Same process.keyed_digest
        (identity settings.api_keys request)
        (identity settings.api_keys (record request { api_key_header = some (codes "made-up") }))
get_rate_limit_key-eq_iff_example =
    get_rate_limit_key-eq_iff process.keyed_digest settings.api_keys request
      (record request { api_key_header = some (codes "made-up") })

limit-Enforced_example :
    let o = limit counters process limiter (some handler) request 1 2 world in
    Enforced counters counter counters-IsCounting
      (Counted counters counter counters-IsCounting limiter.settings
        (bucket counters counter counters-IsCounting process limiter request)
        world
        o.1)
      (requests limiter)
      (handler request)
      o.0
unfolding headwater.RateLimiter.Deployment.fail_open_enabled
limit-Enforced_example =
    limit-Enforced counters counter counters-IsCounting process limiter handler request 1 2 world
      refl refl
