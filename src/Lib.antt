-- ===== src/Lib.antt =====
-- Headwater: one self-hosted HTTP API in front of Google Maps, News, Trends, Autocomplete and
-- YouTube transcripts. This library models the parts of the service that keep state of their own
-- and decide what a request may do, and proves what those parts promise.
--
-- The parts, and how they interact. An API key is judged from a snapshot of the settings
-- (app/core/auth.py). Every request passes the rate limiter (app/core/rate_limiter.py), which
-- counts it under an API key or an address, in a process-local dictionary or, through the shared
-- Redis manager (app/core/redis_manager.py), in Redis. Answers are kept by the cache backends
-- (app/core/cache_backends.py): memory, Redis, or memory before Redis; the results of functions by
-- the cache manager (app/core/cache_manager.py): Redis, or else memory. Jobs, monitors and webhooks
-- are kept by the owner-scoped record store (app/services/record_store.py), in Redis or in memory.
-- URLs that callers supply pass the guard (app/core/url_guard.py) before the service fetches them,
-- and webhooks (app/services/google_maps_monitors.py), which tell of the changes that the checks of
-- place monitors find, are delivered only to targets that pass it. Scrape jobs
-- (app/services/google_maps/scraper_jobs.py) are records of that store. Outbound requests go
-- through the proxies that app/core/proxy.py chooses in turn, and the suggestions of the
-- autocomplete service stand in the trie of app/core/search.py. Parameters of requests are cleaned
-- by app/core/input_sanitizer.py, and scrapes keep to app/services/google_maps/scraper_limits.py.
--
-- Files, and the code that they are about:
--   Prelude, Prelude/*   tests on numbers, lists, Python's str and int as the program uses them
--   Dict, Dict/*         Python's dict in insertion order: laws of writes, deletions and sweeps
--   Exec                 methods that change their object and may raise
--   Redis, Redis/*       RedisManager; Redis/Client is the client library and the server, of which
--                        the counter's documented behaviour is the hypothesis IsCounting
--   RateLimiter/Info     _get_rate_limit_headers, _retry_after, _too_many_requests
--   RateLimiter/Memory   _check_rate_limit_memory, purge_expired_entries; its children are proofs
--   RateLimiter/Deployment  _env_flag to requires_shared_store
--   RateLimiter/Identity    _clean_api_key to build_rate_limit_key and _get_rate_limit_key
--   RateLimiter/Limit    is_rate_limited, limit, _handle_unavailable, dispatch
--   Cache/Memory         MemoryCacheBackend; Cache/Remote: RedisCacheBackend; Cache/Tiered:
--                        TieredCacheBackend
--   CacheManager, CacheManager/*  CacheManager; CacheManager/Values: the values and their
--                        JSON trees; CacheManager/Envelope: the codec, of which the documented
--                        behaviour is the hypothesis IsFaithful, in CacheManager/Restored;
--                        CacheManager/Keys: the keys; CacheManager/Calls: cached and
--                        get_cached_or_fetch
--   RecordStore, RecordStore/*  RecordStore
--   UrlGuard, UrlGuard/*    validate_outbound_url and its helpers
--   Webhooks, Webhooks/*    _post_with_redirect_guard, deliver_webhook, _deliver_inline,
--                        _record_delivery_outcome; Webhooks/Stored: the data of a webhook;
--                        Webhooks/Targets: _webhook_allowed_hosts, validate_webhook_target;
--                        Webhooks/Attempts: the loop of attempts
--   Monitors, Monitors/*    _snapshot, _diff, the data of create_monitor and of check_monitor
--   Jobs                 ScrapeJob, to_record, from_record; Jobs/Store: JobStore
--   Proxy                _load_proxy_config, get_proxy_sync, is_host_excluded, proxy_for;
--                        Proxy/Cursor: _next_proxy, get_proxy, rotate_proxy
--   Search               TrieNode and Trie; Search/Walk: get_all_words and find_containing;
--                        Search/Suggestions: SuggestionIndex
--   Scheduler, Scheduler/*  the three stores of the service of monitors; Scheduler/Fire:
--                        _fire_monitor_webhooks; Scheduler/Calls: create_monitor, check_monitor,
--                        delete_monitor and the owner index; Scheduler/Ticks: _known_owners and
--                        run_due_checks; Scheduler/Views: the views, the listings and the
--                        registration of webhooks; Scheduler/History: get_place_history
--   Auth, Auth/Accepted  initialize_api_keys to authenticate_api_key of app/core/auth.py
--   ScrapeLimits         app/services/google_maps/scraper_limits.py, but acquire_browser
--   Sanitizer, Sanitizer/*  InputSanitizer of app/core/input_sanitizer.py; Sanitizer/Characters:
--                        its patterns; Sanitizer/Report: validate_all_params
--   Collections          chunks and batch_process of app/core/collection_utils.py
--   Nested, Nested/*     merge_dicts, deep_get and deep_set of the same file
--   Tests, Tests/*       the theorems at concrete inputs
--
-- State and operations. A class is a record of its fields, and a method a function to the new
-- record and its result; where a method may raise, the result is a sum and the state survives the
-- raise. A method that takes a lock is one step, and what other tasks do between steps is a list
-- of calls in any order. Each reading of the clock is an argument of its own.
--
-- Numbers. Times are natural numbers of millionths of a second, limits and times to live natural
-- numbers; a difference that the source lets go below zero is only ever compared with, or clamped
-- at, zero, where the truncated difference agrees. Texts are lists of code points; `lower` and
-- `int` are modelled on ASCII. `str` recurs on fuel: the number itself, which is at least the
-- number of its digits less one. The loops of a delivery recur on the attempts and on the redirects
-- that are left, which the source bounds by the same numbers. `chunks_from` recurs on the number
-- of items left, and the walk over a trie on the number of its nodes, each of which is popped
-- once. No other definition needs fuel.
--
-- Not modelled: logging, asyncio tasks, statistics that are formatted floats, HTTP clients and
-- browsers, FastAPI's wiring, and the loading of settings. The keyed digest, the JSON codec and the
-- Redis server are parameters, and so are the parsers of URLs and addresses, the properties of
-- addresses and the resolver, isoformat with fromisoformat, and the patterns of the settings.
-- acquire_browser waits for a permit and is left out; flatten_dict and unflatten_dict are too.
pub mod Prelude
pub mod Dict
pub mod Redis
pub mod RateLimiter
pub mod Cache
pub mod Exec
pub mod RecordStore
pub mod UrlGuard
pub mod Search
pub mod Jobs
pub mod Proxy
pub mod Scheduler
pub mod Webhooks
pub mod CacheManager
pub mod ScrapeLimits
pub mod Auth
pub mod Sanitizer
pub mod Collections
pub mod Nested
pub mod Monitors
mod Tests
