-- ===== src/Proxy.antt =====
-- The choice of an outbound proxy, app/core/proxy.py: what the settings configure, the round-robin
-- cursor, which the module keeps between calls, and the hosts that are reached directly. The lock
-- around the cursor, the log and `mask_proxy`, which serves it, are left out. `lower` is that of the
-- ASCII letters.
pub mod Cursor
pub mod Fair
pub mod Configured
pub mod Bypass
use headwater.Prelude.{
  ℕ, Bool, true, false, ◌&&◌, ◌||◌, not, Option, none, some, List, [], ◌∷◌, ◌++◌, Text, codes,
  text_eq, is_empty, any, lower, strip, lstrip, split, starts_with, ends_with, is_space, ◌==◌, drop,
  if◌then◌else◌,
}
use headwater.Dict.Sweep.{contains}

-- A setting that is unset, a list or a text
pub data Setting : Type 0 where
  unset : Setting
  several : List Text → Setting
  single : Text → Setting

pub record Settings : Type 0 where
  pub enable_proxy : Bool
  pub proxy_urls : Setting
  pub proxy_url : Setting
  pub no_proxy_hosts : Setting

-- `[^\s]*$`, where `$` also stands before a last line feed
abbrev no_space_left : Text → Bool
no_space_left [] = true
no_space_left (c ∷ t) =
    let rest = no_space_left t in
    if c == 10 && is_empty t then true else if is_space c then false else rest

-- `[^\s\/$.?#].[^\s]*$`
abbrev valid_rest : Text → Bool
valid_rest [] = false
valid_rest (c ∷ []) = false
valid_rest (c ∷ d ∷ t) =
    not (is_space c || any (λ x. x == c) (codes "/$.?#")) && not (d == 10) && no_space_left t

unfoldable pub is_valid_url : Text → Bool
is_valid_url url =
    (starts_with url (codes "http://") && valid_rest (drop 7 url))
    || (starts_with url (codes "https://") && valid_rest (drop 8 url))

-- What `value.split(",")`, or the list itself, adds to `raw_values`
abbrev pub values_of : Setting → List Text
values_of unset = []
values_of (several values) = values
values_of (single []) = []
values_of (single (c ∷ text)) = split b',' (c ∷ text)

-- The body of the loop over `raw_values`
unfoldable pub add_candidate : (urls : List Text) (candidate : Text) → List Text
add_candidate urls candidate =
    let url = strip candidate in
    if is_empty url
    then urls
    else if not (is_valid_url url)
    then urls
    else if contains url urls
    then urls
    else urls ++ url ∷ []

abbrev pub add_candidates : (urls : List Text) (candidates : List Text) → List Text
add_candidates urls [] = urls
add_candidates urls (candidate ∷ candidates) =
    add_candidates (add_candidate urls candidate) candidates

-- `none` for settings that cannot be loaded
unfoldable pub load_proxy_config : Option Settings → Bool × List Text
load_proxy_config none = (false, [])
load_proxy_config (some s) =
    (s.enable_proxy, add_candidates [] (values_of s.proxy_urls ++ values_of s.proxy_url))

unfoldable pub is_proxy_enabled : Option Settings → Bool
is_proxy_enabled s = let (enabled, urls) = load_proxy_config s in enabled && not (is_empty urls)

unfoldable pub get_available_proxies : Option Settings → List Text
get_available_proxies s = (load_proxy_config s).1

abbrev first : Bool → List Text → Option Text
first false urls = none
first true [] = none
first true (url ∷ urls) = some url

unfoldable pub get_proxy_sync : Option Settings → Option Text
get_proxy_sync s = let (enabled, urls) = load_proxy_config s in first enabled urls

-- `h.strip().lower().lstrip(".") for h in values if h and h.strip()`
abbrev pub excluded_of : List Text → List Text
excluded_of [] = []
excluded_of (h ∷ hs) =
    if is_empty (strip h)
    then excluded_of hs
    else lstrip (λ c. c == b'.') (lower (strip h)) ∷ excluded_of hs

unfoldable pub excluded_hosts : Option Settings → List Text
excluded_hosts none = []
excluded_hosts (some s) = excluded_of (values_of s.no_proxy_hosts)

-- `host.split("//", 1)[1] if "//" in host else host`
abbrev after_slashes : Text → Option Text
after_slashes [] = none
after_slashes (c ∷ t) =
    let rest = after_slashes t in if starts_with (c ∷ t) (codes "//") then some (drop 1 t) else rest

abbrev pub without_scheme : Text → Text
without_scheme t = elim (after_slashes t) [ none ↦ t | some rest ↦ rest ]

-- `t.split(sep)[0]`
unfoldable pub before : (sep : ℕ) → Text → Text
before sep [] = []
before sep (c ∷ t) = let rest = before sep t in if c == sep then [] else c ∷ rest

abbrev has : (sep : ℕ) → Text → Bool
has sep = any (λ c. c == sep)

-- `t.split(sep)[-1]`
unfoldable pub after_last : (sep : ℕ) → Text → Text
after_last sep [] = []
after_last sep (c ∷ t) =
    let rest = after_last sep t in if has sep t then rest else if c == sep then t else c ∷ t

-- The host that is compared
unfoldable pub target_host : Text → Text
target_host url_or_host =
    before b':' (after_last b'@' (before b'/' (without_scheme (lower (strip url_or_host)))))

abbrev pub is_under : (host excluded : Text) → Bool
is_under host excluded =
    if text_eq host excluded then true else ends_with host (codes "." ++ excluded)

abbrev pub or_nothing : Option Text → Text
or_nothing none = []
or_nothing (some t) = t

unfoldable pub is_host_excluded : Option Settings → Option Text → Bool
is_host_excluded s url_or_host =
    if is_empty (or_nothing url_or_host)
    then false
    else any (is_under (target_host (or_nothing url_or_host))) (excluded_hosts s)

unfoldable pub proxy_for : Option Settings → Option Text → Option Text
proxy_for s url_or_host = if is_host_excluded s url_or_host then none else get_proxy_sync s
