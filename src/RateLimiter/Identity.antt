-- ===== src/RateLimiter/Identity.antt =====
-- Which bucket a request is counted in: the identity helpers of app/core/rate_limiter.py,
-- `extract_api_key` to `_get_rate_limit_key`. The keyed digest (HMAC-SHA256) is a parameter, and so
-- are the decoder of JSON texts and the environment.
pub mod Buckets
use headwater.Prelude.{
  ◌||◌, Option, none, some, List, [], ◌∷◌, ◌++◌, Text, codes, ◌==◌, is_empty, strip, strip_chars,
  starts_with, split, if◌then◌else◌,
}
use headwater.Dict.Sweep.{contains}

-- `value or None`
abbrev pub non_empty : Text → Option Text
non_empty t = if is_empty t then none else some t

-- `_clean_api_key`, at a string; `none` is any other value.
unfoldable pub clean_api_key : Option Text → Option Text
unfolding strip
clean_api_key none = none
clean_api_key (some value) =
    let brackets = strip_chars (λ c. (c == b'[') || (c == b']')) (strip value) in
    let double = strip_chars (λ c. c == b'"') (strip brackets) in
    let single = strip_chars (λ c. c == 39) double in non_empty (strip single)

-- `keys.add(key)` for the tokens that are left when they are cleaned; the set as a list.
unfoldable pub clean_all : List (Option Text) → List Text
unfolding clean_api_key
clean_all [] = []
clean_all (t ∷ ts) = elim (clean_api_key t) [ none ↦ clean_all ts | some k ↦ k ∷ clean_all ts ]

-- What the JSON decoder makes of a text: an error, a value that is no list, or a list, of which
-- the items that are strings matter.
pub data Decoded : Type 0 where
  value_error other : Decoded
  list : List (Option Text) → Decoded

abbrev strings : List Text → List (Option Text)
strings [] = []
strings (t ∷ ts) = some t ∷ strings ts

module _ (json_loads : Text → Decoded) where
  unfoldable pub api_key_tokens : Text → List (Option Text)
  unfolding strip split starts_with
  api_key_tokens stripped =
      let commas = strings (split b',' stripped) in
      if starts_with stripped (codes "[")
      then elim (json_loads stripped) [ list items ↦ items | _ ↦ commas ]
      else commas

  unfoldable pub tokens_of : Option Text → List (Option Text)
  unfolding api_key_tokens
  tokens_of none = []
  tokens_of (some raw) = if is_empty (strip raw) then [] else api_key_tokens (strip raw)

  module _ (getenv : Text → Option Text) where
    -- `raw` is the argument, and `API_KEYS` of the environment where it is not given.
    unfoldable pub parse_api_keys_env : Option Text → List Text
    unfolding tokens_of clean_all
    parse_api_keys_env raw =
        let source : Option Text = elim raw [
          | none ↦ getenv (codes "API_KEYS")
          | some r ↦ some r
        ] in
        clean_all (tokens_of source) ++ clean_all (getenv (codes "API_KEY") ∷ [])

    -- The keys of the environment, of the settings and of `app.core.auth`.
    unfoldable pub configured_api_keys : (settings_keys auth_keys : List Text) → List Text
    unfolding parse_api_keys_env
    configured_api_keys settings_keys auth_keys =
        parse_api_keys_env none
        ++ clean_all (strings settings_keys)
        ++ clean_all (strings auth_keys)

-- A request as far as the limiter reads it: the `X-API-Key` header, the peer's host, and the path.
pub record Request : Type 0 where
  pub api_key_header : Option Text
  pub host : Option Text
  pub path : Text

unfoldable pub extract_api_key : Request → Option Text
unfolding strip
extract_api_key r = elim r.api_key_header [ none ↦ none | some value ↦ non_empty (strip value) ]

unfoldable pub client_host : Request → Text
client_host r = elim r.host [
  | none ↦ codes "unknown"
  | some h ↦ if is_empty h then codes "unknown" else h
]

module _ (keyed_digest : Text → Text) where
  unfoldable pub build_rate_limit_key : (api_key host : Option Text) → Text
  build_rate_limit_key (some (c ∷ key)) host = codes "rate_limit:api_key:" ++ keyed_digest (c ∷ key)
  build_rate_limit_key _ none = codes "rate_limit:ip:" ++ codes "unknown"
  build_rate_limit_key _ (some []) = codes "rate_limit:ip:" ++ codes "unknown"
  build_rate_limit_key _ (some h) = codes "rate_limit:ip:" ++ h

  -- `keys` are the configured keys.
  unfoldable pub get_rate_limit_key : (keys : List Text) → Request → Text
  get_rate_limit_key keys r =
      let by_host = build_rate_limit_key none (some (client_host r)) in
      elim (extract_api_key r) [
        | none ↦ by_host
        | some key ↦ if contains key keys then build_rate_limit_key (some key) none else by_host
      ]
