-- ===== src/Auth.antt =====
-- API keys, app/core/auth.py. A settings object is given with its identity, which `is` compares;
-- `get_settings` is a parameter of each call. `_refresh_lock` makes the rebuild of the snapshot one
-- step, and the snapshot is replaced as a whole.
pub mod Accepted
use headwater.Prelude.{
  ℕ, Bool, false, not, ◌==◌, Option, none, some, List, [], ◌∷◌, ◌++◌, Text, codes, strip, is_empty,
  text_eq, any, if◌then◌else◌,
}
use headwater.Dict.{Dict, lookup, put}
use headwater.Exec.{Result, ok, raise}

pub record Settings : Type 0 where
  pub identity : ℕ
  pub api_keys : List Text
  pub api_key : Option Text
  pub enable_api_key_auth : Bool

-- What is kept of a key
pub data Source : Type 0 where
  from_settings : Source

-- `_AuthState`; the set of keys is that of the dictionary's.
pub record AuthState : Type 0 where
  pub settings : Option Settings
  pub keys : List Text
  pub metadata : Dict Source

-- The status and the detail of an `HTTPException`
pub data Refusal : Type 0 where
  missing_key invalid_key : Refusal
  no_keys_configured : Refusal

abbrev pub status_code : Refusal → ℕ
status_code missing_key = 401
status_code invalid_key = 401
status_code no_keys_configured = 500

-- `x in xs`
abbrev pub contains : Text → List Text → Bool
contains key = any (λ k. text_eq k key)

abbrev pub candidates : Settings → List Text
candidates settings = elim settings.api_key [
  | none ↦ settings.api_keys
  | some key ↦ if is_empty key then settings.api_keys else settings.api_keys ++ key ∷ []
]

-- `keys.add`
abbrev add_key : Text → List Text → List Text
add_key key keys = if contains key keys then keys else key ∷ keys

-- The loop of `initialize_api_keys`; a key that is blank is left out.
unfoldable pub collect : List Text → (keys : List Text) → Dict Source → List Text × Dict Source
collect [] keys metadata = (keys, metadata)
collect (key ∷ rest) keys metadata =
    let kept = collect rest (add_key (strip key) keys) (put (strip key) from_settings metadata) in
    let skipped = collect rest keys metadata in if is_empty (strip key) then skipped else kept

-- The new snapshot
unfoldable pub initialize_api_keys : Settings → AuthState
unfolding collect
initialize_api_keys settings =
    let (keys, metadata) = collect (candidates settings) [] [] in
    record { settings = some settings; keys = keys; metadata = metadata }

abbrev is_current : Option Settings → Settings → Bool
is_current none settings = false
is_current (some s) settings = s.identity == settings.identity

-- `_auth_snapshot`, when `get_settings` returns these settings
unfoldable pub auth_snapshot : Settings → AuthState → AuthState
unfolding initialize_api_keys
auth_snapshot settings state =
    if is_current state.settings settings then state else initialize_api_keys settings

unfoldable pub validate_api_key : (api_key : Option Text) → Settings → AuthState → Bool × AuthState
unfolding auth_snapshot
validate_api_key none settings state = (false, state)
validate_api_key (some []) settings state = (false, state)
validate_api_key (some (c ∷ key)) settings state =
    let state' = auth_snapshot settings state in (contains (c ∷ key) state'.keys, state')

unfoldable pub get_api_key_metadata : Text → Settings → AuthState → Option Source × AuthState
unfolding auth_snapshot
get_api_key_metadata api_key settings state =
    let state' = auth_snapshot settings state in (lookup api_key state'.metadata, state')

abbrev requires_key : AuthState → Bool
requires_key state = elim state.settings [ none ↦ false | some s ↦ s.enable_api_key_auth ]

abbrev check_header : Option Text → List Text → Result Refusal Text
check_header none keys = raise missing_key
check_header (some []) keys = raise missing_key
check_header (some (c ∷ header)) keys =
    if is_empty keys
    then raise no_keys_configured
    else if not (contains (c ∷ header) keys)
    then raise invalid_key
    else ok (c ∷ header)

-- `authenticate_api_key`, to which `get_api_key` passes on
unfoldable pub authenticate_api_key :
    (api_key_header : Option Text) → Settings → AuthState → Result Refusal Text × AuthState
unfolding auth_snapshot
authenticate_api_key api_key_header settings state =
    let state' = auth_snapshot settings state in
    if not (requires_key state')
    then (ok (codes "authentication-disabled"), state')
    else (check_header api_key_header state'.keys, state')
