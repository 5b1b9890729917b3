-- ===== src/UrlGuard.antt =====
-- `validate_outbound_url` of app/core/url_guard.py and its helpers. The parsers of URLs and of
-- addresses, the properties of addresses and the resolver are parameters, of which `none` is the
-- exception; a URL and a host are strings, and an error carries its cause in place of its text.
pub mod Hosts
pub mod Addresses
pub mod Accepted
use headwater.Dict.Sweep.{contains}
use headwater.Exec.{Result, ok}
use headwater.Exec.Checks.{◌>>=◌, ◌>>◌, refuse_if, given}
use headwater.Prelude.{
  strip, ◌&&◌, keep, is_some, rstrip, is_empty, ltb, ℕ, ◌*◌, ◌/◌, ◌%◌, ◌^◌, Bool, true, false, not,
  ◌||◌, Option, none, some, List, [], ◌∷◌, Text, codes, text_eq, starts_with, ends_with, lower,
  ◌==◌, if◌then◌else◌,
}

-- What `urlsplit` returns; reading the host or the port of it may raise.
pub record Parts : Type 0 where
  pub scheme : Text
  pub netloc : Text
  pub path : Text
  pub query : Text
  pub username : Option Text
  pub password : Option Text
  pub hostname : Option (Option Text)
  pub port : Option (Option ℕ)

pub data Address : Type 0 where
  v4 v6 : ℕ → Address

pub record Net : Type 0 where
  pub urlsplit : Text → Option Parts
  pub urlunsplit : (scheme netloc path query fragment : Text) → Text
  pub ip_address : Text → Option Address
  pub is_global : Address → Bool
  pub is_private : Address → Bool
  pub is_loopback : Address → Bool
  pub is_link_local : Address → Bool
  pub is_multicast : Address → Bool
  pub is_reserved : Address → Bool
  pub is_unspecified : Address → Bool
  pub getaddrinfo : Text → ℕ → Option (List Text)

pub data Reason : Type 0 where
  no_allowed_hosts empty_url unparseable credentials invalid_host no_host literal_ip : Reason
  scheme_not_permitted host_not_allowed no_resolution no_addresses : Text → Reason
  invalid_port : Reason
  port_not_permitted : ℕ → Text → Reason
  non_routable : Text → List Text → Reason

pub record UrlNotAllowed : Type 0 where
  pub reason : Reason
  pub public_message : Text

abbrev pub generic_message : Text
generic_message = codes "The supplied URL is not permitted."

abbrev pub not_allowed : Reason → UrlNotAllowed
not_allowed r = record { reason = r; public_message = generic_message }

pub record ValidatedUrl : Type 0 where
  pub url : Text
  pub host : Text
  pub port : ℕ
  pub ip_addresses : List Text

abbrev pub https : Text
https = codes "https"

abbrev pub http : Text
http = codes "http"

-- `_ALLOWED_PORTS`, at a permitted scheme
unfoldable pub allowed_port : Text → ℕ
allowed_port scheme = if text_eq scheme https then 443 else 80

unfoldable pub host_allowed : (host : Text) (allowed_hosts : List Text) → Bool
host_allowed host [] = false
host_allowed host (entry ∷ allowed_hosts) =
    if (if starts_with (lower entry) (codes ".")
      then ends_with host (lower entry)
      else text_eq host (lower entry))
    then true
    else host_allowed host allowed_hosts

-- `::ffff:0:0/96`, `2002::/16` and `64:ff9b::/96`, each of which carries an IPv4 address
unfoldable pub unwrap_embedded_ipv4 : Address → Address
unwrap_embedded_ipv4 (v4 n) = v4 n
unwrap_embedded_ipv4 (v6 n) =
    if n / 2 ^ 32 == 65535
    then v4 (n % 2 ^ 32)
    else if n / 2 ^ 112 == 8194
    then v4 ((n / 2 ^ 80) % 2 ^ 32)
    else if n / 2 ^ 32 == 6619035 * 2 ^ 64
    then v4 (n % 2 ^ 32)
    else v6 n

module _ (net : Net) where
  unfoldable pub is_routable : Address → Bool
  is_routable a =
      if not (net.is_global a)
      then false
      else not (
          net.is_private a
          || net.is_loopback a
          || net.is_link_local a
          || net.is_multicast a
          || net.is_reserved a
          || net.is_unspecified a)

  unfoldable pub is_globally_routable : (ip : Text) → Bool
  is_globally_routable ip = elim (net.ip_address ip) [
    | none ↦ false
    | some a ↦ is_routable (unwrap_embedded_ipv4 a)
  ]

-- `a < b` on strings
unfoldable pub text_ltb : Text → Text → Bool
text_ltb a [] = false
text_ltb [] (y ∷ b) = true
text_ltb (x ∷ a) (y ∷ b) = if ltb x y then true else if x == y then text_ltb a b else false

-- One more element of a set, kept as its sorted list.
unfoldable pub add_sorted : Text → List Text → List Text
add_sorted a [] = a ∷ []
add_sorted a (b ∷ bs) =
    if text_eq a b then b ∷ bs else if text_ltb a b then a ∷ b ∷ bs else b ∷ add_sorted a bs

-- `tuple(sorted(set(...)))`
unfoldable pub sorted_set : List Text → List Text
sorted_set [] = []
sorted_set (a ∷ as') = add_sorted a (sorted_set as')

-- `not value`, for a string or `None`
abbrev pub is_falsy : Option Text → Bool
is_falsy none = true
is_falsy (some t) = is_empty t

-- `host.lower().rstrip(".")`
unfoldable pub canonical_host : Text → Text
canonical_host host = rstrip (λ c. c == b'.') (lower host)

-- The host of the URL, where it has one.
unfoldable pub host_of : Parts → Result UrlNotAllowed Text
host_of parts = do
  hostname ← given (not_allowed invalid_host) parts.hostname
  host ← given (not_allowed no_host) hostname
  refuse_if (is_empty host) (not_allowed no_host)
  ok (canonical_host host)

-- The default port of the scheme, which is also the only one allowed.
unfoldable pub check_port : (scheme : Text) → Option ℕ → Result UrlNotAllowed ℕ
check_port scheme none = ok (allowed_port scheme)
check_port scheme (some port) = do
  refuse_if (not (port == allowed_port scheme)) (not_allowed (port_not_permitted port scheme))
  ok port

module _ (net : Net) where
  unfoldable pub resolve : (host : Text) (port : ℕ) → Result UrlNotAllowed (List Text)
  resolve host port = do
    infos ← given (not_allowed (no_resolution host)) (net.getaddrinfo host port)
    refuse_if (is_empty (sorted_set infos)) (not_allowed (no_addresses host))
    ok (sorted_set infos)

  unfoldable pub non_routable_of : List Text → List Text
  non_routable_of = keep (λ ip. not (is_globally_routable net ip))

  unfoldable pub check_addresses :
      (host : Text) (port : ℕ) (resolve_dns : Bool) → Result UrlNotAllowed (List Text)
  check_addresses host port false = ok []
  check_addresses host port true = do
    ip_addresses ← resolve host port
    refuse_if (not (is_empty (non_routable_of ip_addresses)))
        (not_allowed (non_routable host (non_routable_of ip_addresses)))
    ok ip_addresses

  abbrev pub permitted_schemes : (allow_http : Bool) → List Text
  permitted_schemes allow_http = if allow_http then https ∷ http ∷ [] else https ∷ []

  -- The checks from the scheme on.
  unfoldable pub validate_parts :
      Parts
      → (allowed : List Text) (allow_http resolve_dns : Bool) → Result UrlNotAllowed ValidatedUrl
  validate_parts parts allowed allow_http resolve_dns = do
    let scheme = lower parts.scheme
    refuse_if (not (contains scheme (permitted_schemes allow_http)))
        (not_allowed (scheme_not_permitted scheme))
    refuse_if (not (is_falsy parts.username && is_falsy parts.password)) (not_allowed credentials)
    host ← host_of parts
    refuse_if (is_some (net.ip_address host)) (not_allowed literal_ip)
    refuse_if (not (host_allowed host allowed)) (not_allowed (host_not_allowed host))
    explicit ← given (not_allowed invalid_port) parts.port
    port ← check_port scheme explicit
    ip_addresses ← check_addresses host port resolve_dns
    ok (record {
      url = net.urlunsplit scheme (lower parts.netloc) parts.path parts.query [];
      host = host;
      port = port;
      ip_addresses = ip_addresses;
    })

  unfoldable pub validate_outbound_url :
      (raw_url : Text) (allowed_hosts : List Text) (allow_http resolve_dns : Bool)
      → Result UrlNotAllowed ValidatedUrl
  validate_outbound_url raw_url allowed_hosts allow_http resolve_dns = do
    refuse_if (is_empty allowed_hosts) (not_allowed no_allowed_hosts)
    refuse_if (is_empty (strip raw_url)) (not_allowed empty_url)
    parts ← given (not_allowed unparseable) (net.urlsplit (strip raw_url))
    validate_parts parts allowed_hosts allow_http resolve_dns
