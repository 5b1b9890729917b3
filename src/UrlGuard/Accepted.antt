-- ===== src/UrlGuard/Accepted.antt =====
-- What a caller of `validate_outbound_url` may rely on when it returns.
use mathlib.Core.Path.{subst}
use mathlib.Core.Bool.{◌&&◌}
use headwater.Prelude.{
  rstrip, strip, lower, is_some, ◌∙◌, ◌≡◌, sym, refl, ℕ, Bool, true, false, Option, none, some,
  List, [], ◌∷◌, Text, is_empty, All, arith, inl, inr, ◌==◌, rstrip, ap, not, keep, ==_iff,
  Bool-cases,
}
use headwater.Exec.{Result, ok}
use headwater.Exec.Checks.{bind-ok, refuse_if-ok, given-ok}
use headwater.Dict.Sweep.{contains}
use headwater.UrlGuard.Hosts.{IsAllowed, host_allowed_iff}
use headwater.UrlGuard.{
  canonical_host, no_allowed_hosts, empty_url, unparseable, not_allowed, invalid_port, invalid_host,
  no_host, canonical_host, host_of, ValidatedUrl, validate_outbound_url, validate_parts, Parts,
  permitted_schemes, is_falsy, non_routable_of, Net, is_globally_routable, check_addresses, resolve,
  sorted_set, check_port, allowed_port,
}

of_not : (b : Bool) → not b ≡ false → b ≡ true
of_not true h = refl
of_not false h = absurd (ground (arith, h))

is_some-false : {A : Type 0} (o : Option A) → is_some o ≡ false → o ≡ none
is_some-false none h = refl
is_some-false (some a) h = absurd (ground (arith, h))

ok-injective : {E A : Type 0} (a b : A) (r : Result E A) → r ≡ ok a → r ≡ ok b → a ≡ b
ok-injective a b r g h = cc

-- Nothing that a test refuses is left where what it keeps is empty.
All-keep_none :
    (p : Text → Bool) (xs : List Text)
    → is_empty (keep (λ x. not (p x)) xs) ≡ true
    → All (λ x. p x ≡ true) xs
All-keep_none p [] h = tt
All-keep_none p (x ∷ xs) h = elim (Bool-cases (p x)) [
  | inl e ↦ (e, All-keep_none p xs (ground (arith, e)))
  | inr e ↦ absurd (ground (arith, e, h))
]

check_port-ok : (s : Text) (o : Option ℕ) (p : ℕ) → check_port s o ≡ ok p → p ≡ allowed_port s
unfolding check_port
check_port-ok s none p h = sym (ok-injective _ _ _ refl h)
check_port-ok s (some q) p h =
    let (e, h1) = refuse_if-ok _ _ _ _ h in
    sym (ok-injective _ _ _ refl h1) ∙ (==_iff _ _).0 (of_not _ e)

module _ (net : Net) where
  abbrev pub IsRoutable : Text → Type 0
  IsRoutable ip = is_globally_routable net ip ≡ true

  -- The addresses are those that the name resolves to, and there are some, all of them routable.
  abbrev pub IsPinned : (host : Text) (port : ℕ) → List Text → Type 0
  IsPinned host port ips =
      ((infos : List Text) × (net.getaddrinfo host port ≡ some infos) × (ips ≡ sorted_set infos))
      × ((is_empty ips ≡ false) × All IsRoutable ips)

  check_addresses-ok :
      (host : Text) (port : ℕ) (ips : List Text)
      → check_addresses net host port true ≡ ok ips
      → IsPinned host port ips
  unfolding check_addresses resolve non_routable_of
  check_addresses-ok host port ips h =
      let (r, er, h1) = bind-ok _ _ _ h in
      let (infos, e, h2) = given-ok _ _ _ _ er in
      let (e3, h3) = refuse_if-ok _ _ _ _ h2 in
      let (e4, h4) = refuse_if-ok _ _ _ _ h1 in
      let e5 : sorted_set infos ≡ r = ok-injective _ _ _ refl h3 in
      let e6 : r ≡ ips = ok-injective _ _ _ refl h4 in
      (
        (infos, e, sym (e5 ∙ e6)),
        (
          subst (λ z. is_empty z ≡ false) (e5 ∙ e6) e3,
          subst (λ z. All IsRoutable z) e6 (All-keep_none _ r (of_not _ e4)),
        ),
      )

  -- The host name of the URL, in lower case and without dots at its end
  abbrev pub IsNamed : Parts → (host : Text) → Type 0
  IsNamed parts host =
      (name : Text) × (parts.hostname ≡ some (some name))
      × (is_empty name ≡ false)
      × (host ≡ rstrip (λ c. c == b'.') (lower name))

  host_of-IsNamed : (parts : Parts) (host : Text) → host_of parts ≡ ok host → IsNamed parts host
  unfolding host_of canonical_host
  host_of-IsNamed parts host h =
      let (hostname, e1, h1) = given-ok (not_allowed invalid_host) parts.hostname _ _ h in
      let (name, e2, h2) = given-ok (not_allowed no_host) hostname _ _ h1 in
      let (e3, h3) = refuse_if-ok _ _ _ _ h2 in
      (name, e1 ∙ ap some e2, e3, sym (ok-injective _ _ _ refl h3))

  -- What the guard promises of the URL that it returns, for a URL that was split into `parts`.
  abbrev pub IsSafe : Parts → (allowed : List Text) (allow_http : Bool) → ValidatedUrl → Type 0
  IsSafe parts allowed allow_http v =
      (contains (lower parts.scheme) (permitted_schemes net allow_http) ≡ true)
      × ((is_falsy parts.username && is_falsy parts.password) ≡ true)
      × IsNamed parts v.host
      × IsAllowed v.host allowed
      × (net.ip_address v.host ≡ none)
      × (v.port ≡ allowed_port (lower parts.scheme))
      × IsPinned v.host v.port v.ip_addresses
      × (v.url ≡ net.urlunsplit (lower parts.scheme) (lower parts.netloc) parts.path parts.query [])

  validate_parts-IsSafe :
      (parts : Parts) (allowed : List Text) (allow_http : Bool) (v : ValidatedUrl)
      → validate_parts net parts allowed allow_http true ≡ ok v
      → IsSafe parts allowed allow_http v
  unfolding validate_parts
  validate_parts-IsSafe parts allowed allow_http v h =
      let (e1, h1) = refuse_if-ok _ _ _ _ h in
      let (e2, h2) = refuse_if-ok _ _ _ _ h1 in
      let (host, e3, h3) = bind-ok (host_of parts) _ _ h2 in
      let (e4, h4) = refuse_if-ok _ _ _ _ h3 in
      let (e5, h5) = refuse_if-ok _ _ _ _ h4 in
      let (explicit, e6, h6) = given-ok (not_allowed invalid_port) parts.port _ _ h5 in
      let (port, e7, h7) = bind-ok (check_port (lower parts.scheme) explicit) _ _ h6 in
      let (ips, e8, h8) = bind-ok (check_addresses net host port true) _ _ h7 in
      subst (IsSafe parts allowed allow_http) (ok-injective _ _ _ refl h8) (
        of_not _ e1,
        of_not _ e2,
        host_of-IsNamed parts host e3,
        (host_allowed_iff host allowed).0 (of_not _ e5),
        is_some-false _ e4,
        check_port-ok _ _ _ e7,
        check_addresses-ok host port ips e8,
        refl,
      )

  -- A URL that passes with the resolution of names has a permitted scheme and the port that goes
  -- with it, and no credentials; the host returned is the host name that the URL was split into, in
  -- lower case and without dots at its end, an entry of the allow-list admits it, and it is no
  -- address; the addresses returned are all that this host resolves to, at least one, and all of
  -- them are globally routable; and the URL returned is put together from the same parts, with the
  -- scheme and the network location in lower case.
  pub validate_outbound_url-IsSafe :
      (raw_url : Text) (allowed : List Text) (allow_http : Bool) (v : ValidatedUrl)
      → validate_outbound_url net raw_url allowed allow_http true ≡ ok v
      → (parts : Parts) × (net.urlsplit (strip raw_url) ≡ some parts)
        × IsSafe parts allowed allow_http v
  unfolding validate_outbound_url
  validate_outbound_url-IsSafe raw_url allowed allow_http v h =
      let (e1, h1) = refuse_if-ok (is_empty allowed) (not_allowed no_allowed_hosts) _ _ h in
      let (e2, h2) = refuse_if-ok (is_empty (strip raw_url)) (not_allowed empty_url) _ _ h1 in
      let (parts, e3, h3) =
        given-ok (not_allowed unparseable) _
          (λ parts. validate_parts net parts allowed allow_http true) _ h2 in
      (parts, e3, validate_parts-IsSafe parts allowed allow_http v h3)
