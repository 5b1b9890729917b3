-- ===== src/Tests/Urls.antt =====
-- Runs of the URL guard.
use headwater.Prelude.{
  ends_with, starts_with, lower, ◌↔◌, ◌≡◌, refl, ◌+◌, ◌*◌, ◌^◌, true, false, none, some, List, [],
  ◌∷◌, Text, codes, text_eq, if◌then◌else◌, arith, strip,
}
use headwater.Exec.{ok}
use headwater.UrlGuard.{
  validate_parts, host_of, check_port, check_addresses, resolve, sorted_set, canonical_host,
  add_sorted, non_routable_of, unwrap_embedded_ipv4, allowed_port, is_globally_routable,
  is_routable, host_allowed, canonical_host, sorted_set, resolve, check_addresses, check_port,
  host_of, validate_parts, Net, Parts, ValidatedUrl, v4, v6, validate_outbound_url,
  is_globally_routable, is_routable, host_allowed,
}
use headwater.UrlGuard.Hosts.{IsAllowed, host_allowed_iff}
use headwater.UrlGuard.Addresses.{mapped, is_globally_routable-Carries}
use headwater.UrlGuard.Accepted.{IsSafe, validate_outbound_url-IsSafe}

abbrev article : Parts
article = record {
  scheme = codes "HTTPS";
  netloc = codes "a.news.google.com.";
  path = codes "/x";
  query = [];
  username = none;
  password = none;
  hostname = some (some (codes "a.news.google.com."));
  port = some none;
}

-- Every URL is the article's; of addresses there are a public one and a mapped loopback one.
abbrev pub internet : Net
internet = record {
  urlsplit = λ t. some article;
  urlunsplit = λ s n p q f. n;
  ip_address = λ t.
      if text_eq t (codes "8.8.8.8")
      then some (v4 134744072)
      else if text_eq t (codes "::ffff:127.0.0.1")
      then some (v6 (65535 * 2 ^ 32 + 2130706433))
      else none;
  is_global = λ a. elim a [
    | v4 n ↦ (if text_eq (n ∷ []) (2130706433 ∷ []) then false else true)
    | v6 n ↦ true
  ];
  is_private = λ a. false;
  is_loopback = λ a. false;
  is_link_local = λ a. false;
  is_multicast = λ a. false;
  is_reserved = λ a. false;
  is_unspecified = λ a. false;
  getaddrinfo = λ h p. some (codes "8.8.8.8" ∷ codes "8.8.8.8" ∷ []);
}

abbrev news_hosts : List Text
news_hosts = codes "news.google.com" ∷ codes ".news.google.com" ∷ []

abbrev validated : ValidatedUrl
validated = record {
  url = codes "a.news.google.com.";
  host = codes "a.news.google.com";
  port = 443;
  ip_addresses = codes "8.8.8.8" ∷ [];
}

accepts_article : validate_outbound_url internet (codes " u") news_hosts false true ≡ ok validated
unfolding validate_outbound_url validate_parts host_of check_port check_addresses resolve sorted_set
    canonical_host strip text_eq lower host_allowed starts_with ends_with add_sorted non_routable_of
    is_globally_routable is_routable unwrap_embedded_ipv4 allowed_port
accepts_article = refl

validate_outbound_url-IsSafe_example :
    (parts : Parts) × (internet.urlsplit (strip (codes " u")) ≡ some parts)
    × IsSafe internet parts news_hosts false validated
validate_outbound_url-IsSafe_example =
    validate_outbound_url-IsSafe internet (codes " u") news_hosts false validated accepts_article

is_globally_routable-Carries_example :
    is_globally_routable internet (codes "::ffff:127.0.0.1") ≡ is_routable internet (v4 2130706433)
unfolding text_eq
is_globally_routable-Carries_example =
    is_globally_routable-Carries internet (codes "::ffff:127.0.0.1") 2130706433 _ (omega arith)
      mapped refl

host_allowed_iff_example :
    (host_allowed (codes "evilnews.google.com") news_hosts ≡ true)
    ↔ IsAllowed (codes "evilnews.google.com") news_hosts
host_allowed_iff_example = host_allowed_iff (codes "evilnews.google.com") news_hosts
