-- ===== src/Tests/Proxies.antt =====
-- The choice of a proxy.
use headwater.Prelude.{ℕ, ◌≡◌, ◌<◌, ◌++◌, ◌&&◌, refl, true, some, none, [], ◌∷◌, codes}
use headwater.Dict.Sweep.{contains}
use headwater.Proxy.{
  Settings, several, single, load_proxy_config, get_available_proxies, is_valid_url, values_of,
  proxy_for, get_proxy_sync,
}
use headwater.Proxy.Fair.{reached, nth_answer, get_proxy-reaches}
use headwater.Proxy.Configured.{IsDistinct, is_written, get_available_proxies-configured}
use headwater.Proxy.Bypass.{IsBypassed, proxy_for-IsExcluded}

abbrev two_proxies : Settings
two_proxies = record {
  enable_proxy = true;
  proxy_urls = single (codes "http://one:80, http://two:80,x");
  proxy_url = single (codes "http://one:80");
  no_proxy_hosts = several (codes ".YouTube.com" ∷ []);
}

two_proxies-config :
    load_proxy_config (some two_proxies)
    ≡ (true, codes "http://one:80" ∷ codes "http://two:80" ∷ [])
unfolding load_proxy_config headwater.Prelude.split headwater.Proxy.add_candidate
    headwater.Prelude.strip is_valid_url headwater.Prelude.starts_with headwater.Prelude.text_eq
two_proxies-config = refl

get_proxy-reaches_example :
    (n : ℕ) × (n < 2)
    × (nth_answer (some two_proxies) n (reached (some two_proxies ∷ none ∷ []))
        ≡ some (codes "http://one:80"))
unfolding headwater.Prelude.text_eq
get_proxy-reaches_example =
    get_proxy-reaches (some two_proxies) (codes "http://one:80") (codes "http://two:80" ∷ [])
      two_proxies-config (some two_proxies ∷ none ∷ []) (codes "http://one:80") refl

get_available_proxies-configured_example :
    (contains (codes "http://two:80") (get_available_proxies (some two_proxies)) ≡ (
      is_valid_url (codes "http://two:80")
      && is_written
          (codes "http://two:80")
          (values_of two_proxies.proxy_urls ++ values_of two_proxies.proxy_url)))
    × IsDistinct (get_available_proxies (some two_proxies))
get_available_proxies-configured_example =
    get_available_proxies-configured two_proxies (codes "http://two:80")

proxy_for-IsExcluded_example :
    (IsBypassed (codes "m.youtube.com") (some two_proxies)
      → proxy_for (some two_proxies) (some (codes " https://M.youtube.com:443/watch")) ≡ none)
    × ((IsBypassed (codes "m.youtube.com") (some two_proxies) → ⊥)
        → proxy_for (some two_proxies) (some (codes " https://M.youtube.com:443/watch"))
          ≡ get_proxy_sync (some two_proxies))
unfolding headwater.Prelude.lower headwater.Prelude.strip
proxy_for-IsExcluded_example =
    proxy_for-IsExcluded (some two_proxies) (codes " https://M.youtube.com:443/watch")
      (codes "https") (codes "m.youtube.com") (codes ":443") (codes "/watch") refl refl refl refl
      refl refl refl
