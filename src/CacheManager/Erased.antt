-- ===== src/CacheManager/Erased.antt =====
-- What reads return after deletions, clearings and clean-ups.
use headwater.Prelude.{
  sym, ◌≡◌, ◌∙◌, refl, ap, ℕ, ◌≤◌, ◌≢◌, Bool, true, false, Option, none, some, [], ◌∷◌, ◌||◌, Text,
  text_eq_refl, starts_with, is_some, if◌then◌else◌,
}
use headwater.Dict.{lookup}
use headwater.Redis.Client.{Server}
use headwater.Redis.{is_available}
use headwater.CacheManager.{
  Config, Caches, get, clear_local, clear, delete_local, delete, cleanup, found_or,
}
use headwater.CacheManager.Values.{Types, Value, Codec}
use headwater.CacheManager.Keys.{generate_key, prefix_of}
use headwater.CacheManager.Namespaces.{IsName, own_key-prefix, other_key-prefix}
use headwater.CacheManager.Reads.{find-gone}
use headwater.CacheManager.Local.{
  live, live-swept, IsStore, lookup-clear_local, lookup-cleanup, delete_remote-gone,
  clear_remote-gone, delete_local-found, lookup-delete_local, get_local-live_of,
}

module _ {srv : Server} {T : Types} (C : Codec T) (cfg : Config) where
  -- What a read returns while there is no Redis.
  get-gone :
      (key : Text) (ns : Option Text) (default : Value T) (now : ℕ) (s : Caches srv T)
      → cfg.enabled ≡ true
      → is_available srv s.redis ≡ false
      → (get C cfg key ns default now s).0
        ≡ found_or default (live now (lookup (generate_key key ns) s.cache_store))
  unfolding get
  get-gone key ns default now s on gone = rw on (
      ap (λ r. found_or default r.0) (find-gone C (generate_key key ns) now s gone)
      ∙ ap (found_or default) (get_local-live_of (generate_key key ns) now s))

  module _ (on : cfg.enabled ≡ true) where
    clear-gone :
        (ns : Option Text) (s : Caches srv T)
        → is_available srv s.redis ≡ false
        → (clear cfg ns s).1 ≡ clear_local ns s
    unfolding clear
    clear-gone ns s gone = rw on (ap (clear_local ns) (clear_remote-gone ns s gone))

    clear_local-redis : (ns : Option Text) (s : Caches srv T) → (clear_local ns s).redis ≡ s.redis
    unfolding clear_local
    clear_local-redis none s = refl
    clear_local-redis (some []) s = refl
    clear_local-redis (some (c ∷ ns)) s = refl

    read_cleared :
        (key ns ns' : Text) (default : Value T) (now : ℕ) (b : Bool) (s : Caches srv T)
        → IsName ns
        → IsStore s
        → is_available srv s.redis ≡ false
        → starts_with (generate_key key (some ns')) (prefix_of (some ns)) ≡ b
        → (get C cfg key (some ns') default now (clear cfg (some ns) s).1).0
          ≡ found_or default
              (live now (if b then none else lookup (generate_key key (some ns')) s.cache_store))
    read_cleared key ns ns' default now b s n h gone e =
        let k = generate_key key (some ns') in
        let s' = clear_local (some ns) s in
        let gone' : is_available srv s'.redis ≡ false =
          ap (is_available srv) (clear_local-redis (some ns) s) ∙ gone in
        ap (λ x. (get C cfg key (some ns') default now x).0) (clear-gone (some ns) s gone)
        ∙ get-gone key (some ns') default now s' on gone'
        ∙ ap (λ o. found_or default (live now o)) (lookup-clear_local k ns s n h)
        ∙ ap (λ c. found_or default (live now (if c then none else lookup k s.cache_store))) e

    -- After a namespace is cleared, a read in it finds nothing, and a read in any other namespace
    -- finds what it found before. The cache is enabled, there is no Redis, neither namespace is
    -- empty or has a colon in it, and the keys of the store are distinct.
    pub get-clear :
        (key ns ns' : Text) (default : Value T) (now : ℕ) (s : Caches srv T)
        → IsName ns
        → IsName ns'
        → ns ≢ ns'
        → IsStore s
        → is_available srv s.redis ≡ false
        → ((get C cfg key (some ns) default now (clear cfg (some ns) s).1).0 ≡ default)
          × ((get C cfg key (some ns') default now (clear cfg (some ns) s).1).0
              ≡ (get C cfg key (some ns') default now s).0)
    get-clear key ns ns' default now s n n' d h gone = (
      read_cleared key ns ns default now true s n h gone (own_key-prefix key ns n),
      read_cleared key ns ns' default now false s n h gone
            (other_key-prefix key ns' ns n' n (λ e. d (sym e)))
          ∙ sym (get-gone key (some ns') default now s on gone),
    )

    delete-gone :
        (key : Text) (ns : Option Text) (s : Caches srv T)
        → is_available srv s.redis ≡ false
        → delete cfg key ns s ≡ delete_local (generate_key key ns) s
    unfolding delete
    delete-gone key ns s gone =
        let k = generate_key key ns in
        rw on (
          ap (λ p. (p.0 || (delete_local k p.1).0, (delete_local k p.1).1))
            (delete_remote-gone k s gone))

    -- After a deletion a read of the same key finds nothing. The cache is enabled, there is no
    -- Redis, and the keys of the store are distinct.
    pub get-delete :
        (key : Text) (ns : Option Text) (default : Value T) (now : ℕ) (s : Caches srv T)
        → IsStore s
        → is_available srv s.redis ≡ false
        → ((delete cfg key ns s).0 ≡ is_some (lookup (generate_key key ns) s.cache_store))
          × ((get C cfg key ns default now (delete cfg key ns s).1).0 ≡ default)
    get-delete key ns default now s h gone =
        let k = generate_key key ns in
        let s' = (delete_local k s).1 in
        let (found, same) = delete_local-found k s in
        let gone' : is_available srv s'.redis ≡ false = ap (is_available srv) same ∙ gone in
        let e = delete-gone key ns s gone in
        let absent : lookup k s'.cache_store ≡ none =
          lookup-delete_local k k s h ∙ rw (text_eq_refl k) refl in
        (
          ap (λ p. p.0) e ∙ found,
          ap (λ p. (get C cfg key ns default now p.1).0) e
              ∙ get-gone key ns default now s' on gone'
              ∙ ap (λ o. found_or default (live now o)) absent,
        )

    -- A clean-up does not show: a read at the same time or later returns what it would have
    -- returned. The cache is enabled, there is no Redis, and the keys of the store are distinct.
    pub get-cleanup :
        (key : Text) (ns : Option Text) (default : Value T) (now later : ℕ) (s : Caches srv T)
        → now ≤ later
        → IsStore s
        → is_available srv s.redis ≡ false
        → (get C cfg key ns default later (cleanup now s)).0 ≡ (get C cfg key ns default later s).0
    unfolding cleanup
    get-cleanup key ns default now later s l h gone =
        let k = generate_key key ns in
        let o = lookup k s.cache_store in
        get-gone key ns default later (cleanup now s) on gone
        ∙ ap (λ x. found_or default (live later x)) (lookup-cleanup k now s h)
        ∙ ap (found_or default) (live-swept k now later o l)
        ∙ sym (get-gone key ns default later s on gone)
