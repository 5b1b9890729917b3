-- ===== src/Proxy/Bypass.antt =====
-- Which targets are reached without a proxy.
use headwater.Prelude.{
  ℕ, ◌≡◌, ◌⊎◌, ◌↔◌, refl, ap, true, false, Option, none, some, List, [], ◌∷◌, ◌++◌, Text, codes,
  text_eq_iff, any, lower, strip, lstrip, starts_with, ◌==◌, Bool-cases, inl, inr, if_true_iff,
  is_empty,
}
use headwater.UrlGuard.Hosts.{ends_with_iff}
use headwater.Proxy.{
  Settings, excluded_hosts, without_scheme, after_slashes, before, after_last, has, target_host,
  excluded_of, values_of, is_under, is_host_excluded, proxy_for, get_proxy_sync,
}

-- The text is empty or begins with this character.
abbrev pub IsTail : ℕ → Text → Type 0
IsTail c [] = Unit
IsTail c (d ∷ t) = (d == c) ≡ true

-- The host is one of these or below one of them.
abbrev pub IsExcluded : (host : Text) → List Text → Type 0
IsExcluded host [] = ⊥
IsExcluded host (x ∷ xs) =
    ((host ≡ x) ⊎ ((p : Text) × (host ≡ p ++ (codes "." ++ x)))) ⊎ IsExcluded host xs

any-IsExcluded :
    (host : Text) (xs : List Text) → (any (is_under host) xs ≡ true) ↔ IsExcluded host xs
any-IsExcluded host [] = (λ h. absurd (cc (h)), λ h. absurd h)
any-IsExcluded host (x ∷ xs) =
    if_true_iff _ _ (if_true_iff _ _ (text_eq_iff host x) (ends_with_iff host (codes "." ++ x)))
      (any-IsExcluded host xs)

-- The host is, or is below, what one of the values says: the value, in lower case, without the
-- white space around it and then without dots before it. A blank value says nothing.
abbrev pub IsNamedBy : (host : Text) → List Text → Type 0
IsNamedBy host [] = ⊥
IsNamedBy host (value ∷ values) =
    ((is_empty (strip value) ≡ false)
      × ((host ≡ lstrip (λ c. c == b'.') (lower (strip value)))
          ⊎ ((p : Text) × (host
                ≡ p ++ (codes "." ++ lstrip (λ c. c == b'.') (lower (strip value)))))))
    ⊎ IsNamedBy host values

excluded_of-IsNamedBy :
    (host : Text) (values : List Text)
    → IsExcluded host (excluded_of values) ↔ IsNamedBy host values
excluded_of-IsNamedBy host [] = (λ x. x, λ x. x)
excluded_of-IsNamedBy host (value ∷ values) =
    let (to, from) = excluded_of-IsNamedBy host values in
    elim (Bool-cases (is_empty (strip value))) [
      | inl e ↦
          rw (e, excluded_of)
            (λ x. inr (to x), λ y. elim y [ inl z ↦ absurd (cc (z.0)) | inr z ↦ from z ])
      | inr e ↦
          rw (e, excluded_of)
            (
              λ x. elim x [ inl z ↦ inl (refl, z) | inr z ↦ inr (to z) ],
              λ y. elim y [ inl z ↦ inl z.1 | inr z ↦ inr (from z) ],
            )
    ]

-- One of the values of `NO_PROXY_HOSTS`, a list or a text with commas, says this host.
abbrev pub IsBypassed : (host : Text) → Option Settings → Type 0
IsBypassed host none = ⊥
IsBypassed host (some s) = IsNamedBy host (values_of s.no_proxy_hosts)

excluded_hosts-IsBypassed :
    (host : Text) (s : Option Settings) → IsExcluded host (excluded_hosts s) ↔ IsBypassed host s
unfolding excluded_hosts
excluded_hosts-IsBypassed host none = (λ x. x, λ x. x)
excluded_hosts-IsBypassed host (some s) = excluded_of-IsNamedBy host (values_of s.no_proxy_hosts)

before-append : (c : ℕ) (t tail : Text) → has c t ≡ false → IsTail c tail → before c (t ++ tail) ≡ t
unfolding before
before-append c [] [] h l = refl
before-append c [] (d ∷ tail) h l = rw l refl
before-append c (d ∷ t) tail h l = elim (Bool-cases (d == c)) [
  | inl e ↦ absurd (cc (rw e at h))
  | inr e ↦ rw e (ap (◌∷◌ d) (before-append c t tail (rw e at h) l))
]

after_last_absent : (c : ℕ) (t : Text) → has c t ≡ false → after_last c t ≡ t
unfolding after_last
after_last_absent c [] h = refl
after_last_absent c (d ∷ t) h = elim (Bool-cases (d == c)) [
  | inl e ↦ absurd (cc (rw e at h))
  | inr e ↦ let rest : has c t ≡ false = rw e at h in rw (e, rest) refl
]

after_slashes_of :
    (scheme rest : Text)
    → has b'/' scheme ≡ false
    → after_slashes (scheme ++ (codes "://" ++ rest)) ≡ some rest
unfolding starts_with
after_slashes_of [] rest h = refl
after_slashes_of (c ∷ scheme) rest h = elim (Bool-cases (c == b'/')) [
  | inl e ↦ absurd (cc (rw e at h))
  | inr e ↦ rw e (after_slashes_of scheme rest (rw e at h))
]

without_scheme_of :
    (scheme rest : Text)
    → has b'/' scheme ≡ false
    → without_scheme (scheme ++ (codes "://" ++ rest)) ≡ rest
without_scheme_of scheme rest h = rw (after_slashes_of scheme rest h, without_scheme) refl

-- The host of a url is what stands between `//` and a port or a path.
pub target_host_of :
    (url scheme host port path : Text)
    → lower (strip url) ≡ scheme ++ (codes "://" ++ ((host ++ port) ++ path))
    → has b'/' scheme ≡ false
    → has b'/' (host ++ port) ≡ false
    → has b'@' (host ++ port) ≡ false
    → has b':' host ≡ false
    → IsTail b':' port
    → IsTail b'/' path
    → target_host url ≡ host
unfolding target_host
target_host_of url scheme host port path is s1 s2 s3 s4 p1 p2 =
    rw
      (
        is,
        without_scheme_of scheme ((host ++ port) ++ path) s1,
        before-append b'/' (host ++ port) path s2 p2,
        after_last_absent b'@' (host ++ port) s3,
      )
      (before-append b':' host port s4 p1)

not_blank :
    (url scheme rest : Text)
    → lower (strip url) ≡ scheme ++ (codes "://" ++ rest)
    → is_empty url ≡ false
unfolding lower strip headwater.Prelude.strip_chars headwater.Prelude.rstrip
    headwater.Prelude.lstrip
not_blank [] [] rest h = absurd (cc (h))
not_blank [] (c ∷ scheme) rest h = absurd (cc (h))
not_blank (c ∷ url) scheme rest h = refl

-- For a url that is, in lower case and without the white space around it, a scheme, `://`, a host
-- without user information, maybe a port and maybe a path: `proxy_for` goes direct if a value of
-- `NO_PROXY_HOSTS` that is not blank, in lower case and without white space around it and dots
-- before it, is the host or one that the host is below; and otherwise it takes the proxy that is
-- configured.
pub proxy_for-IsExcluded :
    (s : Option Settings) (url scheme host port path : Text)
    → lower (strip url) ≡ scheme ++ (codes "://" ++ ((host ++ port) ++ path))
    → has b'/' scheme ≡ false
    → has b'/' (host ++ port) ≡ false
    → has b'@' (host ++ port) ≡ false
    → has b':' host ≡ false
    → IsTail b':' port
    → IsTail b'/' path
    → (IsBypassed host s → proxy_for s (some url) ≡ none)
      × ((IsBypassed host s → ⊥) → proxy_for s (some url) ≡ get_proxy_sync s)
unfolding proxy_for is_host_excluded
proxy_for-IsExcluded s url scheme host port path is s1 s2 s3 s4 p1 p2 =
    let there = not_blank url scheme ((host ++ port) ++ path) is in
    let its = target_host_of url scheme host port path is s1 s2 s3 s4 p1 p2 in
    let (found, back) = any-IsExcluded host (excluded_hosts s) in
    let (said, named) = excluded_hosts-IsBypassed host s in
    (
      λ x. rw (there, its, back (named x)) refl,
      λ no. elim (Bool-cases (any (is_under host) (excluded_hosts s))) [
        | inl e ↦ absurd (no (said (found e)))
        | inr e ↦ rw (there, its, e) refl
      ],
    )
