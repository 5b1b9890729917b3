-- ===== src/Proxy/Configured.antt =====
-- What the settings configure.
use headwater.Prelude.{
  ◌≡◌, ◌∙◌, refl, Bool, true, false, ◌&&◌, List, [], ◌∷◌, ◌++◌, some, Text, text_eq, text_eq_iff,
  text_eq_refl, any, strip, is_empty, arith, Bool-cases, inl, inr, if◌then◌else◌,
}
use headwater.Dict.Sweep.{contains}
use headwater.Search.Members.{contains-append}
use headwater.Proxy.{
  Settings, is_valid_url, add_candidate, add_candidates, values_of, get_available_proxies,
}

abbrev pub IsDistinct : List Text → Type 0
IsDistinct [] = Unit
IsDistinct (x ∷ xs) = (contains x xs ≡ false) × IsDistinct xs

IsDistinct-append :
    (xs : List Text) (y : Text) → contains y xs ≡ false → IsDistinct xs → IsDistinct (xs ++ y ∷ [])
IsDistinct-append [] y h d = (refl, tt)
IsDistinct-append (x ∷ xs) y h (a, d) = elim (Bool-cases (text_eq x y)) [
  | inl e ↦ absurd (cc (rw e at h))
  | inr e ↦ (
    contains-append x xs (y ∷ []) ∙ ground (arith, a, e, text_eq_iff x y, text_eq_iff y x),
    IsDistinct-append xs y (rw e at h) d,
  )
]

-- One of the values, without the white space around it, is this url.
abbrev pub is_written : Text → List Text → Bool
is_written url = any (λ value. text_eq (strip value) url)

not_empty : (t : Text) → is_valid_url t ≡ true → is_empty t ≡ false
unfolding is_valid_url headwater.Prelude.starts_with
not_empty [] h = absurd (cc (h))
not_empty (c ∷ t) h = refl

contains-add_candidate :
    (urls : List Text) (value url : Text)
    → contains url (add_candidate urls value)
      ≡ (if contains url urls then true else is_valid_url url && text_eq (strip value) url)
unfolding add_candidate
contains-add_candidate urls value url = elim (Bool-cases (text_eq (strip value) url)) [
  | inl e ↦
      let q = (text_eq_iff (strip value) url).0 e in
      rw (e, q)
        (ground (arith, contains-append url urls (url ∷ []), not_empty url, text_eq_refl url))
  | inr e ↦ ground (arith, e, contains-append url urls (strip value ∷ []))
]

contains-add_candidates :
    (urls values : List Text) (url : Text)
    → contains url (add_candidates urls values)
      ≡ (if contains url urls then true else is_valid_url url && is_written url values)
contains-add_candidates urls [] url = ground arith
contains-add_candidates urls (value ∷ values) url =
    contains-add_candidates (add_candidate urls value) values url
    ∙ ground (arith, contains-add_candidate urls value url)

add_candidate-IsDistinct :
    (urls : List Text) (value : Text) → IsDistinct urls → IsDistinct (add_candidate urls value)
unfolding add_candidate
add_candidate-IsDistinct urls value d = elim (Bool-cases (is_empty (strip value))) [
  | inl e ↦ rw e d
  | inr e ↦ elim (Bool-cases (is_valid_url (strip value))) [
    | inr f ↦ rw (e, f) d
    | inl f ↦ elim (Bool-cases (contains (strip value) urls)) [
      | inl g ↦ rw (e, f, g) d
      | inr g ↦ rw (e, f, g) (IsDistinct-append urls (strip value) g d)
    ]
  ]
]

add_candidates-IsDistinct :
    (urls values : List Text) → IsDistinct urls → IsDistinct (add_candidates urls values)
add_candidates-IsDistinct urls [] d = d
add_candidates-IsDistinct urls (value ∷ values) d =
    add_candidates-IsDistinct (add_candidate urls value) values
      (add_candidate-IsDistinct urls value d)

-- The available proxies are exactly the well-formed urls among the values of `PROXY_URLS` and
-- `PROXY_URL`, without the white space around them, and none is there twice.
pub get_available_proxies-configured :
    (s : Settings) (url : Text)
    → (contains url (get_available_proxies (some s))
        ≡ (is_valid_url url && is_written url (values_of s.proxy_urls ++ values_of s.proxy_url)))
      × IsDistinct (get_available_proxies (some s))
unfolding get_available_proxies headwater.Proxy.load_proxy_config
get_available_proxies-configured s url =
    let values = values_of s.proxy_urls ++ values_of s.proxy_url in
    (contains-add_candidates [] values url, add_candidates-IsDistinct [] values tt)
