-- ===== src/RateLimiter/Identity/Buckets.antt =====
-- When two requests are counted in one bucket.
use headwater.Prelude.{
  inr, inl, Option-cases, ℕ, ◌≡◌, refl, ap, sym, ◌∙◌, ◌↔◌, false, none, some, List, [], ◌∷◌, ◌++◌,
  arith, Text, codes, is_empty, drop, if◌then◌else◌,
}
use headwater.Dict.Sweep.{contains}
use headwater.RateLimiter.Identity.{
  Request, extract_api_key, client_host, build_rate_limit_key, get_rate_limit_key,
}

-- Whom a request is counted for: the holder of a configured key, or an address.
pub data Identity : Type 0 where
  holder : Text → Identity
  address : Text → Identity

abbrev pub identity : List Text → Request → Identity
identity keys r = elim (extract_api_key r) [
  | none ↦ address (client_host r)
  | some key ↦ if contains key keys then holder key else address (client_host r)
]

abbrev head_or : Text → ℕ
head_or [] = 0
head_or (c ∷ t) = c

-- The character in which the two prefixes differ.
abbrev eleventh : Text → ℕ
eleventh t = head_or (drop 11 t)

module _ (keyed_digest : Text → Text) where
  -- Keys are told apart by their digests, addresses by themselves.
  abbrev pub Same : Identity → Identity → Type 0
  Same (holder k) (holder k') = keyed_digest k ≡ keyed_digest k'
  Same (address h) (address h') = h ≡ h'
  Same (holder k) (address h) = ⊥
  Same (address h) (holder k) = ⊥

  abbrev render : Identity → Text
  render (holder k) = codes "rate_limit:api_key:" ++ keyed_digest k
  render (address h) = codes "rate_limit:ip:" ++ h

  render_key :
      (t : Text)
      → is_empty t ≡ false
      → build_rate_limit_key keyed_digest (some t) none ≡ render (holder t)
  unfolding build_rate_limit_key
  render_key [] h = cc
  render_key (c ∷ t) h = refl

  abbrev render_of : Text → Text
  render_of t = build_rate_limit_key keyed_digest (some t) none

  render_host :
      (t : Text)
      → is_empty t ≡ false
      → build_rate_limit_key keyed_digest none (some t) ≡ render (address t)
  unfolding build_rate_limit_key
  render_host [] h = cc
  render_host (c ∷ t) h = refl

  client_host_set : (r : Request) → is_empty (client_host r) ≡ false
  unfolding client_host
  client_host_set r = ground arith

  api_key_set : (r : Request) (k : Text) → extract_api_key r ≡ some k → is_empty k ≡ false
  unfolding extract_api_key
  api_key_set r k h = ground arith

  by_host :
      (keys : List Text) (r : Request)
      → build_rate_limit_key keyed_digest none (some (client_host r))
        ≡ render (address (client_host r))
  by_host keys r = render_host (client_host r) (client_host_set r)

  key-render :
      (keys : List Text) (r : Request)
      → get_rate_limit_key keyed_digest keys r ≡ render (identity keys r)
  unfolding get_rate_limit_key
  key-render keys r = elim (Option-cases (extract_api_key r)) [
    | inl e ↦ ground (arith, by_host keys r)
    | inr (k, e) ↦
        let holds : render_of k ≡ render (holder k) = render_key k (api_key_set r k e) in
        ground (arith, by_host keys r, holds)
  ]

  render-eq : (i j : Identity) → render i ≡ render j → Same i j
  render-eq (holder k) (holder k') e = ap (drop 19) e
  render-eq (address h) (address h') e = ap (drop 14) e
  render-eq (holder k) (address h) e = absurd (omega (arith, ap eleventh e))
  render-eq (address h) (holder k) e = absurd (omega (arith, ap eleventh e))

  eq-render : (i j : Identity) → Same i j → render i ≡ render j
  eq-render (holder k) (holder k') e = cc
  eq-render (address h) (address h') e = cc
  eq-render (holder k) (address h) e = absurd e
  eq-render (address h) (holder k) e = absurd e

  -- Two requests are counted in one bucket exactly when both present a configured key and the
  -- digests of the two keys are equal, or neither does and their hosts are equal: a key that is
  -- not configured opens no bucket of its own, and no key shares a bucket with an address.
  pub get_rate_limit_key-eq_iff :
      (keys : List Text) (r r' : Request)
      → (get_rate_limit_key keyed_digest keys r ≡ get_rate_limit_key keyed_digest keys r')
        ↔ Same (identity keys r) (identity keys r')
  get_rate_limit_key-eq_iff keys r r' = (
    λ e. render-eq _ _ (sym (key-render keys r) ∙ e ∙ key-render keys r'),
    λ s. key-render keys r ∙ eq-render _ _ s ∙ sym (key-render keys r'),
  )
