-- ===== src/Proxy/Fair.antt =====
-- Every proxy has its turn, whatever was configured and called before.
use headwater.Prelude.{
  ℕ, zero, suc, ◌+◌, ◌<◌, ◌≡◌, ◌∙◌, refl, sym, ap, Bool, true, false, Option, none, some, List, [],
  ◌∷◌, ◌++◌, Text, text_eq, text_eq_iff, text_eq_refl, length, length-append, arith, Bool-cases,
  inl, inr,
}
use mathlib.Core.Path.{subst}
use mathlib.Core.List.{append-nil, append_assoc}
use headwater.Dict.Sweep.{contains}
use headwater.Search.Members.{contains-append}
use headwater.Proxy.{Settings, load_proxy_config}
use headwater.Proxy.Cursor.{Cycle, Cursor, no_cursor, texts_eq, next_proxy, get_proxy, when_enabled}

-- What is left of the round is an end of it, and it repeats the list it was made of.
abbrev IsTurn : Option Cycle → List Text → Type 0
IsTurn none source = Unit
IsTurn (some c) source = (c.items ≡ source) × ((past : List Text) × (source ≡ past ++ c.upcoming))

abbrev IsCursor : Cursor → Type 0
IsCursor c = IsTurn c.iter c.source

-- The cursor after calls of `get_proxy`, of which the last comes first, each under its settings
abbrev pub reached : List (Option Settings) → Cursor
reached [] = no_cursor
reached (s ∷ ss) = (get_proxy s (reached ss)).1

-- The answer of the call after `n` others under the same settings
abbrev pub nth_answer : Option Settings → (n : ℕ) → Cursor → Option Text
nth_answer s zero c = (get_proxy s c).0
nth_answer s (suc n) c = nth_answer s n (get_proxy s c).1

texts_eq_sound : (ss ts : List Text) → texts_eq ss ts ≡ true → ss ≡ ts
texts_eq_sound [] [] h = refl
texts_eq_sound [] (t ∷ ts) h = absurd (cc (h))
texts_eq_sound (s ∷ ss) [] h = absurd (cc (h))
texts_eq_sound (s ∷ ss) (t ∷ ts) h = elim (Bool-cases (text_eq s t)) [
  | inl e ↦ let q = texts_eq_sound ss ts (rw e at h) in let p = (text_eq_iff s t).0 e in cc
  | inr e ↦ absurd (cc (rw e at h))
]

texts_eq_refl : (ss : List Text) → texts_eq ss ss ≡ true
texts_eq_refl [] = refl
texts_eq_refl (s ∷ ss) = rw (text_eq_refl s) (texts_eq_refl ss)

-- A cursor in the middle of a round over these urls
abbrev at : (urls upcoming : List Text) → Cursor
at urls upcoming = record {
  iter = some (record { items = urls; upcoming = upcoming });
  source = urls;
}

module _ (u : Text) (us : List Text) where
  step :
      (v : Text) (vs : List Text)
      → next_proxy (u ∷ us) (at (u ∷ us) (v ∷ vs)) ≡ (some v, at (u ∷ us) vs)
  unfolding next_proxy
  step v vs = rw (text_eq_refl u, texts_eq_refl us) refl

  step_round : next_proxy (u ∷ us) (at (u ∷ us) []) ≡ (some u, at (u ∷ us) us)
  unfolding next_proxy
  step_round = rw (text_eq_refl u, texts_eq_refl us) refl

-- A call acts as one from the middle of a round.
turn :
    (u : Text) (us : List Text) (o : Option Cycle) (source : List Text)
    → IsTurn o source
    → (upcoming : List Text) × ((past : List Text) × (u ∷ us ≡ past ++ upcoming))
      × (next_proxy (u ∷ us) (record { iter = o; source = source })
          ≡ next_proxy (u ∷ us) (at (u ∷ us) upcoming))
unfolding next_proxy
turn u us none source h = (u ∷ us, ([], refl), rw (text_eq_refl u, texts_eq_refl us) refl)
turn u us (some c) source (same, (past, e)) = elim (Bool-cases (texts_eq source (u ∷ us))) [
  | inl x ↦
      let from : source ≡ u ∷ us = texts_eq_sound source (u ∷ us) x in
      (c.upcoming, (past, sym from ∙ e), rw (x, same, from, text_eq_refl u, texts_eq_refl us) refl)
  | inr x ↦ (u ∷ us, ([], refl), rw (x, text_eq_refl u, texts_eq_refl us) refl)
]

next_proxy-IsCursor : (urls : List Text) (c : Cursor) → IsCursor c → IsCursor (next_proxy urls c).1
unfolding next_proxy
next_proxy-IsCursor [] c h = tt
next_proxy-IsCursor (u ∷ us) c h =
    let (upcoming, (past, e), same) = turn u us c.iter c.source h in
    subst (λ p. IsCursor p.1) (sym same) (after_turn upcoming past e)
  where
    after_turn :
        (upcoming past : List Text)
        → u ∷ us ≡ past ++ upcoming
        → IsCursor (next_proxy (u ∷ us) (at (u ∷ us) upcoming)).1
    after_turn [] past e = subst (λ p. IsCursor p.1) (sym (step_round u us)) (refl, (u ∷ [], refl))
    after_turn (v ∷ vs) past e =
        subst (λ p. IsCursor p.1) (sym (step u us v vs))
          (refl, (past ++ v ∷ [], e ∙ sym (append_assoc past (v ∷ []) vs)))

get_proxy-IsCursor : (s : Option Settings) (c : Cursor) → IsCursor c → IsCursor (get_proxy s c).1
unfolding get_proxy
get_proxy-IsCursor s c h = at_config (load_proxy_config s).0 (load_proxy_config s).1
  where
    at_config : (enabled : Bool) (urls : List Text) → IsCursor (when_enabled enabled urls c).1
    at_config false urls = h
    at_config true [] = h
    at_config true (u ∷ us) = next_proxy-IsCursor (u ∷ us) c h

reached-IsCursor : (ss : List (Option Settings)) → IsCursor (reached ss)
reached-IsCursor [] = tt
reached-IsCursor (s ∷ ss) = get_proxy-IsCursor s (reached ss) (reached-IsCursor ss)

-- Calls under settings that configure these urls
module _ (s : Option Settings) (u : Text) (us : List Text)
    (configured : load_proxy_config s ≡ (true, u ∷ us)) where
  calls_next : (c : Cursor) → get_proxy s c ≡ next_proxy (u ∷ us) c
  unfolding get_proxy
  calls_next c = rw configured refl

  -- In the middle of a round, what is left of it comes next.
  in_round :
      (url : Text) (vs rest : List Text)
      → contains url vs ≡ true
      → (n : ℕ) × (n < length vs) × (nth_answer s n (at (u ∷ us) (vs ++ rest)) ≡ some url)
  in_round url [] rest h = absurd (cc (h))
  in_round url (v ∷ vs) rest h = elim (Bool-cases (text_eq v url)) [
    | inl e ↦
        let q : v ≡ url = (text_eq_iff v url).0 e in
        (
          0,
          omega arith,
          ap (λ p. p.0) (calls_next (at (u ∷ us) (v ∷ vs ++ rest)) ∙ step u us v (vs ++ rest))
              ∙ ap some q,
        )
    | inr e ↦
        let (n, less, is) = in_round url vs rest (rw e at h) in
        (
          suc n,
          omega (arith, less),
          ap (λ p. nth_answer s n p.1)
                (calls_next (at (u ∷ us) (v ∷ vs ++ rest)) ∙ step u us v (vs ++ rest))
              ∙ is,
        )
  ]

  -- The calls that are left of a round, before those of the next one
  drain :
      (n : ℕ) (vs : List Text)
      → nth_answer s (length vs + n) (at (u ∷ us) vs) ≡ nth_answer s n (at (u ∷ us) [])
  drain n [] = let z : 0 + n ≡ n = omega arith in rw z refl
  drain n (v ∷ vs) =
      let z : suc (length vs) + n ≡ suc (length vs + n) = omega arith in
      rw z (
        ap (λ p. nth_answer s (length vs + n) p.1)
          (calls_next (at (u ∷ us) (v ∷ vs)) ∙ step u us v vs)
        ∙ drain n vs)

  same_answers :
      (n : ℕ) (c d : Cursor)
      → next_proxy (u ∷ us) c ≡ next_proxy (u ∷ us) d
      → nth_answer s n c ≡ nth_answer s n d
  same_answers zero c d e = ap (λ p. p.0) (calls_next c ∙ e ∙ sym (calls_next d))
  same_answers (suc n) c d e = ap (λ p. nth_answer s n p.1) (calls_next c ∙ e ∙ sym (calls_next d))

  -- After any calls under any settings: under settings that enable proxies and configure these
  -- urls, each of the urls is the answer of one of the next calls, before there have been more of
  -- them than urls.
  pub get_proxy-reaches :
      (earlier : List (Option Settings)) (url : Text)
      → contains url (u ∷ us) ≡ true
      → (n : ℕ) × (n < length (u ∷ us)) × (nth_answer s n (reached earlier) ≡ some url)
  get_proxy-reaches earlier url h =
      let c = reached earlier in
      let (upcoming, (past, e), same) = turn u us c.iter c.source (reached-IsCursor earlier) in
      let both = contains-append url past upcoming in
      let sizes : length (u ∷ us) ≡ length past + length upcoming =
        ap length e ∙ length-append past upcoming in
      elim (Bool-cases (contains url upcoming)) [
        | inl there ↦
            let (n, less, is) = in_round url upcoming [] there in
            (
              n,
              omega (arith, less, sizes),
              same_answers n c (at (u ∷ us) upcoming) same
                  ∙ ap (λ z. nth_answer s n (at (u ∷ us) z)) (sym (append-nil upcoming))
                  ∙ is,
            )
        | inr gone ↦
            let passed : contains url past ≡ true = ground (arith, both, h, e, gone) in
            let (n, less, is) = in_round url past upcoming passed in
            (
              length upcoming + n,
              omega (arith, less, sizes),
              same_answers (length upcoming + n) c (at (u ∷ us) upcoming) same
                  ∙ drain n upcoming
                  ∙ same_answers n (at (u ∷ us) []) (at (u ∷ us) (u ∷ us))
                      (step_round u us ∙ sym (step u us u us))
                  ∙ ap (λ z. nth_answer s n (at (u ∷ us) z)) e
                  ∙ is,
            )
      ]
