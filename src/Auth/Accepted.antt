-- ===== src/Auth/Accepted.antt =====
-- Which keys are accepted, from the settings alone.
use headwater.Prelude.{
  ◌≡◌, ◌∙◌, refl, sym, ap, ℕ, Bool, true, false, not, ◌==◌, ==_iff, Option, none, some, List, [],
  ◌∷◌, Text, codes, strip, is_empty, is_some, text_eq, text_eq_iff, any, Bool-cases, inl, inr, ◌⊎◌,
  if◌then◌else◌,
}
use headwater.Dict.{Dict, lookup, put}
use headwater.Dict.Laws.{lookup-put}
use headwater.Exec.{Result, ok, raise}
use headwater.Auth.{
  Settings, Source, from_settings, AuthState, Refusal, missing_key, invalid_key, no_keys_configured,
  contains, candidates, add_key, collect, initialize_api_keys, is_current, auth_snapshot,
  validate_api_key, get_api_key_metadata, authenticate_api_key, check_header, requires_key,
}

-- Some configured text is this key, apart from the white space around it.
abbrev among : List Text → Text → Bool
among raws key = any (λ raw. text_eq (strip raw) key) raws

abbrev pub is_accepted : Settings → Text → Bool
is_accepted settings key = among (candidates settings) key

abbrev some_key : List Text → Bool
some_key raws = any (λ raw. not (is_empty (strip raw))) raws

same_if : (b : Bool) → b ≡ (if b then true else false)
same_if true = refl
same_if false = refl

either :
    (x y z : Bool)
    → (if (if y then true else x) then true else z) ≡ (if x then true else if y then true else z)
either true true z = refl
either true false z = refl
either false true z = refl
either false false z = refl

-- A blank text is no key.
blank_is_none : (t : Text) (c : ℕ) (key : Text) → is_empty t ≡ true → text_eq t (c ∷ key) ≡ false
unfolding text_eq
blank_is_none [] c key h = refl
blank_is_none (x ∷ t) c key h = absurd (cc (h))

contains-add_key :
    (key new : Text) (keys : List Text)
    → contains key (add_key new keys) ≡ (if text_eq new key then true else contains key keys)
contains-add_key key new keys = elim (Bool-cases (contains new keys)) [
  | inr e ↦ rw e refl
  | inl e ↦ rw e (elim (Bool-cases (text_eq new key)) [
    | inr f ↦ rw f refl
    | inl f ↦ rw f (ap (λ z. contains z keys) (sym ((text_eq_iff new key).0 f)) ∙ e)
  ])
]

contains-collect :
    (c : ℕ) (key : Text) (raws keys : List Text) (metadata : Dict Source)
    → contains (c ∷ key) (collect raws keys metadata).0
      ≡ (if contains (c ∷ key) keys then true else among raws (c ∷ key))
unfolding collect
contains-collect c key [] keys metadata = same_if (contains (c ∷ key) keys)
contains-collect c key (raw ∷ raws) keys metadata = elim (Bool-cases (is_empty (strip raw))) [
  | inl e ↦ rw (e, blank_is_none (strip raw) c key e) (contains-collect c key raws keys metadata)
  | inr e ↦
      let new = strip raw in
      rw e (
        contains-collect c key raws (add_key new keys) (put new from_settings metadata)
        ∙ ap (λ b. if b then true else among raws (c ∷ key)) (contains-add_key (c ∷ key) new keys)
        ∙ either (contains (c ∷ key) keys) (text_eq new (c ∷ key)) (among raws (c ∷ key)))
]

is_some-put :
    (key new : Text) (d : Dict Source)
    → is_some (lookup key (put new from_settings d))
      ≡ (if text_eq new key then true else is_some (lookup key d))
is_some-put key new d =
    ap is_some (lookup-put new key from_settings d)
    ∙ elim (Bool-cases (text_eq new key)) [ inl e ↦ rw e refl | inr e ↦ rw e refl ]

lookup-collect :
    (c : ℕ) (key : Text) (raws keys : List Text) (metadata : Dict Source)
    → is_some (lookup (c ∷ key) (collect raws keys metadata).1)
      ≡ (if is_some (lookup (c ∷ key) metadata) then true else among raws (c ∷ key))
unfolding collect
lookup-collect c key [] keys metadata = same_if (is_some (lookup (c ∷ key) metadata))
lookup-collect c key (raw ∷ raws) keys metadata = elim (Bool-cases (is_empty (strip raw))) [
  | inl e ↦ rw (e, blank_is_none (strip raw) c key e) (lookup-collect c key raws keys metadata)
  | inr e ↦
      let new = strip raw in
      rw e (
        lookup-collect c key raws (add_key new keys) (put new from_settings metadata)
        ∙ ap (λ b. if b then true else among raws (c ∷ key)) (is_some-put (c ∷ key) new metadata)
        ∙ either (is_some (lookup (c ∷ key) metadata)) (text_eq new (c ∷ key))
            (among raws (c ∷ key)))
]

add_key-some : (key : Text) (keys : List Text) → is_empty (add_key key keys) ≡ false
add_key-some key [] = refl
add_key-some key (k ∷ keys) = elim (Bool-cases (contains key (k ∷ keys))) [
  | inl e ↦ rw e refl
  | inr e ↦ rw e refl
]

collect-some :
    (raws keys : List Text) (metadata : Dict Source)
    → is_empty (collect raws keys metadata).0
      ≡ (if is_empty keys then not (some_key raws) else false)
unfolding collect
collect-some [] [] metadata = refl
collect-some [] (k ∷ keys) metadata = refl
collect-some (raw ∷ raws) keys metadata = elim (Bool-cases (is_empty (strip raw))) [
  | inl e ↦ rw e (collect-some raws keys metadata)
  | inr e ↦
      let new = strip raw in
      rw e (
        collect-some raws (add_key new keys) (put new from_settings metadata)
        ∙ ap (λ b. if b then not (some_key raws) else false) (add_key-some new keys)
        ∙ elim (Bool-cases (is_empty keys)) [ inl f ↦ rw f refl | inr f ↦ rw f refl ])
]

-- What is answered to a header, from the settings alone
abbrev pub judged : Option Text → Settings → Result Refusal Text
judged none settings = raise missing_key
judged (some []) settings = raise missing_key
judged (some (c ∷ key)) settings =
    if not (some_key (candidates settings))
    then raise no_keys_configured
    else if not (is_accepted settings (c ∷ key))
    then raise invalid_key
    else ok (c ∷ key)

check_header-judged :
    (header : Option Text) (settings : Settings)
    → check_header header (initialize_api_keys settings).keys ≡ judged header settings
unfolding initialize_api_keys
check_header-judged none settings = refl
check_header-judged (some []) settings = refl
check_header-judged (some (c ∷ key)) settings =
    rw
      (collect-some (candidates settings) [] [], contains-collect c key (candidates settings) [] [])
      refl

abbrev answered : {A S : Type 0} → Bool → (x y : A) → S → A × S
answered b x y s = if not b then (y, s) else (x, s)

gate :
    {A S : Type 0} (b : Bool) (x y : A) (s : S)
    → ((answered b x y s).0 ≡ (if b then x else y)) × ((answered b x y s).1 ≡ s)
gate true x y s = (refl, refl)
gate false x y s = (refl, refl)

-- A snapshot is none, or the one of some settings.
abbrev pub IsSnapshot : AuthState → Type 0
IsSnapshot state = (state.settings ≡ none) ⊎ ((s : Settings) × (state ≡ initialize_api_keys s))

module _ (settings : Settings) (state : AuthState) (snapshot : IsSnapshot state)
    (same : (s : Settings)
      → state.settings ≡ some s
      → s.identity ≡ settings.identity
      → s ≡ settings) where
  snapshot-current : auth_snapshot settings state ≡ initialize_api_keys settings
  unfolding auth_snapshot
  snapshot-current = elim snapshot [
    | inl e ↦
        let old : is_current state.settings settings ≡ false = ap (λ o. is_current o settings) e in
        ap (λ b. if b then state else initialize_api_keys settings) old
    | inr (s, e) ↦
        let old : is_current state.settings settings ≡ (s.identity == settings.identity) =
          ap (λ a. is_current a.settings settings) e in
        elim (Bool-cases (s.identity == settings.identity)) [
          | inl f ↦
              ap (λ b. if b then state else initialize_api_keys settings) (old ∙ f)
              ∙ e
              ∙ ap initialize_api_keys
                  (same s (ap (λ a. a.settings) e) ((==_iff s.identity settings.identity).0 f))
          | inr f ↦ ap (λ b. if b then state else initialize_api_keys settings) (old ∙ f)
        ]
  ]

  authenticated-from :
      (header : Option Text) (state' : AuthState)
      → auth_snapshot settings state ≡ state'
      → authenticate_api_key header settings state ≡ (
          if not (requires_key state')
          then (ok (codes "authentication-disabled"), state')
          else (check_header header state'.keys, state'))
  unfolding authenticate_api_key
  authenticated-from header state' e =
      ap
        (λ a.
          if not (requires_key a)
          then (ok (codes "authentication-disabled"), a)
          else (check_header header a.keys, a))
        e

  -- Whatever snapshot is kept, a request is judged by the present settings: with authentication
  -- off it passes; else it passes exactly with a key that is, apart from white space around it, one
  -- of those configured, is refused with the error for a configuration without keys if there is
  -- none, and with the one for a missing or a wrong key otherwise. `validate_api_key` accepts the
  -- same keys, and these have metadata. The snapshot after it is that of the present settings.
  -- Settings of the same identity are the same.
  pub authenticate_api_key-judged :
      (header : Option Text) (c : ℕ) (key : Text)
      → ((authenticate_api_key header settings state).0 ≡ (
          if settings.enable_api_key_auth
          then judged header settings
          else ok (codes "authentication-disabled")))
        × ((authenticate_api_key header settings state).1 ≡ initialize_api_keys settings)
        × ((validate_api_key (some (c ∷ key)) settings state).0 ≡ is_accepted settings (c ∷ key))
        × (is_some (get_api_key_metadata (c ∷ key) settings state).0
            ≡ is_accepted settings (c ∷ key))
  unfolding initialize_api_keys validate_api_key get_api_key_metadata lookup
  authenticate_api_key-judged header c key =
      let made = authenticated-from header (initialize_api_keys settings) snapshot-current in
      let raws = candidates settings in
      (
        ap (λ p. p.0) made
            ∙ (gate settings.enable_api_key_auth
                (check_header header (initialize_api_keys settings).keys)
                (ok (codes "authentication-disabled")) (initialize_api_keys settings)).0
            ∙ ap
                (λ r.
                  if settings.enable_api_key_auth then r else ok (codes "authentication-disabled"))
                (check_header-judged header settings),
        ap (λ p. p.1) made
            ∙ (gate settings.enable_api_key_auth
                (check_header header (initialize_api_keys settings).keys)
                (ok (codes "authentication-disabled")) (initialize_api_keys settings)).1,
        ap (λ a. contains (c ∷ key) a.keys) snapshot-current ∙ contains-collect c key raws [] [],
        ap (λ a. is_some (lookup (c ∷ key) a.metadata)) snapshot-current
            ∙ lookup-collect c key raws [] [],
      )
