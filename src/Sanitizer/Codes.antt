-- ===== src/Sanitizer/Codes.antt =====
-- The country and the language that come out of the sanitizer.
use headwater.Prelude.{
  both_true, ℕ, ◌≤◌, ◌≡◌, refl, Bool, true, false, not, ◌==◌, [], ◌∷◌, Text, codes, length, All,
  All-keep, Bool-cases, inl, inr, strip, arith,
}
use headwater.Sanitizer.Characters.{is_control, letters_between, is_code, squeeze}
use headwater.Sanitizer.{
  Rules, basic_clean, sanitize_code, sanitize_country_code, sanitize_language_code,
}

-- Two or three letters between these
abbrev pub IsCode : (lo hi : ℕ) → Text → Type 0
IsCode lo hi t = (2 ≤ length t) × (length t ≤ 3) × All (λ c. (lo ≤ c) × (c ≤ hi)) t

abbrev IsVisible : Text → Type 0
IsVisible t = All (λ c. is_control c ≡ false) t

basic_clean-IsVisible : (rules : Rules) (t : Text) → IsVisible (basic_clean rules t)
unfolding basic_clean
basic_clean-IsVisible rules [] = tt
basic_clean-IsVisible rules (c ∷ t) =
    All-keep (λ x. is_control x ≡ false) (λ x. not (is_control x))
      (squeeze false (strip (rules.unescape (c ∷ t)))) (λ x e. visible (is_control x) e)
  where
    visible : (b : Bool) → not b ≡ true → b ≡ false
    visible true e = absurd (cc (e))
    visible false e = refl

no_break : (c : ℕ) → is_control c ≡ false → (c == b'\n') ≡ false
no_break c h = ground (arith, h)

module _ (lo hi : ℕ) where
  letters-All : (t : Text) → letters_between lo hi t ≡ true → All (λ c. (lo ≤ c) × (c ≤ hi)) t
  unfolding letters_between
  letters-All [] h = tt
  letters-All (c ∷ t) h = elim (Bool-cases (letters_between lo hi t)) [
    | inl e ↦ ((ground (arith, h), ground (arith, h)), letters-All t e)
    | inr e ↦ absurd (ground (arith, h, e))
  ]

  is_code-IsCode : (t : Text) → IsVisible t → is_code lo hi t ≡ true → IsCode lo hi t
  unfolding is_code
  is_code-IsCode [] v h = absurd (cc (h))
  is_code-IsCode (a ∷ []) v h = absurd (cc (h))
  is_code-IsCode (a ∷ (b ∷ [])) v h = (omega arith, omega arith, letters-All (a ∷ (b ∷ [])) h)
  is_code-IsCode (a ∷ (b ∷ (c ∷ []))) v h =
      let (ab, last) = both_true (letters_between lo hi (a ∷ (b ∷ []))) _ h in
      let letter : letters_between lo hi (c ∷ []) ≡ true = rw (no_break c v.1.1.0) at last in
      let two = letters-All (a ∷ (b ∷ [])) ab in
      let one = letters-All (c ∷ []) letter in (omega arith, omega arith, (two.0, (two.1.0, one)))
  is_code-IsCode (a ∷ (b ∷ (c ∷ (d ∷ [])))) v h =
      let (abc, last) = both_true (letters_between lo hi (a ∷ (b ∷ (c ∷ [])))) _ h in
      absurd (cc (last, no_break d v.1.1.1.0))
  is_code-IsCode (a ∷ (b ∷ (c ∷ (d ∷ (e ∷ t))))) v h = absurd (cc (h))

module _ (rules : Rules) where
  sanitize_code-IsCode :
      (default : Text) (lo hi : ℕ) (cased : Text → Text) (t : Text)
      → IsCode lo hi default
      → IsCode lo hi (sanitize_code rules default lo hi cased t).sanitized
  unfolding sanitize_code
  sanitize_code-IsCode default lo hi cased [] h = h
  sanitize_code-IsCode default lo hi cased (c ∷ t) h =
      let cleaned = basic_clean rules (cased (c ∷ t)) in
      elim (Bool-cases (is_code lo hi cleaned)) [
        | inl e ↦
            rw e (is_code-IsCode lo hi cleaned (basic_clean-IsVisible rules (cased (c ∷ t))) e)
        | inr e ↦ rw e h
      ]

  -- Whatever is asked for, and whatever `unescape` and the change of case make of it: the country
  -- that comes out is two or three letters from A to Z, and the language two or three from a to z.
  pub sanitized-IsCode :
      (country language : Text)
      → IsCode b'A' b'Z' (sanitize_country_code rules country).sanitized
        × IsCode b'a' b'z' (sanitize_language_code rules language).sanitized
  unfolding sanitize_country_code sanitize_language_code
  sanitized-IsCode country language = (
    sanitize_code-IsCode (codes "US") b'A' b'Z' rules.upper country
        (omega arith, omega arith, ((omega arith, omega arith), ((omega arith, omega arith), tt))),
    sanitize_code-IsCode (codes "en") b'a' b'z' rules.lower language
        (omega arith, omega arith, ((omega arith, omega arith), ((omega arith, omega arith), tt))),
  )
