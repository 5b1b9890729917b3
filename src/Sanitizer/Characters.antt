-- ===== src/Sanitizer/Characters.antt =====
-- The classes of characters of app/core/input_sanitizer.py, and what its substitutions make of a
-- text.
use headwater.Prelude.{
  ℕ, Bool, true, false, ◌&&◌, ◌||◌, ◌==◌, [], ◌∷◌, Text, is_space, keep, ltb, leb, if◌then◌else◌,
}

-- `re.sub(r"\s+", " ", text)`; `inside` says that the last character was white space.
unfoldable pub squeeze : (inside : Bool) → Text → Text
unfolding is_space
squeeze inside [] = []
squeeze inside (c ∷ t) =
    let after_space = squeeze true t in
    let after_other = squeeze false t in
    if is_space c then (if inside then after_space else b' ' ∷ after_space) else c ∷ after_other

-- `[\x00-\x1f\x7f-\x9f]`
abbrev pub is_control : ℕ → Bool
is_control c = ltb c 32 || (leb 127 c && leb c 159)

-- `[a-zA-Z0-9\s\-\.\,\?\!\(\)\[\]\{\}\'\"]`
unfoldable pub is_plain : ℕ → Bool
unfolding is_space
is_plain c =
    (leb b'a' c && leb c b'z')
    || (leb b'A' c && leb c b'Z')
    || (leb b'0' c && leb c b'9')
    || is_space c
    || (c == b'-')
    || (c == b'.')
    || (c == b',')
    || (c == b'?')
    || (c == b'!')
    || (c == b'(')
    || (c == b')')
    || (c == b'[')
    || (c == b']')
    || (c == b'{')
    || (c == b'}')
    || (c == 39)
    || (c == 34)

abbrev pub remove_disallowed_chars : Text → Text
remove_disallowed_chars t = keep is_plain t

-- `^[lo-hi]{2,3}$`, where the end may stand before a last line break
unfoldable pub letters_between : (lo hi : ℕ) → Text → Bool
letters_between lo hi [] = true
letters_between lo hi (c ∷ t) = leb lo c && leb c hi && letters_between lo hi t

unfoldable pub is_code : (lo hi : ℕ) → Text → Bool
unfolding letters_between
is_code lo hi (a ∷ (b ∷ [])) = letters_between lo hi (a ∷ (b ∷ []))
is_code lo hi (a ∷ (b ∷ (c ∷ []))) =
    letters_between lo hi (a ∷ (b ∷ [])) && ((c == b'\n') || letters_between lo hi (c ∷ []))
is_code lo hi (a ∷ (b ∷ (c ∷ (d ∷ [])))) =
    letters_between lo hi (a ∷ (b ∷ (c ∷ []))) && (d == b'\n')
is_code lo hi _ = false
