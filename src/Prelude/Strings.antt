-- ===== src/Prelude/Strings.antt =====
-- Python strings as lists of code points, with the operations of `str` that the program uses.
use Prim.Native.Nat.{ℕ, zero, suc, ◌+◌, ◌/◌, ◌%◌}
use Prim.Native.Char.{code}
use Prim.Native.String.{String}
use mathlib.Core.Path.{◌≡◌, refl}
use mathlib.Core.Logic.{inr, inl, ◌↔◌, ◌≢◌}
use mathlib.Core.Bool.{Bool, true, false, ◌&&◌, ◌||◌}
use mathlib.Core.List.{List, [], ◌∷◌, ◌++◌, reverse}
use native.Mathlib.Omega.{arith}
use headwater.Prelude.Tests.{Bool-cases, ◌==◌, ltb, leb, if◌then◌else◌}

abbrev pub Text : Type 0
Text = List ℕ

-- The code points of a literal.
abbrev pub codes : String → Text
codes String.[] = []
codes (String.◌∷◌ c s) = code c ∷ codes s

-- `a == b` on strings
unfoldable pub text_eq : Text → Text → Bool
text_eq [] [] = true
text_eq [] (y ∷ ys) = false
text_eq (x ∷ xs) [] = false
text_eq (x ∷ xs) (y ∷ ys) = (x == y) && text_eq xs ys

pub text_eq_iff : (a b : Text) → (text_eq a b ≡ true) ↔ (a ≡ b)
unfolding text_eq
text_eq_iff [] [] = ground arith
text_eq_iff [] (y ∷ ys) = ground arith
text_eq_iff (x ∷ xs) [] = ground arith
text_eq_iff (x ∷ xs) (y ∷ ys) = ground (arith, text_eq_iff xs ys)

pub text_eq_refl : (a : Text) → text_eq a a ≡ true
text_eq_refl a = (text_eq_iff a a).1 refl

pub ne_of_text : (a b : Text) → text_eq a b ≡ false → a ≢ b
ne_of_text a b h e = absurd (ground (arith, text_eq_iff a b))

-- `t.startswith(prefix)`
unfoldable pub starts_with : Text → Text → Bool
starts_with t [] = true
starts_with [] (p ∷ ps) = false
starts_with (x ∷ xs) (p ∷ ps) = (x == p) && starts_with xs ps

-- What follows a prefix.
pub starts_with-split : (t p : Text) → starts_with t p ≡ true → (s : Text) × (t ≡ p ++ s)
unfolding starts_with
starts_with-split t [] h = (t, refl)
starts_with-split [] (p ∷ ps) h = absurd (ground arith)
starts_with-split (x ∷ t) (p ∷ ps) h = elim (Bool-cases (starts_with t ps)) [
  | inl e ↦ (let (s, q) = starts_with-split t ps e in (s, ground (arith, q)))
  | inr e ↦ absurd (ground (arith, e))
]

pub starts_with_append : (p s : Text) → starts_with (p ++ s) p ≡ true
unfolding starts_with
starts_with_append [] s = refl
starts_with_append (x ∷ p) s = ground (arith, starts_with_append p s)

-- `t.endswith(suffix)`
unfoldable pub ends_with : Text → Text → Bool
unfolding starts_with
ends_with t suffix = starts_with (reverse t) (reverse suffix)

-- The characters that `str.strip` takes for white space.
unfoldable pub is_space : ℕ → Bool
is_space c =
    (leb 9 c && leb c 13)
    || (leb 28 c && leb c 32)
    || (c == 133)
    || (c == 160)
    || (c == 5760)
    || (leb 8192 c && leb c 8202)
    || (c == 8232)
    || (c == 8233)
    || (c == 8239)
    || (c == 8287)
    || (c == 12288)

-- `t.lstrip(chars)`, for the characters that `p` accepts
unfoldable pub lstrip : (ℕ → Bool) → Text → Text
lstrip p [] = []
lstrip p (c ∷ t) = if p c then lstrip p t else c ∷ t

-- `t.rstrip(chars)`
unfoldable pub rstrip : (ℕ → Bool) → Text → Text
unfolding lstrip
rstrip p t = reverse (lstrip p (reverse t))

-- `t.strip(chars)` and `t.strip()`
unfoldable pub strip_chars : (ℕ → Bool) → Text → Text
unfolding rstrip
strip_chars p t = rstrip p (lstrip p t)

unfoldable pub strip : Text → Text
unfolding strip_chars is_space
strip t = strip_chars is_space t

-- `t.lower()`, on the ASCII letters
unfoldable pub lower : Text → Text
lower [] = []
lower (c ∷ t) = (if leb b'A' c && leb c b'Z' then c + 32 else c) ∷ lower t

-- `t.split(sep)` for a separator of one character; `word` is the part read so far, reversed.
unfoldable pub split_from : ℕ → Text → Text → List Text
split_from sep word [] = reverse word ∷ []
split_from sep word (c ∷ t) =
    let after = split_from sep [] t in
    let longer = split_from sep (c ∷ word) t in if c == sep then reverse word ∷ after else longer

unfoldable pub split : ℕ → Text → List Text
unfolding split_from
split sep t = split_from sep [] t

-- `str(n)`; the fuel is the number itself, which is never less than the number of its digits.
unfoldable pub str_digits : ℕ → ℕ → Text → Text
str_digits zero n rest = (b'0' + n % 10) ∷ rest
str_digits (suc fuel) n rest =
    let more = str_digits fuel (n / 10) ((b'0' + n % 10) ∷ rest) in
    if ltb n 10 then (b'0' + n) ∷ rest else more

unfoldable pub str : ℕ → Text
unfolding str_digits
str n = str_digits n n []
