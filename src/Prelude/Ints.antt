-- ===== src/Prelude/Ints.antt =====
-- Signed integers, as `int` reads them from a text.
use Prim.Native.Nat.{ℕ, zero, suc, ◌+◌, ◌-◌, ◌*◌}
use mathlib.Core.Bool.{Bool, true, false, ◌&&◌}
use mathlib.Core.List.{[], ◌∷◌}
use mathlib.Core.Option
use mathlib.Core.Option.{Option, none, some}
use headwater.Prelude.Tests.{◌==◌, leb, if◌then◌else◌}
use headwater.Prelude.Strings.{Text, strip}

-- `negsuc n` is -(n + 1).
pub data ℤ : Type 0 where
  pos : ℕ → ℤ
  negsuc : ℕ → ℤ

abbrev pub negate : ℕ → ℤ
negate zero = pos zero
negate (suc n) = negsuc n

-- Digits, with single underscores between them; `seen` says that the last character was a digit.
unfoldable pub parse_digits : (acc : ℕ) (seen : Bool) → Text → Option ℕ
parse_digits acc seen [] = if seen then some acc else none
parse_digits acc seen (c ∷ t) =
    let digit = parse_digits (acc * 10 + (c - b'0')) true t in
    let underscore = parse_digits acc false t in
    if leb b'0' c && leb c b'9' then digit else if (c == b'_') && seen then underscore else none

parse_signed : Text → Option ℤ
unfolding parse_digits
parse_signed [] = none
parse_signed (c ∷ t) =
    if c == b'-'
    then Option.map negate (parse_digits 0 false t)
    else if c == b'+'
    then Option.map pos (parse_digits 0 false t)
    else Option.map pos (parse_digits 0 false (c ∷ t))

-- `int(t)`, where `none` is `ValueError`; the digits are the ASCII ones.
unfoldable pub parse_int : Text → Option ℤ
unfolding parse_signed strip
parse_int t = parse_signed (strip t)
