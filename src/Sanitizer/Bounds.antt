-- ===== src/Sanitizer/Bounds.antt =====
-- Integer and text parameters: bounds, and when a result is valid.
use headwater.Prelude.{
  ◌≡◌, ◌⊎◌, refl, true, false, Option, none, some, Text, is_empty, Bool-cases, inl, inr, ℤ, pos,
  negsuc, parse_int, arith,
}
use headwater.Sanitizer.{
  Rules, Outcome, Argument, absent, as_text, as_int, refused, below, below_min, above_max, or_value,
  in_range, basic_clean, sanitize_integer_param,
}

-- Not below the one, and not above the other
abbrev pub IsWithin : (min_val max_val : Option ℤ) → Option ℤ → Type 0
IsWithin min_val max_val none = Unit
IsWithin min_val max_val (some n) = (below_min n min_val ≡ false) × (above_max n max_val ≡ false)

-- The bounds, where both are given, are in order.
abbrev pub AreOrdered : (min_val max_val : Option ℤ) → Type 0
AreOrdered none max_val = Unit
AreOrdered (some a) none = Unit
AreOrdered (some a) (some b) = below b a ≡ false

below_self : (n : ℤ) → below n n ≡ false
below_self (pos n) = ground arith
below_self (negsuc n) = ground arith

min-IsWithin :
    (n : ℤ) (min_val max_val : Option ℤ)
    → AreOrdered min_val max_val
    → below_min n min_val ≡ true
    → IsWithin min_val max_val (some (or_value n min_val))
min-IsWithin n none max_val o h = absurd (cc (h))
min-IsWithin n (some a) none o h = (below_self a, refl)
min-IsWithin n (some a) (some b) o h = (below_self a, o)

max-IsWithin :
    (n : ℤ) (min_val max_val : Option ℤ)
    → AreOrdered min_val max_val
    → above_max n max_val ≡ true
    → IsWithin min_val max_val (some (or_value n max_val))
max-IsWithin n min_val none o h = absurd (cc (h))
max-IsWithin n none (some b) o h = (refl, below_self b)
max-IsWithin n (some a) (some b) o h = (o, below_self b)

-- The value is within the bounds; the result is valid exactly if it has no errors, and a valid
-- result has the value that was read.
abbrev pub IsSound : (min_val max_val : Option ℤ) → Option ℤ → Outcome (Option ℤ) → Type 0
IsSound min_val max_val n r =
    IsWithin min_val max_val r.sanitized
    × (r.valid ≡ is_empty r.errors)
    × ((r.valid ≡ false) ⊎ (r.sanitized ≡ n))

in_range-IsSound :
    (param_name : Text) (min_val max_val : Option ℤ) (n : Option ℤ)
    → AreOrdered min_val max_val
    → IsSound min_val max_val n (in_range param_name min_val max_val n)
unfolding in_range
in_range-IsSound param_name min_val max_val none o = (tt, refl, inl refl)
in_range-IsSound param_name min_val max_val (some n) o = elim (Bool-cases (below_min n min_val)) [
  | inl e ↦ rw (e, in_range) (min-IsWithin n min_val max_val o e, refl, inl refl)
  | inr e ↦ elim (Bool-cases (above_max n max_val)) [
    | inl f ↦ rw (e, f, in_range) (max-IsWithin n min_val max_val o f, refl, inl refl)
    | inr f ↦ rw (e, f, in_range) ((e, f), refl, inr refl)
  ]
]

-- The integer that an argument stands for, if it does
abbrev pub value_read : Rules → Argument → Option ℤ
value_read rules absent = none
value_read rules refused = none
value_read rules (as_int n) = some n
value_read rules (as_text t) = parse_int (basic_clean rules t)

-- The integer that comes out, if one does, is within the bounds, where these are in order; the
-- result is valid exactly if it has no errors, and a valid result has the integer that was given.
pub sanitize_integer_param-IsSound :
    (rules : Rules) (value : Argument) (param_name : Text) (min_val max_val : Option ℤ)
    → AreOrdered min_val max_val
    → IsSound min_val max_val
        (value_read rules value)
        (sanitize_integer_param rules value param_name min_val max_val)
unfolding sanitize_integer_param
sanitize_integer_param-IsSound rules absent param_name min_val max_val o = (tt, refl, inr refl)
sanitize_integer_param-IsSound rules (as_text t) param_name min_val max_val o =
    in_range-IsSound param_name min_val max_val (parse_int (basic_clean rules t)) o
sanitize_integer_param-IsSound rules (as_int n) param_name min_val max_val o =
    in_range-IsSound param_name min_val max_val (some n) o
sanitize_integer_param-IsSound rules refused param_name min_val max_val o =
    in_range-IsSound param_name min_val max_val none o
