-- ===== src/Sanitizer.antt =====
-- `InputSanitizer` of app/core/input_sanitizer.py. The compiled patterns of the settings are tests on
-- texts, and `html.unescape`, `quote`, `upper` and `lower` are parameters, of which `quote` may raise
-- `UnicodeEncodeError`, a `ValueError`; a message is a constructor in place of its text, and the echo
-- of the input in a result is left out.
pub mod Characters
pub mod Codes
pub mod Bounds
pub mod Report
pub mod Totals
use headwater.Prelude.{
  ℕ, Bool, true, false, not, ◌&&◌, Option, none, some, List, [], ◌∷◌, Text, codes, strip, is_empty,
  keep, length, take, ltb, ℤ, pos, negsuc, parse_int, if◌then◌else◌,
}
use Characters.{squeeze, is_control, is_plain, remove_disallowed_chars, is_code}

pub record Rules : Type 0 where
  pub max_query_length : ℕ
  pub allowed : Text → Bool
  pub suspicious_patterns : List (Text → Bool)
  pub block_suspicious_patterns : Bool
  pub unescape : Text → Text
  pub quote : Text → Option Text
  pub upper : Text → Text
  pub lower : Text → Text

pub data Message : Type 0 where
  empty_query query_too_long invalid_characters invalid_code : Message
  too_small too_large too_long invalid_format : (param_name : Text) → Message

pub data Warning : Type 0 where
  truncated characters_removed empty_code default_code suspicious using_minimum using_maximum :
      Warning

pub record Outcome (A : Type 0) : Type 0 where
  pub sanitized : A
  pub valid : Bool
  pub errors : List Message
  pub warnings : List Warning

abbrev fine : {A : Type 0} → A → Outcome A
fine a = record { sanitized = a; valid = true; errors = []; warnings = [] }

-- `a < b`
abbrev pub below : ℤ → ℤ → Bool
below (pos a) (pos b) = ltb a b
below (pos a) (negsuc b) = false
below (negsuc a) (pos b) = true
below (negsuc a) (negsuc b) = ltb b a

abbrev below_min : ℤ → Option ℤ → Bool
below_min n none = false
below_min n (some m) = below n m

abbrev above_max : ℤ → Option ℤ → Bool
above_max n none = false
above_max n (some m) = below m n

abbrev clamped : ℤ → Message → Warning → Outcome (Option ℤ)
clamped n e w = record { sanitized = some n; valid = false; errors = e ∷ []; warnings = w ∷ [] }

abbrev or_value : ℤ → Option ℤ → ℤ
or_value n none = n
or_value n (some m) = m

-- The range validation of an integer that could be read; `none` is `ValueError` or `TypeError`.
unfoldable pub in_range :
    (param_name : Text) (min_val max_val : Option ℤ) → Option ℤ → Outcome (Option ℤ)
in_range param_name min_val max_val none = record {
  sanitized = none;
  valid = false;
  errors = invalid_format param_name ∷ [];
  warnings = [];
}
in_range param_name min_val max_val (some n) =
    if below_min n min_val
    then clamped (or_value n min_val) (too_small param_name) using_minimum
    else if above_max n max_val
    then clamped (or_value n max_val) (too_large param_name) using_maximum
    else fine (some n)

-- A value of an integer parameter: `None`, a text, what `int` makes of another value, or one that
-- it refuses
pub data Argument : Type 0 where
  absent refused : Argument
  as_text : Text → Argument
  as_int : ℤ → Argument

-- A value of a text parameter: `None`, what `str` makes of another value, or one that it refuses
-- with a `ValueError` or `TypeError`
pub data Given : Type 0 where
  missing unprintable : Given
  printed : Text → Given

module _ (rules : Rules) where
  -- `_basic_clean`
  unfoldable pub basic_clean : Text → Text
  unfolding squeeze strip
  basic_clean [] = []
  basic_clean (c ∷ t) =
      keep (λ x. not (is_control x)) (squeeze false (strip (rules.unescape (c ∷ t))))

  abbrev detected : List (Text → Bool) → Text → List Warning
  detected [] t = []
  detected (p ∷ ps) t = if p t then suspicious ∷ detected ps t else detected ps t

  abbrev query_warnings : Text → List Warning
  query_warnings t =
      if rules.block_suspicious_patterns then detected rules.suspicious_patterns t else []

  -- The result for a query that passed the checks, from what `quote` makes of it
  abbrev quoted_query : (cleaned : Text) → Option Text → Option (Outcome Text)
  quoted_query cleaned none = none
  quoted_query cleaned (some encoded) = some (record {
    sanitized = encoded;
    valid = is_empty (query_warnings cleaned);
    errors = [];
    warnings = query_warnings cleaned;
  })

  -- `none` is the exception of `quote`, which is not caught here.
  unfoldable pub checked_query : (cleaned : Text) → Option (Outcome Text)
  unfolding is_plain
  checked_query cleaned =
      if ltb rules.max_query_length (length cleaned)
      then some (record {
        sanitized = take rules.max_query_length cleaned;
        valid = false;
        errors = query_too_long ∷ [];
        warnings = truncated ∷ [];
      })
      else if not (rules.allowed cleaned)
      then some (record {
        sanitized = remove_disallowed_chars cleaned;
        valid = false;
        errors = invalid_characters ∷ [];
        warnings = characters_removed ∷ [];
      })
      else quoted_query cleaned (rules.quote cleaned)

  unfoldable pub sanitize_query : Text → Option (Outcome Text)
  unfolding checked_query basic_clean
  sanitize_query [] =
      some (record { sanitized = []; valid = false; errors = empty_query ∷ []; warnings = [] })
  sanitize_query (c ∷ query) = checked_query (basic_clean (c ∷ query))

  -- What the two codes share: the default, the bounds of the letters, and the case.
  unfoldable pub sanitize_code :
      (default : Text) (lo hi : ℕ) (cased : Text → Text) → Text → Outcome Text
  unfolding is_code basic_clean
  sanitize_code default lo hi cased [] = record {
    sanitized = default;
    valid = true;
    errors = [];
    warnings = empty_code ∷ [];
  }
  sanitize_code default lo hi cased (c ∷ t) =
      let cleaned = basic_clean (cased (c ∷ t)) in
      if not (is_code lo hi cleaned)
      then record {
        sanitized = default;
        valid = false;
        errors = invalid_code ∷ [];
        warnings = default_code ∷ [];
      }
      else fine cleaned

  unfoldable pub sanitize_country_code : Text → Outcome Text
  unfolding sanitize_code
  sanitize_country_code = sanitize_code (codes "US") b'A' b'Z' rules.upper

  unfoldable pub sanitize_language_code : Text → Outcome Text
  unfolding sanitize_code
  sanitize_language_code = sanitize_code (codes "en") b'a' b'z' rules.lower

  unfoldable pub sanitize_integer_param :
      Argument → (param_name : Text) (min_val max_val : Option ℤ) → Outcome (Option ℤ)
  unfolding in_range basic_clean
  sanitize_integer_param absent param_name min_val max_val = fine none
  sanitize_integer_param (as_text t) param_name min_val max_val =
      in_range param_name min_val max_val (parse_int (basic_clean t))
  sanitize_integer_param (as_int n) param_name min_val max_val =
      in_range param_name min_val max_val (some n)
  sanitize_integer_param refused param_name min_val max_val =
      in_range param_name min_val max_val none

  -- `if max_length and ...`
  abbrev exceeds : Option ℕ → Text → Bool
  exceeds none t = false
  exceeds (some n) t = ltb 0 n && ltb n (length t)

  abbrev cut : Option ℕ → Text → Text
  cut none t = t
  cut (some n) t = take n t

  -- What `except ValueError, TypeError` returns
  abbrev malformed : (param_name : Text) → Outcome (Option Text)
  malformed param_name = record {
    sanitized = none;
    valid = false;
    errors = invalid_format param_name ∷ [];
    warnings = [];
  }

  abbrev quoted_param : (param_name : Text) → Option Text → Outcome (Option Text)
  quoted_param param_name none = malformed param_name
  quoted_param param_name (some encoded) = fine (some encoded)

  unfoldable pub sanitize_string_param :
      Given → (param_name : Text) (max_length : Option ℕ) → Outcome (Option Text)
  unfolding basic_clean
  sanitize_string_param missing param_name max_length = fine none
  sanitize_string_param unprintable param_name max_length = malformed param_name
  sanitize_string_param (printed value) param_name max_length =
      let cleaned = basic_clean value in
      if exceeds max_length cleaned
      then record {
        sanitized = some (cut max_length cleaned);
        valid = false;
        errors = too_long param_name ∷ [];
        warnings = truncated ∷ [];
      }
      else quoted_param param_name (rules.quote cleaned)
