-- ===== src/Tests/Inputs.antt =====
-- The sanitizer.
use headwater.Prelude.{
  ◌≡◌, ◌≢◌, refl, true, false, none, some, [], ◌∷◌, List, ◌++◌, Text, strip, codes, lower, pos,
  starts_with,
}
use headwater.Sanitizer.{
  Outcome, Warning, suspicious, checked_query, Rules, as_int, basic_clean, sanitize_query,
  sanitize_country_code, sanitize_language_code, sanitize_integer_param,
}
use headwater.Sanitizer.Report.{Params, Report, report_on, validate_all_params}
use headwater.Sanitizer.Codes.{IsCode, sanitized-IsCode}
use headwater.Sanitizer.Bounds.{IsSound, value_read, sanitize_integer_param-IsSound}
use headwater.Sanitizer.Totals.{IsAllowed, validate_all_params-IsAllowed}

-- Texts that begin with `x` are suspicious.
abbrev rules : Rules
rules = record {
  max_query_length = 20;
  allowed = λ t. true;
  suspicious_patterns = (λ t. starts_with t (codes "x")) ∷ [];
  block_suspicious_patterns = true;
  unescape = λ t. t;
  quote = λ t. some t;
  upper = λ t. t;
  lower = λ t. lower t;
}

abbrev params : Params
params = record {
  q = some (codes "xy");
  gl = none;
  hl = none;
  integers = [];
  strings = [];
  total = 1;
}

sanitized-IsCode_example :
    IsCode b'A' b'Z' (sanitize_country_code rules (codes "FR")).sanitized
    × IsCode b'a' b'z' (sanitize_language_code rules (codes "")).sanitized
sanitized-IsCode_example = sanitized-IsCode rules (codes "FR") (codes "")

sanitize_integer_param-IsSound_example :
    IsSound
      (some (pos 0))
      (some (pos 1))
      (value_read rules (as_int (pos 7)))
      (sanitize_integer_param rules (as_int (pos 7)) (codes "spell") (some (pos 0)) (some (pos 1)))
sanitize_integer_param-IsSound_example =
    sanitize_integer_param-IsSound rules (as_int (pos 7)) (codes "spell") (some (pos 0))
      (some (pos 1)) refl

abbrev report : Report
report = report_on rules params (
    some
      (record { sanitized = codes "xy"; valid = false; errors = []; warnings = suspicious ∷ [] }))

gives_report : validate_all_params rules params ≡ some report
unfolding validate_all_params sanitize_query checked_query basic_clean strip starts_with
gives_report = refl

valid_report : report.valid ≡ true
unfolding report_on headwater.Dict.lookup
valid_report = refl

validate_all_params-IsAllowed_example :
    (codes "xy" ≢ [])
    × (r : Outcome Text) × (report.query ≡ some r)
    × IsAllowed rules (basic_clean rules (codes "xy")) r
    × (rest : List Warning) × (report.warnings ≡ r.warnings ++ rest)
validate_all_params-IsAllowed_example =
    validate_all_params-IsAllowed rules params (codes "xy") report refl gives_report valid_report
