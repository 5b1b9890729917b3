-- ===== src/Sanitizer/Report.antt =====
-- `InputSanitizer.validate_all_params` of app/core/input_sanitizer.py: the parameters that are
-- given, and the report on them.
use headwater.Prelude.{
  ℕ, Bool, Option, none, some, List, [], ◌∷◌, ◌++◌, Text, codes, is_empty, ℤ, pos,
}
use headwater.Dict.{Dict, lookup}
use headwater.Sanitizer.{
  Rules, Message, Warning, Outcome, Argument, Given, sanitize_query, sanitize_country_code,
  sanitize_language_code, sanitize_integer_param, sanitize_string_param,
}

pub record Params : Type 0 where
  pub q : Option Text
  pub gl : Option Text
  pub hl : Option Text
  pub integers : Dict Argument
  pub strings : Dict Given
  pub total : ℕ

pub record Report : Type 0 where
  pub query : Option (Outcome Text)
  pub country_code : Option (Outcome Text)
  pub language_code : Option (Outcome Text)
  pub integer_results : Dict (Outcome (Option ℤ))
  pub string_results : Dict (Outcome (Option Text))
  pub valid : Bool
  pub errors : List Message
  pub warnings : List Warning
  pub total_params : ℕ

abbrev int_params : List (Text × (Option ℤ × Option ℤ))
int_params =
    (codes "spell", (some (pos 0), some (pos 1)))
    ∷ ((codes "cp", (some (pos 0), none))
        ∷ ((codes "gs_rn", (some (pos 0), none))
            ∷ ((codes "psi", (some (pos 0), some (pos 1)))
                ∷ ((codes "complete", (some (pos 0), none)) ∷ []))))

abbrev str_params : List Text
str_params =
    codes "cr"
    ∷ (codes "ds"
        ∷ (codes "gs_id"
            ∷ (codes "callback"
                ∷ (codes "jsonp" ∷ (codes "pq" ∷ (codes "suggid" ∷ (codes "gs_l" ∷ [])))))))

abbrev pub applied : {A B : Type 0} → (A → B) → Option A → Option B
applied f none = none
applied f (some a) = some (f a)

abbrev with_result : {A : Type 0} → Text → Option A → Dict A → Dict A
with_result param none results = results
with_result param (some r) results = (param, r) ∷ results

abbrev pub errors_of : {A : Type 0} → Option (Outcome A) → List Message
errors_of none = []
errors_of (some r) = r.errors

abbrev warnings_of : {A : Type 0} → Option (Outcome A) → List Warning
warnings_of none = []
warnings_of (some r) = r.warnings

abbrev all_errors : {A : Type 0} → Dict (Outcome A) → List Message
all_errors [] = []
all_errors ((param, r) ∷ rs) = r.errors ++ all_errors rs

abbrev all_warnings : {A : Type 0} → Dict (Outcome A) → List Warning
all_warnings [] = []
all_warnings ((param, r) ∷ rs) = r.warnings ++ all_warnings rs

module _ (rules : Rules) (params : Params) where
  abbrev integer_loop : List (Text × (Option ℤ × Option ℤ)) → Dict (Outcome (Option ℤ))
  integer_loop [] = []
  integer_loop ((param, bounds) ∷ rest) =
      with_result param
        (applied (λ v. sanitize_integer_param rules v param bounds.0 bounds.1)
          (lookup param params.integers))
        (integer_loop rest)

  abbrev string_loop : List Text → Dict (Outcome (Option Text))
  string_loop [] = []
  string_loop (param ∷ rest) =
      with_result param
        (applied (λ v. sanitize_string_param rules v param (some 100))
          (lookup param params.strings))
        (string_loop rest)

  -- The report, from the result for the query
  unfoldable pub report_on : (query : Option (Outcome Text)) → Report
  unfolding sanitize_country_code sanitize_language_code sanitize_integer_param
      sanitize_string_param
  report_on query =
      let country = applied (sanitize_country_code rules) params.gl in
      let language = applied (sanitize_language_code rules) params.hl in
      let integers = integer_loop int_params in
      let strings = string_loop str_params in
      let errors =
        errors_of query
        ++ (errors_of country
            ++ (errors_of language ++ (all_errors integers ++ all_errors strings))) in
      record {
        query = query;
        country_code = country;
        language_code = language;
        integer_results = integers;
        string_results = strings;
        valid = is_empty errors;
        errors = errors;
        warnings =
            warnings_of query
            ++ (warnings_of country
                ++ (warnings_of language ++ (all_warnings integers ++ all_warnings strings)));
        total_params = params.total;
      }

  abbrev pub reported : Option (Outcome Text) → Option Report
  reported none = none
  reported (some r) = some (report_on (some r))

  -- `none` is what `sanitize_query` raised.
  unfoldable pub validate_all_params : Option Report
  unfolding sanitize_query report_on
  validate_all_params = elim params.q [
    | none ↦ some (report_on none)
    | some query ↦ reported (sanitize_query rules query)
  ]
