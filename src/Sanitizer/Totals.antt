-- ===== src/Sanitizer/Totals.antt =====
-- What a report without errors says of the query.
use mathlib.Core.Path.{subst}
use headwater.Prelude.{
  none, false, ap, Option, ◌↔◌, All, Bool, ◌≤◌, ◌≡◌, ◌≢◌, refl, true, some, List, [], ◌∷◌, ◌++◌,
  Text, is_empty, length, ltb, Bool-cases, inl, inr, arith,
}
use headwater.Sanitizer.{
  Warning, quoted_query, detected, Rules, Outcome, basic_clean, checked_query, sanitize_query,
  query_warnings,
}
use headwater.Sanitizer.Report.{reported, report_on, Report, Params, validate_all_params}

append_empty : {A : Type 0} (xs ys : List A) → is_empty (xs ++ ys) ≡ true → xs ≡ []
append_empty [] ys h = refl
append_empty (x ∷ xs) ys h = absurd (cc (h))

some-injective : {A : Type 0} (a b : A) → some a ≡ some b → a ≡ b
some-injective a b e = cc (e)

module _ (rules : Rules) where
  -- None of the patterns is found in the text.
  detected-None :
      (patterns : List (Text → Bool)) (t : Text)
      → (is_empty (detected rules patterns t) ≡ true) ↔ All (λ p. p t ≡ false) patterns
  detected-None [] t = (λ h. tt, λ h. refl)
  detected-None (p ∷ ps) t =
      let (to, from) = detected-None ps t in
      elim (Bool-cases (p t)) [
        | inl e ↦ rw e (λ h. absurd (cc (h)), λ h. absurd (cc (h.0)))
        | inr e ↦ rw e (λ h. (refl, to h), λ h. from h.1)
      ]

  -- Where suspicious patterns are blocked, none of them is found in the text.
  abbrev pub IsUnsuspicious : Text → Type 0
  IsUnsuspicious t =
      rules.block_suspicious_patterns ≡ true → All (λ p. p t ≡ false) rules.suspicious_patterns

  warnings-IsUnsuspicious :
      (t : Text) → (is_empty (query_warnings rules t) ≡ true) ↔ IsUnsuspicious t
  warnings-IsUnsuspicious t =
      let (to, from) = detected-None rules.suspicious_patterns t in
      elim (Bool-cases rules.block_suspicious_patterns) [
        | inl e ↦ rw e (λ h on. to h, λ h. from (h refl))
        | inr e ↦ rw e (λ h on. absurd (cc (on)), λ h. refl)
      ]

  -- The text is not too long, its characters are allowed, and what comes out is what `quote` makes
  -- of it; the result is valid if it has no warnings, which is if no blocked pattern was found.
  abbrev pub IsAllowed : (cleaned : Text) → Outcome Text → Type 0
  IsAllowed cleaned r =
      (length cleaned ≤ rules.max_query_length)
      × (rules.allowed cleaned ≡ true)
      × (rules.quote cleaned ≡ some r.sanitized)
      × (r.valid ≡ is_empty r.warnings)
      × ((r.valid ≡ true) ↔ IsUnsuspicious cleaned)

  quoted_query-IsAllowed :
      (cleaned : Text) (encoded : Option Text) (r : Outcome Text)
      → rules.quote cleaned ≡ encoded
      → quoted_query rules cleaned encoded ≡ some r
      → (rules.quote cleaned ≡ some r.sanitized)
        × (r.valid ≡ is_empty r.warnings)
        × ((r.valid ≡ true) ↔ IsUnsuspicious cleaned)
  quoted_query-IsAllowed cleaned none r q e = absurd (cc (e))
  quoted_query-IsAllowed cleaned (some t) r q e =
      subst
        (λ (r : Outcome Text).
          (rules.quote cleaned ≡ some r.sanitized)
          × (r.valid ≡ is_empty r.warnings)
          × ((r.valid ≡ true) ↔ IsUnsuspicious cleaned))
        (some-injective _ r e) (q, refl, warnings-IsUnsuspicious cleaned)

  checked_query-IsAllowed :
      (cleaned : Text) (r : Outcome Text)
      → checked_query rules cleaned ≡ some r
      → r.errors ≡ []
      → IsAllowed cleaned r
  unfolding checked_query
  checked_query-IsAllowed cleaned r e h =
      elim (Bool-cases (ltb rules.max_query_length (length cleaned))) [
        | inl long ↦
            let same = ap (λ r. r.errors) (some-injective _ r (rw (long, checked_query) at e)) in
            absurd (cc (same, h))
        | inr short ↦ elim (Bool-cases (rules.allowed cleaned)) [
          | inr bad ↦
              let same =
                ap (λ r. r.errors) (some-injective _ r (rw (short, bad, checked_query) at e)) in
              absurd (cc (same, h))
          | inl good ↦
              let (encoded, valid, clear) =
                quoted_query-IsAllowed cleaned (rules.quote cleaned) r refl
                  (rw (short, good, checked_query) at e) in
              (ground (arith, short), good, encoded, valid, clear)
        ]
      ]

  sanitize_query-IsAllowed :
      (query : Text) (r : Outcome Text)
      → sanitize_query rules query ≡ some r
      → r.errors ≡ []
      → (query ≢ []) × IsAllowed (basic_clean rules query) r
  unfolding sanitize_query
  sanitize_query-IsAllowed [] r e h = absurd (cc (ap (λ r. r.errors) (some-injective _ r e), h))
  sanitize_query-IsAllowed (c ∷ t) r e h =
      (λ e. absurd (cc (e)), checked_query-IsAllowed (basic_clean rules (c ∷ t)) r e h)

  module _ (params : Params) where
    -- What a report says of the result for the query
    abbrev IsReported : Outcome Text → Report → Type 0
    IsReported r report =
        (report.query ≡ some r)
        × (report.valid ≡ true → r.errors ≡ [])
        × (rest : List Warning) × (report.warnings ≡ r.warnings ++ rest)

    report_on-IsReported : (r : Outcome Text) → IsReported r (report_on rules params (some r))
    unfolding report_on
    report_on-IsReported r = (refl, λ h. append_empty r.errors _ h, _, refl)

    reported-some :
        (o : Option (Outcome Text)) (report : Report)
        → reported rules params o ≡ some report
        → (r : Outcome Text) × (o ≡ some r) × (report_on rules params (some r) ≡ report)
    reported-some none report e = absurd (cc (e))
    reported-some (some r) report e = (r, refl, some-injective _ report e)

    -- If a report on parameters with a query is valid, the query is not empty; cleaned, it is not
    -- too long and its characters are allowed; and the report's result for it has no more and no
    -- less than what `quote` makes of it. That result is valid exactly if it has no warnings, which
    -- is if no suspicious pattern that is blocked was found in the query; its warnings, which leave
    -- the report valid, are the first of the report's.
    pub validate_all_params-IsAllowed :
        (query : Text) (report : Report)
        → params.q ≡ some query
        → validate_all_params rules params ≡ some report
        → report.valid ≡ true
        → (query ≢ [])
          × (r : Outcome Text) × (report.query ≡ some r)
          × IsAllowed (basic_clean rules query) r
          × (rest : List Warning) × (report.warnings ≡ r.warnings ++ rest)
    unfolding validate_all_params
    validate_all_params-IsAllowed query report e made h =
        let (r, asked, same) = reported-some (sanitize_query rules query) report (rw e at made) in
        let (found, clean, rest, first) = subst (IsReported r) same (report_on-IsReported r) in
        let (there, allowed) = sanitize_query-IsAllowed query r asked (clean h) in
        (there, r, found, allowed, rest, first)
