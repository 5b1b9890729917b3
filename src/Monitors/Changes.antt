-- ===== src/Monitors/Changes.antt =====
-- Snapshots and the differences between them, field by field.
use mathlib.Core.Path.{subst}
use headwater.Prelude.{
  ◌≡◌, ◌∙◌, refl, ap, Bool, true, false, Option, none, some, List, [], ◌∷◌, Text, text_eq,
  text_eq_iff, Bool-cases, Option-cases, inl, inr, if◌then◌else◌,
}
use headwater.Dict.{Dict, lookup, put, IsDict}
use headwater.Dict.Sweep.{contains}
use headwater.Dict.Laws.{lookup-put, put-IsDict}
use headwater.Monitors.{diff, diff_with, snapshot, snapshot_from, merge, field_of}

module _ {V : Type 0} where
  snapshot_from-IsDict :
      (fields : List Text) (seen : Dict V) (p : Dict (Option V))
      → IsDict seen
      → IsDict (snapshot_from seen p fields)
  unfolding snapshot_from
  snapshot_from-IsDict [] seen p h = h
  snapshot_from-IsDict (f ∷ fs) seen p h = elim (Option-cases (field_of f p)) [
    | inl e ↦ rw (e, snapshot_from) (snapshot_from-IsDict fs seen p h)
    | inr (v, e) ↦
        rw (e, snapshot_from) (snapshot_from-IsDict fs (put f v seen) p (put-IsDict f v seen h))
  ]

  -- The later of two values, where there is one.
  abbrev pub or_else : Option V → Option V → Option V
  or_else none o = o
  or_else (some v) o = some v

  or_else-none : (o : Option V) → or_else o none ≡ o
  or_else-none none = refl
  or_else-none (some v) = refl

  -- What a scrape says of a field that is tracked.
  abbrev pub seen_in : Text → List Text → Dict (Option V) → Option V
  seen_in f fields p = if contains f fields then field_of f p else none

  if_none : (b : Bool) {o : Option V} → o ≡ none → (if b then o else none) ≡ none
  if_none true e = e
  if_none false e = refl

  if_some :
      (b : Bool) {o : Option V} {v : V}
      → o ≡ some v
      → or_else (if b then o else none) (some v) ≡ some v
  if_some true {v = v} e = ap (λ z. or_else z (some v)) e
  if_some false e = refl

  lookup-snapshot_from :
      (f : Text) (fields : List Text) (seen : Dict V) (p : Dict (Option V))
      → lookup f (snapshot_from seen p fields) ≡ or_else (seen_in f fields p) (lookup f seen)
  unfolding snapshot_from
  lookup-snapshot_from f [] seen p = refl
  lookup-snapshot_from f (g ∷ fs) seen p = elim (Option-cases (field_of g p)) [
    | inl e ↦
        let ih = lookup-snapshot_from f fs seen p in
        rw (e, snapshot_from)
          (elim (Bool-cases (text_eq g f)) [
            | inl t ↦
                (let b = subst (λ k. field_of k p ≡ none) ((text_eq_iff g f).0 t) e in
                  rw (t, b) (ih ∙ ap (λ o. or_else o (lookup f seen)) (if_none (contains f fs) b)))
            | inr t ↦ rw t ih
          ])
    | inr (v, e) ↦
        let ih = lookup-snapshot_from f fs (put g v seen) p in
        let lp = lookup-put g f v seen in
        rw (e, snapshot_from)
          (elim (Bool-cases (text_eq g f)) [
            | inl t ↦
                (let b = subst (λ k. field_of k p ≡ some v) ((text_eq_iff g f).0 t) e in
                  rw (t, b)
                    (ih
                      ∙ ap (or_else (seen_in f fs p)) (lp ∙ rw t refl)
                      ∙ if_some (contains f fs) b))
            | inr t ↦ rw t (ih ∙ ap (or_else (seen_in f fs p)) (lp ∙ rw t refl))
          ])
  ]

  pub lookup-snapshot :
      (f : Text) (p : Dict (Option V)) (fields : List Text)
      → lookup f (snapshot p fields) ≡ seen_in f fields p
  unfolding snapshot lookup
  lookup-snapshot f p fields =
      lookup-snapshot_from f fields [] p ∙ or_else-none (seen_in f fields p)

  pub snapshot-IsDict : (p : Dict (Option V)) (fields : List Text) → IsDict (snapshot p fields)
  unfolding snapshot
  snapshot-IsDict p fields = snapshot_from-IsDict fields [] p tt

  pub lookup-merge :
      (f : Text) (previous current : Dict V)
      → IsDict current
      → lookup f (merge previous current) ≡ or_else (lookup f current) (lookup f previous)
  unfolding merge lookup
  lookup-merge f previous [] h = refl
  lookup-merge f previous ((g, v) ∷ current) h =
      let ih = lookup-merge f (put g v previous) current h.1 in
      let lp = lookup-put g f v previous in
      elim (Bool-cases (text_eq g f)) [
        | inl e ↦
            let q : lookup f current ≡ none =
              subst (λ k. lookup k current ≡ none) ((text_eq_iff g f).0 e) h.0 in
            rw e (ih ∙ ap (λ z. or_else z (lookup f (put g v previous))) q ∙ lp ∙ rw e refl)
        | inr e ↦ rw e (ih ∙ ap (or_else (lookup f current)) (lp ∙ rw e refl))
      ]

  module _ (same : V → V → Bool) where
    abbrev pub change : Option V → Option V → Option (V × V)
    change (some old) (some new) = if same old new then none else some (old, new)
    change _ none = none
    change none (some new) = none

    change-none : (o : Option V) → change o none ≡ none
    change-none none = refl
    change-none (some old) = refl

    lookup-diff_with :
        (f : Text) (previous current : Dict V)
        → IsDict current
        → lookup f (diff_with same previous current) ≡ change (lookup f previous) (lookup f current)
    unfolding diff_with lookup
    lookup-diff_with f previous [] h = refl
    lookup-diff_with f previous ((g, new) ∷ current) h =
        let ih = lookup-diff_with f previous current h.1 in
        elim (Bool-cases (text_eq g f)) [
          | inl e ↦
              (let g_is_f = (text_eq_iff g f).0 e in
                let q : lookup f current ≡ none = subst (λ k. lookup k current ≡ none) g_is_f h.0 in
                let none_left : lookup f (diff_with same previous current) ≡ none =
                  ih ∙ ap (change (lookup f previous)) q ∙ change-none (lookup f previous) in
                rw e (elim (Option-cases (lookup g previous)) [
                  | inl a ↦
                      (let b = subst (λ k. lookup k previous ≡ none) g_is_f a in
                        rw (a, diff_with, b) none_left)
                  | inr (old, a) ↦
                      (let b = subst (λ k. lookup k previous ≡ some old) g_is_f a in
                        rw (a, diff_with, b)
                          (elim (Bool-cases (same old new)) [
                            | inl c ↦ rw c none_left
                            | inr c ↦ rw (c, e) refl
                          ]))
                ]))
          | inr e ↦ rw e (elim (Option-cases (lookup g previous)) [
            | inl a ↦ rw (a, diff_with) ih
            | inr (old, a) ↦
                rw (a, diff_with)
                  (elim (Bool-cases (same old new)) [ inl c ↦ rw c ih | inr c ↦ rw (c, e) ih ])
          ])
        ]

    -- A check reports a change of a field exactly if the field is tracked, the scrape shows it, the
    -- earlier snapshot has it, and the two values differ; it reports the two values. With no
    -- earlier snapshot it reports nothing.
    pub lookup-diff :
        (f : Text) (previous : Dict V) (place : Dict (Option V)) (fields : List Text)
        → (lookup f (diff same (some previous) (snapshot place fields))
            ≡ change (lookup f previous) (seen_in f fields place))
          × (diff same none (snapshot place fields) ≡ [])
    unfolding diff
    lookup-diff f previous place fields = (
      lookup-diff_with f previous (snapshot place fields) (snapshot-IsDict place fields)
          ∙ ap (change (lookup f previous)) (lookup-snapshot f place fields),
      refl,
    )
