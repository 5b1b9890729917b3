-- ===== src/Monitors/Checks.antt =====
-- A monitor over the history of its checks: its counters, its bounded history, and the last value
-- that it has seen of each field.
use mathlib.Core.Path.{subst}
use headwater.Prelude.{
  ◌≡◌, ◌≤◌, ◌∙◌, refl, sym, ap, ℕ, ◌+◌, ◌-◌, Bool, true, false, Option, none, some, List, [], ◌∷◌,
  ◌++◌, Text, length, drop, is_empty, length-drop, Bool-cases, inl, inr, arith, if◌then◌else◌,
}
use headwater.Dict.{Dict, lookup}
use headwater.Monitors.{
  Monitor, Fetched, Entry, Changes, checked, failed_check, observed, is_failed, add_history,
  created, tracked, or_empty, snapshot, diff,
}
use headwater.Monitors.Changes.{or_else, seen_in, lookup-merge, lookup-snapshot, snapshot-IsDict}

module _ {V : Type 0} (same : V → V → Bool) where
  -- The monitor after checks at the given times, of which the last comes first.
  abbrev pub after : List (ℕ × Fetched V) → Monitor V → Monitor V
  after [] m = m
  after ((now, r) ∷ rs) m = checked same now r (after rs m)

  -- The value of a tracked field in the last scrape that showed it
  abbrev pub last_seen : Text → List Text → List (ℕ × Fetched V) → Option V
  last_seen f fields [] = none
  last_seen f fields ((now, r) ∷ rs) =
      if is_failed same r
      then last_seen f fields rs
      else or_else (seen_in f fields r.place) (last_seen f fields rs)

  -- The monitor has counted the checks, its history is bounded, and its snapshot has the last value
  -- seen of each field.
  abbrev pub Follows : List Text → Monitor V → List (ℕ × Fetched V) → Type 0
  Follows fields m rs =
      (m.track_fields ≡ fields)
      × (m.check_count ≡ length rs)
      × (m.change_count ≤ m.check_count)
      × (length m.history ≤ 200)
      × ((f : Text)
          → lookup f (or_empty same m.last_snapshot) ≡ last_seen f (tracked same fields) rs)

  bounded_length : (h : List (Entry V)) → length (drop (length h - 200) h) ≤ 200
  bounded_length h = omega (arith, length-drop (length h - 200) h)

  add_history-length :
      (now : ℕ) (previous : Option (Dict V)) (changes : Changes V) (snap : Dict V)
      (h : List (Entry V))
      → length h ≤ 200
      → length (add_history same now previous changes snap h) ≤ 200
  unfolding add_history
  add_history-length now none changes snap h l = bounded_length (h ++ _ ∷ [])
  add_history-length now (some d) [] snap h l = l
  add_history-length now (some d) (c ∷ changes) snap h l = bounded_length (h ++ _ ∷ [])

  count_le : (b : Bool) (x n : ℕ) → x ≤ n → (if b then x else x + 1) ≤ n + 1
  count_le true x n h = omega (arith, h)
  count_le false x n h = omega (arith, h)

  failed_check-Follows :
      (fields : List Text) (now : ℕ) (r : Fetched V) (m : Monitor V) (rs : List (ℕ × Fetched V))
      → is_failed same r ≡ true
      → Follows fields m rs
      → Follows fields (failed_check same now r.message m) ((now, r) ∷ rs)
  unfolding failed_check
  failed_check-Follows fields now r m rs e (a, b, c, d, s) =
      (a, omega (arith, b), omega (arith, c), d, λ f. rw e (s f))

  observed-Follows :
      (fields : List Text) (now : ℕ) (r : Fetched V) (m : Monitor V) (rs : List (ℕ × Fetched V))
      → is_failed same r ≡ false
      → Follows fields m rs
      → Follows fields (observed same now r.place m) ((now, r) ∷ rs)
  unfolding observed
  observed-Follows fields now r m rs e (a, b, c, d, s) =
      let snap = snapshot r.place (tracked same m.track_fields) in
      (
        a,
        omega (arith, b),
        count_le (is_empty (diff same m.last_snapshot snap)) _ _ c,
        add_history-length now m.last_snapshot (diff same m.last_snapshot snap) snap m.history d,
        λ f. rw e (
            lookup-merge f (or_empty same m.last_snapshot) snap (snapshot-IsDict r.place _)
            ∙ ap (λ o. or_else o (lookup f (or_empty same m.last_snapshot)))
                (lookup-snapshot f r.place (tracked same m.track_fields))
            ∙ ap (or_else (seen_in f (tracked same m.track_fields) r.place)) (s f)
            ∙ ap
                (λ z.
                  or_else (seen_in f (tracked same z) r.place)
                    (last_seen f (tracked same fields) rs))
                a),
      )

  checked-Follows :
      (fields : List Text) (now : ℕ) (r : Fetched V) (m : Monitor V) (rs : List (ℕ × Fetched V))
      → Follows fields m rs
      → Follows fields (checked same now r m) ((now, r) ∷ rs)
  unfolding checked
  checked-Follows fields now r m rs h = elim (Bool-cases (is_failed same r)) [
    | inl e ↦
        (let q : checked same now r m ≡ failed_check same now r.message m = rw (e, checked) refl in
          subst (λ z. Follows fields z ((now, r) ∷ rs)) (sym q)
            (failed_check-Follows fields now r m rs e h))
    | inr e ↦
        (let q : checked same now r m ≡ observed same now r.place m = rw (e, checked) refl in
          subst (λ z. Follows fields z ((now, r) ∷ rs)) (sym q)
            (observed-Follows fields now r m rs e h))
  ]

  -- After any checks, failed ones among them, a monitor has counted each check and no more changes
  -- than checks, its history has at most 200 entries, and its snapshot has, for each field, the
  -- value in the last scrape that showed it, of the fields tracked since its creation.
  pub after-Follows :
      (place_id url webhook_url : Option Text) (hours : ℕ) (fields : List Text) (start : ℕ)
      (rs : List (ℕ × Fetched V))
      → Follows
          (tracked same fields)
          (after rs (created place_id url webhook_url hours fields start))
          rs
  unfolding created lookup
  after-Follows place_id url webhook_url hours fields start [] =
      (refl, refl, omega arith, omega arith, λ f. refl)
  after-Follows place_id url webhook_url hours fields start ((now, r) ∷ rs) =
      checked-Follows (tracked same fields) now r
        (after rs (created place_id url webhook_url hours fields start)) rs
        (after-Follows place_id url webhook_url hours fields start rs)
