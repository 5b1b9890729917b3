-- ===== src/Scheduler/History/Dates.antt =====
-- The dates between which a history is asked for, and the field whose changes are: what they say,
-- and that `_parse_boundary` and the tests of `get_place_history` keep to it.
use headwater.Prelude.{
  both_true, ◌≤◌, ◌<◌, ◌↔◌, ◌≡◌, ◌≢◌, ◌+◌, refl, ℕ, true, false, ◌-◌, ◌==◌, ==_iff, ◌&&◌, Option,
  none, some, [], ◌∷◌, length, strip, Text, Bool-cases, Option-cases, inl, inr, arith,
}
use headwater.Dict.{lookup}
use headwater.Exec.{ok}
use headwater.Monitors.{Entry}
use headwater.Scheduler.History.{
  day, parse_boundary, utc_offset, not_before, not_after, changed, is_shown,
}

module _ (fromisoformat : Text → Option ℕ) where
  -- A date that is given, and is not empty, can be read.
  abbrev pub IsReadable : Option Text → Type 0
  IsReadable none = Unit
  IsReadable (some []) = Unit
  IsReadable (some (c ∷ t)) = (time : ℕ) × (fromisoformat (utc_offset (strip (c ∷ t))) ≡ some time)

  module _ {V : Type 0} where
    -- Not earlier than the start, where one is given
    abbrev pub IsFrom : Option Text → Entry V → Type 0
    IsFrom none e = Unit
    IsFrom (some []) e = Unit
    IsFrom (some (c ∷ t)) e =
        (time : ℕ) × (fromisoformat (utc_offset (strip (c ∷ t))) ≡ some time) × (time ≤ e.timestamp)

    -- Not later than the end, where one is given; a date alone, of ten characters, ends with its
    -- day, which has 86,400,000,000 millionths of a second.
    abbrev pub IsUntil : Option Text → Entry V → Type 0
    IsUntil none e = Unit
    IsUntil (some []) e = Unit
    IsUntil (some (c ∷ t)) e =
        (time : ℕ) × (fromisoformat (utc_offset (strip (c ∷ t))) ≡ some time)
        × (length (strip (c ∷ t)) ≡ 10 → e.timestamp < time + 86400000000)
        × (length (strip (c ∷ t)) ≢ 10 → e.timestamp ≤ time)

    -- With a change of the field, where one is given that is not empty
    abbrev pub HasChanged : Option Text → Entry V → Type 0
    HasChanged none e = Unit
    HasChanged (some []) e = Unit
    HasChanged (some (c ∷ field)) e =
        (change : V × V) × (lookup (c ∷ field) e.changes ≡ some change)

    changed_iff :
        (field : Option Text) (e : Entry V) → (changed field e ≡ true) ↔ HasChanged field e
    changed_iff none e = (λ h. tt, λ h. refl)
    changed_iff (some []) e = (λ h. tt, λ h. refl)
    changed_iff (some (c ∷ field)) e = (
      λ h. elim (Option-cases (lookup (c ∷ field) e.changes)) [
        | inl gone ↦ absurd (cc (rw gone at h))
        | inr found ↦ found
      ],
      λ h. rw h.1 refl,
    )

    -- The start is read as a bound that the test of the start keeps to.
    start_read :
        (d : Option Text)
        → IsReadable d
        → (start : Option ℕ) × (parse_boundary fromisoformat d false ≡ ok start)
          × ((e : Entry V) → (not_before start e ≡ true) ↔ IsFrom d e)
    unfolding parse_boundary
    start_read none h = (none, refl, λ e. (λ x. tt, λ x. refl))
    start_read (some []) h = (none, refl, λ e. (λ x. tt, λ x. refl))
    start_read (some (c ∷ t)) (time, h) = rw h (
      some time,
      refl,
      λ e. (
        λ x. (time, refl, ground (arith, x)),
        λ x. let same : time ≡ x.0 = cc (x.1) in ground (arith, same, x.2),
      ),
    )

    end_read :
        (d : Option Text)
        → IsReadable d
        → (last : Option ℕ) × (parse_boundary fromisoformat d true ≡ ok last)
          × ((e : Entry V) → (not_after last e ≡ true) ↔ IsUntil d e)
    unfolding parse_boundary
    end_read none h = (none, refl, λ e. (λ x. tt, λ x. refl))
    end_read (some []) h = (none, refl, λ e. (λ x. tt, λ x. refl))
    end_read (some (c ∷ t)) (time, h) = elim (Bool-cases (length (strip (c ∷ t)) == 10)) [
      | inl alone ↦
          let ten : length (strip (c ∷ t)) ≡ 10 = (==_iff (length (strip (c ∷ t))) 10).0 alone in
          rw (h, alone)
            (
              some (time + day - 1),
              refl,
              λ e. (
                λ x. (time, refl, λ l. ground (arith, x), λ l. absurd (l ten)),
                λ x.
                    let same : time ≡ x.0 = cc (x.1) in
                    let before = x.2 ten in ground (arith, same, before),
              ),
            )
      | inr full ↦
          let other : length (strip (c ∷ t)) ≢ 10 =
            λ l. absurd (cc (full, (==_iff (length (strip (c ∷ t))) 10).1 l)) in
          rw (h, full)
            (
              some time,
              refl,
              λ e. (
                λ x. (time, refl, λ l. absurd (other l), λ l. ground (arith, x)),
                λ x.
                    let same : time ≡ x.0 = cc (x.1) in
                    let before = x.3 other in ground (arith, same, before),
              ),
            )
    ]

    abbrev pub IsAsked : (field start_date end_date : Option Text) → Entry V → Type 0
    IsAsked field start_date end_date e =
        IsFrom start_date e × IsUntil end_date e × HasChanged field e

    -- Both bounds are read, and an entry is shown exactly if it is asked for.
    pub bounds_read :
        (field start_date end_date : Option Text)
        → IsReadable start_date
        → IsReadable end_date
        → (start : Option ℕ) × (last : Option ℕ) × (parse_boundary fromisoformat start_date false
            ≡ ok start)
          × (parse_boundary fromisoformat end_date true ≡ ok last)
          × ((e : Entry V)
              → (is_shown start last field e ≡ true) ↔ IsAsked field start_date end_date e)
    unfolding is_shown
    bounds_read field start_date end_date r q =
        let (start, a, from) = start_read start_date r in
        let (last, b, until) = end_read end_date q in
        (
          start,
          last,
          a,
          b,
          λ e. (
            λ h.
                let (inside, c) = both_true (not_before start e && not_after last e) _ h in
                let (x, y) = both_true (not_before start e) (not_after last e) inside in
                ((from e).0 x, (until e).0 y, (changed_iff field e).0 c),
            λ w.
                let x = (from e).1 w.0 in
                let y = (until e).1 w.1 in let c = (changed_iff field e).1 w.2 in rw (x, y, c) refl,
          ),
        )
