-- ===== src/Scheduler/Ticks/Visits.antt =====
-- What a tick of the scheduler does: a step relation of owners visited and monitors checked, and
-- that `run_due_checks` goes through all of it.
use mathlib.Core.List.{Memᴰ}
use mathlib.Core.Path.{subst}
use headwater.Prelude.{
  sym, ◌<◌, ◌↔◌, length, length-take, take_all, Bool, inl, inr, Bool, inr, Option, inl, ◌≡◌, ◌≤◌,
  ◌⊎◌, ◌∙◌, refl, ap, ℕ, List, [], ◌∷◌, ◌++◌, Text, codes, lower, text_eq, text_eq_iff, both_true,
  keep, take, drop, true, arith, some, none,
}
use headwater.Exec.{Exec, Result, ok, raise, pure, ◌>>=◌, bind-returns, bind-raises}
use headwater.Redis.Client.{Server}
use headwater.RecordStore
use headwater.RecordStore.{Decoding, StoredRecord, RecordStore, Failure}
use headwater.RecordStore.Sort.{sort}
use headwater.RecordStore.Order.{sort-Mem, sort-Mem_of, keep-Mem, keep-Mem_of, take-Mem_of}
use headwater.Webhooks.{Http}
use headwater.Monitors.{Monitor, Fetched}
use headwater.Scheduler.{Env, Service, Problem, under}
use headwater.Scheduler.Local.{failing-ok}
use headwater.Scheduler.Calls.{Checked, check_monitor}
use headwater.Scheduler.Ticks.{
  Readings, attempt, caught, added, or_nothing, is_due, known_owners, due_monitors, check_each,
  check_owners, run_due_checks,
}

-- An active monitor whose next check is not after the cutoff
abbrev pub IsDue : {V : Type 0} → (cutoff : ℕ) → StoredRecord (Monitor V) → Type 0
IsDue cutoff r = (lower r.content.status ≡ codes "active") × (r.content.next_check ≤ cutoff)

module _ {srv : Server} {http : Http} {V : Type 0} (env : Env V)
    (fetch : (owner monitor_id : Text) → Monitor V → Fetched V) (t : Readings) where
  -- The monitors are checked one after the other; a check that returns gives a result, and after
  -- one that raises the next is made, in the state that it left.
  pub data Checks (owner : Text)
      : List (StoredRecord (Monitor V))
        → Service srv http V
        → List (Checked V)
        → Service srv http V
        → Type 0 where
    no_monitor : (s : Service srv http V) → Checks owner [] s [] s
    check_made :
        {r : StoredRecord (Monitor V)} {due : List (StoredRecord (Monitor V))}
        {s s1 s2 : Service srv http V} {result : Checked V} {results : List (Checked V)}
        → check_monitor env owner r.id (fetch owner r.id) (t.check owner r.id) s ≡ (ok result, s1)
        → Checks owner due s1 results s2
        → Checks owner (r ∷ due) s (result ∷ results) s2
    check_raised :
        {r : StoredRecord (Monitor V)} {due : List (StoredRecord (Monitor V))}
        {s s1 s2 : Service srv http V} {problem : Problem} {results : List (Checked V)}
        → check_monitor env owner r.id (fetch owner r.id) (t.check owner r.id) s
          ≡ (raise problem, s1)
        → Checks owner due s1 results s2
        → Checks owner (r ∷ due) s results s2

  -- What is listed of the owner's records: at most 500, all of them due, and all that are due where
  -- there are fewer.
  abbrev pub IsListing :
      (cutoff : ℕ) (owner : Text) → Service srv http V → List (StoredRecord (Monitor V)) → Type 0
  IsListing cutoff owner s due =
      (records : List (StoredRecord (Monitor V))) × ((RecordStore.all_records srv
          env.monitor_codec.from_json owner (t.due owner) (under s.manager s.monitors)).0
        ≡ ok records)
      × (length due ≤ 500)
      × ((r : StoredRecord (Monitor V)) → Memᴰ r due → Memᴰ r records × IsDue cutoff r)
      × (length due < 500
          → (r : StoredRecord (Monitor V)) → Memᴰ r records
          → IsDue cutoff r
          → Memᴰ r due)

  -- The owners are visited one after the other: all the monitors that are listed as due are
  -- checked, and an owner whose monitors cannot be listed is passed over.
  pub data Visits (cutoff : ℕ)
      : List Text → Service srv http V → List (Checked V) → Service srv http V → Type 0 where
    no_owner : (s : Service srv http V) → Visits cutoff [] s [] s
    listed :
        {owner : Text} {owners : List Text} {due : List (StoredRecord (Monitor V))}
        {s s1 s2 s3 : Service srv http V} {results later : List (Checked V)}
        → due_monitors env owner cutoff (t.due owner) s ≡ (ok due, s1)
        → IsListing cutoff owner s due
        → Checks owner due s1 results s2
        → Visits cutoff owners s2 later s3
        → Visits cutoff (owner ∷ owners) s (results ++ later) s3
    not_listed :
        {owner : Text} {owners : List Text} {s s1 s2 : Service srv http V} {problem : Problem}
        {later : List (Checked V)}
        → due_monitors env owner cutoff (t.due owner) s ≡ (raise problem, s1)
        → Visits cutoff owners s1 later s2
        → Visits cutoff (owner ∷ owners) s later s2

module _ {S E A : Type 0} where
  pair-cases :
      (p : Result E A × S)
      → ((a : A) × (s : S) × (p ≡ (ok a, s))) ⊎ ((e : E) × (s : S) × (p ≡ (raise e, s)))
  pair-cases (ok a, s) = inl (a, s, refl)
  pair-cases (raise e, s) = inr (e, s, refl)

  -- What a call that is tried comes to
  tried :
      {B : Type 0} (m : Exec S E A) (f : Option A → Exec S E B) (s s' : S) (a : A)
      → m s ≡ (ok a, s')
      → (attempt m >>= f) s ≡ f (some a) s'
  tried m f s s' a e = bind-returns (attempt m) f s s' (some a) (ap caught e)

  tried_in_vain :
      {B : Type 0} (m : Exec S E A) (f : Option A → Exec S E B) (s s' : S) (x : E)
      → m s ≡ (raise x, s')
      → (attempt m >>= f) s ≡ f none s'
  tried_in_vain m f s s' x e = bind-returns (attempt m) f s s' none (ap caught e)

-- What a listing without an offset returns: records that pass the filter, and all of these if they
-- are fewer than the limit.
list_for_owner-Mem :
    (srv : Server) {D : Type 0} (from_json : Text → Decoding D) (owner : Text) (limit : ℕ)
    (predicate : StoredRecord D → Bool) (key : StoredRecord D → ℕ) (reverse : Bool) (now : ℕ)
    (s : RecordStore srv D) (rs : List (StoredRecord D))
    → (RecordStore.list_for_owner srv from_json owner limit 0 predicate key reverse now s).0 ≡ ok rs
    → (records : List (StoredRecord D)) × ((RecordStore.all_records srv from_json owner now s).0
        ≡ ok records)
      × (length rs ≤ limit)
      × ((r : StoredRecord D) → Memᴰ r rs → Memᴰ r records × (predicate r ≡ true))
      × (length rs < limit → (r : StoredRecord D) → Memᴰ r records → predicate r ≡ true → Memᴰ r rs)
unfolding RecordStore.list_for_owner
list_for_owner-Mem srv {D = D} from_json owner limit predicate key reverse now s rs e =
    let m = RecordStore.all_records srv from_json owner now in
    let cut : List (StoredRecord D) → Exec (RecordStore srv D) Failure (List (StoredRecord D)) =
      λ records. pure (take limit (drop 0 (sort key reverse (keep predicate records)))) in
    elim (pair-cases (m s)) [
      | inr (x, s', raised) ↦ absurd (cc (ap (λ p. p.0) (bind-raises m cut s s' x raised), e))
      | inl (records, s', found) ↦
          let ordered = sort key reverse (keep predicate records) in
          let same : take limit ordered ≡ rs =
            cc (ap (λ p. p.0) (bind-returns m cut s s' records found), e) in
          let size = length-take limit ordered in
          subst
            (λ rs.
              (records : List (StoredRecord D)) × ((m s).0 ≡ ok records)
              × (length rs ≤ limit)
              × ((r : StoredRecord D) → Memᴰ r rs → Memᴰ r records × (predicate r ≡ true))
              × (length rs < limit
                  → (r : StoredRecord D) → Memᴰ r records
                  → predicate r ≡ true
                  → Memᴰ r rs))
            same
            (
              records,
              ap (λ p. p.0) found,
              omega (arith, size),
              λ r w.
                  let (passes, there) = keep-Mem_of predicate r records (
                    sort-Mem_of key reverse r (keep predicate records)
                      (take-Mem_of limit r ordered w)) in
                  (there, passes),
              λ few r w passes.
                  let whole : take limit ordered ≡ ordered =
                    take_all limit ordered (omega (arith, size, few)) in
                  subst (λ xs. Memᴰ r xs) (sym whole)
                    (sort-Mem key reverse r (keep predicate records)
                      (keep-Mem predicate r records passes w)),
            )
    ]

is_due_iff :
    {V : Type 0} (cutoff : ℕ) (r : StoredRecord (Monitor V))
    → (is_due cutoff r ≡ true) ↔ IsDue cutoff r
unfolding is_due
is_due_iff cutoff r =
    let status = lower r.content.status in
    (
      λ h.
          let (active, time) = both_true (text_eq status (codes "active")) _ h in
          ((text_eq_iff status (codes "active")).0 active, ground (arith, time)),
      λ h.
          let active = (text_eq_iff status (codes "active")).1 h.0 in
          rw active (ground (arith, h.1)),
    )

module _ {srv : Server} {http : Http} {V : Type 0} (env : Env V)
    (fetch : (owner monitor_id : Text) → Monitor V → Fetched V) (t : Readings) where
  due_monitors-IsListing :
      (owner : Text) (cutoff : ℕ) (s s' : Service srv http V)
      (due : List (StoredRecord (Monitor V)))
      → due_monitors env owner cutoff (t.due owner) s ≡ (ok due, s')
      → IsListing env fetch t cutoff owner s due
  unfolding due_monitors
  due_monitors-IsListing owner cutoff s s' due e =
      let store = under s.manager s.monitors in
      let from_json = env.monitor_codec.from_json in
      let now = t.due owner in
      let page =
        RecordStore.list_for_owner srv from_json owner 500 0 (is_due cutoff) (λ r. r.created_at)
          true now store in
      let (records, found, size, sound, complete) =
        list_for_owner-Mem srv from_json owner 500 (is_due cutoff) (λ r. r.created_at) true now
          store due (failing-ok page.0 due (ap (λ p. p.0) e)) in
      (
        records,
        found,
        size,
        λ r m. let (there, passes) = sound r m in (there, (is_due_iff cutoff r).0 passes),
        λ few r m d. complete few r m ((is_due_iff cutoff r).1 d),
      )

  check_each-Checks :
      (owner : Text) (due : List (StoredRecord (Monitor V))) (s : Service srv http V)
      → (results : List (Checked V)) × (s' : Service srv http V) × (check_each env fetch t owner due
            s
          ≡ (ok results, s'))
        × Checks env fetch t owner due s results s'
  unfolding check_each
  check_each-Checks owner [] s = ([], s, refl, no_monitor s)
  check_each-Checks owner (r ∷ due) s =
      let m = check_monitor env owner r.id (fetch owner r.id) (t.check owner r.id) in
      let rest : Option (Checked V) → Exec (Service srv http V) Problem (List (Checked V)) =
        λ o. check_each env fetch t owner due >>= λ results. pure (added o results) in
      elim (pair-cases (m s)) [
        | inl (result, s1, e) ↦
            let (results, s2, f, c) = check_each-Checks owner due s1 in
            (
              result ∷ results,
              s2,
              tried m rest s s1 result e
                  ∙ bind-returns (check_each env fetch t owner due) _ s1 s2 results f,
              check_made e c,
            )
        | inr (x, s1, e) ↦
            let (results, s2, f, c) = check_each-Checks owner due s1 in
            (
              results,
              s2,
              tried_in_vain m rest s s1 x e
                  ∙ bind-returns (check_each env fetch t owner due) _ s1 s2 results f,
              check_raised e c,
            )
      ]

  check_none :
      (owner : Text) (s : Service srv http V) → check_each env fetch t owner [] s ≡ (ok [], s)
  unfolding check_each
  check_none owner s = refl

  check_owners-Visits :
      (cutoff : ℕ) (owners : List Text) (s : Service srv http V)
      → (results : List (Checked V)) × (s' : Service srv http V) × (check_owners env fetch t cutoff
            owners s
          ≡ (ok results, s'))
        × Visits env fetch t cutoff owners s results s'
  unfolding check_owners
  check_owners-Visits cutoff [] s = ([], s, refl, no_owner s)
  check_owners-Visits cutoff (owner ∷ owners) s =
      let m = due_monitors env owner cutoff (t.due owner) in
      let onward : List (Checked V) → Exec (Service srv http V) Problem (List (Checked V)) =
        λ results. check_owners env fetch t cutoff owners >>= λ later. pure (results ++ later) in
      let rest : Option (List (StoredRecord (Monitor V)))
          → Exec (Service srv http V) Problem (List (Checked V)) =
        λ due. check_each env fetch t owner (or_nothing due) >>= onward in
      elim (pair-cases (m s)) [
        | inl (due, s1, e) ↦
            let (results, s2, f, c) = check_each-Checks owner due s1 in
            let (later, s3, g, v) = check_owners-Visits cutoff owners s2 in
            (
              results ++ later,
              s3,
              tried m rest s s1 due e
                  ∙ bind-returns (check_each env fetch t owner due) onward s1 s2 results f
                  ∙ bind-returns (check_owners env fetch t cutoff owners) _ s2 s3 later g,
              listed e (due_monitors-IsListing owner cutoff s s1 due e) c v,
            )
        | inr (x, s1, e) ↦
            let (later, s3, g, v) = check_owners-Visits cutoff owners s1 in
            (
              later,
              s3,
              tried_in_vain m rest s s1 x e
                  ∙ bind-returns (check_each env fetch t owner []) onward s1 s1 []
                      (check_none owner s1)
                  ∙ bind-returns (check_owners env fetch t cutoff owners) _ s1 s3 later g,
              not_listed e v,
            )
      ]

  -- Once the owners could be listed, a tick returns its results, whatever a check or the listing of
  -- an owner's monitors raises. It visits every owner; it passes over those whose monitors cannot
  -- be listed; of the others it checks the monitors that are active and due at the cutoff, at most
  -- 500 of an owner, and all of them if there are fewer; it goes on after a check that raises, from the state that this left; and the
  -- results are those of the checks that returned, in their order.
  pub run_due_checks-Visits :
      (cutoff : ℕ) (owners : List Text) (s : Service srv http V)
      → (known_owners env t.index s).0 ≡ ok owners
      → (results : List (Checked V)) × (s' : Service srv http V) × (run_due_checks env fetch t
            cutoff s
          ≡ (ok results, s'))
        × Visits env fetch t cutoff owners (known_owners env t.index s).1 results s'
  unfolding run_due_checks
  run_due_checks-Visits cutoff owners s e =
      let s1 = (known_owners env t.index s).1 in
      let (results, s2, f, v) = check_owners-Visits cutoff owners s1 in
      (
        results,
        s2,
        bind-returns (known_owners env t.index) (check_owners env fetch t cutoff) s s1 owners
              (ap (λ r. (r, s1)) e)
            ∙ f,
        v,
      )
