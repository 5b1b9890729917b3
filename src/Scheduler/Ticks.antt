-- ===== src/Scheduler/Ticks.antt =====
-- A tick of the scheduler: `_known_owners` and `run_due_checks` of
-- app/services/google_maps_monitors.py. The background task, which runs a tick and sleeps, is left
-- out. The readings of the clock and the scrapes are given for each owner and monitor, each of
-- which a tick visits once.
pub mod Visits
use headwater.Prelude.{
  ℕ, Bool, true, ◌&&◌, Option, none, some, List, [], ◌∷◌, ◌++◌, map, Text, codes, lower, text_eq,
  leb,
}
use headwater.Exec.{Exec, Result, ok, raise, pure, ◌>>=◌}
use headwater.Redis.Client.{Server}
use headwater.RecordStore
use headwater.RecordStore.{StoredRecord}
use headwater.Webhooks.{Http}
use headwater.Monitors.{Monitor, Fetched}
use headwater.Scheduler.{Env, Service, Problem, on_monitors, on_owners, index_owner}
use headwater.Scheduler.Calls.{Times, Checked, check_monitor}

-- The readings of the clock in a tick: at the listing of the index, at the listing of an owner's
-- monitors, and in each check.
pub record Readings : Type 0 where
  pub index : ℕ
  pub due : (owner : Text) → ℕ
  pub check : (owner monitor_id : Text) → Times

module _ {S E A : Type 0} where
  abbrev pub caught : Result E A × S → Result E (Option A) × S
  caught (ok a, s) = (ok (some a), s)
  caught (raise e, s) = (ok none, s)

  -- `try: ... except Exception: ...`, where what was raised is only logged
  abbrev pub attempt : Exec S E A → Exec S E (Option A)
  attempt m s = caught (m s)

abbrev pub added : {A : Type 0} → Option A → List A → List A
added none xs = xs
added (some x) xs = x ∷ xs

abbrev pub or_nothing : {A : Type 0} → Option (List A) → List A
or_nothing none = []
or_nothing (some xs) = xs

module _ {V : Type 0} where
  -- The predicate of `run_due_checks`
  unfoldable pub is_due : (cutoff : ℕ) → StoredRecord (Monitor V) → Bool
  is_due cutoff r =
      text_eq (lower r.content.status) (codes "active") && leb r.content.next_check cutoff

module _ {srv : Server} {http : Http} {V : Type 0} (env : Env V) where
  -- `_known_owners`
  unfoldable pub known_owners : (now : ℕ) → Exec (Service srv http V) Problem (List Text)
  known_owners now = do
    records ← on_owners (
        RecordStore.list_for_owner srv env.owner_codec.from_json index_owner 10000 0 (λ r. true)
          (λ r. r.created_at) true now)
    pure (map (λ r. r.content.owner) records)

  unfoldable pub due_monitors :
      (owner : Text) (cutoff now : ℕ)
      → Exec (Service srv http V) Problem (List (StoredRecord (Monitor V)))
  unfolding is_due
  due_monitors owner cutoff now = on_monitors (
      RecordStore.list_for_owner srv env.monitor_codec.from_json owner 500 0 (is_due cutoff)
        (λ r. r.created_at) true now)

  module _ (fetch : (owner monitor_id : Text) → Monitor V → Fetched V) (t : Readings) where
    -- The inner loop: a check that raises adds no result.
    unfoldable pub check_each :
        (owner : Text)
        → List (StoredRecord (Monitor V))
        → Exec (Service srv http V) Problem (List (Checked V))
    check_each owner [] = pure []
    check_each owner (r ∷ due) = do
      result ← attempt (check_monitor env owner r.id (fetch owner r.id) (t.check owner r.id))
      results ← check_each owner due
      pure (added result results)

    -- The outer loop: an owner whose monitors cannot be listed is passed over.
    unfoldable pub check_owners :
        (cutoff : ℕ) → (owners : List Text) → Exec (Service srv http V) Problem (List (Checked V))
    unfolding check_each due_monitors
    check_owners cutoff [] = pure []
    check_owners cutoff (owner ∷ owners) = do
      due ← attempt (due_monitors owner cutoff (t.due owner))
      results ← check_each owner (or_nothing due)
      later ← check_owners cutoff owners
      pure (results ++ later)

    unfoldable pub run_due_checks :
        (cutoff : ℕ) → Exec (Service srv http V) Problem (List (Checked V))
    unfolding known_owners check_owners
    run_due_checks cutoff = do owners ← known_owners t.index; check_owners cutoff owners
