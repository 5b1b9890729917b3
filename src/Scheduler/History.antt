-- ===== src/Scheduler/History.antt =====
-- The recorded history of a place: `_parse_boundary` and `get_place_history` of
-- app/services/google_maps_monitors.py. `datetime.fromisoformat` with the time zone that a text
-- without one is given, as a time, is a parameter.
pub mod Dates
pub mod Window
use mathlib.Core.List.{Memᴰ}
use mathlib.Core.List.Memᴰ
use headwater.Prelude.{
  ℕ, ◌+◌, ◌-◌, ◌*◌, Bool, true, false, not, ◌&&◌, Option, none, some, List, [], ◌∷◌, ◌++◌, map,
  keep, length, is_some, Text, codes, strip, text_eq, ltb, ◌==◌, if◌then◌else◌,
}
use headwater.Dict.{lookup}
use headwater.Exec.{Exec, Result, ok, raise, pure, ◌>>=◌}
use headwater.RateLimiter.Info.{second}
use headwater.Redis.Client.{Server}
use headwater.RecordStore
use headwater.RecordStore.{StoredRecord, RecordStore}
use headwater.RecordStore.Sort.{sort}
use headwater.Webhooks.{Http}
use headwater.Monitors.{Entry, Monitor}
use headwater.Scheduler.{Env, Service, Problem, value_error, on_monitors}

-- An entry of a history, with the monitor that it is of
pub record Observed (V : Type 0) : Type 0 where
  pub entry : Entry V
  pub monitor_id : Text

-- The two answers of `get_place_history`; the first is for a place that no monitor covers.
pub data PlaceHistory (V : Type 0) : Type 0 where
  unmonitored : (place_id : Text) → PlaceHistory V
  monitored :
      (place_id : Text) (monitor_ids : List Text) (history : List (Observed V)) (total : ℕ)
      → PlaceHistory V

-- `text.replace("Z", "+00:00")`
abbrev utc_offset : Text → Text
utc_offset [] = []
utc_offset (c ∷ t) = if c == b'Z' then codes "+00:00" ++ utc_offset t else c ∷ utc_offset t

abbrev day : ℕ
day = 86400 * second

-- A date alone as an end is the last millionth of a second of that day.
abbrev bound : (last : Bool) (text : Text) → Option ℕ → Result Problem (Option ℕ)
bound last text none = raise value_error
bound last text (some t) = ok (some (if last && (length text == 10) then t + day - 1 else t))

unfoldable pub parse_boundary :
    (fromisoformat : Text → Option ℕ) → Option Text → (last : Bool) → Result Problem (Option ℕ)
parse_boundary fromisoformat none last = ok none
parse_boundary fromisoformat (some []) last = ok none
parse_boundary fromisoformat (some (c ∷ value)) last =
    let text = strip (c ∷ value) in bound last text (fromisoformat (utc_offset text))

module _ {V : Type 0} where
  abbrev pub not_before : Option ℕ → Entry V → Bool
  not_before none e = true
  not_before (some start) e = not (ltb e.timestamp start)

  abbrev pub not_after : Option ℕ → Entry V → Bool
  not_after none e = true
  not_after (some last) e = not (ltb last e.timestamp)

  -- `if field and field not in (entry.get("changes") or {}): continue`
  abbrev pub changed : Option Text → Entry V → Bool
  changed none e = true
  changed (some []) e = true
  changed (some (c ∷ field)) e = is_some (lookup (c ∷ field) e.changes)

  unfoldable pub is_shown : (start last : Option ℕ) (field : Option Text) → Entry V → Bool
  is_shown start last field e = not_before start e && not_after last e && changed field e

  -- The loops over the monitors and their entries
  unfoldable pub observations :
      (start last : Option ℕ) (field : Option Text)
      → List (StoredRecord (Monitor V))
      → List (Observed V)
  observations start last field [] = []
  observations start last field (r ∷ monitors) =
      map (λ e. record { entry = e; monitor_id = r.id })
        (keep (is_shown start last field) r.content.history)
      ++ observations start last field monitors

  abbrev pub time_of : Observed V → ℕ
  time_of o = o.entry.timestamp

  abbrev pub is_of : (place_id : Text) → StoredRecord (Monitor V) → Bool
  is_of place_id r = elim r.content.place_id [ none ↦ false | some p ↦ text_eq p place_id ]

  -- What is answered from the monitors that were listed
  unfoldable pub history_of :
      (place_id : Text) (start last : Option ℕ) (field : Option Text)
      → List (StoredRecord (Monitor V))
      → PlaceHistory V
  unfolding observations is_shown
  history_of place_id start last field [] = unmonitored place_id
  history_of place_id start last field (r ∷ monitors) =
      let entries = sort time_of false (observations start last field (r ∷ monitors)) in
      monitored place_id (map (λ r. r.id) (r ∷ monitors)) entries (length entries)

abbrev pub returned : {S A : Type 0} → Result Problem A → Exec S Problem A
returned r s = (r, s)

module _ {srv : Server} {http : Http} {V : Type 0} (env : Env V) where
  unfoldable pub get_place_history :
      (fromisoformat : Text → Option ℕ) (owner place_id : Text)
      (field start_date end_date : Option Text) (now : ℕ)
      → Exec (Service srv http V) Problem (PlaceHistory V)
  unfolding parse_boundary history_of
  get_place_history fromisoformat owner place_id field start_date end_date now = do
    start ← returned (parse_boundary fromisoformat start_date false)
    last ← returned (parse_boundary fromisoformat end_date true)
    monitors ← on_monitors (
        RecordStore.list_for_owner srv env.monitor_codec.from_json owner 500 0 (is_of place_id)
          (λ r. r.created_at) true now)
    pure (history_of place_id start last field monitors)
