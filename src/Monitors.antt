-- ===== src/Monitors.antt =====
-- The checks of place monitors in app/services/google_maps_monitors.py: what a check makes of a
-- monitor's stored data. The scrape is given by its result, values are of any type with the test
-- of `==` as a parameter, and the storing of the data and the webhooks are left to the caller.
pub mod Changes
pub mod Checks
use headwater.RateLimiter.Info.{second}
use headwater.Prelude.{
  max, ℕ, ◌+◌, ◌-◌, ◌*◌, Bool, true, false, Option, none, some, List, [], ◌∷◌, ◌++◌, Text, codes,
  length, drop, is_empty, if◌then◌else◌,
}
use headwater.Dict.{Dict, lookup, put}

module _ (V : Type 0) where
  -- `{"old": ..., "new": ...}` for each field
  abbrev pub Changes : Type 0
  Changes = Dict (V × V)

  -- One entry of the history; `baseline` is its kind, the other one being a change.
  pub record Entry : Type 0 where
    pub timestamp : ℕ
    pub changes : Changes
    pub snapshot : Dict V
    pub baseline : Bool

  pub record Monitor : Type 0 where
    pub place_id : Option Text
    pub url : Option Text
    pub webhook_url : Option Text
    pub check_interval_hours : ℕ
    pub track_fields : List Text
    pub status : Text
    pub next_check : ℕ
    pub last_checked : Option ℕ
    pub last_error : Option Text
    pub check_count : ℕ
    pub change_count : ℕ
    pub last_snapshot : Option (Dict V)
    pub history : List Entry

  -- What the scrape returned, or the exception that it raised; a field may be `None`, and an
  -- absent message or place is empty.
  pub record Fetched : Type 0 where
    pub error : Bool
    pub message : Text
    pub place : Dict (Option V)

abbrev pub max_history_entries : ℕ
max_history_entries = 200

abbrev pub default_track_fields : List Text
default_track_fields =
    codes "name"
    ∷ codes "address"
    ∷ codes "phone"
    ∷ codes "website"
    ∷ codes "hours"
    ∷ codes "rating"
    ∷ codes "review_count"
    ∷ codes "price_level"
    ∷ codes "category"
    ∷ []

module _ {V : Type 0} where
  -- `place.get(field)`
  unfoldable pub field_of : Text → Dict (Option V) → Option V
  field_of field p = elim (lookup field p) [ none ↦ none | some v ↦ v ]

  -- `_snapshot`, added to a snapshot of other fields
  unfoldable pub snapshot_from : Dict V → Dict (Option V) → (track_fields : List Text) → Dict V
  snapshot_from seen p [] = seen
  snapshot_from seen p (field ∷ fields) = elim (field_of field p) [
    | none ↦ snapshot_from seen p fields
    | some v ↦ snapshot_from (put field v seen) p fields
  ]

  unfoldable pub snapshot : Dict (Option V) → (track_fields : List Text) → Dict V
  snapshot = snapshot_from []

  -- `{**previous, **current}`
  unfoldable pub merge : (previous current : Dict V) → Dict V
  merge previous [] = previous
  merge previous ((field, v) ∷ current) = merge (put field v previous) current

  module _ (same : V → V → Bool) where
    -- The loop of `_diff`; the keys of a dictionary are distinct, so each change is a new key.
    unfoldable pub diff_with : (previous current : Dict V) → Changes V
    diff_with previous [] = []
    diff_with previous ((field, new) ∷ current) =
        let rest = diff_with previous current in
        elim (lookup field previous) [
          | none ↦ rest
          | some old ↦ if same old new then rest else (field, (old, new)) ∷ rest
        ]

    unfoldable pub diff : (previous : Option (Dict V)) (current : Dict V) → Changes V
    diff none current = []
    diff (some previous) current = diff_with previous current

    -- `previous or {}`, and `data.get("track_fields") or list(DEFAULT_TRACK_FIELDS)`
    abbrev pub or_empty : Option (Dict V) → Dict V
    or_empty none = []
    or_empty (some d) = d

    abbrev pub tracked : List Text → List Text
    tracked [] = default_track_fields
    tracked (f ∷ fs) = f ∷ fs

    -- `history[-MAX_HISTORY_ENTRIES:]`
    abbrev pub bounded : List (Entry V) → List (Entry V)
    bounded h = drop (length h - max_history_entries) h

    abbrev pub is_none : Option (Dict V) → Bool
    is_none none = true
    is_none (some d) = false

    unfoldable pub add_history :
        (now : ℕ) (previous : Option (Dict V)) (changes : Changes V) (snap : Dict V)
        → List (Entry V)
        → List (Entry V)
    add_history now previous changes snap history =
        let entry : Bool → Entry V =
          λ b. record { timestamp = now; changes = changes; snapshot = snap; baseline = b } in
        if is_none previous
        then bounded (history ++ (entry true) ∷ [])
        else if is_empty changes
        then history
        else bounded (history ++ (entry false) ∷ [])

    unfoldable pub is_failed : Fetched V → Bool
    is_failed r = if r.error then true else is_empty r.place

    -- `check_monitor`, from the scrape and the stored data to the new data: a failed scrape, and
    -- one that found the place.
    unfoldable pub failed_check : (now : ℕ) → (message : Text) → Monitor V → Monitor V
    failed_check now message m = record m {
      last_checked = some now;
      next_check = now + m.check_interval_hours * 3600 * second;
      check_count = m.check_count + 1;
      last_error = some (if is_empty message then codes "place lookup failed" else message);
    }

    unfoldable pub observed : (now : ℕ) → Dict (Option V) → Monitor V → Monitor V
    observed now place m =
        let snap = snapshot place (tracked m.track_fields) in
        let changes = diff m.last_snapshot snap in
        record m {
          history = add_history now m.last_snapshot changes snap m.history;
          last_snapshot = some (merge (or_empty m.last_snapshot) snap);
          last_checked = some now;
          next_check = now + m.check_interval_hours * 3600 * second;
          check_count = m.check_count + 1;
          last_error = none;
          change_count = if is_empty changes then m.change_count else m.change_count + 1;
        }

    unfoldable pub checked : (now : ℕ) → Fetched V → Monitor V → Monitor V
    checked now r m = if is_failed r then failed_check now r.message m else observed now r.place m

  -- The data that `create_monitor` stores, for an interval of at least an hour.
  unfoldable pub created :
      (place_id url webhook_url : Option Text) (hours : ℕ) (fields : List Text) (now : ℕ)
      → Monitor V
  created place_id url webhook_url hours fields now = record {
    place_id = place_id;
    url = url;
    webhook_url = webhook_url;
    check_interval_hours = max 1 hours;
    track_fields = elim fields [ [] ↦ default_track_fields | f ∷ fs ↦ f ∷ fs ];
    status = codes "active";
    next_check = now + max 1 hours * 3600 * second;
    last_checked = none;
    last_error = none;
    check_count = 0;
    change_count = 0;
    last_snapshot = none;
    history = [];
  }
