-- ===== src/Tests/Ticks.antt =====
-- The service of place monitors.
use mathlib.Core.List.{Memᴰ}
use headwater.Scheduler.Known.{reached-known}
use headwater.Scheduler.Calls.{Checked}
use headwater.Scheduler.Ticks.{Readings, known_owners, run_due_checks}
use headwater.Scheduler.Ticks.Visits.{Visits, run_due_checks-Visits}
use headwater.Prelude.{Text, length, ℕ, ◌≡◌, refl, none, some, List, [], ◌∷◌, codes, arith}
use headwater.Exec.{ok}
use headwater.Redis.{is_available}
use headwater.RecordStore
use headwater.RecordStore.{StoredRecord}
use headwater.Monitors.{Monitor, created}
use headwater.Scheduler.{Env, Service, Seen, Codec, on_monitors}
use headwater.Scheduler.Calls.{Times}
use headwater.Scheduler.Index.{IsIndexed}
use headwater.Scheduler.Reached.{Call, create, check, delete, reached, IsOrdered, reached-IsIndexed}
use headwater.Tests.Fixtures.{counters, fresh_manager}
use headwater.Tests.Urls.{internet}
use headwater.Tests.Hooks.{flaky}
use headwater.Tests.Places.{rating, equal}

abbrev blank : (D : Type 0) → Codec D
blank D = record { to_json = λ r. codes "{}"; from_json = λ t. RecordStore.corrupt }

abbrev pub env : Env ℕ
env = record {
  net = internet;
  allowed = none;
  monitor_codec = blank (Monitor ℕ);
  owner_codec = blank Seen;
  webhook_codec = blank headwater.Webhooks.Stored.Webhook;
  same = equal;
  sign = λ secret body. secret;
  outgoing = λ i e. record {
    body = e.monitor_id;
    headers = λ s. [];
    clock = record { started = 4; ended = 5; delivered_at = 5; written = 5; reread = 6 };
  };
}

abbrev pub empty : Service counters flaky ℕ
empty = record {
  manager = fresh_manager;
  monitors = record {
    namespace = codes "maps:monitors";
    ttl_seconds = 60;
    memory = [];
    manager = fresh_manager;
  };
  owners = record {
    namespace = codes "maps:monitor-owners";
    ttl_seconds = 60;
    memory = [];
    manager = fresh_manager;
  };
  webhooks = record {
    namespace = codes "maps:webhooks";
    ttl_seconds = 60;
    memory = [];
    manager = fresh_manager;
  };
  wire = record { state = 0; sent = []; slept = [] };
}

abbrev at : ℕ → Times
at n = record {
  read = n;
  now = n;
  stored = n;
  reread = n;
  seen_at = n;
  noted = n;
  renoted = n;
  listed = n;
}

-- Ann makes two monitors, of which one is checked and the other deleted.
abbrev calls : List (Call ℕ)
calls =
    delete (codes "ann") (codes "2") (at 40)
    ∷ check (codes "ann") (codes "1") (λ m. rating 5) (at 30)
    ∷ create (codes "ann") (codes "2") (some (codes "q")) none none 1 [] (at 20)
    ∷ create (codes "ann") (codes "1") (some (codes "p")) none none 1 [] (at 10)
    ∷ []

empty-IsIndexed : IsIndexed 5 empty
unfolding is_available
empty-IsIndexed = record {
  local = refl;
  monitors_owned = record { filed = tt; distinct = tt };
  owners_owned = record { filed = tt; distinct = tt };
  same_ttl = refl;
  covered = tt;
}

calls-IsOrdered : IsOrdered 5 calls
calls-IsOrdered = (
  (refl, (refl, (refl, tt))),
  omega arith,
  omega arith,
  (
    (refl, (refl, (refl, tt))),
    omega arith,
    omega arith,
    (
      (refl, (refl, (refl, tt))),
      omega arith,
      omega arith,
      ((refl, (refl, (refl, tt))), omega arith, omega arith, tt),
    ),
  ),
)

reached-IsIndexed_example : IsIndexed 40 (reached env calls empty)
reached-IsIndexed_example = reached-IsIndexed env 5 calls empty empty-IsIndexed calls-IsOrdered

abbrev one_call : List (Call ℕ)
one_call = create (codes "a") (codes "1") (some (codes "p")) none none 1 [] (at 10) ∷ []

abbrev kept : StoredRecord (Monitor ℕ)
kept = record {
  id = codes "1";
  owner = codes "a";
  content = created (some (codes "p")) none none 1 [] 10;
  created_at = 10;
  updated_at = 10;
}

kept-stands :
    (on_monitors
      (RecordStore.get counters env.monitor_codec.to_json env.monitor_codec.from_json
        (codes "a")
        (codes "1")
        50)
      (reached env one_call empty)).0
    ≡ ok (some kept)
unfolding RecordStore.get RecordStore.get_redis is_available
    headwater.Scheduler.Calls.create_monitor headwater.Scheduler.Calls.check_request RecordStore.put
    RecordStore.store RecordStore.get_memory headwater.Dict.lookup
    headwater.Scheduler.Calls.remember_owner headwater.Dict.put headwater.Prelude.text_eq
    RecordStore.key_of
kept-stands = refl

few : length (reached env one_call empty).owners.memory ≡ 1
unfolding RecordStore.get RecordStore.get_redis is_available
    headwater.Scheduler.Calls.create_monitor headwater.Scheduler.Calls.check_request RecordStore.put
    RecordStore.store RecordStore.get_memory headwater.Dict.lookup
    headwater.Scheduler.Calls.remember_owner headwater.Dict.put headwater.Prelude.text_eq
    RecordStore.key_of
few = refl

reached-known_example :
    (owners : List Text) × ((known_owners env 50 (reached env one_call empty)).0 ≡ ok owners)
    × Memᴰ (codes "a") owners
reached-known_example =
    reached-known env 5 one_call empty (codes "a") (codes "1") 50 kept empty-IsIndexed
      ((refl, tt), omega arith, omega arith, tt) (refl, tt) (omega (arith, few)) kept-stands

known_a : (known_owners env 60 (reached env one_call empty)).0 ≡ ok (codes "a" ∷ [])
unfolding RecordStore.get RecordStore.get_redis is_available
    headwater.Scheduler.Calls.create_monitor headwater.Scheduler.Calls.check_request RecordStore.put
    RecordStore.store RecordStore.get_memory headwater.Dict.lookup
    headwater.Scheduler.Calls.remember_owner headwater.Dict.put headwater.Prelude.text_eq
    RecordStore.key_of known_owners RecordStore.list_for_owner RecordStore.all_records
    headwater.RecordStore.Sort.sort RecordStore.records_of RecordStore.sweep
    headwater.Dict.remove_all headwater.Dict.keys_where headwater.Prelude.starts_with
    RecordStore.prefix_of headwater.RecordStore.Sort.insert
known_a = refl

abbrev readings : Readings
readings = record { index = 60; due = λ o. 61; check = λ o i. at 62 }

run_due_checks-Visits_example :
    (results : List (Checked ℕ)) × (s' : Service counters flaky ℕ) × (run_due_checks env
        (λ o i m. rating 5)
        readings
        60
        (reached env one_call empty)
      ≡ (ok results, s'))
    × Visits env
        (λ o i m. rating 5)
        readings
        60
        (codes "a" ∷ [])
        (known_owners env 60 (reached env one_call empty)).1
        results
        s'
run_due_checks-Visits_example =
    run_due_checks-Visits env (λ o i m. rating 5) readings 60 (codes "a" ∷ [])
      (reached env one_call empty) known_a
