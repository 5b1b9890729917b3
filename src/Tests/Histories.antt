-- ===== src/Tests/Histories.antt =====
-- The recorded history of a place.
use headwater.Prelude.{ℕ, true, none, some, List, [], ◌∷◌, codes}
use headwater.RecordStore
use headwater.RecordStore.{StoredRecord}
use headwater.Monitors.{Monitor, created}
use headwater.Scheduler.{Service}
use headwater.Tests.Fixtures.{counters, fresh_manager}
use headwater.Tests.Hooks.{flaky}
use headwater.Tests.Ticks.{empty}

abbrev watched : StoredRecord (Monitor ℕ)
watched = record {
  id = codes "1";
  owner = codes "a";
  content = record (created (some (codes "p")) none none 1 [] 10) {
    history = record { timestamp = 30; changes = []; snapshot = []; baseline = true } ∷ [];
  };
  created_at = 10;
  updated_at = 30;
}

abbrev watching : Service counters flaky ℕ
watching = record empty {
  monitors = record {
    namespace = codes "m";
    ttl_seconds = 60;
    memory = (codes "m:a:1", (900, watched)) ∷ [];
    manager = fresh_manager;
  };
}
