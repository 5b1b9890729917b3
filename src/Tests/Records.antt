-- ===== src/Tests/Records.antt =====
-- The record store.
use headwater.RecordStore
use headwater.Prelude.{
  Bool, ◌↔◌, take, drop, ne_of_text, ℕ, ◌≡◌, ◌≢◌, refl, true, some, List, [], ◌∷◌, Text, codes,
  arith,
}
use headwater.Dict.{lookup}
use headwater.Exec.{ok}
use headwater.Redis.{is_available}
use headwater.RecordStore.{Decoding, StoredRecord, RecordStore, get, key_of, list_for_owner}
use headwater.RecordStore.Isolation.{get-put_self, get-put_other}
use mathlib.Core.List.{Memᴰ}
use headwater.RecordStore.Order.{IsSorted}
use headwater.RecordStore.Complete.{list_for_owner-get}
use headwater.RecordStore.Memory.{IsOwned, IsLocal}
use headwater.Tests.Fixtures.{counters, fresh_manager}

abbrev to_json : StoredRecord ℕ → Text
to_json r = codes "{}"

abbrev from_json : Text → Decoding ℕ
from_json t = RecordStore.corrupt

abbrev job : StoredRecord ℕ
job = record { id = codes "1"; owner = codes "ann"; content = 4; created_at = 0; updated_at = 0 }

abbrev jobs : RecordStore counters ℕ
jobs = record {
  namespace = codes "jobs";
  ttl_seconds = 60;
  memory = (codes "jobs:ann:1", (60000000, job)) ∷ [];
  manager = fresh_manager;
}

jobs-IsOwned : IsOwned counters jobs
unfolding key_of lookup
jobs-IsOwned = record { filed = ((refl, (refl, (refl, (refl, tt)))), tt); distinct = (refl, tt) }

jobs-IsLocal : IsLocal counters jobs
unfolding is_available
jobs-IsLocal = refl

get_ann : (get counters to_json from_json (codes "ann") (codes "1") 5 jobs).0 ≡ ok (some job)
unfolding get key_of lookup is_available headwater.RecordStore.get_redis
    headwater.RecordStore.get_memory headwater.Prelude.text_eq
get_ann = refl

get-put_self_example :
    (r : StoredRecord ℕ) × ((get counters to_json from_json
        (codes "ann")
        (codes "1")
        10
        (headwater.RecordStore.put counters to_json from_json
          (codes "ann")
          (codes "1")
          9
          5
          6
          jobs).1).0
      ≡ ok (some r))
    × ((headwater.RecordStore.put counters to_json from_json (codes "ann") (codes "1") 9 5 6 jobs).0
        ≡ ok r)
    × ((r.owner ≡ codes "ann") × (r.id ≡ codes "1") × (r.content ≡ 9) × (r.updated_at ≡ 5))
    × ((old : StoredRecord ℕ)
        → (get counters to_json from_json (codes "ann") (codes "1") 6 jobs).0 ≡ ok (some old)
        → r.created_at ≡ old.created_at)
get-put_self_example =
    get-put_self counters to_json from_json (codes "ann") (codes "1") 9 5 6 10 jobs jobs-IsOwned
      jobs-IsLocal (omega arith) (omega arith)

ann_not_bob : codes "bob" ≢ codes "ann"
unfolding headwater.Prelude.text_eq
ann_not_bob = ne_of_text (codes "bob") (codes "ann") refl

get-put_other_example :
    (get counters to_json from_json
      (codes "ann")
      (codes "1")
      10
      (headwater.RecordStore.put counters to_json from_json
        (codes "bob")
        (codes "1")
        9
        5
        6
        jobs).1).0
    ≡ (get counters to_json from_json (codes "ann") (codes "1") 10 jobs).0
get-put_other_example =
    get-put_other counters to_json from_json (codes "bob") (codes "1") (codes "ann") (codes "1") 9 5
      6 10 jobs jobs-IsOwned jobs-IsLocal (refl, (refl, (refl, tt))) (refl, (refl, (refl, tt)))
      ann_not_bob (omega arith)

list_for_owner-get_example :
    (all : List (StoredRecord ℕ)) × ((limit offset : ℕ)
      → (list_for_owner counters from_json
          (codes "ann")
          limit
          offset
          (λ r. true)
          (λ r. r.created_at)
          true
          5
          jobs).0
        ≡ ok (take limit (drop offset all)))
    × IsSorted (λ r. r.created_at) true all
    × ((r : StoredRecord ℕ)
        → Memᴰ r all ↔ (
            (◌≡◌ {A = Bool} true true)
            × (r.owner ≡ codes "ann")
            × ((get counters to_json from_json (codes "ann") r.id 5 jobs).0 ≡ ok (some r))))
list_for_owner-get_example =
    list_for_owner-get counters to_json from_json (codes "ann") (λ r. true) (λ r. r.created_at) true
      5 jobs jobs-IsOwned jobs-IsLocal (refl, (refl, (refl, tt)))
