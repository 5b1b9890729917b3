-- ===== src/Tests/Scrapes.antt =====
-- Scrape jobs and their store. A time is a count of days, written as one code.
use headwater.RecordStore
use headwater.Prelude.{
  ne_of_text, ℕ, ◌≡◌, ◌≢◌, ◌≤◌, refl, none, some, List, [], ◌∷◌, Option, Text, codes, length, All,
}
use headwater.Exec.{ok}
use headwater.Redis.{is_available}
use headwater.RecordStore.{Decoding, StoredRecord, RecordStore}
use headwater.RecordStore.Memory.{IsOwned, IsLocal}
use headwater.Jobs.{ScrapeJob, Payload, pending, to_record, from_record}
use headwater.Jobs.Store.{create, list_for_owner}
use headwater.Jobs.Records.{from_record-to_record}
use headwater.Jobs.Listing.{IsJobStore, create-IsJobStore, list_for_owner-IsJobStore}
use headwater.Tests.Fixtures.{counters, fresh_manager}

abbrev isoformat : ℕ → Text
isoformat d = d ∷ []

abbrev fromisoformat : Text → Option ℕ
fromisoformat [] = none
fromisoformat (c ∷ text) = some c

reads_back : (d : ℕ) → fromisoformat (isoformat d) ≡ some d
reads_back d = refl

abbrev cafes : ScrapeJob ℕ Text
cafes = record {
  id = codes "7";
  name = codes "cafes";
  query = codes "cafes in Bonn";
  owner = codes "ann";
  status = pending;
  created_at = 3;
  completed_at = some 4;
  results = codes "Mocca" ∷ [];
  error = none;
  selectors_stale = headwater.Prelude.false;
  empty_unverified = headwater.Prelude.true;
  progress = 1;
  total = 1;
  language = codes "de";
  max_results = 5;
  zoom = 12;
  geo_coordinates = none;
  email_extraction = headwater.Prelude.false;
}

abbrev to_json : StoredRecord (Payload Text) → Text
to_json r = codes "{}"

abbrev from_json : Text → Decoding (Payload Text)
from_json t = RecordStore.corrupt

abbrev no_jobs : RecordStore counters (Payload Text)
no_jobs = record {
  namespace = codes "maps:jobs";
  ttl_seconds = 60;
  memory = [];
  manager = fresh_manager;
}

no_jobs-IsOwned : IsOwned counters no_jobs
no_jobs-IsOwned = record { filed = tt; distinct = tt }

no_jobs-IsLocal : IsLocal counters no_jobs
unfolding is_available
no_jobs-IsLocal = refl

no_jobs-IsJobStore : IsJobStore counters isoformat no_jobs
no_jobs-IsJobStore = record { owned = no_jobs-IsOwned; local = no_jobs-IsLocal; jobs = tt }

from_record-to_record_example : from_record fromisoformat 9 (to_record isoformat cafes) ≡ ok cafes
from_record-to_record_example =
    from_record-to_record isoformat fromisoformat reads_back refl 9 cafes

ann_apart : codes "ann" ≢ codes "bob"
unfolding headwater.Prelude.text_eq
ann_apart = ne_of_text (codes "ann") (codes "bob") refl

one_job-IsJobStore :
    IsJobStore counters isoformat (create counters isoformat to_json from_json 5 6 cafes no_jobs).1
one_job-IsJobStore =
    create-IsJobStore counters isoformat to_json from_json cafes 5 6 no_jobs no_jobs-IsJobStore
      (refl, (refl, (refl, tt)))

abbrev one_job : RecordStore counters (Payload Text)
one_job = (create counters isoformat to_json from_json 5 6 cafes no_jobs).1

list_for_owner-IsJobStore_example :
    (jobs : List (ScrapeJob ℕ Text)) × ((list_for_owner counters fromisoformat to_json from_json
        (λ i. i)
        (codes "ann")
        none
        50
        0
        8
        one_job).0
      ≡ ok jobs)
    × All (λ job. job.owner ≡ codes "ann") jobs
    × (length jobs ≤ 50)
    × IsJobStore counters isoformat
        (list_for_owner counters fromisoformat to_json from_json
          (λ i. i)
          (codes "ann")
          none
          50
          0
          8
          one_job).1
list_for_owner-IsJobStore_example =
    list_for_owner-IsJobStore counters isoformat to_json from_json fromisoformat (λ i. i) reads_back
      refl (codes "ann") none 50 0 8 one_job one_job-IsJobStore (refl, (refl, (refl, tt)))
