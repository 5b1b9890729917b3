-- ===== src/Jobs.antt =====
-- Scrape jobs, app/services/google_maps/scraper_jobs.py: the job, its form in the store, and the
-- store of the owners' jobs over the record store. The rows of a job's results and the type
-- `datetime` are parameters, with `isoformat` and `fromisoformat`, which may fail. `to_dict`, the
-- lossy form for responses, is left out.
pub mod Records
pub mod Store
pub mod Owners
pub mod Listing
use headwater.Prelude.{
  suc, ℕ, Bool, false, Option, none, some, List, [], ◌∷◌, Text, codes, text_eq, if◌then◌else◌,
}
use headwater.Exec
use headwater.Exec.{Exec, Result, ok}
use headwater.Exec.Checks.{◌>>=◌, given}
use headwater.RecordStore
use headwater.RecordStore.{StoredRecord, RecordStore, Failure}

pub data JobStatus : Type 0 where
  pending running completed failed : JobStatus

abbrev pub value : JobStatus → Text
value pending = codes "pending"
value running = codes "running"
value completed = codes "completed"
value failed = codes "failed"

-- `JobStatus(text)`
unfoldable pub status_of : Text → Option JobStatus
status_of t =
    if text_eq t (codes "pending")
    then some pending
    else if text_eq t (codes "running")
    then some running
    else if text_eq t (codes "completed")
    then some completed
    else if text_eq t (codes "failed")
    then some failed
    else none

pub record ScrapeJob (DateTime Row : Type 0) : Type 0 where
  pub id : Text
  pub name : Text
  pub query : Text
  pub owner : Text
  pub status : JobStatus
  pub created_at : DateTime
  pub completed_at : Option DateTime
  pub results : List Row
  pub error : Option Text
  pub selectors_stale : Bool
  pub empty_unverified : Bool
  pub progress : ℕ
  pub total : ℕ
  pub language : Text
  pub max_results : ℕ
  pub zoom : ℕ
  pub geo_coordinates : Option Text
  pub email_extraction : Bool

-- The dictionary that is stored, by key: `none` where the key is missing, or, for the four that may
-- be `None`, has that value. Other keys, which `from_record` drops, are left out, and a value has the
-- type of its field.
pub record Payload (Row : Type 0) : Type 0 where
  pub id : Option Text
  pub name : Option Text
  pub query : Option Text
  pub owner : Option Text
  pub status : Option Text
  pub created_at : Option Text
  pub completed_at : Option Text
  pub results : Option (List Row)
  pub error : Option Text
  pub selectors_stale : Option Bool
  pub empty_unverified : Option Bool
  pub progress : Option ℕ
  pub total : Option ℕ
  pub language : Option Text
  pub max_results : Option ℕ
  pub zoom : Option ℕ
  pub geo_coordinates : Option Text
  pub email_extraction : Option Bool

-- `ValueError` of an owner, `ValueError` of a status or a time, `TypeError` of a missing argument,
-- and what the record store raises.
pub data Refusal : Type 0 where
  owner_required bad_value missing_argument : Refusal
  store_failure : Failure → Refusal

abbrev pub default : {A : Type 0} → A → Option A → A
default a none = a
default a (some b) = b

module _ {DateTime : Type 0} (isoformat : DateTime → Text) where
  abbrev pub iso_or_none : Option DateTime → Option Text
  iso_or_none none = none
  iso_or_none (some d) = some (isoformat d)

  unfoldable pub to_record : {Row : Type 0} → ScrapeJob DateTime Row → Payload Row
  to_record job = record {
    id = some job.id;
    name = some job.name;
    query = some job.query;
    owner = some job.owner;
    status = some (value job.status);
    created_at = some (isoformat job.created_at);
    completed_at = iso_or_none job.completed_at;
    results = some job.results;
    error = job.error;
    selectors_stale = some job.selectors_stale;
    empty_unverified = some job.empty_unverified;
    progress = some job.progress;
    total = some job.total;
    language = some job.language;
    max_results = some job.max_results;
    zoom = some job.zoom;
    geo_coordinates = job.geo_coordinates;
    email_extraction = some job.email_extraction;
  }

module _ {DateTime : Type 0} (fromisoformat : Text → Option DateTime) where
  -- `datetime.fromisoformat(text) if text else otherwise`
  unfoldable pub time_of : {A : Type 0} → A → (DateTime → A) → Option Text → Result Refusal A
  time_of otherwise f none = ok otherwise
  time_of otherwise f (some []) = ok otherwise
  time_of otherwise f (some (c ∷ text)) = do
    d ← given bad_value (fromisoformat (c ∷ text))
    ok (f d)

  -- `now` is what the clock says, read only where the time of creation is missing.
  unfoldable pub from_record :
      {Row : Type 0} (now : DateTime) → Payload Row → Result Refusal (ScrapeJob DateTime Row)
  from_record now payload = do
    status ← given bad_value (status_of (default (value pending) payload.status))
    created_at ← time_of now (λ d. d) payload.created_at
    completed_at ← time_of none some payload.completed_at
    id ← given missing_argument payload.id
    name ← given missing_argument payload.name
    query ← given missing_argument payload.query
    ok (record {
      id = id;
      name = name;
      query = query;
      owner = default [] payload.owner;
      status = status;
      created_at = created_at;
      completed_at = completed_at;
      results = default [] payload.results;
      error = payload.error;
      selectors_stale = default false payload.selectors_stale;
      empty_unverified = default false payload.empty_unverified;
      progress = default 0 payload.progress;
      total = default 0 payload.total;
      language = default (codes "en") payload.language;
      max_results = default 20 payload.max_results;
      zoom = default 15 payload.zoom;
      geo_coordinates = payload.geo_coordinates;
      email_extraction = default false payload.email_extraction;
    })

-- The records of a store of jobs
module _ {DateTime : Type 0} (fromisoformat : Text → Option DateTime) (clock : ℕ → DateTime) where
  -- The jobs of a listing; `clock` gives what the clock says at each.
  unfoldable pub jobs_of :
      {Row : Type 0}
      → ℕ
      → List (StoredRecord (Payload Row))
      → Result Refusal (List (ScrapeJob DateTime Row))
  jobs_of i [] = ok []
  jobs_of i (r ∷ rs) = do
    job ← from_record fromisoformat (clock i) r.content
    jobs ← jobs_of (suc i) rs
    ok (job ∷ jobs)

  abbrev pub job_of :
      {Row : Type 0}
      → Option (StoredRecord (Payload Row))
      → Result Refusal (Option (ScrapeJob DateTime Row))
  job_of none = ok none
  job_of (some r) = do job ← from_record fromisoformat (clock 0) r.content; ok (some job)
