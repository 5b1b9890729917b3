-- ===== src/Jobs/Store.antt =====
-- `JobStore` of app/services/google_maps/scraper_jobs.py, on a record store whose payloads are the
-- dictionaries of jobs. `now` and `later` are the two readings of the clock that `put` makes.
use headwater.Prelude.{ℕ, Bool, true, Option, none, some, List, [], ◌∷◌, Text, text_eq}
use headwater.Exec.{Exec, Result, ok, raise, pure, ◌>>=◌, ◌>>◌}
use headwater.Redis.Client.{Server}
use headwater.RecordStore
use headwater.RecordStore.{Decoding, StoredRecord, RecordStore, Failure}
use headwater.Jobs.{
  jobs_of, job_of, ScrapeJob, Payload, Refusal, owner_required, store_failure, to_record,
}

abbrev pub refusal_of : {A : Type 0} → Result Failure A → Result Refusal A
refusal_of (ok a) = ok a
refusal_of (raise e) = raise (store_failure e)

-- A call of the record store
abbrev pub stored : {S A : Type 0} → Exec S Failure A → Exec S Refusal A
stored m s = let (r, s') = m s in (refusal_of r, s')

abbrev pub done : {S A : Type 0} → Result Refusal A → Exec S Refusal A
done r s = (r, s)

-- `record.data.get("status") == status`, where a status is asked for
abbrev pub status_matches : {Row : Type 0} → Option Text → StoredRecord (Payload Row) → Bool
status_matches none r = true
status_matches (some []) r = true
status_matches (some (c ∷ status)) r = elim r.content.status [
  | none ↦ headwater.Prelude.false
  | some t ↦ text_eq t (c ∷ status)
]

-- `_require_owner`
unfoldable pub require_owner :
    {DateTime Row : Type 0} → ScrapeJob DateTime Row → Result Refusal Text
require_owner job = elim job.owner [ [] ↦ raise owner_required | c ∷ owner ↦ ok (c ∷ owner) ]

module _ (srv : Server) {DateTime Row : Type 0} (isoformat : DateTime → Text)
    (to_json : StoredRecord (Payload Row) → Text) (from_json : Text → Decoding (Payload Row)) where
  unfoldable pub create :
      (now later : ℕ) (job : ScrapeJob DateTime Row)
      → Exec (RecordStore srv (Payload Row)) Refusal (ScrapeJob DateTime Row)
  create now later job = do
    owner ← done (require_owner job)
    stored (RecordStore.put srv to_json from_json owner job.id (to_record isoformat job) now later)
    pure job

  -- `update` has the body of `create`.
  unfoldable pub update :
      (now later : ℕ) (job : ScrapeJob DateTime Row)
      → Exec (RecordStore srv (Payload Row)) Refusal (ScrapeJob DateTime Row)
  update now later job = do
    owner ← done (require_owner job)
    stored (RecordStore.put srv to_json from_json owner job.id (to_record isoformat job) now later)
    pure job

module _ (srv : Server) {DateTime Row : Type 0} (fromisoformat : Text → Option DateTime)
    (to_json : StoredRecord (Payload Row) → Text) (from_json : Text → Decoding (Payload Row)) where
  unfoldable pub get :
      (clock : ℕ → DateTime) (owner job_id : Text) (now : ℕ)
      → Exec (RecordStore srv (Payload Row)) Refusal (Option (ScrapeJob DateTime Row))
  get clock owner job_id now = do
    record' ← stored (RecordStore.get srv to_json from_json owner job_id now)
    done (job_of fromisoformat clock record')

  unfoldable pub list_for_owner :
      (clock : ℕ → DateTime) (owner : Text) (status : Option Text) (limit offset : ℕ) (now : ℕ)
      → Exec (RecordStore srv (Payload Row)) Refusal (List (ScrapeJob DateTime Row))
  list_for_owner clock owner status limit offset now = do
    records ← stored (
        RecordStore.list_for_owner srv from_json owner limit offset (status_matches status)
          (λ r. r.created_at) true now)
    done (jobs_of fromisoformat clock 0 records)

unfoldable pub delete :
    (srv : Server) {Row : Type 0} (owner job_id : Text)
    → Exec (RecordStore srv (Payload Row)) Refusal Bool
delete srv owner job_id = stored (RecordStore.delete srv owner job_id)
