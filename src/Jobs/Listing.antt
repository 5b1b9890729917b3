-- ===== src/Jobs/Listing.antt =====
-- What a listing of jobs gives, with no connection to Redis.
use headwater.Prelude.{
  Bool-cases, inl, inr, ℕ, suc, ◌≤◌, ◌≡◌, ◌∙◌, refl, ap, true, Option, none, some, List, [], ◌∷◌,
  Text, is_empty, All, All-take, All-drop, arith, take, drop, length, length-take,
}
use headwater.Exec.{ok}
use headwater.Redis.Client.{Server}
use headwater.RecordStore
use headwater.RecordStore.{Decoding, StoredRecord, RecordStore, sweep}
use headwater.Prelude.{NoColon}
use headwater.RecordStore.Memory.{IsOwned, IsLocal, put_state, put-All_local}
use headwater.RecordStore.Listing.{
  sweep-All, sweep-IsOwned, listed, listed-All, listed-owner, list_local,
}
use headwater.RecordStore.Isolation.{put-IsOwned}
use headwater.Jobs.{ScrapeJob, Payload, to_record, from_record, jobs_of}
use headwater.Jobs.Records.{from_record-to_record}
use headwater.Jobs.Store.{create, list_for_owner, status_matches}
use headwater.Jobs.Owners.{create_local, create_refused}

module _ {DateTime Row : Type 0} (isoformat : DateTime → Text) where
  -- The record is that of a job, and stands under the job's owner and id.
  abbrev pub IsJob : StoredRecord (Payload Row) → Type 0
  IsJob r =
      (job : ScrapeJob DateTime Row) × (r.content ≡ to_record isoformat job)
      × (job.owner ≡ r.owner)
      × (job.id ≡ r.id)

  module _ (fromisoformat : Text → Option DateTime) (clock : ℕ → DateTime)
      (reads_back : (d : DateTime) → fromisoformat (isoformat d) ≡ some d)
      (no_time : fromisoformat [] ≡ none) where
    jobs_of-owner :
        (owner : Text) (i : ℕ) (rs : List (StoredRecord (Payload Row)))
        → All IsJob rs
        → All (λ r. r.owner ≡ owner) rs
        → (jobs : List (ScrapeJob DateTime Row)) × (jobs_of fromisoformat clock i rs ≡ ok jobs)
          × All (λ job. job.owner ≡ owner) jobs
          × (length jobs ≡ length rs)
    unfolding jobs_of
    jobs_of-owner owner i [] h o = ([], refl, tt, refl)
    jobs_of-owner owner i (r ∷ rs) ((job, is, own, id), h) (mine, o) =
        let (jobs, e, all, len) = jobs_of-owner owner (suc i) rs h o in
        let back : from_record fromisoformat (clock i) r.content ≡ ok job =
          ap (from_record fromisoformat (clock i)) is
          ∙ from_record-to_record isoformat fromisoformat reads_back no_time (clock i) job in
        (job ∷ jobs, rw (back, e) refl, (own ∙ mine, all), ap suc len)

module _ (srv : Server) {DateTime Row : Type 0} (isoformat : DateTime → Text) where
  -- All records are those of jobs, under their owners, in a store with no connection to Redis.
  pub record IsJobStore (s : RecordStore srv (Payload Row)) : Type 0 where
    pub owned : IsOwned srv s
    pub local : IsLocal srv s
    pub jobs : All (λ e. IsJob isoformat e.1.1) s.memory

  swept-IsJobStore :
      (now : ℕ) (s : RecordStore srv (Payload Row))
      → IsJobStore s
      → IsJobStore (record s { memory = sweep srv now s.memory })
  swept-IsJobStore now s h = record {
    owned = sweep-IsOwned srv now s h.owned;
    local = h.local;
    jobs = sweep-All srv (λ e. IsJob isoformat e.1.1) now s.memory h.owned.distinct h.jobs;
  }

module _ (srv : Server) {DateTime Row : Type 0} (isoformat : DateTime → Text)
    (to_json : StoredRecord (Payload Row) → Text) (from_json : Text → Decoding (Payload Row)) where
  put-jobs :
      (job : ScrapeJob DateTime Row) (now later : ℕ) (s : RecordStore srv (Payload Row))
      → IsLocal srv s
      → All (λ e. IsJob isoformat e.1.1) s.memory
      → All
          (λ e. IsJob isoformat e.1.1)
          (RecordStore.put srv to_json from_json job.owner job.id
            (to_record isoformat job)
            now
            later
            s).1.memory
  put-jobs job now later s l h =
      put-All_local srv to_json from_json (λ e. IsJob isoformat e.1.1) job.owner job.id
        (to_record isoformat job) now later s l (job, refl, refl, refl) h

  -- From a store that holds jobs under their owners and ids, with no connection to Redis, the
  -- creation of a job leads to such a store, if its owner has no colon.
  pub create-IsJobStore :
      (job : ScrapeJob DateTime Row) (now later : ℕ) (s : RecordStore srv (Payload Row))
      → IsJobStore srv isoformat s
      → NoColon job.owner
      → IsJobStore srv isoformat (create srv isoformat to_json from_json now later job s).1
  create-IsJobStore job now later s h n = elim (Bool-cases (is_empty job.owner)) [
    | inl e ↦ rw (create_refused srv isoformat to_json from_json now later job s e) h
    | inr e ↦ rw (create_local srv isoformat to_json from_json now later job s h.local e) (record {
      owned =
          put-IsOwned srv to_json from_json job.owner job.id (to_record isoformat job) now later s
            h.owned h.local n;
      local =
          (put_state srv to_json from_json job.owner job.id (to_record isoformat job) now later s
            h.local).0;
      jobs = put-jobs job now later s h.local h.jobs;
    })
  ]

  module _ (fromisoformat : Text → Option DateTime) (clock : ℕ → DateTime)
      (reads_back : (d : DateTime) → fromisoformat (isoformat d) ≡ some d)
      (no_time : fromisoformat [] ≡ none) where
    -- Where `fromisoformat` reads what `isoformat` writes and refuses the empty text, in a store that
    -- holds jobs under their owners and ids, with no connection to Redis: a listing never fails, it
    -- gives jobs of the owner that asks only, and no more than the limit, whatever the status asked
    -- for and the offset, and it leaves such a store.
    pub list_for_owner-IsJobStore :
        (owner : Text) (status : Option Text) (limit offset now : ℕ)
        (s : RecordStore srv (Payload Row))
        → IsJobStore srv isoformat s
        → NoColon owner
        → (jobs : List (ScrapeJob DateTime Row)) × ((list_for_owner srv fromisoformat to_json
              from_json clock owner status limit offset now s).0
            ≡ ok jobs)
          × All (λ job. job.owner ≡ owner) jobs
          × (length jobs ≤ limit)
          × IsJobStore srv isoformat
              (list_for_owner srv fromisoformat to_json from_json clock owner status limit offset
                now s).1
    unfolding list_for_owner
    list_for_owner-IsJobStore owner status limit offset now s h n =
        let all = listed srv owner (status_matches status) (λ r. r.created_at) true now s in
        let page = take limit (drop offset all) in
        let is_page : (P : StoredRecord (Payload Row) → Type 0) → All P all → All P page =
          λ P q. All-take P limit (drop offset all) (All-drop P offset all q) in
        let (jobs, e, own, len) =
          jobs_of-owner isoformat fromisoformat clock reads_back no_time owner 0 page
            (is_page (IsJob isoformat) (
              listed-All srv owner (status_matches status) (λ r. r.created_at) true now s
                (IsJob isoformat) h.owned h.jobs))
            (is_page (λ r. r.owner ≡ owner)
              (listed-owner srv owner (status_matches status) (λ r. r.created_at) true now s h.owned
                n)) in
        rw
          (list_local srv owner (status_matches status) (λ r. r.created_at) true now s from_json
            limit offset h.local)
          (
            jobs,
            rw e refl,
            own,
            omega (arith, len, length-take limit (drop offset all)),
            swept-IsJobStore srv isoformat now s h,
          )
