-- ===== src/Jobs/Owners.antt =====
-- What the calls of one owner do to the jobs of another, with no connection to Redis.
use headwater.Prelude.{
  ℕ, ◌+◌, ◌*◌, ◌≤◌, ◌≡◌, ◌≢◌, ◌∙◌, refl, sym, ap, true, false, Option, none, some, [], Text,
  is_empty, arith, Bool-cases, inl, inr,
}
use headwater.Exec.{Result, ok, raise}
use headwater.RateLimiter.Info.{second}
use headwater.Redis.Client.{Server}
use headwater.RecordStore
use headwater.RecordStore.{Decoding, StoredRecord, RecordStore, Failure}
use headwater.Prelude.{NoColon}
use headwater.RecordStore.Memory.{IsOwned, IsLocal, put_local}
use headwater.RecordStore.Isolation.{get-put_self, get-put_other}
use headwater.Jobs.{
  ScrapeJob, Payload, Refusal, owner_required, store_failure, to_record, from_record, job_of,
}
use headwater.Jobs.Records.{from_record-to_record}
use headwater.Jobs.Store.{require_owner, create, get}

require_owner-there :
    {DateTime Row : Type 0} (job : ScrapeJob DateTime Row)
    → is_empty job.owner ≡ false
    → require_owner job ≡ ok job.owner
unfolding require_owner
require_owner-there job h = ground (arith, h)

require_owner-missing :
    {DateTime Row : Type 0} (job : ScrapeJob DateTime Row)
    → is_empty job.owner ≡ true
    → require_owner job ≡ raise owner_required
unfolding require_owner
require_owner-missing job h = ground (arith, h)

module _ (srv : Server) {DateTime Row : Type 0} (isoformat : DateTime → Text)
    (to_json : StoredRecord (Payload Row) → Text) (from_json : Text → Decoding (Payload Row)) where
  pub create_local :
      (now later : ℕ) (job : ScrapeJob DateTime Row) (s : RecordStore srv (Payload Row))
      → IsLocal srv s
      → is_empty job.owner ≡ false
      → create srv isoformat to_json from_json now later job s ≡ (
        ok job,
        (RecordStore.put srv to_json from_json job.owner job.id
            (to_record isoformat job)
            now
            later
            s).1,
      )
  unfolding create
  create_local now later job s l h =
      rw
        (
          require_owner-there job h,
          put_local srv to_json from_json job.owner job.id (to_record isoformat job) now later s l,
        )
        refl

  pub create_refused :
      (now later : ℕ) (job : ScrapeJob DateTime Row) (s : RecordStore srv (Payload Row))
      → is_empty job.owner ≡ true
      → create srv isoformat to_json from_json now later job s ≡ (raise owner_required, s)
  unfolding create
  create_refused now later job s h = rw (require_owner-missing job h) refl

  module _ (fromisoformat : Text → Option DateTime) (clock : ℕ → DateTime) where
    -- The answer of `get`, from the answer of the record store
    abbrev answer :
        Result Failure (Option (StoredRecord (Payload Row)))
        → Result Refusal (Option (ScrapeJob DateTime Row))
    answer (ok o) = job_of fromisoformat clock o
    answer (raise e) = raise (store_failure e)

    get-answer :
        (owner id : Text) (t : ℕ) (s : RecordStore srv (Payload Row))
        → (get srv fromisoformat to_json from_json clock owner id t s).0
          ≡ answer (RecordStore.get srv to_json from_json owner id t s).0
    unfolding get
    get-answer owner id t s = ground arith

    -- In a store whose entries are filed under their owners, with no connection to Redis: creating a
    -- job for one owner changes no later read of another, for any two ids and two owners without a
    -- colon; and neither does the refused creation of a job without an owner.
    pub get-create_other :
        (job : ScrapeJob DateTime Row) (other id' : Text) (now later t : ℕ)
        (s : RecordStore srv (Payload Row))
        → IsOwned srv s
        → IsLocal srv s
        → NoColon job.owner
        → NoColon other
        → job.owner ≢ other
        → later ≤ t
        → (get srv fromisoformat to_json from_json clock other id' t
            (create srv isoformat to_json from_json now later job s).1).0
          ≡ (get srv fromisoformat to_json from_json clock other id' t s).0
    get-create_other job other id' now later t s h l n n' differ past =
        elim (Bool-cases (is_empty job.owner)) [
          | inl e ↦ rw (create_refused now later job s e) refl
          | inr e ↦ rw (create_local now later job s l e) (
              get-answer other id' t
                (RecordStore.put srv to_json from_json job.owner job.id (to_record isoformat job)
                  now later s).1
              ∙ ap answer (
                  get-put_other srv to_json from_json job.owner job.id other id'
                    (to_record isoformat job) now later t s h l n n' differ past)
              ∙ sym (get-answer other id' t s))
        ]

    -- Where `fromisoformat` reads what `isoformat` writes and refuses the empty text, in a store whose
    -- entries are filed under their owners, with no connection to Redis: a job with an owner is
    -- created, and until the time to live is over its owner reads it back by its id, the same in all
    -- its fields.
    pub get-create :
        (job : ScrapeJob DateTime Row) (now later t : ℕ) (s : RecordStore srv (Payload Row))
        → ((d : DateTime) → fromisoformat (isoformat d) ≡ some d)
        → fromisoformat [] ≡ none
        → IsOwned srv s
        → IsLocal srv s
        → is_empty job.owner ≡ false
        → later ≤ t
        → t ≤ now + s.ttl_seconds * second
        → ((create srv isoformat to_json from_json now later job s).0 ≡ ok job)
          × ((get srv fromisoformat to_json from_json clock job.owner job.id t
                (create srv isoformat to_json from_json now later job s).1).0
              ≡ ok (some job))
    get-create job now later t s reads_back no_time h l there past fresh =
        let content = to_record isoformat job in
        let (r, found, put_is, same, old) =
          get-put_self srv to_json from_json job.owner job.id content now later t s h l past
            fresh in
        let back : from_record fromisoformat (clock 0) r.content ≡ ok job =
          ap (from_record fromisoformat (clock 0)) same.2
          ∙ from_record-to_record isoformat fromisoformat reads_back no_time (clock 0) job in
        rw (create_local now later job s l there) (
          refl,
          get-answer job.owner job.id t
                (RecordStore.put srv to_json from_json job.owner job.id content now later s).1
              ∙ ap answer found
              ∙ rw back refl,
        )
