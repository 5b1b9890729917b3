-- ===== src/Jobs/Records.antt =====
-- The form of a job in the store.
use headwater.Prelude.{◌≡◌, refl, Option, none, some, [], ◌∷◌, Text}
use headwater.Exec.{ok}
use headwater.Jobs.{
  JobStatus, pending, running, completed, failed, value, status_of, ScrapeJob, to_record, time_of,
  from_record, iso_or_none,
}

status_of-value : (s : JobStatus) → status_of (value s) ≡ some s
unfolding status_of headwater.Prelude.text_eq
status_of-value pending = refl
status_of-value running = refl
status_of-value completed = refl
status_of-value failed = refl

module _ {DateTime : Type 0} (isoformat : DateTime → Text) (fromisoformat : Text → Option DateTime)
    (reads_back : (d : DateTime) → fromisoformat (isoformat d) ≡ some d)
    (no_time : fromisoformat [] ≡ none) where
  time_of_text :
      {A : Type 0} (otherwise : A) (f : DateTime → A) (text : Text) (d : DateTime)
      → fromisoformat text ≡ some d
      → time_of fromisoformat otherwise f (some text) ≡ ok (f d)
  unfolding time_of
  time_of_text otherwise f [] d e = absurd (cc (no_time, e))
  time_of_text otherwise f (c ∷ text) d e = rw e refl

  completed-back :
      (o : Option DateTime) → time_of fromisoformat none some (iso_or_none isoformat o) ≡ ok o
  unfolding time_of
  completed-back none = refl
  completed-back (some d) = time_of_text none some (isoformat d) d (reads_back d)

  -- Where `fromisoformat` reads what `isoformat` writes and refuses the empty text, a job that is
  -- written and read again is the same in all its fields, whatever the clock says.
  pub from_record-to_record :
      {Row : Type 0} (now : DateTime) (job : ScrapeJob DateTime Row)
      → from_record fromisoformat now (to_record isoformat job) ≡ ok job
  unfolding from_record to_record
  from_record-to_record now job =
      rw
        (
          status_of-value job.status,
          time_of_text now (λ d. d) (isoformat job.created_at) job.created_at
              (reads_back job.created_at),
          completed-back job.completed_at,
        )
        refl
