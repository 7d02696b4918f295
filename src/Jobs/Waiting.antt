-- ===== src/Jobs/Waiting.antt =====
-- internal/jobs/job.go: what `Wait` returns.
use platformfoundry_ce.Base.{String, ◌≡◌, refl, sym, subst, true, Option, some}
use platformfoundry_ce.Base.Int64.{i64}
use platformfoundry_ce.Jobs.Queue.{
  JobStatus, pending, running, completed, failed, cancelled, Job, over, Entry, Result, ok, err,
  was_cancelled, job_error, poll,
}
use platformfoundry_ce.Jobs.Lifecycle.{fits, IsSound}

-- What a round of `Wait` says of the job.
pub data Answer (job : Job) : Option (Result (Unit {0})) → Type 0 where
  succeeded : job.status ≡ completed → job.progress ≡ i64 100 → Answer job (some (ok tt))
  blames :
      (e : String)
      → job.status ≡ failed
      → job.error_text ≡ some e
      → Answer job (some (err (job_error (some e))))
  dropped : job.status ≡ cancelled → Answer job (some (err was_cancelled))

module _ (entry : Entry) (sound : IsSound entry) where
  answer :
      (s : JobStatus)
      → entry.job.status ≡ s
      → fits s over ≡ true
      → Answer entry.job (poll entry.job)
  unfolding fits
  answer pending e h = cc
  answer running e h = cc
  answer completed e h =
      let said : poll entry.job ≡ some (ok tt) = unfold poll in rw (e, poll) refl in
      subst (Answer entry.job) (sym said) (succeeded e (sound.full e).0)
  answer failed e h =
      let (reason, blamed) = sound.blamed e in
      let said : poll entry.job ≡ some (err (job_error (some reason))) =
        unfold poll in rw (e, blamed, poll) refl in
      subst (Answer entry.job) (sym said) (blames reason e blamed)
  answer cancelled e h =
      let said : poll entry.job ≡ some (err was_cancelled) = unfold poll in rw (e, poll) refl in
      subst (Answer entry.job) (sym said) (dropped e)

  -- Once `executeJob` is done with a sound job, the next round of `Wait` returns: no error exactly
  -- for a completed job, whose progress is 100; the error of the job for a failed one, where there
  -- is an error; and that the job was cancelled for a cancelled one.
  pub poll-Answer : entry.stage ≡ over → Answer entry.job (poll entry.job)
  poll-Answer e =
      answer entry.job.status refl (subst (λ st. fits entry.job.status st ≡ true) e sound.stage)
