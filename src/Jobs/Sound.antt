-- ===== src/Jobs/Sound.antt =====
-- internal/jobs/job.go: what holds of every job at every stage.
use platformfoundry_ce.Base.{
  ℕ, suc, String, ◌≡◌, inl, inr, refl, sym, subst, ◌∙◌, true, false, Option, some, ◌≤◌, ◌==◌, arith,
  Bool-cases,
}
use platformfoundry_ce.Base.Int64.{zero_i64, i64}
use platformfoundry_ce.Base.Maps.{insert, lookup-insert}
use platformfoundry_ce.Jobs.Queue.{
  JobStatus, pending, running, completed, failed, cancelled, Job, Stage, sending, queued, taken,
  executing, over, Entry, Queue, ok, new_job, submit, cancel_check, cancel_commit, start, Returned,
  failure, success, is_cancelled, finish, log, set_progress, set_metadata,
}
use platformfoundry_ce.Jobs.Lifecycle.{
  Act, logs, progresses, annotates, Moves, sends, takes, starts, acts, finishes, checks, commits,
  Step, submitted, moved, Steps, done, ◌▸◌, fits, has_ended_status, is_over, IsSound, AllSound,
}

abbrev at : Job → Stage → ℕ → Entry
at job stage n = record { job = job; stage = stage; cancelling = n }

new_job-IsSound :
    (id type description : String) → IsSound (at (new_job id type description) sending 0)
unfolding new_job fits has_ended_status is_over
new_job-IsSound id type description = record {
  floor = omega arith;
  cap = omega arith;
  stage = refl;
  full = λ e. cc;
  blamed = λ e. absurd (ground arith);
  ended = λ e. cc;
  clean = λ e. refl;
}

-- Before the work item is done with, a job moves on under its status.
moved_on :
    (job : Job) (stage stage' : Stage) (n n' : ℕ)
    → (fits job.status stage ≡ true → fits job.status stage' ≡ true)
    → is_over stage ≡ false
    → IsSound (at job stage n)
    → IsSound (at job stage' n')
moved_on job stage stage' n n' goes early sound = record {
  floor = sound.floor;
  cap = sound.cap;
  stage = goes sound.stage;
  full = sound.full;
  blamed = sound.blamed;
  ended = sound.ended;
  clean = λ e. sound.clean early;
}

pending_on :
    (s : JobStatus) (stage stage' : Stage)
    → fits pending stage' ≡ true
    → is_over stage ≡ false
    → fits running stage ≡ false
    → fits s stage ≡ true
    → fits s stage' ≡ true
unfolding fits is_over
pending_on pending stage stage' h early idle e = h
pending_on running stage stage' h early idle e = cc
pending_on completed stage stage' h early idle e = ground arith
pending_on failed stage stage' h early idle e = ground arith
pending_on cancelled stage stage' h early idle e = refl

start-IsSound :
    (job : Job) (n : ℕ) → IsSound (at job taken n) → IsSound (at (start job) executing n)
unfolding start fits has_ended_status is_over
start-IsSound job n sound = record {
  floor = sound.floor;
  cap = sound.cap;
  stage = refl;
  full = λ e. cc;
  blamed = λ e. absurd (ground arith);
  ended = λ e. cc;
  clean = λ e. sound.clean refl;
}

-- A change of the job that leaves its status, its error and its end.
changed :
    (job job' : Job) (n : ℕ)
    → (zero_i64 ≤ job'.progress) × (job'.progress ≤ i64 100)
    → job'.status ≡ job.status
    → job'.error_text ≡ job.error_text
    → job'.has_ended ≡ job.has_ended
    → IsSound (at job executing n)
    → IsSound (at job' executing n)
unfolding fits has_ended_status is_over
changed job job' n (low, high) s t h sound = record {
  floor = low;
  cap = high;
  stage = rw s sound.stage;
  full = λ e. cc (subst (λ x. fits x executing ≡ true) (sym s ∙ e) sound.stage);
  blamed = λ e. ground (arith, sound.blamed (sym s ∙ e));
  ended = λ e. ground (arith, sound.ended);
  clean = λ e. t ∙ sound.clean refl;
}

Act-IsSound :
    (job job' : Job) (n : ℕ)
    → Act job job'
    → IsSound (at job executing n)
    → IsSound (at job' executing n)
unfolding log set_metadata
Act-IsSound job job' n (logs level component message _) sound =
    changed job _ n (sound.floor, sound.cap) refl refl refl sound
Act-IsSound job job' n (annotates key value _) sound =
    changed job _ n (sound.floor, sound.cap) refl refl refl sound
Act-IsSound job job' n (progresses progress _) sound =
    changed job _ n (unfold set_progress in ground arith) (unfold set_progress in refl)
      (unfold set_progress in refl) (unfold set_progress in refl) sound

is_cancelled_lem : (s : JobStatus) → is_cancelled s ≡ true → s ≡ cancelled
unfolding is_cancelled
is_cancelled_lem pending e = cc
is_cancelled_lem running e = cc
is_cancelled_lem completed e = cc
is_cancelled_lem failed e = cc
is_cancelled_lem cancelled e = refl

pub finish_cancelled :
    (returned : Returned) (job : Job)
    → is_cancelled job.status ≡ true
    → finish returned job ≡ record job { has_ended = true }
unfolding finish
finish_cancelled returned job e = rw (e, finish) refl

pub finish_success :
    (value : Option String) (job : Job)
    → is_cancelled job.status ≡ false
    → finish (success value) job
      ≡ record job { has_ended = true; result = value; status = completed; progress = i64 100 }
unfolding finish
finish_success value job e = rw (e, finish) refl

finish_failure :
    (reason : String) (value : Option String) (job : Job)
    → is_cancelled job.status ≡ false
    → finish (failure reason value) job
      ≡ record job { has_ended = true; result = value; status = failed; error_text = some reason }
unfolding finish
finish_failure reason value job e = rw (e, finish) refl

returned-IsSound :
    (returned : Returned) (job : Job) (n : ℕ)
    → is_cancelled job.status ≡ false
    → IsSound (at job executing n)
    → IsSound (at (finish returned job) over n)
unfolding fits has_ended_status is_over
returned-IsSound (success value) job n e sound = rw (finish_success value job e) (record {
  floor = omega arith;
  cap = omega arith;
  stage = refl;
  full = λ e. (refl, sound.clean refl);
  blamed = λ e. absurd (ground arith);
  ended = λ e. refl;
  clean = λ e. sound.clean refl;
})
returned-IsSound (failure reason value) job n e sound =
    rw (finish_failure reason value job e) (record {
      floor = sound.floor;
      cap = sound.cap;
      stage = refl;
      full = λ e. absurd (ground arith);
      blamed = λ e. (reason, refl);
      ended = λ e. refl;
      clean = λ e. absurd (ground arith);
    })

finish-IsSound :
    (returned : Returned) (job : Job) (n : ℕ)
    → IsSound (at job executing n)
    → IsSound (at (finish returned job) over n)
unfolding fits has_ended_status is_over
finish-IsSound returned job n sound = elim (Bool-cases (is_cancelled job.status)) [
  | inr e ↦ returned-IsSound returned job n e sound
  | inl e ↦
      let same = is_cancelled_lem job.status e in
      rw (finish_cancelled returned job e) (record {
        floor = sound.floor;
        cap = sound.cap;
        stage = rw same refl;
        full = sound.full;
        blamed = sound.blamed;
        ended = λ e. refl;
        clean = λ e. sound.clean refl;
      })
]

cancel_check_ok :
    (entry entry' : Entry)
    → cancel_check entry ≡ ok entry'
    → record {
      job = record entry.job { context_cancelled = true };
      stage = entry.stage;
      cancelling = suc entry.cancelling;
    }
      ≡ entry'
unfolding cancel_check
cancel_check_ok entry entry' e = ground arith

cancel_check-IsSound :
    (entry entry' : Entry) → cancel_check entry ≡ ok entry' → IsSound entry → IsSound entry'
cancel_check-IsSound entry entry' e sound = subst IsSound (cancel_check_ok entry entry' e) (record {
  floor = sound.floor;
  cap = sound.cap;
  stage = sound.stage;
  full = sound.full;
  blamed = sound.blamed;
  ended = sound.ended;
  clean = sound.clean;
})

cancel_commit-IsSound :
    (job : Job) (stage : Stage) (n : ℕ)
    → IsSound (at job stage (suc n))
    → IsSound (at (cancel_commit job) stage n)
unfolding cancel_commit fits
cancel_commit-IsSound job stage n sound = record {
  floor = sound.floor;
  cap = sound.cap;
  stage = refl;
  full = λ e. absurd (ground arith);
  blamed = λ e. absurd (ground arith);
  ended = λ e. refl;
  clean = sound.clean;
}

Moves-IsSound : {entry entry' : Entry} → Moves entry entry' → IsSound entry → IsSound entry'
unfolding fits is_over
Moves-IsSound (sends job n) sound =
    moved_on job sending queued n n (pending_on job.status sending queued refl refl refl) refl sound
Moves-IsSound (takes job n) sound =
    moved_on job queued taken n n (pending_on job.status queued taken refl refl refl) refl sound
Moves-IsSound (starts job n) sound = start-IsSound job n sound
Moves-IsSound (acts job job' n act) sound = Act-IsSound job job' n act sound
Moves-IsSound (finishes returned job n) sound = finish-IsSound returned job n sound
Moves-IsSound (checks entry entry' e) sound = cancel_check-IsSound entry entry' e sound
Moves-IsSound (commits job stage n) sound = cancel_commit-IsSound job stage n sound

insert-AllSound :
    (id : String) (entry : Entry) (q : Queue)
    → IsSound entry
    → AllSound q
    → AllSound (insert id entry q)
insert-AllSound id entry q sound all k found e = elim (Bool-cases (id == k)) [
  | inl same ↦
      let here : entry ≡ found = ground (arith, lookup-insert id k entry q) in
      subst IsSound here sound
  | inr apart ↦ all k found (ground (arith, lookup-insert id k entry q))
]

Step-AllSound : {q q' : Queue} → Step q q' → AllSound q → AllSound q'
Step-AllSound {q} (submitted id type description new) all =
    unfold submit in insert-AllSound id _ q (new_job-IsSound id type description) all
Step-AllSound {q} (moved id e move) all =
    insert-AllSound id _ q (Moves-IsSound move (all id _ e)) all

-- Whatever steps the queue takes from a queue whose jobs are sound, in whatever order of its
-- goroutines: the progress of each job lies between 0 and 100, a job is pending only before
-- `executeJob` and running only in it, a completed job has the progress 100 and no error, a failed
-- one has an error, and each job with one of the last three statuses has its end set.
pub Steps-AllSound : {q q' : Queue} → Steps q q' → AllSound q → AllSound q'
Steps-AllSound done all = all
Steps-AllSound (before ▸ step) all = Step-AllSound step (Steps-AllSound before all)
