-- ===== src/Jobs/Tests.antt =====
-- One job for internal/jobs/job.go.
use platformfoundry_ce.Base.{◌≡◌, refl, true, false, [], ◌∷◌, none, some, arith}
use platformfoundry_ce.Base.Maps.{lookup, insert, has}
use platformfoundry_ce.Jobs.Queue.{
  pending, cancelled, completed, Job, Stage, sending, queued, executing, over, Entry, Queue,
  new_job, submit, finish, start, success, cancel_check, cancel_commit, can_cancel, is_cancelled,
  poll,
}
use platformfoundry_ce.Jobs.Lifecycle.{
  finishes, submitted, moved, Steps, done, ◌▸◌, IsSound, AllSound, fits, has_ended_status, is_over,
}
use platformfoundry_ce.Jobs.Sound.{Steps-AllSound}
use platformfoundry_ce.Jobs.Cancelling.{
  Holds, IsCancelled, begun, IsCancelled-stays, in_channel, after_cancel, cancelled_job_runs,
}
use platformfoundry_ce.Jobs.Waiting.{Answer, poll-Answer}

program : Unit {0}
unfolding lookup insert has new_job submit finish start cancel_check cancel_commit can_cancel
    is_cancelled begun
program = tt

abbrev plan : Job
plan = record {
  id = "j1";
  type = "plan";
  description = "plan the platform";
  status = pending;
  progress = 9223372036854775808;
  has_started = false;
  has_ended = false;
  error_text = none;
  result = none;
  logs = [];
  metadata = [];
  context_cancelled = false;
}

abbrev entry_at : Job → Stage → Entry
entry_at job stage = record { job = job; stage = stage; cancelling = 0 }

abbrev one : Queue
one = ("j1", entry_at plan queued) ∷ []

empty-AllSound : AllSound []
unfolding program
empty-AllSound id entry e = cc

one_submitted : submit [] "j1" "plan" "plan the platform" ≡ ("j1", entry_at plan sending) ∷ []
unfolding program
one_submitted = refl

no_job : has {V = Entry} "j1" [] ≡ false
unfolding program
no_job = refl

submitted-Steps : Steps [] (submit [] "j1" "plan" "plan the platform")
submitted-Steps = done ▸ submitted "j1" "plan" "plan the platform" no_job

one-AllSound : AllSound (submit [] "j1" "plan" "plan the platform")
one-AllSound = Steps-AllSound submitted-Steps empty-AllSound

Steps-AllSound_example : AllSound (submit [] "j1" "plan" "plan the platform")
Steps-AllSound_example = Steps-AllSound submitted-Steps empty-AllSound

in_one : lookup "j1" one ≡ some (in_channel plan)
unfolding program
in_one = refl

cancelled_job_runs_example :
    Steps one (after_cancel "j1" plan one)
    × ((cancel_commit (record plan { context_cancelled = true })).status ≡ cancelled)
    × ((q' : Queue) × Steps (after_cancel "j1" plan one) q'
        × Holds
            (λ entry. (entry.job.status ≡ completed) × (entry.job.result ≡ some "planned"))
            q'
            "j1")
cancelled_job_runs_example = cancelled_job_runs one "j1" plan (some "planned") in_one refl

-- The job is cancelled while its function runs.
abbrev stopped : Job
stopped = record plan {
  status = cancelled;
  has_started = true;
  has_ended = true;
  context_cancelled = true;
}

abbrev stopping : Queue
stopping = ("j1", entry_at stopped executing) ∷ []

stopping_held : Holds IsCancelled stopping "j1"
unfolding program
stopping_held = (entry_at stopped executing, refl, (refl, refl))

in_stopping : lookup "j1" stopping ≡ some (entry_at stopped executing)
unfolding program
in_stopping = refl

abbrev stopped_queue : Queue
stopped_queue = insert "j1" (entry_at (finish (success none) stopped) over) stopping

IsCancelled-stays_example : Holds IsCancelled stopped_queue "j1"
IsCancelled-stays_example =
    IsCancelled-stays "j1" (done ▸ moved "j1" in_stopping (finishes (success none) stopped 0))
      stopping_held

finished-IsSound : IsSound (entry_at (finish (success none) (start plan)) over)
unfolding program fits has_ended_status is_over
finished-IsSound = record {
  floor = omega arith;
  cap = omega arith;
  stage = refl;
  full = λ e. (refl, refl);
  blamed = λ e. absurd (ground arith);
  ended = λ e. refl;
  clean = λ e. absurd (ground arith);
}

poll-Answer_run :
    Answer (finish (success none) (start plan)) (poll (finish (success none) (start plan)))
poll-Answer_run =
    poll-Answer (entry_at (finish (success none) (start plan)) over) finished-IsSound refl
