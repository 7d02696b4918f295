-- ===== src/Jobs/Queue.antt =====
-- internal/jobs/job.go: jobs and the queue. Times are left out but for whether they are set. What
-- the job function returns is a parameter of the finish; the listeners are only told, in goroutines.
use platformfoundry_ce.Base.{
  ℕ, suc, String, Bool, true, false, Option, none, some, List, [], ◌∷◌, ◌++◌, if◌then◌else◌, ltb,
}
use platformfoundry_ce.Base.Int64.{Int64, zero_i64, i64}
use platformfoundry_ce.Base.Maps.{Map, lookup, insert}

pub data JobStatus : Type 0 where
  pending running completed failed cancelled : JobStatus

pub data LogLevel : Type 0 where
  debug info warn error : LogLevel

pub record LogEntry : Type 0 where
  pub level : LogLevel
  pub component : String
  pub message : String

-- `context_cancelled`: the job's context, which its function may look at, is cancelled.
pub record Job : Type 0 where
  pub id : String
  pub type : String
  pub description : String
  pub status : JobStatus
  pub progress : Int64
  pub has_started : Bool
  pub has_ended : Bool
  pub error_text : Option String
  pub result : Option String
  pub logs : List LogEntry
  pub metadata : Map String
  pub context_cancelled : Bool

-- Where the work item of a job is: with `Submit`, which sends it; in the channel; with a worker
-- that has not begun it; in `executeJob`; or done with.
pub data Stage : Type 0 where
  sending queued taken executing over : Stage

-- `cancelling` counts the calls of `Cancel` that are behind their test and before the write lock.
pub record Entry : Type 0 where
  pub job : Job
  pub stage : Stage
  pub cancelling : ℕ

-- The jobs by ID; the map and the work items share them.
abbrev pub Queue : Type 0
Queue = Map Entry

pub data Error : Type 0 where
  not_found cannot_be_cancelled was_cancelled : Error
  job_error : Option String → Error

pub data Result {ℓ} (A : Type ℓ) : Type ℓ where
  err : Error → Result A
  ok : A → Result A

unfoldable pub new_job : String → String → String → Job
new_job id type description = record {
  id = id;
  type = type;
  description = description;
  status = pending;
  progress = zero_i64;
  has_started = false;
  has_ended = false;
  error_text = none;
  result = none;
  logs = [];
  metadata = [];
  context_cancelled = false;
}

-- `Submit` up to the send; the ID is a new UUID.
unfoldable pub submit : Queue → String → String → String → Queue
submit q id type description =
    insert id (record { job = new_job id type description; stage = sending; cancelling = 0 }) q

unfoldable pub get : Queue → String → Result Job
get q id = elim (lookup id q) [ none ↦ err not_found | some entry ↦ ok entry.job ]

-- `job.Status != JobStatusPending && job.Status != JobStatusRunning`, negated.
unfoldable pub can_cancel : JobStatus → Bool
can_cancel pending = true
can_cancel running = true
can_cancel _ = false

-- `Cancel` up to its write lock, on a job that is there: the test and the cancelling of the
-- context. It holds no lock here.
unfoldable pub cancel_check : Entry → Result Entry
cancel_check entry =
    if can_cancel entry.job.status
    then ok (record {
      job = record entry.job { context_cancelled = true };
      stage = entry.stage;
      cancelling = suc entry.cancelling;
    })
    else err cannot_be_cancelled

-- `Cancel` under its write lock.
unfoldable pub cancel_commit : Job → Job
cancel_commit job = record job { status = cancelled; has_ended = true }

-- `executeJob` under its first lock.
unfoldable pub start : Job → Job
start job = record job { status = running; has_started = true }

-- What a job function returns.
pub data Returned : Type 0 where
  failure : String → Option String → Returned
  success : Option String → Returned

unfoldable pub is_cancelled : JobStatus → Bool
is_cancelled cancelled = true
is_cancelled _ = false

-- `executeJob` under its second lock.
unfoldable pub finish : Returned → Job → Job
finish returned job =
    let ended = record job { has_ended = true } in
    if is_cancelled job.status then ended else (elim returned [
      | failure e value ↦ record ended { result = value; status = failed; error_text = some e }
      | success value ↦ record ended { result = value; status = completed; progress = i64 100 }
    ])

unfoldable pub log : LogLevel → String → String → Job → Job
log level component message job = record job {
  logs = job.logs ++ record { level = level; component = component; message = message } ∷ [];
}

unfoldable pub set_progress : Int64 → Job → Job
set_progress progress job =
    let raised = if ltb progress zero_i64 then zero_i64 else progress in
    let capped = if ltb (i64 100) raised then i64 100 else raised in
    record job { progress = capped }

unfoldable pub set_metadata : String → String → Job → Job
set_metadata key value job = record job { metadata = insert key value job.metadata }

-- One round of the loop of `Wait`: what it returns, if it does.
unfoldable pub poll : Job → Option (Result (Unit {0}))
poll job = elim job.status [
  | completed ↦ some (ok tt)
  | failed ↦ some (err (job_error job.error_text))
  | cancelled ↦ some (err was_cancelled)
  | pending ↦ none
  | running ↦ none
]
