-- ===== src/Jobs/Lifecycle.antt =====
-- internal/jobs/job.go: the steps of the queue, with the locks as their bounds.
use platformfoundry_ce.Base.{ℕ, suc, String, ◌≡◌, Bool, true, false, none, some, ◌≤◌}
use platformfoundry_ce.Base.Int64.{Int64, zero_i64, i64}
use platformfoundry_ce.Base.Maps.{lookup, insert, has}
use platformfoundry_ce.Jobs.Queue.{
  JobStatus, pending, running, completed, failed, cancelled, LogLevel, Job, Stage, sending, queued,
  taken, executing, over, Entry, Queue, ok, submit, cancel_check, cancel_commit, start, Returned,
  finish, log, set_progress, set_metadata,
}

-- What the function of a job does with the job while it runs.
pub data Act : Job → Job → Type 0 where
  logs :
      (level : LogLevel) (component message : String) (job : Job)
      → Act job (log level component message job)
  progresses : (progress : Int64) (job : Job) → Act job (set_progress progress job)
  annotates : (key value : String) (job : Job) → Act job (set_metadata key value job)

-- One job: the send to the channel, the receipt by a worker, the two locked parts of `executeJob`
-- with the job's function between them, and the two parts of `Cancel`.
pub data Moves : Entry → Entry → Type 0 where
  sends :
      (job : Job) (n : ℕ)
      → Moves
          (record { job = job; stage = sending; cancelling = n })
          (record { job = job; stage = queued; cancelling = n })
  takes :
      (job : Job) (n : ℕ)
      → Moves
          (record { job = job; stage = queued; cancelling = n })
          (record { job = job; stage = taken; cancelling = n })
  starts :
      (job : Job) (n : ℕ)
      → Moves
          (record { job = job; stage = taken; cancelling = n })
          (record { job = start job; stage = executing; cancelling = n })
  acts :
      (job job' : Job) (n : ℕ)
      → Act job job'
      → Moves
          (record { job = job; stage = executing; cancelling = n })
          (record { job = job'; stage = executing; cancelling = n })
  finishes :
      (returned : Returned) (job : Job) (n : ℕ)
      → Moves
          (record { job = job; stage = executing; cancelling = n })
          (record { job = finish returned job; stage = over; cancelling = n })
  checks : (entry entry' : Entry) → cancel_check entry ≡ ok entry' → Moves entry entry'
  commits :
      (job : Job) (stage : Stage) (n : ℕ)
      → Moves
          (record { job = job; stage = stage; cancelling = suc n })
          (record { job = cancel_commit job; stage = stage; cancelling = n })

-- A step of the queue: a submission under a new ID, or a move of one job.
pub data Step (q : Queue) : Queue → Type 0 where
  submitted :
      (id type description : String) → has id q ≡ false → Step q (submit q id type description)
  moved :
      (id : String) {entry entry' : Entry}
      → lookup id q ≡ some entry
      → Moves entry entry'
      → Step q (insert id entry' q)

infixl 4 ◌▸◌
pub data Steps (q : Queue) : Queue → Type 0 where
  done : Steps q q
  ◌▸◌ : {q' q'' : Queue} → Steps q q' → Step q' q'' → Steps q q''

-- Which status a job may have at which stage.
unfoldable pub fits : JobStatus → Stage → Bool
fits pending sending = true
fits pending queued = true
fits pending taken = true
fits running executing = true
fits completed over = true
fits failed over = true
fits cancelled stage = true
fits _ _ = false

unfoldable pub has_ended_status : JobStatus → Bool
has_ended_status pending = false
has_ended_status running = false
has_ended_status _ = true

unfoldable pub is_over : Stage → Bool
is_over over = true
is_over _ = false

pub record IsSound (entry : Entry) : Type 0 where
  pub floor : zero_i64 ≤ entry.job.progress
  pub cap : entry.job.progress ≤ i64 100
  pub stage : fits entry.job.status entry.stage ≡ true
  pub full :
      entry.job.status ≡ completed → (entry.job.progress ≡ i64 100) × (entry.job.error_text ≡ none)
  pub blamed : entry.job.status ≡ failed → (e : String) × (entry.job.error_text ≡ some e)
  pub ended : has_ended_status entry.job.status ≡ true → entry.job.has_ended ≡ true
  pub clean : is_over entry.stage ≡ false → entry.job.error_text ≡ none

-- Each job of the queue is sound.
abbrev pub AllSound : Queue → Type 0
AllSound q = (id : String) (entry : Entry) → lookup id q ≡ some entry → IsSound entry
