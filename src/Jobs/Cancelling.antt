-- ===== src/Jobs/Cancelling.antt =====
-- internal/jobs/job.go: what becomes of a job that is cancelled.
use platformfoundry_ce.Base.{
  String, ◌≡◌, inl, inr, refl, subst, ◌∙◌, Bool, true, false, Option, some, ◌==◌, arith, eq_iff,
  eq_refl, Bool-cases,
}
use platformfoundry_ce.Base.Maps.{lookup, insert, has, lookup-insert}
use platformfoundry_ce.Jobs.Queue.{
  JobStatus, pending, completed, cancelled, Job, Stage, sending, queued, taken, executing, over,
  Entry, Queue, ok, new_job, submit, can_cancel, cancel_check, cancel_commit, start, Returned,
  success, is_cancelled, finish, log, set_progress, set_metadata,
}
use platformfoundry_ce.Jobs.Lifecycle.{
  Act, logs, progresses, annotates, Moves, sends, takes, starts, acts, finishes, checks, commits,
  Step, submitted, moved, Steps, done, ◌▸◌,
}
use platformfoundry_ce.Jobs.Sound.{finish_cancelled}

-- `executeJob` is in the job or behind it, and the job is cancelled.
unfoldable pub begun : Stage → Bool
begun executing = true
begun over = true
begun _ = false

abbrev pub IsCancelled : Entry → Type 0
IsCancelled entry = (entry.job.status ≡ cancelled) × (begun entry.stage ≡ true)

Act-status : {job job' : Job} → Act job job' → job'.status ≡ job.status
Act-status (logs level component message job) = unfold log in refl
Act-status (progresses progress job) = unfold set_progress in refl
Act-status (annotates key value job) = unfold set_metadata in refl

finish-status :
    (returned : Returned) (job : Job)
    → job.status ≡ cancelled
    → (finish returned job).status ≡ cancelled
unfolding is_cancelled
finish-status returned job e = rw (finish_cancelled returned job (rw e refl)) e

Moves-IsCancelled :
    {entry entry' : Entry} → Moves entry entry' → IsCancelled entry → IsCancelled entry'
unfolding begun
Moves-IsCancelled (sends job n) (s, b) = cc
Moves-IsCancelled (takes job n) (s, b) = cc
Moves-IsCancelled (starts job n) (s, b) = cc
Moves-IsCancelled (acts job job' n act) (s, b) = (Act-status act ∙ s, b)
Moves-IsCancelled (finishes returned job n) (s, b) = (finish-status returned job s, refl)
Moves-IsCancelled (checks entry entry' e) (s, b) = unfold cancel_check can_cancel in ground arith
Moves-IsCancelled (commits job stage n) (s, b) = unfold cancel_commit in (refl, b)

-- What the queue knows of one job.
abbrev pub Holds : (Entry → Type 0) → Queue → String → Type 0
Holds P q id = (entry : Entry) × (lookup id q ≡ some entry) × P entry

lookup-insert_self :
    (id : String) (entry : Entry) (q : Queue) → lookup id (insert id entry q) ≡ some entry
lookup-insert_self id entry q = ground (arith, lookup-insert id id entry q, eq_refl id)

moved-IsCancelled :
    (q : Queue) (id key : String) (entry entry' : Entry)
    → lookup key q ≡ some entry
    → Moves entry entry'
    → Holds IsCancelled q id
    → Holds IsCancelled (insert key entry' q) id
moved-IsCancelled q id key entry entry' e move (found, there, was) = elim (Bool-cases (key == id)) [
  | inl same ↦
      let here : found ≡ entry = ground (arith, eq_iff key id) in
      (
        entry',
        ground (arith, lookup-insert key id entry' q),
        Moves-IsCancelled move (subst IsCancelled here was),
      )
  | inr apart ↦ (found, ground (arith, lookup-insert key id entry' q), was)
]

submit_apart :
    (q : Queue) (id key type description : String) {found : Entry}
    → has key q ≡ false
    → lookup id q ≡ some found
    → lookup id (submit q key type description) ≡ some found
unfolding submit has
submit_apart q id key type description new e =
    let entry : Entry = record {
      job = new_job key type description;
      stage = sending;
      cancelling = 0;
    } in
    ground (arith, lookup-insert key id entry q, eq_iff key id)

Step-IsCancelled :
    (id : String) {q q' : Queue} → Step q q' → Holds IsCancelled q id → Holds IsCancelled q' id
Step-IsCancelled id {q} (moved key {entry} {entry'} e move) held =
    moved-IsCancelled q id key entry entry' e move held
Step-IsCancelled id {q} (submitted key type description new) (found, there, was) =
    (found, submit_apart q id key type description new there, was)

-- A job that is cancelled while `executeJob` is in it, or behind it, stays cancelled, whatever its function
-- returns and whatever other steps the queue takes.
pub IsCancelled-stays :
    (id : String) {q q' : Queue} → Steps q q' → Holds IsCancelled q id → Holds IsCancelled q' id
IsCancelled-stays id done held = held
IsCancelled-stays id (before ▸ step) held =
    Step-IsCancelled id step (IsCancelled-stays id before held)

abbrev pub in_channel : Job → Entry
in_channel job = record { job = job; stage = queued; cancelling = 0 }

can_cancel_pending : (s : JobStatus) → s ≡ pending → can_cancel s ≡ true
unfolding can_cancel
can_cancel_pending s e = rw e refl

cancel_check_pending :
    (job : Job)
    → job.status ≡ pending
    → cancel_check (in_channel job)
      ≡ ok
          (record { job = record job { context_cancelled = true }; stage = queued; cancelling = 1 })
unfolding cancel_check
cancel_check_pending job e = rw (can_cancel_pending job.status e, cancel_check) refl

-- The queue behind a call of `Cancel` that succeeds on this job.
abbrev pub after_cancel : String → Job → Queue → Queue
after_cancel id job q =
    insert id (in_channel (cancel_commit (record job { context_cancelled = true }))) (
      insert id
        (record { job = record job { context_cancelled = true }; stage = queued; cancelling = 1 })
        q)

-- For a pending job that waits in the channel: a call of `Cancel` succeeds and leaves it cancelled,
-- but the queue can still run it and leave it completed, with the result of its function.
pub cancelled_job_runs :
    (q : Queue) (id : String) (job : Job) (value : Option String)
    → lookup id q ≡ some (in_channel job)
    → job.status ≡ pending
    → Steps q (after_cancel id job q)
      × ((cancel_commit (record job { context_cancelled = true })).status ≡ cancelled)
      × ((q' : Queue) × Steps (after_cancel id job q) q'
          × Holds (λ entry. (entry.job.status ≡ completed) × (entry.job.result ≡ value)) q' id)
unfolding cancel_commit
cancelled_job_runs q id job value e p =
    let marked : Job = record job { context_cancelled = true } in
    let dropped = cancel_commit marked in
    let q1 = insert id (record { job = marked; stage = queued; cancelling = 1 }) q in
    let q2 = after_cancel id job q in
    let q3 = insert id (record { job = dropped; stage = taken; cancelling = 0 }) q2 in
    let q4 = insert id (record { job = start dropped; stage = executing; cancelling = 0 }) q3 in
    let ended : Entry = record {
      job = finish (success value) (start dropped);
      stage = over;
      cancelling = 0;
    } in
    (
      (done ▸ moved id e (checks _ _ (cancel_check_pending job p)))
          ▸ moved id (lookup-insert_self id _ q) (commits marked queued 0),
      refl,
      (
        insert id ended q4,
        ((done ▸ moved id (lookup-insert_self id _ q1) (takes dropped 0))
              ▸ moved id (lookup-insert_self id _ q2) (starts dropped 0))
            ▸ moved id (lookup-insert_self id _ q3) (finishes (success value) (start dropped) 0),
        (ended, lookup-insert_self id ended q4, unfold start finish is_cancelled in (refl, refl)),
      ),
    )
