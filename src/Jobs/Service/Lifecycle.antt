-- ===== src/Jobs/Service/Lifecycle.antt =====
-- Transactions one after another, in any order and by any workers, and what they do to one job.
pub mod Steps
pub mod Shape
pub mod Endings
pub mod Outcomes
use security_configuration_a.Base.{
  ℕ, ◌+◌, ◌≡◌, ◌≢◌, refl, Bool, true, false, not, ◌&&◌, ◌||◌, Option, none, some, List, [], ◌∷◌,
  ◌++◌, arith, ltb, leb, ◌==◌, if◌then◌else◌, All, In, keep, inl, inr, ap, Text, Bool-cases,
  Option-cases, is_empty, ◌⊎◌, map, take, ==_iff,
}
use security_configuration_a.Base.Lists.{All-In, In-keep, In-All, All-take}
use security_configuration_a.Base.Sort.{sorted, All-sorted}
use security_configuration_a.Base.Str.{strip, codes}
use security_configuration_a.Jobs.Model.{
  Job, JobType, JobStatus, queued, processing, completed, failed, status_eq, eq_of_status_eq,
}
use security_configuration_a.Jobs.Store.{
  Db, Result, ok, err, add, after, settle, write_row, write_rows, find_row, is_stale, stale_le,
  is_claimable, stale_processing_for_update,
}
use security_configuration_a.Jobs.Rows.{
  find_row-write_row, find_row-append, IsKeyed, IsKeyed-write_row, IsKeyed-write_rows,
  IsKeyed-append, In-find_row,
}
use security_configuration_a.Jobs.Service.{
  Seconds, enqueue_job, stage_refused, claim_next_job, claim_row, heartbeat_job, complete_job,
  fail_job, recover_stale_jobs, claimed_row, renewed_row, completed_row, failed_row, expire,
}
use security_configuration_a.Jobs.Service.Leases.{complete_job-ok, fail_job-ok, heartbeat_job-ok}
use security_configuration_a.Jobs.Service.Claims.{next_queued-oldest, claim_next_job-ok}

-- One transaction of an API process or of a worker, with its clock readings.
pub data Op : Type 0 where
  enqueue :
      (job_id now : ℕ)
      → JobType
      → Option (List (Text × Text))
      → (audit_id device_id : Option ℕ) → Option Text
      → Op
  claim : (ℕ → Bool) → ℕ → Option (List JobType) → Text → Seconds → Op
  heartbeat : (now job_id : ℕ) → Text → Seconds → Op
  complete : (now done_at job_id : ℕ) → Text → Op
  fail : (now done_at job_id : ℕ) → Text → (error_code error_message : Text) → Op
  recover : (ℕ → Bool) → (now limit : ℕ) → Op

unfoldable pub run_op : Op → Db → Db
run_op (enqueue job_id now t payload audit_id device_id stage) =
    after (enqueue_job job_id now t payload audit_id device_id stage)
run_op (claim locked now allowed owner lease) =
    after (claim_next_job locked now allowed owner lease)
run_op (heartbeat now job_id owner lease) = after (heartbeat_job now job_id owner lease)
run_op (complete now done_at job_id owner) = after (complete_job now done_at job_id owner)
run_op (fail now done_at job_id owner code message) =
    after (fail_job now done_at job_id owner code message)
run_op (recover locked now limit) = after (recover_stale_jobs locked now limit)

-- The key of a new row, by `uuid4`, is new to the table.
abbrev pub IsFresh : Op → Db → Type 0
IsFresh (enqueue job_id now t payload audit_id device_id stage) db = find_row job_id db ≡ none
IsFresh _ db = Unit

-- The tables that transactions lead to, one after another.
pub data Runs (before : Db) : Db → Type 0 where
  start : Runs before before
  next : {db : Db} → Runs before db → (op : Op) → IsFresh op db → Runs before (run_op op db)

-- The moves of one row: nothing else may happen to a job.
pub data Move (a b : Job) : Type 0 where
  stays : b ≡ a → Move a b
  claims :
      (owner : Text) (now seconds : ℕ)
      → a.status ≡ queued
      → b ≡ claimed_row owner now seconds a
      → Move a b
  renews : (now seconds : ℕ) → a.status ≡ processing → b ≡ renewed_row now seconds a → Move a b
  completes : (done_at : ℕ) → a.status ≡ processing → b ≡ completed_row done_at a → Move a b
  fails :
      (done_at : ℕ) (code message : Text)
      → a.status ≡ processing
      → b ≡ failed_row done_at code message a
      → Move a b

-- The job at a key after a step, and the move that brought it there.
abbrev pub Moved : ℕ → Job → Db → Type 0
Moved k row db = (row' : Job) × (find_row k db ≡ some row') × Move row row'
