-- ===== src/Jobs/Service.antt =====
-- The life of a job under leases (backend/app/jobs/service.py). A call takes the readings of the clock
-- that it makes as arguments; `isinstance` checks of enumerations and objects hold by typing.
pub mod Leases
pub mod Claims
pub mod Lifecycle
pub mod Guarantees
pub mod Recovery
use security_configuration_a.Base.{
  ℕ, ◌+◌, ◌≤◌, ◌<◌, ◌≡◌, refl, Bool, true, false, not, ◌&&◌, ◌||◌, Option, none, some, List, [],
  ◌∷◌, ◌++◌, arith, ltb, leb, ◌==◌, if◌then◌else◌, any, all, keep, take, is_some, map, Text, codes,
  is_empty, length,
}
use security_configuration_a.Base.Str.{strip, text_eq}
use security_configuration_a.Jobs.Model.{
  Job, JobStatus, JobType, JobError, queued, processing, completed, failed, unsupported_value,
  job_not_found, invalid_job_transition, job_lease_lost, status_eq,
}
use security_configuration_a.Jobs.Store.{
  Db, Result, ok, err, Tx, pure, raise, lift, gets, guard, flush, ◌>>=◌, ◌>>◌, add, write_rows,
  next_queued_for_update, by_id_for_update, stale_processing_for_update,
}

-- A lease duration: Python's float of seconds, as whole microseconds where it is finite and not
-- negative.
pub data Seconds : Type 0 where
  not_finite : Seconds
  negative : Seconds
  micros : ℕ → Seconds

unfoldable pub validated_lease_owner : Text → Result Text
unfolding strip
validated_lease_owner lease_owner =
    let owner = strip lease_owner in
    if is_empty owner || ltb 128 (length owner) then err unsupported_value else ok owner

unfoldable pub validated_lease_seconds : Seconds → Result ℕ
validated_lease_seconds not_finite = err unsupported_value
validated_lease_seconds negative = err unsupported_value
validated_lease_seconds (micros n) =
    if ltb 0 n && leb n 3600000000 then ok n else err unsupported_value

-- `not stage.strip() or len(stage.strip()) > 100`, where a stage is given
unfoldable pub stage_refused : Option Text → Bool
unfolding strip
stage_refused none = false
stage_refused (some stage) = is_empty (strip stage) || ltb 100 (length (strip stage))

abbrev stripped : Option Text → Option Text
stripped none = none
stripped (some stage) = some (strip stage)

abbrev or_empty : {A : Type 0} → Option (List A) → List A
or_empty none = []
or_empty (some xs) = xs

-- The row gets its key from `uuid4` and its time from the clock, as the model's defaults do.
unfoldable pub enqueue_job :
    (job_id now : ℕ) (job_type : JobType) (payload : Option (List (Text × Text)))
    → (audit_id device_id : Option ℕ) (stage : Option Text) → Tx Job
unfolding stage_refused strip add
enqueue_job job_id now job_type payload audit_id device_id stage = do
  lift (guard (not (stage_refused stage)) unsupported_value)
  let job : Job = record {
    job_id = job_id;
    job_type = job_type;
    status = queued;
    stage = stripped stage;
    progress = 0;
    audit_id = audit_id;
    device_id = device_id;
    payload = or_empty payload;
    attempt_count = 0;
    error_code = none;
    error_message = none;
    created_at = now;
    started_at = none;
    completed_at = none;
    lease_owner = none;
    heartbeat_at = none;
    lease_expires_at = none;
  }
  add job
  pure job

-- What each call writes over a row.
abbrev pub claimed_row : Text → ℕ → ℕ → Job → Job
claimed_row owner now seconds job = record job {
  status = processing;
  attempt_count = job.attempt_count + 1;
  started_at = some now;
  completed_at = none;
  lease_owner = some owner;
  heartbeat_at = some now;
  lease_expires_at = some (now + seconds);
}

abbrev pub renewed_row : ℕ → ℕ → Job → Job
renewed_row now seconds job = record job {
  heartbeat_at = some now;
  lease_expires_at = some (now + seconds);
}

abbrev pub clear_lease : Job → Job
clear_lease job = record job { lease_owner = none; heartbeat_at = none; lease_expires_at = none }

abbrev pub completed_row : ℕ → Job → Job
completed_row done_at job = clear_lease (record job {
  status = completed;
  progress = 100;
  completed_at = some done_at;
  error_code = none;
  error_message = none;
})

abbrev pub failed_row : ℕ → (error_code error_message : Text) → Job → Job
failed_row done_at error_code error_message job = clear_lease (record job {
  status = failed;
  completed_at = some done_at;
  error_code = some error_code;
  error_message = some error_message;
})

claim_row : Text → Seconds → ℕ → Option Job → Tx (Option Job)
unfolding validated_lease_owner validated_lease_seconds
claim_row lease_owner lease_seconds now none = pure none
claim_row lease_owner lease_seconds now (some job) = do
  owner ← lift (validated_lease_owner lease_owner)
  seconds ← lift (validated_lease_seconds lease_seconds)
  flush (claimed_row owner now seconds job)
  pure (some (claimed_row owner now seconds job))

-- `allowed is not None and not allowed`
abbrev allows_none : Option (List JobType) → Bool
allows_none none = false
allows_none (some allowed) = is_empty allowed

-- `locked` tells the rows that other transactions hold.
unfoldable pub claim_next_job :
    (ℕ → Bool) → ℕ → Option (List JobType) → Text → Seconds → Tx (Option Job)
unfolding claim_row next_queued_for_update
claim_next_job locked now allowed lease_owner lease_seconds =
    if allows_none allowed then pure none else do
      job ← gets (next_queued_for_update locked allowed)
      claim_row lease_owner lease_seconds now job

-- `job.lease_owner != owner` where the field may be `None`
abbrev owned_by : Option Text → Text → Bool
owned_by none owner = false
owned_by (some o) owner = text_eq o owner

require_owned : Option Job → Text → Result Job
unfolding validated_lease_owner status_eq
require_owned none lease_owner = err job_not_found
require_owned (some job) lease_owner =
    if not (status_eq job.status processing)
    then err (invalid_job_transition job.status)
    else elim (validated_lease_owner lease_owner) [
      | ok owner ↦ if owned_by job.lease_owner owner then ok job else err job_lease_lost
      | err e ↦ err e
    ]

unfoldable pub owned_processing_job_for_update : ℕ → Text → Tx Job
unfolding require_owned by_id_for_update
owned_processing_job_for_update job_id lease_owner = do
  job ← gets (by_id_for_update job_id)
  lift (require_owned job lease_owner)

abbrev is_active : Option ℕ → ℕ → Bool
is_active none now = false
is_active (some expires) now = ltb now expires

unfoldable pub require_active_lease : Job → ℕ → Result (Unit {0})
require_active_lease job now = guard (is_active job.lease_expires_at now) job_lease_lost

unfoldable pub heartbeat_job : ℕ → ℕ → Text → Seconds → Tx Job
unfolding owned_processing_job_for_update require_active_lease validated_lease_seconds
heartbeat_job now job_id lease_owner lease_seconds = do
  job ← owned_processing_job_for_update job_id lease_owner
  lift (require_active_lease job now)
  seconds ← lift (validated_lease_seconds lease_seconds)
  flush (renewed_row now seconds job)
  pure (renewed_row now seconds job)

-- The clock is read once for the lease and once more for the time of completion.
unfoldable pub complete_job : (now done_at : ℕ) → ℕ → Text → Tx Job
unfolding owned_processing_job_for_update require_active_lease
complete_job now done_at job_id lease_owner = do
  job ← owned_processing_job_for_update job_id lease_owner
  lift (require_active_lease job now)
  flush (completed_row done_at job)
  pure (completed_row done_at job)

-- `^[A-Za-z0-9_.-]{1,64}$`
unfoldable pub is_code_char : ℕ → Bool
is_code_char c =
    (leb b'A' c && leb c b'Z')
    || (leb b'a' c && leb c b'z')
    || (leb b'0' c && leb c b'9')
    || c == b'_'
    || c == b'.'
    || c == b'-'

unfoldable pub error_code_matches : Text → Bool
unfolding is_code_char
error_code_matches code = not (is_empty code) && leb (length code) 64 && all is_code_char code

unfoldable pub message_refused : Text → Bool
message_refused message =
    is_empty message
    || ltb 1000 (length message)
    || any (λ c. c == 10) message
    || any (λ c. c == 13) message

unfoldable pub fail_job : (now done_at : ℕ) → ℕ → Text → (error_code error_message : Text) → Tx Job
unfolding owned_processing_job_for_update require_active_lease error_code_matches message_refused
    strip
fail_job now done_at job_id lease_owner error_code error_message = do
  let code = strip error_code
  let message = strip error_message
  lift (guard (error_code_matches code) unsupported_value)
  lift (guard (not (message_refused message)) unsupported_value)
  job ← owned_processing_job_for_update job_id lease_owner
  lift (require_active_lease job now)
  flush (failed_row done_at code message job)
  pure (failed_row done_at code message job)

abbrev pub expire : ℕ → Job → Job
expire now =
    failed_row now (codes "worker_lease_expired")
      (codes "Job worker lease expired before completion")

unfoldable pub recover_stale_jobs : (ℕ → Bool) → (now limit : ℕ) → Tx (List Job)
unfolding stale_processing_for_update write_rows
recover_stale_jobs locked now limit = do
  lift (guard (leb 1 limit && leb limit 1000) unsupported_value)
  jobs ← gets (stale_processing_for_update locked now limit)
  let recovered = map (expire now) jobs
  (λ db. ok (recovered, write_rows recovered db))
