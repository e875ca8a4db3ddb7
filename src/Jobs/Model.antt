-- ===== src/Jobs/Model.antt =====
-- The job row, its enumerations and errors (backend/app/db/models/job.py, backend/app/jobs/enums.py,
-- backend/app/jobs/errors.py). A UUID is its integer; a time is a number of microseconds.
use security_configuration_a.Base.{ℕ, Bool, true, false, Option, List, Text}
use mathlib.Core.Path.{◌≡◌}
use native.Mathlib.Omega.{arith}

pub data JobStatus : Type 0 where
  queued processing completed failed : JobStatus

pub data JobType : Type 0 where
  audit re_evaluation mapping_validation pdf_generation bulk_report_generation system_noop : JobType

pub record Job : Type 0 where
  pub job_id : ℕ
  pub job_type : JobType
  pub status : JobStatus
  pub stage : Option Text
  pub progress : ℕ
  pub audit_id : Option ℕ
  pub device_id : Option ℕ
  pub payload : List (Text × Text)  -- an object, whose values nothing here reads
  pub attempt_count : ℕ
  pub error_code : Option Text
  pub error_message : Option Text
  pub created_at : ℕ
  pub started_at : Option ℕ
  pub completed_at : Option ℕ
  pub lease_owner : Option Text
  pub heartbeat_at : Option ℕ
  pub lease_expires_at : Option ℕ

-- `JobNotFoundError`, `InvalidJobTransitionError` and `JobLeaseLostError` derive from `JobError`.
pub data JobError : Type 0 where
  unsupported_value : JobError
  job_not_found : JobError
  invalid_job_transition : JobStatus → JobError
  job_lease_lost : JobError

unfoldable pub status_eq : JobStatus → JobStatus → Bool
status_eq queued queued = true
status_eq processing processing = true
status_eq completed completed = true
status_eq failed failed = true
status_eq _ _ = false

unfoldable pub type_eq : JobType → JobType → Bool
type_eq audit audit = true
type_eq re_evaluation re_evaluation = true
type_eq mapping_validation mapping_validation = true
type_eq pdf_generation pdf_generation = true
type_eq bulk_report_generation bulk_report_generation = true
type_eq system_noop system_noop = true
type_eq _ _ = false

pub eq_of_status_eq : (s t : JobStatus) → status_eq s t ≡ true → s ≡ t
unfolding status_eq
eq_of_status_eq s t h = ground arith
