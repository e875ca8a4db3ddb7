-- ===== src/Jobs/Runner.antt =====
-- The worker that claims and runs one job after another (backend/app/jobs/runner.py).
-- What a handler does to the tables while it runs, with the heartbeats of this worker and the
-- transactions of other processes in that time, is a parameter, `run_handler`.
pub mod Settling
use security_configuration_a.Base.{
  ℕ, ◌+◌, ◌≡◌, ◌≢◌, ◌≤◌, ◌<◌, refl, ap, sym, ◌∙◌, subst, Bool, true, false, not, ◌&&◌, ◌||◌, Option,
  none, some, List, [], ◌∷◌, ◌++◌, arith, ltb, leb, ◌==◌, if◌then◌else◌, All, In, keep, inl, inr,
  Text, is_empty, length, codes,
}
use security_configuration_a.Base.Str.{strip}
use security_configuration_a.Jobs.Model.{
  Job, JobType, JobError, unsupported_value, job_not_found, invalid_job_transition, job_lease_lost,
}
use security_configuration_a.Jobs.Store.{Db, Result, ok, err, Tx, after, settle}
use security_configuration_a.Jobs.Service.{
  Seconds, not_finite, negative, micros, claim_next_job, complete_job, fail_job, recover_stale_jobs,
  heartbeat_job,
}

pub record Worker : Type 0 where
  pub handlers : List JobType  -- the keys of the mapping
  pub poll_interval : Seconds
  pub lease : Seconds
  pub heartbeat_interval : Seconds
  pub lease_owner : Text

abbrev bad_poll : Seconds → Bool
bad_poll (micros n) = ltb n 100000
bad_poll _ = true

abbrev bad_lease : Seconds → Bool
bad_lease (micros n) = not (ltb 0 n && leb n 3600000000)
bad_lease _ = true

abbrev bad_heartbeat : Seconds → Seconds → Bool
bad_heartbeat (micros n) (micros lease) = not (ltb 0 n && ltb n lease)
bad_heartbeat _ _ = true

-- `WorkerRuntime.__init__`: `none` stands for `ValueError`. The owner is the given one or a new one.
unfoldable pub new_worker :
    List JobType
    → (poll lease heartbeat : Seconds) → Option Text
    → (new_owner : Text) → Option Worker
unfolding strip
new_worker handlers poll lease heartbeat owner new_owner =
    let lease_owner = or_new owner in
    if bad_poll poll || bad_lease lease || bad_heartbeat heartbeat lease
    then none
    else if is_empty (strip lease_owner) || ltb 128 (length lease_owner)
    then none
    else some (record {
      handlers = handlers;
      poll_interval = poll;
      lease = lease;
      heartbeat_interval = heartbeat;
      lease_owner = lease_owner;
    })
  where
    or_new : Option Text → Text
    or_new none = new_owner
    or_new (some []) = new_owner
    or_new (some (c ∷ s)) = c ∷ s

-- `True`, `False`, or an exception that leaves `run_iteration`.
pub data Iteration : Type 0 where
  ran idle : Iteration
  raised : JobError → Iteration

-- `except (InvalidJobTransitionError, JobLeaseLostError)`
abbrev settled : {A : Type 0} → Result A → Iteration
settled (ok a) = ran
settled (err (invalid_job_transition status)) = ran
settled (err job_lease_lost) = ran
settled (err unsupported_value) = raised unsupported_value
settled (err job_not_found) = raised job_not_found

-- The clock readings of one iteration.
pub record Readings : Type 0 where
  pub recovered_at : ℕ
  pub claimed_at : ℕ
  pub checked_at : ℕ
  pub done_at : ℕ

-- The last transaction: the job fails or completes as its handler did.
unfoldable pub end_job : Worker → Readings → ℕ → Bool → Tx Job
end_job w t job_id true =
    fail_job t.checked_at t.done_at job_id w.lease_owner (codes "handler_failed")
      (codes "Job handler execution failed")
end_job w t job_id false = complete_job t.checked_at t.done_at job_id w.lease_owner

finish : Worker → Readings → ℕ → Bool × Db → Iteration × Db
unfolding end_job
finish w t job_id (handler_failed, db) =
    let r = end_job w t job_id handler_failed db in (settled r, settle db r)

module _ (run_handler : JobType → ℕ → Db → Bool × Db) (locked : ℕ → Bool) where
  dispatch : Worker → Readings → Db → Result (Option Job × Db) → Iteration × Db
  unfolding finish
  dispatch w t db (err e) = (raised e, db)
  dispatch w t db (ok (none, db')) = (idle, db')
  dispatch w t db (ok (some job, db')) =
      finish w t job.job_id (run_handler job.job_type job.job_id db')

  unfoldable pub run_iteration : Worker → Readings → (shutdown : Bool) → Db → Iteration × Db
  unfolding dispatch
  run_iteration w t shutdown db =
      if shutdown || is_empty w.handlers
      then (idle, db)
      else (let db₁ = after (recover_stale_jobs locked t.recovered_at 100) db in
          dispatch w t db₁
            (claim_next_job locked t.claimed_at (some w.handlers) w.lease_owner w.lease db₁))
