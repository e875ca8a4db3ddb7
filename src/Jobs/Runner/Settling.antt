-- ===== src/Jobs/Runner/Settling.antt =====
-- How one iteration of the worker ends.
use security_configuration_a.Base.{
  ℕ, ◌≡◌, ◌≢◌, refl, Bool, true, false, Option, none, some, List, arith, inl, inr, Text, is_empty,
  codes, Bool-cases,
}
use security_configuration_a.Base.Str.{strip, length-strip, is_space}
use security_configuration_a.Jobs.Model.{
  Job, JobType, JobError, unsupported_value, job_not_found, invalid_job_transition, job_lease_lost,
}
use security_configuration_a.Jobs.Store.{Db, Result, ok, err, after, settle, find_row, write_row}
use security_configuration_a.Jobs.Service.{
  Seconds, micros, claim_next_job, recover_stale_jobs, error_code_matches, message_refused,
  validated_lease_owner, validated_lease_seconds, completed_row, failed_row,
}
use security_configuration_a.Jobs.Service.Leases.{
  Holds, fail_job-ok, complete_job-ok, IsLost, complete_job-held, fail_job-held, complete_job-err,
  fail_job-err,
}
use security_configuration_a.Jobs.Service.Claims.{claim_next_job-err, claimed-found}
use security_configuration_a.Jobs.Runner.{
  Worker, new_worker, ran, raised, settled, Readings, end_job, finish, dispatch, run_iteration,
}

-- The worker's name and lease are in bounds.
pub record IsValid (w : Worker) : Type 0 where
  pub owner_valid : validated_lease_owner w.lease_owner ≡ ok (strip w.lease_owner)
  pub lease_valid : (n : ℕ) × (validated_lease_seconds w.lease ≡ ok n)

-- A worker that is made has a name and a lease in bounds.
pub new_worker-IsValid :
    (handlers : List JobType) (poll lease heartbeat : Seconds) (owner : Option Text)
    (new_owner : Text) (w : Worker)
    → new_worker handlers poll lease heartbeat owner new_owner ≡ some w
    → IsValid w
unfolding new_worker validated_lease_owner validated_lease_seconds
new_worker-IsValid handlers poll (micros n) heartbeat owner new_owner w h = record {
  owner_valid = ground (arith, length-strip w.lease_owner);
  lease_valid = (n, ground arith);
}
new_worker-IsValid handlers poll _ heartbeat owner new_owner w h = ground arith

failure_code : error_code_matches (strip (codes "handler_failed")) ≡ true
unfolding error_code_matches strip is_space
failure_code = refl

failure_message : message_refused (strip (codes "Job handler execution failed")) ≡ false
unfolding message_refused strip is_space
failure_message = refl

IsLost-ran : (A : Type 0) (e : JobError) → IsLost e → settled {A = A} (err e) ≡ ran
IsLost-ran A job_lease_lost h = refl
IsLost-ran A (invalid_job_transition status) h = refl
IsLost-ran A unsupported_value h = absurd h
IsLost-ran A job_not_found h = absurd h

module _ (w : Worker) (t : Readings) (job_id : ℕ) (valid : IsValid w) where
  -- What the iteration writes when its lease held to the end.
  abbrev pub ended_row : Bool → Job → Job
  ended_row true =
      failed_row t.done_at (codes "handler_failed") (codes "Job handler execution failed")
  ended_row false = completed_row t.done_at

  end_job-err :
      (failed : Bool) (db : Db) (e : JobError)
      → find_row job_id db ≢ none
      → end_job w t job_id failed db ≡ err e
      → IsLost e
  unfolding end_job
  end_job-err true db e found h =
      fail_job-err t.checked_at t.done_at job_id w.lease_owner db valid.owner_valid found _ _ e
        failure_code failure_message h
  end_job-err false db e found h =
      complete_job-err t.checked_at t.done_at job_id w.lease_owner db valid.owner_valid found e h

  finish-ran :
      (failed : Bool) (db : Db)
      → find_row job_id db ≢ none
      → (finish w t job_id (failed, db)).0 ≡ ran
  unfolding finish
  finish-ran failed db found = go (end_job w t job_id failed db) refl
    where
      go : (r : Result (Job × Db)) → end_job w t job_id failed db ≡ r → settled r ≡ ran
      go (ok x) e = refl
      go (err x) e = IsLost-ran (Job × Db) x (end_job-err failed db x found e)

  finish-held :
      (failed : Bool) (db : Db) (job : Job)
      → Holds db job_id w.lease_owner t.checked_at job
      → finish w t job_id (failed, db) ≡ (ran, write_row (ended_row failed job) db)
  unfolding finish end_job strip is_space
  finish-held true db job held = rw (
      fail_job-held t.checked_at t.done_at job_id w.lease_owner (codes "handler_failed")
        (codes "Job handler execution failed") db job valid.owner_valid failure_code failure_message
        held)
  finish-held false db job held =
      rw (
        complete_job-held t.checked_at t.done_at job_id w.lease_owner db job valid.owner_valid held)

  -- A lease that was lost leaves the tables as the handler and the others left them.
  finish-lost :
      (failed : Bool) (db : Db)
      → ((job : Job) → Holds db job_id w.lease_owner t.checked_at job → ⊥)
      → (finish w t job_id (failed, db)).1 ≡ db
  unfolding finish
  finish-lost failed db lost = go failed (end_job w t job_id failed db) refl
    where
      go :
          (failed : Bool) (r : Result (Job × Db))
          → end_job w t job_id failed db ≡ r
          → settle db r ≡ db
      go failed (err x) e = refl
      go true (ok (job', db')) e = absurd (
          lost _
            (fail_job-ok t.checked_at job_id w.lease_owner db db' job' t.done_at _ _
              (unfold end_job in e)).0.1)
      go false (ok (job', db')) e = absurd (
          lost _
            (complete_job-ok t.checked_at job_id w.lease_owner db db' job' t.done_at
              (unfold end_job in e)).1)

module _ (run_handler : JobType → ℕ → Db → Bool × Db) (locked : ℕ → Bool) (w : Worker)
    (t : Readings) (valid : IsValid w) where
  -- The worker claims a job, lets its handler run, and then ends the job as the handler went if its
  -- lease still holds, and otherwise writes nothing more.
  pub iteration-settles :
      (db db' : Db) (job : Job) (failed : Bool) (db'' : Db)
      → is_empty w.handlers ≡ false
      → claim_next_job locked t.claimed_at
          (some w.handlers)
          w.lease_owner
          w.lease
          (after (recover_stale_jobs locked t.recovered_at 100) db)
        ≡ ok (some job, db')
      → run_handler job.job_type job.job_id db' ≡ (failed, db'')
      → ((row : Job)
          → Holds db'' job.job_id w.lease_owner t.checked_at row
          → run_iteration run_handler locked w t false db
            ≡ (ran, write_row (ended_row w t job.job_id valid failed row) db''))
        × (((row : Job) → Holds db'' job.job_id w.lease_owner t.checked_at row → ⊥)
            → (run_iteration run_handler locked w t false db).1 ≡ db'')
  unfolding run_iteration dispatch
  iteration-settles db db' job failed db'' some_handlers claimed handled = (
    λ row held.
        rw some_handlers
          (rw claimed (rw handled (finish-held w t job.job_id valid failed db'' row held))),
    λ lost.
        rw some_handlers
          (rw claimed (rw handled (finish-lost w t job.job_id valid failed db'' lost))),
  )

  dispatched :
      ((job_type : JobType) (job_id k : ℕ) (db : Db)
        → find_row k db ≢ none
        → find_row k (run_handler job_type job_id db).1 ≢ none)
      → (e : JobError) (db : Db) (r : Result (Option Job × Db))
      → claim_next_job locked t.claimed_at (some w.handlers) w.lease_owner w.lease db ≡ r
      → (dispatch run_handler locked w t db r).0 ≢ raised e
  unfolding dispatch
  dispatched keeps e db (err x) c h =
      claim_next_job-err locked t.claimed_at (some w.handlers) w.lease_owner w.lease
        valid.lease_valid.0 db x valid.owner_valid valid.lease_valid.1 c
  dispatched keeps e db (ok (none, db')) c h = cc
  dispatched keeps e db (ok (some job, db')) c h =
      let found =
        claimed-found locked t.claimed_at (some w.handlers) w.lease_owner w.lease db db' job c in
      let handled = run_handler job.job_type job.job_id db' in
      cc (
        finish-ran w t job.job_id valid handled.0 handled.1
          (keeps job.job_type job.job_id job.job_id db' found))

  -- No iteration raises an error of the job store, if handlers remove no rows.
  pub iteration-never_raises :
      ((job_type : JobType) (job_id k : ℕ) (db : Db)
        → find_row k db ≢ none
        → find_row k (run_handler job_type job_id db).1 ≢ none)
      → (shutdown : Bool) (db : Db) (e : JobError)
      → (run_iteration run_handler locked w t shutdown db).0 ≢ raised e
  unfolding run_iteration
  iteration-never_raises keeps true db e h = cc
  iteration-never_raises keeps false db e h = elim (Bool-cases (is_empty w.handlers)) [
    | inl none_there ↦ cc (rw none_there at h)
    | inr some_handlers ↦ dispatched keeps e _ _ refl (rw some_handlers at h)
  ]
