-- ===== src/Jobs/Service/Leases.antt =====
-- Who may end or renew a job: the holder of its lease, while the lease lasts.
use security_configuration_a.Base.{
  ℕ, ◌≡◌, ◌≢◌, refl, Bool, true, false, not, Option, none, some, arith, ap, Text,
}
use security_configuration_a.Base.Str.{strip, eq_of_text_eq, text_eq_refl}
use security_configuration_a.Jobs.Model.{
  Job, JobError, processing, invalid_job_transition, status_eq, eq_of_status_eq, job_lease_lost,
  job_not_found, unsupported_value,
}
use security_configuration_a.Jobs.Store.{
  Db, Result, Tx, continue, lift, guard, ok, err, write_row, find_row, by_id_for_update,
}
use security_configuration_a.Jobs.Service.{
  Seconds, validated_lease_seconds, require_owned, validated_lease_owner, owned_by,
  owned_processing_job_for_update, require_active_lease, complete_job, fail_job, heartbeat_job,
  is_active, completed_row, failed_row, renewed_row, error_code_matches, message_refused,
}

-- The caller holds the lease of the row: it is processing, under the caller's name, and unexpired.
pub record Holds (db : Db) (job_id : ℕ) (lease_owner : Text) (now : ℕ) (job : Job) : Type 0 where
  pub found : find_row job_id db ≡ some job
  pub running : job.status ≡ processing
  pub owner : job.lease_owner ≡ some (strip lease_owner)
  pub active : is_active job.lease_expires_at now ≡ true

owned_by-eq : (o : Option Text) (owner : Text) → owned_by o owner ≡ true → o ≡ some owner
owned_by-eq none owner h = cc
owned_by-eq (some o) owner h = ap some (eq_of_text_eq o owner h)

require_owned-ok :
    (o : Option Job) (lease_owner : Text) (job : Job)
    → require_owned o lease_owner ≡ ok job
    → (o ≡ some job) × (job.status ≡ processing) × (job.lease_owner ≡ some (strip lease_owner))
unfolding require_owned validated_lease_owner
require_owned-ok none lease_owner job h = cc
require_owned-ok (some row) lease_owner job h =
    ground (
      arith,
      owned_by-eq row.lease_owner (strip lease_owner),
      eq_of_status_eq row.status processing,
    )

owned-ok :
    (job_id : ℕ) (lease_owner : Text) (db db' : Db) (job : Job)
    → owned_processing_job_for_update job_id lease_owner db ≡ ok (job, db')
    → (db' ≡ db)
      × (find_row job_id db ≡ some job)
      × (job.status ≡ processing)
      × (job.lease_owner ≡ some (strip lease_owner))
unfolding owned_processing_job_for_update
owned-ok job_id lease_owner db db' job h =
    ground (arith, require_owned-ok (find_row job_id db) lease_owner job)

-- A call that begins by locking an owned row has found one, and goes on from it.
owned-bind :
    (job_id : ℕ) (lease_owner : Text) (k : Job → Tx Job) (db : Db) (r : Result (Job × Db))
    (out : Job × Db)
    → owned_processing_job_for_update job_id lease_owner db ≡ r
    → continue r k ≡ ok out
    → (job : Job) × (find_row job_id db ≡ some job)
      × (job.status ≡ processing)
      × (job.lease_owner ≡ some (strip lease_owner))
      × (k job db ≡ ok out)
owned-bind job_id lease_owner k db (err e) out r h = cc
owned-bind job_id lease_owner k db (ok (job, same)) out r h =
    let (s, found, running, owner) = owned-ok job_id lease_owner db same job r in
    (job, found, running, owner, rw s at h)

guard-ok :
    {A : Type 0} (b : Bool) (e : JobError) (k : Unit {0} → Tx A) (db : Db) (out : A × Db)
    → continue (lift (guard b e) db) k ≡ ok out
    → (b ≡ true) × (k tt db ≡ ok out)
guard-ok true e k db out h = (refl, h)
guard-ok false e k db out h = cc

lift-ok :
    {A B : Type 0} (r : Result A) (k : A → Tx B) (db : Db) (out : B × Db)
    → continue (lift r db) k ≡ ok out
    → (a : A) × (r ≡ ok a) × (k a db ≡ ok out)
lift-ok (ok a) k db out h = (a, refl, h)
lift-ok (err e) k db out h = cc

module _ (now job_id : ℕ) (lease_owner : Text) (db db' : Db) (job' : Job) where
  -- The caller held the lease, and the call wrote one row, made from the row that it found.
  abbrev pub HeldWrite : (Job → Job) → Type 0
  HeldWrite change =
      (job : Job) × Holds db job_id lease_owner now job
      × (job' ≡ change job)
      × (db' ≡ write_row job' db)

  pub complete_job-ok :
      (done_at : ℕ)
      → complete_job now done_at job_id lease_owner db ≡ ok (job', db')
      → HeldWrite (completed_row done_at)
  unfolding complete_job require_active_lease
  complete_job-ok done_at h =
      let (job, found, running, owner, rest) =
        owned-bind job_id lease_owner _ db _ (job', db') refl h in
      (job, ground arith, ground arith, ground arith)

  pub fail_job-ok :
      (done_at : ℕ) (error_code error_message : Text)
      → fail_job now done_at job_id lease_owner error_code error_message db ≡ ok (job', db')
      → HeldWrite (failed_row done_at (strip error_code) (strip error_message))
        × (error_code_matches (strip error_code) ≡ true)
        × (message_refused (strip error_message) ≡ false)
  unfolding fail_job require_active_lease
  fail_job-ok done_at code message h =
      let (matches, h₁) = guard-ok (error_code_matches (strip code)) _ _ db (job', db') h in
      let (refused, h₂) = guard-ok (not (message_refused (strip message))) _ _ db (job', db') h₁ in
      let (job, found, running, owner, rest) =
        owned-bind job_id lease_owner _ db _ (job', db') refl h₂ in
      ((job, ground arith, ground arith, ground arith), matches, ground arith)

-- A renewal moves the end of the lease to the given time after `now`.
pub heartbeat_job-ok :
    (now job_id : ℕ) (lease_owner : Text) (lease : Seconds) (db db' : Db) (job' : Job)
    → heartbeat_job now job_id lease_owner lease db ≡ ok (job', db')
    → (seconds : ℕ) × (validated_lease_seconds lease ≡ ok seconds)
      × HeldWrite now job_id lease_owner db db' job' (renewed_row now seconds)
unfolding heartbeat_job require_active_lease
heartbeat_job-ok now job_id lease_owner lease db db' job' h =
    let (job, found, running, owner, rest) =
      owned-bind job_id lease_owner _ db _ (job', db') refl h in
    let (active, h₁) = guard-ok (is_active job.lease_expires_at now) _ _ db (job', db') rest in
    let (seconds, valid, h₂) = lift-ok (validated_lease_seconds lease) _ db (job', db') h₁ in
    (seconds, valid, (job, ground arith, ground arith, ground arith))

-- The holder of a lease, whose name is in bounds, completes its job.
pub complete_job-held :
    (now done_at job_id : ℕ) (lease_owner : Text) (db : Db) (job : Job)
    → validated_lease_owner lease_owner ≡ ok (strip lease_owner)
    → Holds db job_id lease_owner now job
    → complete_job now done_at job_id lease_owner db
      ≡ ok (completed_row done_at job, write_row (completed_row done_at job) db)
unfolding complete_job require_active_lease owned_processing_job_for_update require_owned status_eq
    by_id_for_update
complete_job-held now done_at job_id lease_owner db job valid held = rw held.found (
    rw held.running
      (rw valid (rw held.owner (rw (text_eq_refl (strip lease_owner)) (rw held.active)))))

-- So it fails its job, with a well-formed code and message.
pub fail_job-held :
    (now done_at job_id : ℕ) (lease_owner code message : Text) (db : Db) (job : Job)
    → validated_lease_owner lease_owner ≡ ok (strip lease_owner)
    → error_code_matches (strip code) ≡ true
    → message_refused (strip message) ≡ false
    → Holds db job_id lease_owner now job
    → fail_job now done_at job_id lease_owner code message db
      ≡ ok (
        failed_row done_at (strip code) (strip message) job,
        write_row (failed_row done_at (strip code) (strip message) job) db,
      )
unfolding fail_job require_active_lease owned_processing_job_for_update require_owned status_eq
    by_id_for_update
fail_job-held now done_at job_id lease_owner code message db job valid matches accepted held =
    rw matches (
      rw accepted (
        rw held.found (
          rw held.running
            (rw valid (rw held.owner (rw (text_eq_refl (strip lease_owner)) (rw held.active)))))))

-- A call on a row of the table by an owner whose name is in bounds raises only what the worker
-- handles.
abbrev pub IsLost : JobError → Type 0
IsLost job_lease_lost = Unit
IsLost (invalid_job_transition status) = Unit
IsLost _ = ⊥

owned-err :
    (job_id : ℕ) (lease_owner : Text) (db : Db) (e : JobError)
    → validated_lease_owner lease_owner ≡ ok (strip lease_owner)
    → find_row job_id db ≢ none
    → owned_processing_job_for_update job_id lease_owner db ≡ err e
    → IsLost e
unfolding owned_processing_job_for_update require_owned by_id_for_update
owned-err job_id lease_owner db job_lease_lost valid found h = tt
owned-err job_id lease_owner db (invalid_job_transition status) valid found h = tt
owned-err job_id lease_owner db unsupported_value valid found h = ground arith
owned-err job_id lease_owner db job_not_found valid found h = ground arith

module _ (now done_at job_id : ℕ) (lease_owner : Text) (db : Db)
    (valid : validated_lease_owner lease_owner ≡ ok (strip lease_owner))
    (found : find_row job_id db ≢ none) where
  pub complete_job-err :
      (e : JobError) → complete_job now done_at job_id lease_owner db ≡ err e → IsLost e
  unfolding complete_job require_active_lease
  complete_job-err job_lease_lost h = tt
  complete_job-err (invalid_job_transition status) h = tt
  complete_job-err unsupported_value h =
      ground (arith, owned-err job_id lease_owner db unsupported_value valid found)
  complete_job-err job_not_found h =
      ground (arith, owned-err job_id lease_owner db job_not_found valid found)

  pub fail_job-err :
      (code message : Text) (e : JobError)
      → error_code_matches (strip code) ≡ true
      → message_refused (strip message) ≡ false
      → fail_job now done_at job_id lease_owner code message db ≡ err e
      → IsLost e
  unfolding fail_job require_active_lease
  fail_job-err code message job_lease_lost m a h = tt
  fail_job-err code message (invalid_job_transition status) m a h = tt
  fail_job-err code message unsupported_value m a h =
      ground (arith, owned-err job_id lease_owner db unsupported_value valid found)
  fail_job-err code message job_not_found m a h =
      ground (arith, owned-err job_id lease_owner db job_not_found valid found)
