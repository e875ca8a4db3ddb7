-- ===== src/Jobs/Service/Lifecycle/Endings.antt =====
-- How a job stops being processed.
use security_configuration_a.Base.{
  ℕ, ◌≡◌, ◌≢◌, refl, subst, ◌∙◌, sym, Bool, true, ◌&&◌, Option, none, some, List, arith, leb, ◌==◌,
  inl, inr, ap, Text, Bool-cases,
}
use security_configuration_a.Base.Str.{strip}
use security_configuration_a.Jobs.Model.{Job, JobType, processing}
use security_configuration_a.Jobs.Store.{
  Db, Result, ok, err, after, settle, write_row, find_row, is_stale,
}
use security_configuration_a.Jobs.Rows.{find_row-key, find_row-write_row, find_row-append, IsKeyed}
use security_configuration_a.Jobs.Service.{
  Seconds, enqueue_job, stage_refused, claim_next_job, heartbeat_job, complete_job, fail_job,
  recover_stale_jobs,
}
use security_configuration_a.Jobs.Service.Leases.{
  Holds, complete_job-ok, fail_job-ok, heartbeat_job-ok,
}
use security_configuration_a.Jobs.Service.Claims.{claim_next_job-none, claim_next_job-ok}
use security_configuration_a.Jobs.Service.Lifecycle.{
  Op, enqueue, claim, heartbeat, complete, fail, recover, run_op,
}
use security_configuration_a.Jobs.Service.Recovery.{recover-changes_stale}
use security_configuration_a.Jobs.Service.{is_active}

-- The transactions that may end the processing of the job at `k`: its holder completes or fails it
-- under an active lease, or a recovery finds it stale.
abbrev pub MayEnd : Op → ℕ → Job → Type 0
MayEnd (complete now done_at job_id owner) k row =
    (job_id ≡ k)
    × (row.lease_owner ≡ some (strip owner))
    × (is_active row.lease_expires_at now ≡ true)
MayEnd (fail now done_at job_id owner code message) k row =
    (job_id ≡ k)
    × (row.lease_owner ≡ some (strip owner))
    × (is_active row.lease_expires_at now ≡ true)
MayEnd (recover locked now limit) k row = is_stale locked now row ≡ true
MayEnd _ k row = ⊥

-- The call by the holder of another job leaves this one alone.
held-ends :
    (k now job_id : ℕ) (owner : Text) (db db' : Db) (row row' job job' : Job)
    → find_row k db ≡ some row
    → Holds db job_id owner now job
    → job'.job_id ≡ job.job_id
    → db' ≡ write_row job' db
    → find_row k db' ≡ some row'
    → row.status ≡ processing
    → row'.status ≢ processing
    → (job_id ≡ k)
      × (row.lease_owner ≡ some (strip owner))
      × (is_active row.lease_expires_at now ≡ true)
held-ends k now job_id owner db db' row row' job job' found held key wrote found' running ended =
    elim (Bool-cases (job'.job_id == k)) [
      | inl same ↦
          let e : job_id ≡ k = ground (arith, find_row-key job_id db job held.found) in
          let r : job ≡ row = ground (arith, ap (λ (n : ℕ). find_row n db) e, held.found) in
          (
            e,
            ground (arith, held.owner, ap (λ (j : Job). j.lease_owner) r),
            subst (λ (j : Job). is_active j.lease_expires_at now ≡ true) r held.active,
          )
      | inr other ↦
          absurd (ended (ground (arith, find_row-write_row k job' db, ap (find_row k) wrote)))
    ]

-- A write that leaves its row processing ends nothing.
running-kept :
    (k : ℕ) (db : Db) (row row' job' : Job)
    → find_row k db ≡ some row
    → job'.status ≡ processing
    → find_row k (write_row job' db) ≡ some row'
    → row.status ≡ processing
    → row'.status ≡ processing
running-kept k db row row' job' found run found' running =
    ground (arith, find_row-write_row k job' db)

module _ (k : ℕ) (db : Db) (row row' : Job) (found : find_row k db ≡ some row)
    (running : row.status ≡ processing) (ended : row'.status ≢ processing) where
  unmoved : find_row k db ≡ some row' → ⊥
  unmoved e = ended (ground arith)

  claim-ends :
      (locked : ℕ → Bool) (now : ℕ) (allowed : Option (List JobType)) (owner : Text)
      (lease : Seconds)
      → (r : Result (Option Job × Db)) → claim_next_job locked now allowed owner lease db ≡ r
      → find_row k (settle db r) ≡ some row'
      → ⊥
  claim-ends locked now allowed owner lease (err e) r h = unmoved h
  claim-ends locked now allowed owner lease (ok (none, db')) r h =
      unmoved
        (ap (find_row k) (sym (claim_next_job-none locked now allowed owner lease db db' r)) ∙ h)
  claim-ends locked now allowed owner lease (ok (some claimed, db')) r h =
      let (job, seconds, picked, valid, made, wrote) =
        claim_next_job-ok locked now allowed owner lease db db' claimed r in
      ended (
        running-kept k db row row' claimed found (ground arith) (ap (find_row k) (sym wrote) ∙ h)
          running)

  heartbeat-ends :
      (now job_id : ℕ) (owner : Text) (lease : Seconds) (r : Result (Job × Db))
      → heartbeat_job now job_id owner lease db ≡ r
      → find_row k (settle db r) ≡ some row'
      → ⊥
  heartbeat-ends now job_id owner lease (err e) r h = unmoved h
  heartbeat-ends now job_id owner lease (ok (job', db')) r h =
      let (seconds, valid, (job, held, made, wrote)) =
        heartbeat_job-ok now job_id owner lease db db' job' r in
      ended (
        running-kept k db row row' job' found (ground (arith, held.running))
          (ap (find_row k) (sym wrote) ∙ h) running)

  complete-ends :
      (now done_at job_id : ℕ) (owner : Text) (r : Result (Job × Db))
      → complete_job now done_at job_id owner db ≡ r
      → find_row k (settle db r) ≡ some row'
      → MayEnd (complete now done_at job_id owner) k row
  complete-ends now done_at job_id owner (err e) r h = absurd (unmoved h)
  complete-ends now done_at job_id owner (ok (job', db')) r h =
      let (job, held, made, wrote) = complete_job-ok now job_id owner db db' job' done_at r in
      held-ends k now job_id owner db db' row row' job job' found held (ground arith) wrote h
        running ended

  fail-ends :
      (now done_at job_id : ℕ) (owner code message : Text) (r : Result (Job × Db))
      → fail_job now done_at job_id owner code message db ≡ r
      → find_row k (settle db r) ≡ some row'
      → MayEnd (fail now done_at job_id owner code message) k row
  fail-ends now done_at job_id owner code message (err e) r h = absurd (unmoved h)
  fail-ends now done_at job_id owner code message (ok (job', db')) r h =
      let ((job, held, made, wrote), _, _) =
        fail_job-ok now job_id owner db db' job' done_at code message r in
      held-ends k now job_id owner db db' row row' job job' found held (ground arith) wrote h
        running ended

  enqueue-ends :
      (job_id now : ℕ) (t : JobType) (payload : Option (List (Text × Text)))
      (audit_id device_id : Option ℕ)
      → (stage : Option Text)
      → find_row k (after (enqueue_job job_id now t payload audit_id device_id stage) db)
        ≡ some row'
      → ⊥
  unfolding enqueue_job
  enqueue-ends job_id now t payload audit_id device_id stage h =
      elim (Bool-cases (stage_refused stage)) [
        | inl e ↦ unmoved (rw e at h)
        | inr e ↦ unmoved (found ∙ sym (find_row-append k db _ row found) ∙ (rw e at h))
      ]

  recover-ends :
      (locked : ℕ → Bool) (now limit : ℕ)
      → IsKeyed db
      → find_row k (after (recover_stale_jobs locked now limit) db) ≡ some row'
      → is_stale locked now row ≡ true
  recover-ends locked now limit keyed h = elim (Bool-cases (leb 1 limit && leb limit 1000)) [
    | inl e ↦
        recover-changes_stale locked now limit k db row keyed e found (λ same. ended (ground arith))
    | inr e ↦ absurd (unmoved (unfold recover_stale_jobs in rw e at h))
  ]

-- Only the holder of the lease, by completing or failing the job while the lease lasts, or a recovery
-- that finds the job stale, takes a job out of processing.
pub processing-ends :
    (op : Op) (db : Db) (k : ℕ) (row row' : Job)
    → IsKeyed db
    → find_row k db ≡ some row
    → row.status ≡ processing
    → find_row k (run_op op db) ≡ some row'
    → row'.status ≢ processing
    → MayEnd op k row
unfolding run_op
processing-ends (enqueue job_id now t payload audit_id device_id stage) db k row row' keyed found
      running h ended =
    enqueue-ends k db row row' found running ended job_id now t payload audit_id device_id stage h
processing-ends (claim locked now allowed owner lease) db k row row' keyed found running h ended =
    claim-ends k db row row' found running ended locked now allowed owner lease _ refl h
processing-ends (heartbeat now job_id owner lease) db k row row' keyed found running h ended =
    heartbeat-ends k db row row' found running ended now job_id owner lease _ refl h
processing-ends (complete now done_at job_id owner) db k row row' keyed found running h ended =
    complete-ends k db row row' found running ended now done_at job_id owner _ refl h
processing-ends (fail now done_at job_id owner code message) db k row row' keyed found running h
      ended =
    fail-ends k db row row' found running ended now done_at job_id owner code message _ refl h
processing-ends (recover locked now limit) db k row row' keyed found running h ended =
    recover-ends k db row row' found running ended locked now limit keyed h
