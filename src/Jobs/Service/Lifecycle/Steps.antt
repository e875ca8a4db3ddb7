-- ===== src/Jobs/Service/Lifecycle/Steps.antt =====
-- Every transaction moves each job along an edge of its life, or leaves it alone.
use security_configuration_a.Base.{
  ℕ, ◌≡◌, refl, subst, Bool, true, ◌&&◌, Option, none, some, List, [], ◌∷◌, arith, leb, ◌==◌, All,
  keep, inl, inr, Text, Bool-cases, ◌⊎◌, map,
}
use security_configuration_a.Base.Lists.{In-keep, In-All, All-take}
use security_configuration_a.Base.Sort.{All-sorted}
use security_configuration_a.Base.Str.{strip, codes}
use security_configuration_a.Jobs.Model.{Job, JobType, processing, eq_of_status_eq}
use security_configuration_a.Jobs.Store.{
  Db, Result, ok, err, after, settle, write_row, write_rows, find_row, is_stale, stale_le,
  stale_processing_for_update,
}
use security_configuration_a.Jobs.Rows.{
  find_row-key, find_row-write_row, find_row-append, IsKeyed, In-find_row,
}
use security_configuration_a.Jobs.Service.{
  Seconds, enqueue_job, stage_refused, claim_next_job, heartbeat_job, complete_job, fail_job,
  recover_stale_jobs, expire,
}
use security_configuration_a.Jobs.Service.Leases.{complete_job-ok, fail_job-ok, heartbeat_job-ok}
use security_configuration_a.Jobs.Service.Claims.{
  next_queued-oldest, claimable-queued, claim_next_job-none, claim_next_job-ok,
}
use security_configuration_a.Jobs.Service.Lifecycle.{
  Op, enqueue, claim, heartbeat, complete, fail, recover, run_op, Move, stays, claims, renews,
  completes, fails, Moved,
}

flush-Moved :
    (k : ℕ) (job job' row : Job) (db : Db)
    → find_row job'.job_id db ≡ some job
    → Move job job'
    → find_row k db ≡ some row
    → Moved k row (write_row job' db)
flush-Moved k job job' row db found move h = elim (Bool-cases (job'.job_id == k)) [
  | inl same ↦ (
    job',
    ground (arith, find_row-write_row k job' db),
    subst (λ r. Move r job') (ground arith) move,
  )
  | inr other ↦ (row, ground (arith, find_row-write_row k job' db), stays refl)
]

-- A call that raises, and so is rolled back, leaves every job alone.
same-Moved : (k : ℕ) (row : Job) (db : Db) → find_row k db ≡ some row → Moved k row db
same-Moved k row db h = (row, h, stays refl)

claim-Moved :
    (locked : ℕ → Bool) (now : ℕ) (allowed : Option (List JobType)) (owner : Text) (lease : Seconds)
    → (db : Db) (r : Result (Option Job × Db)) (k : ℕ) (row : Job) → IsKeyed db
    → claim_next_job locked now allowed owner lease db ≡ r
    → find_row k db ≡ some row
    → Moved k row (settle db r)
claim-Moved locked now allowed owner lease db (err e) k row keyed r h = same-Moved k row db h
claim-Moved locked now allowed owner lease db (ok (none, db')) k row keyed r h =
    rw (claim_next_job-none locked now allowed owner lease db db' r) (same-Moved k row db h)
claim-Moved locked now allowed owner lease db (ok (some claimed, db')) k row keyed r h =
    let (job, seconds, picked, valid, made, wrote) =
      claim_next_job-ok locked now allowed owner lease db db' claimed r in
    let oldest = next_queued-oldest locked allowed db job picked in
    rw wrote (
      flush-Moved k job claimed row db (ground (arith, In-find_row db job keyed oldest.0))
        (claims (strip owner) now seconds (claimable-queued locked allowed job oldest.1) made) h)

complete-Moved :
    (now done_at job_id : ℕ) (owner : Text) (db : Db) (r : Result (Job × Db)) (k : ℕ) (row : Job)
    → complete_job now done_at job_id owner db ≡ r
    → find_row k db ≡ some row
    → Moved k row (settle db r)
complete-Moved now done_at job_id owner db (err e) k row r h = same-Moved k row db h
complete-Moved now done_at job_id owner db (ok (job', db')) k row r h =
    let (job, held, made, wrote) = complete_job-ok now job_id owner db db' job' done_at r in
    rw wrote (
      flush-Moved k job job' row db (ground (arith, find_row-key job_id db job held.found))
        (completes done_at held.running made) h)

fail-Moved :
    (now done_at job_id : ℕ) (owner code message : Text) (db : Db) (r : Result (Job × Db)) (k : ℕ)
    (row : Job)
    → fail_job now done_at job_id owner code message db ≡ r
    → find_row k db ≡ some row
    → Moved k row (settle db r)
fail-Moved now done_at job_id owner code message db (err e) k row r h = same-Moved k row db h
fail-Moved now done_at job_id owner code message db (ok (job', db')) k row r h =
    let ((job, held, made, wrote), _, _) =
      fail_job-ok now job_id owner db db' job' done_at code message r in
    rw wrote (
      flush-Moved k job job' row db (ground (arith, find_row-key job_id db job held.found))
        (fails done_at (strip code) (strip message) held.running made) h)

heartbeat-Moved :
    (now job_id : ℕ) (owner : Text) (lease : Seconds) (db : Db) (r : Result (Job × Db)) (k : ℕ)
    (row : Job)
    → heartbeat_job now job_id owner lease db ≡ r
    → find_row k db ≡ some row
    → Moved k row (settle db r)
heartbeat-Moved now job_id owner lease db (err e) k row r h = same-Moved k row db h
heartbeat-Moved now job_id owner lease db (ok (job', db')) k row r h =
    let (seconds, valid, (job, held, made, wrote)) =
      heartbeat_job-ok now job_id owner lease db db' job' r in
    rw wrote (
      flush-Moved k job job' row db (ground (arith, find_row-key job_id db job held.found))
        (renews now seconds held.running made) h)

enqueue-Moved :
    (job_id now : ℕ) (t : JobType) (payload : Option (List (Text × Text)))
    (audit_id device_id : Option ℕ)
    → (stage : Option Text) (db : Db) (k : ℕ) (row : Job) → find_row k db ≡ some row
    → Moved k row (after (enqueue_job job_id now t payload audit_id device_id stage) db)
unfolding enqueue_job
enqueue-Moved job_id now t payload audit_id device_id stage db k row h =
    elim (Bool-cases (stage_refused stage)) [
      | inl e ↦ rw e (same-Moved k row db h)
      | inr e ↦ rw e (row, find_row-append k db _ row h, stays refl)
    ]

-- A row that recovery may have expired already.
abbrev Expired : ℕ → Job → Job → Type 0
Expired now row row' = (row' ≡ row) ⊎ ((row.status ≡ processing) × (row' ≡ expire now row))

-- Rows taken from `before` are expired one by one.
recover-Expired :
    (now : ℕ) (before : Db) (k : ℕ) (row : Job) (jobs : List Job) (db : Db) (cur : Job)
    → find_row k before ≡ some row
    → All (λ j. (find_row j.job_id before ≡ some j) × (j.status ≡ processing)) jobs
    → find_row k db ≡ some cur
    → Expired now row cur
    → (row' : Job) × (find_row k (write_rows (map (expire now) jobs) db) ≡ some row')
      × Expired now row row'
unfolding write_rows
recover-Expired now before k row [] db cur b h f e = (cur, f, e)
recover-Expired now before k row (j ∷ jobs) db cur b h f e = elim (Bool-cases (j.job_id == k)) [
  | inl same ↦
      recover-Expired now before k row jobs (write_row (expire now j) db) (expire now row) b h.1
        (ground (arith, find_row-write_row k (expire now j) db)) (inr (ground arith, refl))
  | inr other ↦
      recover-Expired now before k row jobs (write_row (expire now j) db) cur b h.1
        (ground (arith, find_row-write_row k (expire now j) db)) e
]

stale-processing :
    (locked : ℕ → Bool) (now : ℕ) (job : Job)
    → is_stale locked now job ≡ true
    → job.status ≡ processing
unfolding is_stale
stale-processing locked now job h = ground (arith, eq_of_status_eq job.status processing)

-- The rows that recovery takes are processing rows of the table.
pub stale_rows :
    (locked : ℕ → Bool) (now limit : ℕ) (db : Db)
    → IsKeyed db
    → All
        (λ j. (find_row j.job_id db ≡ some j) × (j.status ≡ processing))
        (stale_processing_for_update locked now limit db)
unfolding stale_processing_for_update
stale_rows locked now limit db keyed = All-take _ limit _ (
    All-sorted stale_le _ (keep (is_stale locked now) db) (
      In-All _ _ (λ j i.
        let (here, stale) = In-keep (is_stale locked now) j db i in
        (In-find_row db j keyed here, stale-processing locked now j stale))))

Expired-Move : (now : ℕ) (row row' : Job) → Expired now row row' → Move row row'
Expired-Move now row row' (inl e) = stays e
Expired-Move now row row' (inr (running, e)) =
    fails now (codes "worker_lease_expired") (codes "Job worker lease expired before completion")
      running e

recover-Moved :
    (locked : ℕ → Bool) (now limit : ℕ) (db : Db) (k : ℕ) (row : Job)
    → IsKeyed db
    → find_row k db ≡ some row
    → Moved k row (after (recover_stale_jobs locked now limit) db)
unfolding recover_stale_jobs
recover-Moved locked now limit db k row keyed h =
    elim (Bool-cases (leb 1 limit && leb limit 1000)) [
      | inl e ↦ rw e (
          let (row', found, moved) =
            recover-Expired now db k row (stale_processing_for_update locked now limit db) db row h
              (stale_rows locked now limit db keyed) h (inl refl) in
          (row', found, Expired-Move now row row' moved))
      | inr e ↦ rw e (same-Moved k row db h)
    ]

-- Whatever transaction runs, a job that is in the table stays in it under its key, and its row either
-- stays as it is or makes one of the moves of `Move`.
pub run_op-Move :
    (op : Op) (db : Db) (k : ℕ) (row : Job)
    → IsKeyed db
    → find_row k db ≡ some row
    → Moved k row (run_op op db)
unfolding run_op
run_op-Move (enqueue job_id now t payload audit_id device_id stage) db k row keyed h =
    enqueue-Moved job_id now t payload audit_id device_id stage db k row h
run_op-Move (claim locked now allowed owner lease) db k row keyed h =
    claim-Moved locked now allowed owner lease db _ k row keyed refl h
run_op-Move (heartbeat now job_id owner lease) db k row keyed h =
    heartbeat-Moved now job_id owner lease db _ k row refl h
run_op-Move (complete now done_at job_id owner) db k row keyed h =
    complete-Moved now done_at job_id owner db _ k row refl h
run_op-Move (fail now done_at job_id owner code message) db k row keyed h =
    fail-Moved now done_at job_id owner code message db _ k row refl h
run_op-Move (recover locked now limit) db k row keyed h =
    recover-Moved locked now limit db k row keyed h
