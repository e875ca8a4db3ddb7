-- ===== src/Jobs/Service/Lifecycle/Shape.antt =====
-- The table that a transaction leaves: as it was, one row longer, or with rows rewritten.
use security_configuration_a.Base.{
  ℕ, ◌≡◌, refl, Bool, ◌&&◌, Option, none, some, List, [], ◌∷◌, ◌++◌, arith, leb, All, In, inl, inr,
  Text, Bool-cases, map,
}
use security_configuration_a.Base.Lists.{All-In}
use security_configuration_a.Base.Str.{strip, codes}
use security_configuration_a.Jobs.Model.{Job, JobType, queued, processing}
use security_configuration_a.Jobs.Store.{
  Db, Result, ok, err, after, settle, write_row, write_rows, find_row, stale_processing_for_update,
}
use security_configuration_a.Jobs.Rows.{IsKeyed, IsKeyed-write_rows, IsKeyed-append}
use security_configuration_a.Jobs.Service.{
  Seconds, enqueue_job, stage_refused, claim_next_job, heartbeat_job, complete_job, fail_job,
  recover_stale_jobs, expire,
}
use security_configuration_a.Jobs.Service.Leases.{complete_job-ok, fail_job-ok, heartbeat_job-ok}
use security_configuration_a.Jobs.Service.Claims.{
  next_queued-oldest, claimable-queued, claim_next_job-none, claim_next_job-ok,
}
use security_configuration_a.Jobs.Service.Lifecycle.{
  Op, enqueue, claim, heartbeat, complete, fail, recover, run_op, IsFresh, Move, claims, renews,
  completes, fails,
}
use security_configuration_a.Jobs.Service.Lifecycle.Steps.{stale_rows}
use security_configuration_a.Jobs.Rows.{find_row-In, All-write_rows}
use security_configuration_a.Base.Lists.{All-append}

-- A row as `enqueue_job` makes it.
pub record IsNew (row : Job) : Type 0 where
  pub waiting : row.status ≡ queued
  pub unclaimed : row.attempt_count ≡ 0
  pub fresh : row.progress ≡ 0
  pub no_owner : row.lease_owner ≡ none
  pub no_heartbeat : row.heartbeat_at ≡ none
  pub no_expiry : row.lease_expires_at ≡ none

-- A row that moved from one of the table.
abbrev pub FromRow : Db → Job → Type 0
FromRow db row' = (row : Job) × In row db × Move row row'

pub data Wrote (before after : Db) : Type 0 where
  nothing : after ≡ before → Wrote before after
  added :
      (row : Job)
      → IsNew row
      → find_row row.job_id before ≡ none
      → after ≡ before ++ row ∷ []
      → Wrote before after
  rewrote :
      (rows : List Job)
      → All (FromRow before) rows
      → after ≡ write_rows rows before
      → Wrote before after

one_row : (db : Db) (job job' : Job) → In job db → Move job job' → Wrote db (write_row job' db)
unfolding write_rows
one_row db job job' i m = rewrote (job' ∷ []) ((job, i, m), tt) refl

enqueue-Wrote :
    (job_id now : ℕ) (t : JobType) (payload : Option (List (Text × Text)))
    (audit_id device_id : Option ℕ)
    → (stage : Option Text) (db : Db) → find_row job_id db ≡ none
    → Wrote db (after (enqueue_job job_id now t payload audit_id device_id stage) db)
unfolding enqueue_job
enqueue-Wrote job_id now t payload audit_id device_id stage db fresh =
    elim (Bool-cases (stage_refused stage)) [
      | inl e ↦ rw e (nothing refl)
      | inr e ↦ rw e (added _ (ground arith) fresh refl)
    ]

claim-Wrote :
    (locked : ℕ → Bool) (now : ℕ) (allowed : Option (List JobType)) (owner : Text) (lease : Seconds)
    → (db : Db) (r : Result (Option Job × Db))
    → claim_next_job locked now allowed owner lease db ≡ r
    → Wrote db (settle db r)
claim-Wrote locked now allowed owner lease db (err e) r = nothing refl
claim-Wrote locked now allowed owner lease db (ok (none, db')) r =
    nothing (claim_next_job-none locked now allowed owner lease db db' r)
claim-Wrote locked now allowed owner lease db (ok (some claimed, db')) r =
    let (job, seconds, picked, valid, made, wrote) =
      claim_next_job-ok locked now allowed owner lease db db' claimed r in
    let oldest = next_queued-oldest locked allowed db job picked in
    rw wrote (
      one_row db job claimed oldest.0
        (claims (strip owner) now seconds (claimable-queued locked allowed job oldest.1) made))

heartbeat-Wrote :
    (now job_id : ℕ) (owner : Text) (lease : Seconds) (db : Db) (r : Result (Job × Db))
    → heartbeat_job now job_id owner lease db ≡ r
    → Wrote db (settle db r)
heartbeat-Wrote now job_id owner lease db (err e) r = nothing refl
heartbeat-Wrote now job_id owner lease db (ok (job', db')) r =
    let (seconds, valid, (job, held, made, wrote)) =
      heartbeat_job-ok now job_id owner lease db db' job' r in
    rw wrote (
      one_row db job job' (find_row-In job_id db job held.found)
        (renews now seconds held.running made))

complete-Wrote :
    (now done_at job_id : ℕ) (owner : Text) (db : Db) (r : Result (Job × Db))
    → complete_job now done_at job_id owner db ≡ r
    → Wrote db (settle db r)
complete-Wrote now done_at job_id owner db (err e) r = nothing refl
complete-Wrote now done_at job_id owner db (ok (job', db')) r =
    let (job, held, made, wrote) = complete_job-ok now job_id owner db db' job' done_at r in
    rw wrote (
      one_row db job job' (find_row-In job_id db job held.found)
        (completes done_at held.running made))

fail-Wrote :
    (now done_at job_id : ℕ) (owner code message : Text) (db : Db) (r : Result (Job × Db))
    → fail_job now done_at job_id owner code message db ≡ r
    → Wrote db (settle db r)
fail-Wrote now done_at job_id owner code message db (err e) r = nothing refl
fail-Wrote now done_at job_id owner code message db (ok (job', db')) r =
    let ((job, held, made, wrote), _, _) =
      fail_job-ok now job_id owner db db' job' done_at code message r in
    rw wrote (
      one_row db job job' (find_row-In job_id db job held.found)
        (fails done_at (strip code) (strip message) held.running made))

expired_rows :
    (now : ℕ) (db : Db) (jobs : List Job)
    → All (λ j. (find_row j.job_id db ≡ some j) × (j.status ≡ processing)) jobs
    → All (FromRow db) (map (expire now) jobs)
expired_rows now db [] h = tt
expired_rows now db (j ∷ jobs) h = (
  (
    j,
    find_row-In j.job_id db j h.0.0,
    fails now (codes "worker_lease_expired") (codes "Job worker lease expired before completion")
        h.0.1 refl,
  ),
  expired_rows now db jobs h.1,
)

recover-Wrote :
    (locked : ℕ → Bool) (now limit : ℕ) (db : Db)
    → IsKeyed db
    → Wrote db (after (recover_stale_jobs locked now limit) db)
unfolding recover_stale_jobs
recover-Wrote locked now limit db keyed = elim (Bool-cases (leb 1 limit && leb limit 1000)) [
  | inl e ↦ rw e (
      rewrote _
        (expired_rows now db (stale_processing_for_update locked now limit db)
          (stale_rows locked now limit db keyed))
        refl)
  | inr e ↦ rw e (nothing refl)
]

pub run_op-Wrote : (op : Op) (db : Db) → IsFresh op db → IsKeyed db → Wrote db (run_op op db)
unfolding run_op
run_op-Wrote (enqueue job_id now t payload audit_id device_id stage) db fresh keyed =
    enqueue-Wrote job_id now t payload audit_id device_id stage db fresh
run_op-Wrote (claim locked now allowed owner lease) db fresh keyed =
    claim-Wrote locked now allowed owner lease db _ refl
run_op-Wrote (heartbeat now job_id owner lease) db fresh keyed =
    heartbeat-Wrote now job_id owner lease db _ refl
run_op-Wrote (complete now done_at job_id owner) db fresh keyed =
    complete-Wrote now done_at job_id owner db _ refl
run_op-Wrote (fail now done_at job_id owner code message) db fresh keyed =
    fail-Wrote now done_at job_id owner code message db _ refl
run_op-Wrote (recover locked now limit) db fresh keyed = recover-Wrote locked now limit db keyed

-- Keys stay distinct.
pub Wrote-IsKeyed : (before after : Db) → Wrote before after → IsKeyed before → IsKeyed after
Wrote-IsKeyed before after (nothing e) h = rw e h
Wrote-IsKeyed before after (added row new fresh e) h = rw e (IsKeyed-append before row h fresh)
Wrote-IsKeyed before after (rewrote rows from e) h = rw e (IsKeyed-write_rows rows before h)

-- A property of rows that new rows have and that moves keep holds of the whole table.
pub Wrote-All :
    (P : Job → Type 0)
    → ((row : Job) → IsNew row → P row)
    → ((a b : Job) → Move a b → P a → P b)
    → (before after : Db) → Wrote before after
    → All P before
    → All P after
Wrote-All P new_row move before after (nothing e) h = rw e h
Wrote-All P new_row move before after (added row new fresh e) h =
    rw e (All-append P before (row ∷ []) h (new_row row new, tt))
Wrote-All P new_row move before after (rewrote rows from e) h =
    rw e (All-write_rows P rows before (moved rows from) h)
  where
    moved : (rows : List Job) → All (FromRow before) rows → All P rows
    moved [] f = tt
    moved (r ∷ rs) f = (move f.0.0 r f.0.2 (All-In P f.0.0 before h f.0.1), moved rs f.1)
