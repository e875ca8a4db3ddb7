-- ===== src/Jobs/Service/Claims.antt =====
-- Which job a worker gets: the oldest one that it may take and that no other transaction holds.
use security_configuration_a.Base.{
  ◌⊎◌, ◌<◌, ◌≤◌, ℕ, ◌≡◌, ◌≢◌, refl, Bool, true, false, Option, none, some, List, arith, In, keep,
  ap, Text,
}
use security_configuration_a.Base.Lists.{In-keep, In-keep_intro}
use security_configuration_a.Base.Sort.{
  In-head, head-least, sorted, sorted-IsSorted, In-sorted, In-sorted_back,
}
use security_configuration_a.Base.Str.{strip}
use security_configuration_a.Jobs.Model.{Job, JobType, JobError, queued, eq_of_status_eq}
use security_configuration_a.Jobs.Store.{
  Db, Result, ok, err, write_row, created_le, is_claimable, next_queued_for_update,
}
use security_configuration_a.Jobs.Store.{find_row}
use security_configuration_a.Jobs.Rows.{In-found, find_row-write_row}
use security_configuration_a.Jobs.Service.{
  Seconds, claim_next_job, claim_row, claimed_row, validated_lease_owner, validated_lease_seconds,
}

-- Created earlier, or at the same time with a key that is not greater.
abbrev pub Precedes : Job → Job → Type 0
Precedes a b =
    (a.created_at < b.created_at) ⊎ ((a.created_at ≡ b.created_at) × (a.job_id ≤ b.job_id))

pub Precedes-created_le : (a b : Job) → created_le a b ≡ true → Precedes a b
unfolding created_le
Precedes-created_le a b h = ground arith

created_le_total : (a b : Job) → created_le a b ≡ false → created_le b a ≡ true
unfolding created_le
created_le_total a b h = ground arith

created_le_trans :
    (a b c : Job) → created_le a b ≡ true → created_le b c ≡ true → created_le a c ≡ true
unfolding created_le
created_le_trans a b c h k = ground arith

created_le_refl : (a : Job) → created_le a a ≡ true
unfolding created_le
created_le_refl a = ground arith

-- The selected row is in the table, passes the test, and is the oldest such.
pub next_queued-oldest :
    (locked : ℕ → Bool) (allowed : Option (List JobType)) (db : Db) (job : Job)
    → next_queued_for_update locked allowed db ≡ some job
    → In job db
      × (is_claimable locked allowed job ≡ true)
      × ((other : Job)
          → In other db
          → is_claimable locked allowed other ≡ true
          → created_le job other ≡ true)
unfolding next_queued_for_update
next_queued-oldest locked allowed db job h =
    let rows = keep (is_claimable locked allowed) db in
    let kept =
      In-keep (is_claimable locked allowed) job db
        (In-sorted_back created_le job rows (In-head job (sorted created_le rows) h)) in
    (
      kept.0,
      kept.1,
      λ other i passes.
          head-least created_le created_le_refl job other (sorted created_le rows)
            (sorted-IsSorted created_le created_le_total created_le_trans rows) h
            (In-sorted created_le other rows
              (In-keep_intro (is_claimable locked allowed) other db i passes)),
    )

pub claim_next_job-ok :
    (locked : ℕ → Bool) (now : ℕ) (allowed : Option (List JobType)) (lease_owner : Text)
    (lease : Seconds)
    → (db db' : Db) (claimed : Job)
    → claim_next_job locked now allowed lease_owner lease db ≡ ok (some claimed, db')
    → (job : Job) × (seconds : ℕ) × (next_queued_for_update locked allowed db ≡ some job)
      × (validated_lease_seconds lease ≡ ok seconds)
      × (claimed ≡ claimed_row (strip lease_owner) now seconds job)
      × (db' ≡ write_row claimed db)
unfolding claim_next_job claim_row validated_lease_owner
claim_next_job-ok locked now allowed lease_owner lease db db' claimed h =
    go (next_queued_for_update locked allowed db) refl (validated_lease_seconds lease) refl
  where
    go :
        (o : Option Job)
        → next_queued_for_update locked allowed db ≡ o
        → (r : Result ℕ) → validated_lease_seconds lease ≡ r
        → (job : Job) × (seconds : ℕ) × (next_queued_for_update locked allowed db ≡ some job)
          × (validated_lease_seconds lease ≡ ok seconds)
          × (claimed ≡ claimed_row (strip lease_owner) now seconds job)
          × (db' ≡ write_row claimed db)
    go none e r s = ground arith
    go (some job) e (err x) s = ground arith
    go (some job) e (ok seconds) s = (job, seconds, e, s, ground arith, ground arith)

pub claimable-queued :
    (locked : ℕ → Bool) (allowed : Option (List JobType)) (job : Job)
    → is_claimable locked allowed job ≡ true
    → job.status ≡ queued
unfolding is_claimable
claimable-queued locked allowed job h = ground (arith, eq_of_status_eq job.status queued)

-- Finding no job writes nothing.
pub claim_next_job-none :
    (locked : ℕ → Bool) (now : ℕ) (allowed : Option (List JobType)) (lease_owner : Text)
    (lease : Seconds)
    → (db db' : Db) → claim_next_job locked now allowed lease_owner lease db ≡ ok (none, db')
    → db' ≡ db
unfolding claim_next_job claim_row
claim_next_job-none locked now allowed lease_owner lease db db' h = ground arith

-- With a name and a lease in bounds, and whatever the table, a claim raises nothing.
pub claim_next_job-err :
    (locked : ℕ → Bool) (now : ℕ) (allowed : Option (List JobType)) (lease_owner : Text)
    (lease : Seconds) (n : ℕ)
    → (db : Db) (e : JobError) → validated_lease_owner lease_owner ≡ ok (strip lease_owner)
    → validated_lease_seconds lease ≡ ok n
    → claim_next_job locked now allowed lease_owner lease db ≢ err e
unfolding claim_next_job claim_row
claim_next_job-err locked now allowed lease_owner lease n db e owner seconds h = ground arith

-- The claimed job is in the table that the claim leaves.
pub claimed-found :
    (locked : ℕ → Bool) (now : ℕ) (allowed : Option (List JobType)) (lease_owner : Text)
    (lease : Seconds)
    → (db db' : Db) (claimed : Job)
    → claim_next_job locked now allowed lease_owner lease db ≡ ok (some claimed, db')
    → find_row claimed.job_id db' ≢ none
claimed-found locked now allowed lease_owner lease db db' claimed h missing =
    let (job, seconds, picked, valid, made, wrote) =
      claim_next_job-ok locked now allowed lease_owner lease db db' claimed h in
    ground (
      arith,
      In-found db job (next_queued-oldest locked allowed db job picked).0,
      find_row-write_row claimed.job_id claimed db,
      ap (find_row claimed.job_id) wrote,
    )
