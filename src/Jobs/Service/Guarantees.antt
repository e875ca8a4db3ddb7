-- ===== src/Jobs/Service/Guarantees.antt =====
-- What a worker and the recovery of leases may rely on.
use security_configuration_a.Base.{
  ℕ, ◌≡◌, ◌≢◌, ap, sym, ◌∙◌, subst, Bool, true, Option, some, List, arith, In, Text,
}
use security_configuration_a.Base.Str.{strip}
use security_configuration_a.Jobs.Model.{Job, JobType}
use security_configuration_a.Jobs.Store.{Db, ok, find_row, is_claimable}
use security_configuration_a.Jobs.Rows.{
  find_row-write_row, IsKeyed, IsKeyed-write_row, In-find_row, In-found,
}
use security_configuration_a.Jobs.Service.{Seconds, claim_next_job, claimed_row}
use security_configuration_a.Jobs.Service.Claims.{
  next_queued-oldest, claimable-queued, Precedes, Precedes-created_le, claim_next_job-ok,
}

-- A claim takes the oldest row, by creation time and then key, among the queued rows of an allowed
-- type that no other transaction holds; it makes the row processing under the claimer's lease, one
-- attempt further, in the table too, and leaves the rows with other keys alone.
pub claim-oldest :
    (locked : ℕ → Bool) (now : ℕ) (allowed : Option (List JobType)) (owner : Text) (lease : Seconds)
    → (db db' : Db) (claimed : Job)
    → claim_next_job locked now allowed owner lease db ≡ ok (some claimed, db')
    → (job : Job) × (seconds : ℕ) × In job db
      × (is_claimable locked allowed job ≡ true)
      × ((other : Job)
          → In other db
          → is_claimable locked allowed other ≡ true
          → Precedes job other)
      × (claimed ≡ claimed_row (strip owner) now seconds job)
      × (find_row job.job_id db' ≡ some claimed)
      × ((k : ℕ) → k ≢ job.job_id → find_row k db' ≡ find_row k db)
claim-oldest locked now allowed owner lease db db' claimed h =
    let (job, seconds, picked, valid, made, wrote) =
      claim_next_job-ok locked now allowed owner lease db db' claimed h in
    let (here, passes, least) = next_queued-oldest locked allowed db job picked in
    (
      job,
      seconds,
      here,
      passes,
      (λ other i c. Precedes-created_le job other (least other i c)),
      made,
      ground (
        arith,
        In-found db job here,
        find_row-write_row job.job_id claimed db,
        ap (find_row job.job_id) wrote,
      ),
      λ k other. rw wrote (ground (arith, find_row-write_row k claimed db)),
    )

-- Two claims, one after the other, never give the same job.
pub claims-distinct :
    (locked locked' : ℕ → Bool) (now now' : ℕ) (allowed allowed' : Option (List JobType))
    → (owner owner' : Text) (lease lease' : Seconds) (db db' db'' : Db) (first second : Job)
    → IsKeyed db
    → claim_next_job locked now allowed owner lease db ≡ ok (some first, db')
    → claim_next_job locked' now' allowed' owner' lease' db' ≡ ok (some second, db'')
    → first.job_id ≢ second.job_id
claims-distinct locked locked' now now' allowed allowed' owner owner' lease lease' db db' db'' first
      second keyed h h' same =
    let (job, seconds, picked, valid, made, wrote) =
      claim_next_job-ok locked now allowed owner lease db db' first h in
    let (here, passes, least) = next_queued-oldest locked allowed db job picked in
    let (job', seconds', picked', valid', made', wrote') =
      claim_next_job-ok locked' now' allowed' owner' lease' db' db'' second h' in
    let (here', passes', least') = next_queued-oldest locked' allowed' db' job' picked' in
    let keyed' : IsKeyed db' = subst IsKeyed (sym wrote) (IsKeyed-write_row first db keyed) in
    let found : find_row job.job_id db ≡ some job = In-find_row db job keyed here in
    let found' : find_row job'.job_id db' ≡ some job' = In-find_row db' job' keyed' here' in
    let after_first : find_row first.job_id db' ≡ some first =
      ap (find_row first.job_id) wrote ∙ ground (arith, find_row-write_row first.job_id first db) in
    ground
      (arith, claimable-queued locked' allowed' job' passes', ap (λ (n : ℕ). find_row n db') same)
