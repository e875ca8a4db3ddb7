-- ===== src/Jobs/Store.antt =====
-- The transactions of the job store, and the statements of backend/app/jobs/repository.py: rows are
-- selected, ordered, limited and, under `skip_locked`, passed over while another transaction holds
-- them. A transaction that raises is rolled back by its session (`factory.begin()`).
use security_configuration_a.Base.{
  ℕ, Bool, true, false, not, ◌&&◌, ◌||◌, Option, none, some, List, [], ◌∷◌, ◌++◌, ltb, leb, ◌==◌,
  if◌then◌else◌, any, keep, take,
}
use security_configuration_a.Base.Sort.{sorted, head}
use security_configuration_a.Jobs.Model.{
  Job, JobType, JobError, queued, processing, status_eq, type_eq,
}

-- The rows of the table `jobs`.
abbrev pub Db : Type 0
Db = List Job

pub data Result (A : Type 0) : Type 0 where
  ok : A → Result A
  err : JobError → Result A

-- A method of the service inside a transaction. One that raises leaves nothing behind: every caller
-- runs it in a `with factory.begin()` block, which rolls its session back.
abbrev pub Tx : Type 0 → Type 0
Tx A = Db → Result (A × Db)

abbrev pub pure : {A : Type 0} → A → Tx A
pure a db = ok (a, db)

abbrev pub raise : {A : Type 0} → JobError → Tx A
raise e db = err e

-- A check that reads no row.
abbrev pub lift : {A : Type 0} → Result A → Tx A
lift (ok a) db = ok (a, db)
lift (err e) db = err e

abbrev pub gets : {A : Type 0} → (Db → A) → Tx A
gets f db = ok (f db, db)

abbrev pub continue : {A B : Type 0} → Result (A × Db) → (A → Tx B) → Result (B × Db)
continue (ok (a, db)) f = f a db
continue (err e) f = err e

infixl 5 ◌>>=◌ ◌>>◌
abbrev pub ◌>>=◌ : {A B : Type 0} → Tx A → (A → Tx B) → Tx B
◌>>=◌ m f db = continue (m db) f

abbrev pub ◌>>◌ : {B : Type 0} → Tx (Unit {0}) → Tx B → Tx B
m >> k = m >>= λ _. k

abbrev pub guard : Bool → JobError → Result (Unit {0})
guard true e = ok tt
guard false e = err e

-- The rows after a `with factory.begin()` block: committed, or rolled back.
abbrev pub settle : {A : Type 0} → Db → Result (A × Db) → Db
settle before (ok (a, after)) = after
settle before (err e) = before

abbrev pub after : {A : Type 0} → Tx A → Db → Db
after m db = settle db (m db)

-- `db.add(job)`
unfoldable pub add : Job → Tx (Unit {0})
add job db = ok (tt, db ++ job ∷ [])

-- A flush of the changed row `job`.
unfoldable pub write_row : Job → Db → Db
write_row job [] = []
write_row job (row ∷ rows) = (if row.job_id == job.job_id then job else row) ∷ write_row job rows

unfoldable pub write_rows : List Job → Db → Db
unfolding write_row
write_rows [] db = db
write_rows (job ∷ jobs) db = write_rows jobs (write_row job db)

abbrev pub flush : Job → Tx (Unit {0})
flush job db = ok (tt, write_row job db)

unfoldable pub find_row : ℕ → Db → Option Job
find_row job_id [] = none
find_row job_id (row ∷ rows) = if row.job_id == job_id then some row else find_row job_id rows

-- `Job.job_type.in_(allowed)`, where `None` allows all
unfoldable pub allows : Option (List JobType) → JobType → Bool
unfolding type_eq
allows none t = true
allows (some allowed) t = any (type_eq t) allowed

-- `order_by(Job.created_at.asc(), Job.job_id.asc())`
unfoldable pub created_le : Job → Job → Bool
created_le a b =
    ltb a.created_at b.created_at || (a.created_at == b.created_at && leb a.job_id b.job_id)

unfoldable pub is_claimable : (ℕ → Bool) → Option (List JobType) → Job → Bool
unfolding allows status_eq
is_claimable locked allowed job =
    status_eq job.status queued && allows allowed job.job_type && not (locked job.job_id)

unfoldable pub next_queued_for_update : (ℕ → Bool) → Option (List JobType) → Db → Option Job
unfolding is_claimable created_le sorted
next_queued_for_update locked allowed db =
    head (sorted created_le (keep (is_claimable locked allowed) db))

unfoldable pub by_id_for_update : ℕ → Db → Option Job
unfolding find_row
by_id_for_update job_id db = find_row job_id db

-- `or_(Job.lease_expires_at.is_(None), Job.lease_expires_at < now)`
abbrev pub lapsed : ℕ → Option ℕ → Bool
lapsed now none = true
lapsed now (some expires) = ltb expires now

unfoldable pub is_stale : (ℕ → Bool) → ℕ → Job → Bool
unfolding status_eq
is_stale locked now job =
    status_eq job.status processing && lapsed now job.lease_expires_at && not (locked job.job_id)

-- `lease_expires_at.asc().nullsfirst()`, then `job_id`
abbrev pub lease_le : Option ℕ → Option ℕ → ℕ → ℕ → Bool
lease_le none none i j = leb i j
lease_le none (some b) i j = true
lease_le (some a) none i j = false
lease_le (some a) (some b) i j = ltb a b || (a == b && leb i j)

unfoldable pub stale_le : Job → Job → Bool
stale_le a b = lease_le a.lease_expires_at b.lease_expires_at a.job_id b.job_id

unfoldable pub stale_processing_for_update : (ℕ → Bool) → ℕ → ℕ → Db → List Job
unfolding is_stale stale_le sorted
stale_processing_for_update locked now limit db =
    take limit (sorted stale_le (keep (is_stale locked now) db))
