-- ===== src/Jobs/Rows.antt =====
-- What a lookup by key finds after a write: the store seen one job at a time.
use security_configuration_a.Base.{
  ℕ, ◌≢◌, ◌≡◌, refl, Bool, true, false, Option, none, some, List, [], ◌∷◌, ◌++◌, arith, ◌==◌,
  if◌then◌else◌, All, In, inl, inr, ap,
}
use security_configuration_a.Jobs.Model.{Job}
use security_configuration_a.Jobs.Store.{Db, write_row, write_rows, find_row}

abbrev written : Option Job → Job → Option Job
written none job = none
written (some _) job = some job

pub find_row-write_row :
    (k : ℕ) (job : Job) (db : Db)
    → find_row k (write_row job db)
      ≡ (if job.job_id == k then written (find_row k db) job else find_row k db)
unfolding find_row write_row
find_row-write_row k job [] = ground arith
find_row-write_row k job (row ∷ rows) = ground (arith, find_row-write_row k job rows)

pub find_row-key : (k : ℕ) (db : Db) (row : Job) → find_row k db ≡ some row → row.job_id ≡ k
unfolding find_row
find_row-key k [] row h = cc
find_row-key k (first ∷ rows) row h = ground (arith, find_row-key k rows row)

pub find_row-append :
    (k : ℕ) (db : Db) (job row : Job)
    → find_row k db ≡ some row
    → find_row k (db ++ job ∷ []) ≡ some row
unfolding find_row
find_row-append k [] job row h = cc
find_row-append k (first ∷ rows) job row h = ground (arith, find_row-append k rows job row)

pub All-write_row :
    (P : Job → Type 0) (job : Job) (db : Db) → P job → All P db → All P (write_row job db)
unfolding write_row
All-write_row P job [] p h = tt
All-write_row P job (row ∷ rows) p h =
    (pick (row.job_id == job.job_id), All-write_row P job rows p h.1)
  where
    pick : (b : Bool) → P (if b then job else row)
    pick true = p
    pick false = h.0

pub All-write_rows :
    (P : Job → Type 0) (jobs : List Job) (db : Db)
    → All P jobs
    → All P db
    → All P (write_rows jobs db)
unfolding write_rows
All-write_rows P [] db p h = h
All-write_rows P (job ∷ jobs) db p h =
    All-write_rows P jobs (write_row job db) p.1 (All-write_row P job db p.0 h)

pub find_row-In : (k : ℕ) (db : Db) (row : Job) → find_row k db ≡ some row → In row db
unfolding find_row
find_row-In k [] row h = cc
find_row-In k (first ∷ rows) row h = ground (arith, find_row-In k rows row)

-- The rows have distinct keys: `job_id` is the primary key.
abbrev pub IsKeyed : Db → Type 0
IsKeyed [] = Unit
IsKeyed (row ∷ rows) = (find_row row.job_id rows ≡ none) × IsKeyed rows

pub In-find_row : (db : Db) (row : Job) → IsKeyed db → In row db → find_row row.job_id db ≡ some row
unfolding find_row
In-find_row [] row h i = absurd i
In-find_row (first ∷ rows) row h (inl e) = ground (arith, ap (λ (r : Job). r.job_id) e)
In-find_row (first ∷ rows) row h (inr i) = ground (arith, In-find_row rows row h.1 i)

pub IsKeyed-write_row : (job : Job) (db : Db) → IsKeyed db → IsKeyed (write_row job db)
unfolding write_row
IsKeyed-write_row job [] h = tt
IsKeyed-write_row job (row ∷ rows) h = (
  ground (arith, find_row-write_row row.job_id job rows, find_row-write_row job.job_id job rows),
  IsKeyed-write_row job rows h.1,
)

pub IsKeyed-write_rows : (jobs : List Job) (db : Db) → IsKeyed db → IsKeyed (write_rows jobs db)
unfolding write_rows
IsKeyed-write_rows [] db h = h
IsKeyed-write_rows (job ∷ jobs) db h =
    IsKeyed-write_rows jobs (write_row job db) (IsKeyed-write_row job db h)

find_row-append_none :
    (k : ℕ) (db : Db) (job : Job)
    → find_row k db ≡ none
    → job.job_id ≢ k
    → find_row k (db ++ job ∷ []) ≡ none
unfolding find_row
find_row-append_none k [] job h n = ground arith
find_row-append_none k (row ∷ rows) job h n = ground (arith, find_row-append_none k rows job)

pub IsKeyed-append :
    (db : Db) (job : Job) → IsKeyed db → find_row job.job_id db ≡ none → IsKeyed (db ++ job ∷ [])
unfolding find_row
IsKeyed-append [] job h n = (refl, tt)
IsKeyed-append (row ∷ rows) job h n = (
  ground (arith, find_row-append_none row.job_id rows job),
  ground (arith, IsKeyed-append rows job),
)

-- A row of the table is found under its key, or another with the same key is.
pub In-found : (db : Db) (row : Job) → In row db → find_row row.job_id db ≢ none
unfolding find_row
In-found [] row i = absurd i
In-found (first ∷ rows) row (inl e) = ground (arith, ap (λ (r : Job). r.job_id) e)
In-found (first ∷ rows) row (inr i) = ground (arith, In-found rows row i)
