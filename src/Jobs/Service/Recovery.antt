-- ===== src/Jobs/Service/Recovery.antt =====
-- What the recovery of lapsed leases does, and does not do.
use security_configuration_a.Base.{
  ℕ, ◌≡◌, ◌≢◌, ◌≤◌, refl, ◌∙◌, Bool, true, ◌&&◌, some, List, [], ◌∷◌, arith, leb, ◌==◌,
  if◌then◌else◌, All, In, keep, inl, inr, Bool-cases, map, length, take-all,
}
use security_configuration_a.Base.Lists.{All-In, In-keep, In-All, All-take, In-keep_intro}
use security_configuration_a.Base.Sort.{sorted, All-sorted, length-sorted, In-sorted}
use security_configuration_a.Jobs.Model.{Job, processing}
use security_configuration_a.Jobs.Store.{
  Db, after, write_row, write_rows, find_row, is_stale, stale_le, stale_processing_for_update,
}
use security_configuration_a.Jobs.Rows.{find_row-key, find_row-In, find_row-write_row, IsKeyed}
use security_configuration_a.Jobs.Service.{recover_stale_jobs, expire}
use security_configuration_a.Jobs.Service.Lifecycle.Steps.{stale_rows}

module _ (now k : ℕ) (before : Db) (row : Job) (found : find_row k before ≡ some row) where
  abbrev FromBefore : Job → Type 0
  FromBefore j = (find_row j.job_id before ≡ some j) × (j.status ≡ processing)

  -- An expired row stays expired when more rows are expired.
  expired_kept :
      (jobs : List Job) (db : Db)
      → All FromBefore jobs
      → find_row k db ≡ some (expire now row)
      → find_row k (write_rows (map (expire now) jobs) db) ≡ some (expire now row)
  unfolding write_rows
  expired_kept [] db h f = f
  expired_kept (j ∷ jobs) db h f =
      expired_kept jobs (write_row (expire now j) db) h.1
        (ground (arith, find_row-write_row k (expire now j) db))

  -- A row that is among those to expire ends as its expired form.
  expired_hit :
      (jobs : List Job) (db : Db) (cur : Job)
      → All FromBefore jobs
      → In row jobs
      → find_row k db ≡ some cur
      → find_row k (write_rows (map (expire now) jobs) db) ≡ some (expire now row)
  unfolding write_rows
  expired_hit [] db cur h i f = absurd i
  expired_hit (j ∷ jobs) db cur h (inl e) f =
      expired_kept jobs (write_row (expire now j) db) h.1
        (ground (arith, find_row-write_row k (expire now j) db, find_row-key k before row found))
  expired_hit (j ∷ jobs) db cur h (inr i) f = elim (Bool-cases (j.job_id == k)) [
    | inl same ↦
        expired_kept jobs (write_row (expire now j) db) h.1
          (ground (arith, find_row-write_row k (expire now j) db))
    | inr other ↦
        expired_hit jobs (write_row (expire now j) db) cur h.1 i
          (ground (arith, find_row-write_row k (expire now j) db))
  ]

  -- A row that is not among those to expire is left alone.
  expired_miss :
      (jobs : List Job) (db : Db)
      → All FromBefore jobs
      → (In row jobs → ⊥)
      → find_row k (write_rows (map (expire now) jobs) db) ≡ find_row k db
  unfolding write_rows
  expired_miss [] db h n = refl
  expired_miss (j ∷ jobs) db h n =
      expired_miss jobs (write_row (expire now j) db) h.1 (λ i. n (inr i))
      ∙ ground (arith, find_row-write_row k (expire now j) db, n)

module _ (locked : ℕ → Bool) (now limit k : ℕ) (db : Db) (row : Job) (keyed : IsKeyed db)
    (bounds : leb 1 limit && leb limit 1000 ≡ true) (found : find_row k db ≡ some row) where
  abbrev picked : List Job
  picked = stale_processing_for_update locked now limit db

  recover-hit :
      In row picked
      → find_row k (after (recover_stale_jobs locked now limit) db) ≡ some (expire now row)
  unfolding recover_stale_jobs
  recover-hit i =
      rw bounds (
        expired_hit now k db row found picked db row (stale_rows locked now limit db keyed) i found)

  recover-miss :
      (In row picked → ⊥) → find_row k (after (recover_stale_jobs locked now limit) db) ≡ some row
  unfolding recover_stale_jobs
  recover-miss n =
      rw bounds
        (expired_miss now k db row found picked db (stale_rows locked now limit db keyed) n ∙ found)

  picked-is_stale : In row picked → is_stale locked now row ≡ true
  unfolding stale_processing_for_update
  picked-is_stale i =
      All-In (λ j. is_stale locked now j ≡ true) row picked
        (All-take _ limit _ (
          All-sorted stale_le _ (keep (is_stale locked now) db)
            (In-All _ _ (λ j m. (In-keep (is_stale locked now) j db m).1))))
        i

  is_stale-picked :
      length (keep (is_stale locked now) db) ≤ limit
      → is_stale locked now row ≡ true
      → In row picked
  unfolding stale_processing_for_update
  is_stale-picked room stale =
      rw
        (take-all limit (sorted stale_le (keep (is_stale locked now) db))
          (rw (length-sorted stale_le (keep (is_stale locked now) db)) room))
        (In-sorted stale_le row _
          (In-keep_intro (is_stale locked now) row db (find_row-In k db row found) stale))

  -- Recovery with room for every stale row fails exactly the stale ones, with the code
  -- `worker_lease_expired`, and leaves every other row as it was.
  pub recover-exact :
      length (keep (is_stale locked now) db) ≤ limit
      → find_row k (after (recover_stale_jobs locked now limit) db)
        ≡ some (if is_stale locked now row then expire now row else row)
  recover-exact room = elim (Bool-cases (is_stale locked now row)) [
    | inl e ↦ rw e (recover-hit (is_stale-picked room e))
    | inr e ↦ rw e (recover-miss (λ i. cc (picked-is_stale i)))
  ]

  -- A row that recovery changes was stale.
  pub recover-changes_stale :
      find_row k (after (recover_stale_jobs locked now limit) db) ≢ some row
      → is_stale locked now row ≡ true
  recover-changes_stale changed = elim (Bool-cases (is_stale locked now row)) [
    | inl e ↦ e
    | inr e ↦ absurd (changed (recover-miss (λ i. cc (picked-is_stale i))))
  ]
