-- ===== src/Jobs/Service/Lifecycle/Outcomes.antt =====
-- What holds of every job after any transactions.
use security_configuration_a.Base.{ℕ, ◌≡◌, ◌≢◌, ◌≤◌, ◌∙◌, none, some, [], arith, All, ap, ◌⊎◌}
use security_configuration_a.Jobs.Model.{Job, queued, processing, completed, failed}
use security_configuration_a.Jobs.Store.{Db, find_row}
use security_configuration_a.Jobs.Rows.{IsKeyed}
use security_configuration_a.Jobs.Service.Lifecycle.{
  run_op, Runs, start, next, Move, stays, claims, renews, completes, fails,
}
use security_configuration_a.Jobs.Service.Lifecycle.Steps.{run_op-Move}
use security_configuration_a.Jobs.Service.Lifecycle.Shape.{
  IsNew, run_op-Wrote, Wrote-IsKeyed, Wrote-All,
}

abbrev pub IsTerminal : Job → Type 0
IsTerminal row = (row.status ≡ completed) ⊎ (row.status ≡ failed)

-- What a row satisfies between transactions.
pub record IsSound (row : Job) : Type 0 where
  pub progress_capped : row.progress ≤ 100
  pub claimed_once : row.attempt_count ≤ 1
  pub unclaimed : row.status ≡ queued → row.attempt_count ≡ 0
  pub idle_unleased :
      row.status ≢ processing
      → (row.lease_owner ≡ none) × (row.heartbeat_at ≡ none) × (row.lease_expires_at ≡ none)
  pub finished : row.status ≡ completed → (row.progress ≡ 100) × (row.error_code ≡ none)

Move-IsSound : (a b : Job) → Move a b → IsSound a → IsSound b
Move-IsSound a b (stays e) h = rw e h
Move-IsSound a b (claims owner now seconds q e) h = rw e (ground arith)
Move-IsSound a b (renews now seconds p e) h = rw e (ground arith)
Move-IsSound a b (completes done_at p e) h = rw e (ground arith)
Move-IsSound a b (fails done_at code message p e) h = rw e (ground arith)

Move-terminal : (a b : Job) → Move a b → IsTerminal a → b ≡ a
Move-terminal a b (stays e) t = e
Move-terminal a b (claims owner now seconds q e) t = ground arith
Move-terminal a b (renews now seconds p e) t = ground arith
Move-terminal a b (completes done_at p e) t = ground arith
Move-terminal a b (fails done_at code message p e) t = ground arith

IsNew-IsSound : (row : Job) → IsNew row → IsSound row
IsNew-IsSound row h = ground arith

-- After any transactions on an empty table, keys are distinct and every row is sound: progress at most
-- 100, at most one claim and none while queued, no lease unless processing, and a completed job has
-- full progress and no error.
pub Runs-IsSound : (db : Db) → Runs [] db → All IsSound db × IsKeyed db
Runs-IsSound db start = (tt, tt)
Runs-IsSound db (next {db = before} r op fresh) =
    let (sound, keyed) = Runs-IsSound before r in
    let wrote = run_op-Wrote op before fresh keyed in
    (
      Wrote-All IsSound IsNew-IsSound Move-IsSound before (run_op op before) wrote sound,
      Wrote-IsKeyed before (run_op op before) wrote keyed,
    )

Runs-IsKeyed : (before db : Db) → IsKeyed before → Runs before db → IsKeyed db
Runs-IsKeyed before db keyed start = keyed
Runs-IsKeyed before db keyed (next {db = mid} r op fresh) =
    let k = Runs-IsKeyed before mid keyed r in
    Wrote-IsKeyed mid (run_op op mid) (run_op-Wrote op mid fresh k) k

-- A completed or failed job is never changed again, whatever transactions follow, by whatever
-- workers: it is not requeued, renewed, reclaimed or recovered.
pub terminal-kept :
    (before db : Db) (k : ℕ) (row : Job)
    → IsKeyed before
    → Runs before db
    → find_row k before ≡ some row
    → IsTerminal row
    → find_row k db ≡ some row
terminal-kept before db k row keyed start found t = found
terminal-kept before db k row keyed (next {db = mid} r op fresh) found t =
    let here = terminal-kept before mid k row keyed r found t in
    let (row', found', move) = run_op-Move op mid k row (Runs-IsKeyed before mid keyed r) here in
    found' ∙ ap some (Move-terminal row row' move t)
