-- ===== src/Jobs/Examples.antt =====
-- Runs of the job store and of the worker on small tables.
use security_configuration_a.Base.{
  ℕ, ◌≡◌, ◌≢◌, refl, Bool, true, false, none, some, [], ◌∷◌, arith, if◌then◌else◌, All, In, inl,
  Text, codes,
}
use security_configuration_a.Base.Str.{strip, text_eq, is_space}
use security_configuration_a.Jobs.Model.{
  Job, JobType, audit, system_noop, queued, unsupported_value,
}
use security_configuration_a.Jobs.Store.{
  Db, ok, after, write_row, find_row, is_stale, is_claimable, next_queued_for_update,
}
use security_configuration_a.Jobs.Rows.{IsKeyed}
use security_configuration_a.Jobs.Service.{
  micros, claim_next_job, complete_job, recover_stale_jobs, claimed_row, completed_row, expire,
  validated_lease_owner, validated_lease_seconds,
}
use security_configuration_a.Jobs.Service.Leases.{Holds}
use security_configuration_a.Jobs.Service.Lifecycle.{
  Op, enqueue, claim, complete, run_op, start, next, Moved,
}
use security_configuration_a.Jobs.Service.Lifecycle.Steps.{run_op-Move}
use security_configuration_a.Jobs.Service.Lifecycle.Endings.{MayEnd, processing-ends}
use security_configuration_a.Jobs.Service.Lifecycle.Outcomes.{IsSound, Runs-IsSound, terminal-kept}
use security_configuration_a.Jobs.Service.Claims.{Precedes}
use security_configuration_a.Jobs.Service.Guarantees.{claim-oldest, claims-distinct}
use security_configuration_a.Jobs.Service.Recovery.{recover-exact}
use security_configuration_a.Jobs.Runner.{Worker, Readings, ran, raised, run_iteration}
use security_configuration_a.Jobs.Runner.Settling.{
  IsValid, ended_row, iteration-settles, iteration-never_raises,
}

abbrev waiting : ℕ → ℕ → Job
waiting job_id now = record {
  job_id = job_id;
  job_type = system_noop;
  status = queued;
  stage = none;
  progress = 0;
  audit_id = none;
  device_id = none;
  payload = [];
  attempt_count = 0;
  error_code = none;
  error_message = none;
  created_at = now;
  started_at = none;
  completed_at = none;
  lease_owner = none;
  heartbeat_at = none;
  lease_expires_at = none;
}

abbrev unlocked : ℕ → Bool
unlocked job_id = false

abbrev worker_name : Text
worker_name = codes "w1"

-- Two jobs wait; the second was created first.
abbrev two_waiting : Db
two_waiting = waiting 1 50 ∷ waiting 2 40 ∷ []

abbrev taken : ℕ → ℕ → Job
taken job_id created = claimed_row worker_name 100 60 (waiting job_id created)

abbrev one_taken : Db
one_taken = waiting 1 50 ∷ taken 2 40 ∷ []

abbrev claim_op : Op
claim_op = claim unlocked 100 none worker_name (micros 60)

claims_second :
    claim_next_job unlocked 100 none worker_name (micros 60) two_waiting
    ≡ ok (some (taken 2 40), one_taken)
unfolding claim_next_job next_queued_for_update write_row strip is_space validated_lease_owner
    validated_lease_seconds
claims_second = refl

claims_first :
    claim_next_job unlocked 110 none worker_name (micros 60) one_taken
    ≡ ok (
      some (claimed_row worker_name 110 60 (waiting 1 50)),
      claimed_row worker_name 110 60 (waiting 1 50) ∷ taken 2 40 ∷ [],
    )
unfolding claim_next_job next_queued_for_update write_row strip is_space validated_lease_owner
    validated_lease_seconds
claims_first = refl

two_waiting-IsKeyed : IsKeyed two_waiting
unfolding find_row
two_waiting-IsKeyed = (refl, (refl, tt))

one_taken-IsKeyed : IsKeyed one_taken
unfolding find_row
one_taken-IsKeyed = (refl, (refl, tt))

run_op-Move_example : Moved 2 (waiting 2 40) (run_op claim_op two_waiting)
unfolding find_row
run_op-Move_example = run_op-Move claim_op two_waiting 2 (waiting 2 40) two_waiting-IsKeyed refl

abbrev enqueue_op : Op
enqueue_op = enqueue 7 5 audit none none none none

Runs-IsSound_example : All IsSound (run_op enqueue_op []) × IsKeyed (run_op enqueue_op [])
unfolding find_row
Runs-IsSound_example = Runs-IsSound (run_op enqueue_op []) (next start enqueue_op refl)

abbrev done_job : Job
done_job = completed_row 90 (taken 3 10)

terminal-kept_example : find_row 3 (run_op claim_op (done_job ∷ [])) ≡ some done_job
unfolding find_row
terminal-kept_example =
    terminal-kept (done_job ∷ []) (run_op claim_op (done_job ∷ [])) 3 done_job (refl, tt)
      (next start claim_op tt) refl (inl refl)

claim-oldest_example :
    (job : Job) × (seconds : ℕ) × In job two_waiting
    × (is_claimable unlocked none job ≡ true)
    × ((other : Job)
        → In other two_waiting
        → is_claimable unlocked none other ≡ true
        → Precedes job other)
    × (taken 2 40 ≡ claimed_row (strip worker_name) 100 seconds job)
    × (find_row job.job_id one_taken ≡ some (taken 2 40))
    × ((k : ℕ) → k ≢ job.job_id → find_row k one_taken ≡ find_row k two_waiting)
claim-oldest_example =
    claim-oldest unlocked 100 none worker_name (micros 60) two_waiting one_taken (taken 2 40)
      claims_second

claims-distinct_example : ◌≢◌ {A = ℕ} 2 1
claims-distinct_example =
    claims-distinct unlocked unlocked 100 110 none none worker_name worker_name (micros 60)
      (micros 60) two_waiting one_taken
      (claimed_row worker_name 110 60 (waiting 1 50) ∷ taken 2 40 ∷ []) (taken 2 40)
      (claimed_row worker_name 110 60 (waiting 1 50)) two_waiting-IsKeyed claims_second claims_first

abbrev complete_op : Op
complete_op = complete 120 121 2 worker_name

completes_second : find_row 2 (run_op complete_op one_taken) ≡ some (completed_row 121 (taken 2 40))
unfolding run_op complete_job find_row write_row strip is_space validated_lease_owner text_eq
completes_second = refl

processing-ends_example : MayEnd complete_op 2 (taken 2 40)
unfolding find_row
processing-ends_example =
    processing-ends complete_op one_taken 2 (taken 2 40) (completed_row 121 (taken 2 40))
      one_taken-IsKeyed refl refl completes_second (λ e. cc)

-- At 161 the lease, which ended at 160, has lapsed.
recover-exact_example :
    find_row 2 (after (recover_stale_jobs unlocked 161 100) one_taken)
    ≡ some (if is_stale unlocked 161 (taken 2 40) then expire 161 (taken 2 40) else taken 2 40)
unfolding find_row is_stale
recover-exact_example =
    recover-exact unlocked 161 100 2 one_taken (taken 2 40) one_taken-IsKeyed refl refl
      (omega arith)

abbrev worker : Worker
worker = record {
  handlers = system_noop ∷ [];
  poll_interval = micros 1000000;
  lease = micros 60;
  heartbeat_interval = micros 15;
  lease_owner = worker_name;
}

abbrev readings : Readings
readings = record { recovered_at = 90; claimed_at = 100; checked_at = 120; done_at = 121 }

worker-IsValid : IsValid worker
unfolding validated_lease_owner validated_lease_seconds strip is_space
worker-IsValid = record { owner_valid = refl; lease_valid = (60, refl) }

-- A handler that succeeds and writes nothing.
abbrev quiet : JobType → ℕ → Db → Bool × Db
quiet job_type job_id db = (false, db)

claims_after_recovery :
    claim_next_job unlocked 100
      (some (system_noop ∷ []))
      worker_name
      (micros 60)
      (after (recover_stale_jobs unlocked 90 100) two_waiting)
    ≡ ok (some (taken 2 40), one_taken)
unfolding claim_next_job next_queued_for_update write_row strip is_space validated_lease_owner
    validated_lease_seconds recover_stale_jobs
claims_after_recovery = refl

iteration-settles_example :
    ((row : Job)
      → Holds one_taken 2 worker_name 120 row
      → run_iteration quiet unlocked worker readings false two_waiting
        ≡ (ran, write_row (ended_row worker readings 2 worker-IsValid false row) one_taken))
    × (((row : Job) → Holds one_taken 2 worker_name 120 row → ⊥)
        → (run_iteration quiet unlocked worker readings false two_waiting).1 ≡ one_taken)
iteration-settles_example =
    iteration-settles quiet unlocked worker readings worker-IsValid two_waiting one_taken
      (taken 2 40) false one_taken refl claims_after_recovery refl

iteration-never_raises_example :
    (run_iteration quiet unlocked worker readings false two_waiting).0 ≢ raised unsupported_value
iteration-never_raises_example =
    iteration-never_raises quiet unlocked worker readings worker-IsValid (λ t i k db h. h) false
      two_waiting unsupported_value
