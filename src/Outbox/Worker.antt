-- ===== src/Outbox/Worker.antt =====
-- src/iceberg/services/jobs.py: `process_due_jobs`, one bounded pass of a worker.
use iceberg_cti.Base.{
  nat_eq, string_eq, ℕ, zero, suc, ◌+◌, max, Bool, true, false, Option, none, some, String,
}
use iceberg_cti.Models.{Instant}
use iceberg_cti.Outbox.{Settings, Table}
use iceberg_cti.Outbox.Claim.{ClaimedJob, claim_next}
use iceberg_cti.Outbox.Finish.{FailureReport, Exception, mark_succeeded, mark_failed}

pub record WorkerResult : Type 0 where
  pub processed : ℕ
  pub succeeded : ℕ
  pub retried : ℕ
  pub failed : ℕ

-- What one round of the loop meets: the clock at the claim and at the end, the tokens drawn, what
-- other processes do before each UPDATE, before the claimed row is read back, while the job runs, and
-- between the SELECT and the UPDATE of a failure, and how `_execute` ends.
pub record Round : Type 0 where
  pub now_claim : Instant
  pub now_done : Instant
  pub token : ℕ → String
  pub others : ℕ → Table → Table
  pub gap : Table → Table
  pub during : Table → Table
  pub between : Table → Table
  pub execute : ClaimedJob → Option Exception

-- `none` where the exception leaves the pass.
abbrev pub count_failure : FailureReport → WorkerResult → Option WorkerResult
count_failure (FailureReport.recorded true) r = some (record r { failed = r.failed + 1 })
count_failure (FailureReport.recorded false) r = some (record r { retried = r.retried + 1 })
count_failure FailureReport.lost r = some r
count_failure FailureReport.stale r = none

abbrev pub count_success : Bool → WorkerResult → WorkerResult
count_success true r = record r { succeeded = r.succeeded + 1 }
count_success false r = r

-- The `try` around one claimed job.
unfoldable pub run_claim :
    Settings → Round → ClaimedJob → WorkerResult → Table → Option WorkerResult × Table
run_claim settings w claim result table =
    let counted = record result { processed = result.processed + 1 } in
    let seen = w.during table in
    elim (w.execute claim) [
      | some exc ↦
          let (terminal, t) = mark_failed settings claim exc w.now_done w.between seen in
          (count_failure terminal counted, t)
      | none ↦
          let (done, t) = mark_succeeded claim w.now_done seen in
          (some (count_success done counted), t)
    ]

-- `rounds i` is met by the round with i rounds left after it.
unfoldable pub process_rounds :
    Settings → String → (ℕ → Round) → ℕ → WorkerResult → Table → Option WorkerResult × Table
process_rounds settings worker rounds zero result table = (some result, table)
process_rounds settings worker rounds (suc n) result table =
    let w = rounds n in
    let (claim, t) = claim_next settings worker w.now_claim w.token w.others w.gap table in
    elim claim [
      | none ↦ (some result, t)
      | some c ↦
          let (r, t') = run_claim settings w c result t in
          elim r [
            | none ↦ (none, t')
            | some so_far ↦ process_rounds settings worker rounds n so_far t'
          ]
    ]

unfoldable pub process_due_jobs :
    Settings → String → (ℕ → Round) → ℕ → Table → Option WorkerResult × Table
unfolding process_rounds
process_due_jobs settings worker rounds limit table =
    process_rounds settings worker rounds (max 1 limit)
      (record { processed = 0; succeeded = 0; retried = 0; failed = 0 }) table
