-- ===== src/Outbox/Passes.antt =====
-- One pass of a worker, with what other processes do in it.
use iceberg_cti.Base.{
  nat_eq, string_eq, Bool-cases, Option, some, is_some, is_blank, str_eq, ◌≢◌, refl, Bool, true,
  false, not, ◌||◌, ℕ, zero, suc, ◌+◌, ◌≤◌, ◌≡◌, max, arith, String, Option-cases, inl, inr,
}
use iceberg_cti.Models.{is_running, Instant}
use iceberg_cti.Outbox.{Settings, Table}
use iceberg_cti.Outbox.Claim.{by_id, ClaimedJob, claim_next}
use iceberg_cti.Outbox.Worker.{
  count_success, count_failure, WorkerResult, Round, run_claim, process_rounds, process_due_jobs,
}
use iceberg_cti.Outbox.Finish.{FailureReport, mark_succeeded, mark_failed, Exception}
use iceberg_cti.Outbox.Leases.{
  AllSound, claim_from-AllSound, mark_succeeded-AllSound, mark_failed-AllSound,
}

-- The tokens of a round are not blank, and what other processes do in it keeps the rows sound and deletes
-- none between the SELECT and the UPDATE of a failure.
pub record KeepsSound (w : Round) : Type 0 where
  pub tokened : (i : ℕ) → is_blank (w.token i) ≡ false
  pub at_claim : (i : ℕ) (t : Table) → AllSound t → AllSound (w.others i t)
  pub at_read : (t : Table) → AllSound t → AllSound (w.gap t)
  pub at_work : (t : Table) → AllSound t → AllSound (w.during t)
  pub at_failure : (t : Table) → AllSound t → AllSound (w.between t)
  pub kept_rows :
      (id : ℕ) (t : Table) → is_some (by_id id t) ≡ true → is_some (by_id id (w.between t)) ≡ true

-- Each job that is processed ends in at most one of the three counts.
abbrev pub IsAccounted : WorkerResult → Type 0
IsAccounted r = r.succeeded + r.retried + r.failed ≤ r.processed

-- What a claimed job adds to the result.
record HasRun (before after : WorkerResult) (outcome : Option WorkerResult) : Type 0 where
  returned : outcome ≡ some after
  accounted : IsAccounted after
  one_more : after.processed ≡ before.processed + 1

count_success-HasRun :
    (r : WorkerResult) (done : Bool)
    → IsAccounted r
    → (after : WorkerResult) × HasRun r after
        (some (count_success done (record r { processed = r.processed + 1 })))
count_success-HasRun r true h =
    (_, record { returned = refl; accounted = omega (arith, h); one_more = refl })
count_success-HasRun r false h =
    (_, record { returned = refl; accounted = omega (arith, h); one_more = refl })

count_failure-HasRun :
    (r : WorkerResult) (report : FailureReport)
    → report ≢ FailureReport.stale
    → IsAccounted r
    → (after : WorkerResult) × HasRun r after
        (count_failure report (record r { processed = r.processed + 1 }))
count_failure-HasRun r FailureReport.stale fresh h = elim (fresh refl) [ ]
count_failure-HasRun r FailureReport.lost fresh h =
    (_, record { returned = refl; accounted = omega (arith, h); one_more = refl })
count_failure-HasRun r (FailureReport.recorded true) fresh h =
    (_, record { returned = refl; accounted = omega (arith, h); one_more = refl })
count_failure-HasRun r (FailureReport.recorded false) fresh h =
    (_, record { returned = refl; accounted = omega (arith, h); one_more = refl })

mark_failed-fresh :
    (settings : Settings) (claim : ClaimedJob) (exc : Exception) (now : Instant)
    (between : Table → Table) (table : Table)
    → (is_some (by_id claim.id table) ≡ true → is_some (by_id claim.id (between table)) ≡ true)
    → (mark_failed settings claim exc now between table).0 ≢ FailureReport.stale
unfolding mark_failed
mark_failed-fresh settings claim exc now between table kept =
    elim (Option-cases (by_id claim.id table)) [
      | inl gone ↦ rw (gone, mark_failed) (λ e. cc)
      | inr (j, got) ↦
          let there : is_some (by_id claim.id (between table)) ≡ true = kept (rw got refl) in
          elim (Bool-cases
            (not (is_running j.status) || not (str_eq j.lease_token claim.lease_token))) [
              | inl lost ↦ rw (got, mark_failed, lost) (λ e. cc)
              | inr held ↦ rw (got, mark_failed, held, there) (λ e. cc)
            ]
    ]

run_claim-HasRun :
    (settings : Settings) (w : Round) (claim : ClaimedJob) (r : WorkerResult) (table : Table)
    → KeepsSound w
    → IsAccounted r
    → (after : WorkerResult) × HasRun r after (run_claim settings w claim r table).0
unfolding run_claim
run_claim-HasRun settings w claim r table keep h = elim (Option-cases (w.execute claim)) [
  | inl fine ↦
      rw (fine, run_claim)
        (count_success-HasRun r (mark_succeeded claim w.now_done (w.during table)).0 h)
  | inr (exc, bad) ↦
      rw (bad, run_claim)
        (count_failure-HasRun r
          (mark_failed settings claim exc w.now_done w.between (w.during table)).0
          (mark_failed-fresh settings claim exc w.now_done w.between (w.during table)
            (keep.kept_rows claim.id (w.during table)))
          h)
]

run_claim-AllSound :
    (settings : Settings) (w : Round) (claim : ClaimedJob) (r : WorkerResult) (table : Table)
    → KeepsSound w
    → AllSound table
    → AllSound (run_claim settings w claim r table).1
unfolding run_claim
run_claim-AllSound settings w claim r table keep h = elim (Option-cases (w.execute claim)) [
  | inl fine ↦
      rw (fine, run_claim)
        (mark_succeeded-AllSound claim w.now_done (w.during table) (keep.at_work table h))
  | inr (exc, bad) ↦
      rw (bad, run_claim)
        (mark_failed-AllSound settings claim exc w.now_done w.between (w.during table)
          keep.at_failure (keep.at_work table h))
]

claim_next-AllSound :
    (settings : Settings) (worker : String) (w : Round) (table : Table)
    → KeepsSound w
    → AllSound table
    → AllSound (claim_next settings worker w.now_claim w.token w.others w.gap table).1
unfolding claim_next
claim_next-AllSound settings worker w table keep h =
    claim_from-AllSound settings worker w.now_claim w.token w.others w.gap _ table keep.tokened
      keep.at_claim keep.at_read h

-- What a pass of n rounds promises, from a result and a sound table.
record HasPassed (n : ℕ) (before after : WorkerResult) (outcome : Option WorkerResult)
    (table : Table) : Type 0 where
  returned : outcome ≡ some after
  accounted : IsAccounted after
  bounded : after.processed ≤ before.processed + n
  sound : AllSound table

process_rounds-HasPassed :
    (settings : Settings) (worker : String) (rounds : ℕ → Round) (n : ℕ) (r : WorkerResult)
    (table : Table)
    → ((i : ℕ) → KeepsSound (rounds i))
    → IsAccounted r
    → AllSound table
    → let (r', t) = process_rounds settings worker rounds n r table in
      (after : WorkerResult) × HasPassed n r after r' t
unfolding process_rounds
process_rounds-HasPassed settings worker rounds zero r table keep acc h =
    (r, record { returned = refl; accounted = acc; bounded = omega arith; sound = h })
process_rounds-HasPassed settings worker rounds (suc n) r table keep acc h =
    let w = rounds n in
    let claimed = claim_next settings worker w.now_claim w.token w.others w.gap table in
    let sound : AllSound claimed.1 = claim_next-AllSound settings worker w table (keep n) h in
    elim (Option-cases claimed.0) [
      | inl idle ↦
          rw (idle, process_rounds)
            (r, record { returned = refl; accounted = acc; bounded = omega arith; sound = sound })
      | inr (c, won) ↦
          let (one, ran) = run_claim-HasRun settings w c r claimed.1 (keep n) acc in
          let (after, rest) =
            process_rounds-HasPassed settings worker rounds n one
              (run_claim settings w c r claimed.1).1 keep ran.accounted
              (run_claim-AllSound settings w c r claimed.1 (keep n) sound) in
          rw (won, ran.returned, process_rounds)
            (
              after,
              record {
                returned = rest.returned;
                accounted = rest.accounted;
                bounded = omega (arith, rest.bounded, ran.one_more);
                sound = rest.sound;
              },
            )
    ]

-- A pass returns a result, with at most `max(1, limit)` jobs processed, each of which ends in at most
-- one of the counts `succeeded`, `retried` and `failed`; and every row of the table is sound after it: a
-- running row has a lease that expires and a token, another row has neither, and a succeeded row has its
-- date. This holds whatever other processes do before each UPDATE of a claim, before the claimed row is
-- read back, while the job runs, and between the SELECT and the UPDATE of a failure, provided that the
-- rows were sound before, that the others keep them so, that the tokens drawn are not blank, and that no
-- row is deleted between that SELECT and its UPDATE.
pub process_due_jobs_bounded :
    (settings : Settings) (worker : String) (rounds : ℕ → Round) (limit : ℕ) (table : Table)
    → ((i : ℕ) → KeepsSound (rounds i))
    → AllSound table
    → let (outcome, t) = process_due_jobs settings worker rounds limit table in
      (r : WorkerResult) × (outcome ≡ some r)
      × (r.succeeded + r.retried + r.failed ≤ r.processed)
      × (r.processed ≤ max 1 limit)
      × AllSound t
unfolding process_due_jobs
process_due_jobs_bounded settings worker rounds limit table keep h =
    let (r, p) =
      process_rounds-HasPassed settings worker rounds (max 1 limit)
        (record { processed = 0; succeeded = 0; retried = 0; failed = 0 }) table keep (omega arith)
        h in
    (r, p.returned, p.accounted, omega (arith, p.bounded), p.sound)
