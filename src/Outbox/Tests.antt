-- ===== src/Outbox/Tests.antt =====
-- Jobs that are queued, claimed and finished, and the theorems on them.
use iceberg_cti.Base.{
  map, map, string_eq, str_eq_iff, ◌==◌, if◌then◌else◌, ◌+◌, ◌≡◌, ◌≢◌, ◌≤◌, refl, arith, true,
  false, none, some, [], ◌∷◌, String, nat_eq, max, ok,
}
use iceberg_cti.Models.{JobStatus, JobKind, OutboxJob, end}
use iceberg_cti.Outbox.{Settings, Submission, Table, new_job, enqueue}
use iceberg_cti.Outbox.Claim.{
  by_id, claim_from, candidate_ids, ClaimedJob, claimable, claim_of, claim_next, leased,
}
use iceberg_cti.Outbox.Finish.{
  FailureReport, error_text, failed_row, retry_delay, Exception, mark_succeeded, mark_failed,
}
use iceberg_cti.Outbox.Worker.{WorkerResult, run_claim, process_rounds, Round, process_due_jobs}
use iceberg_cti.Fixtures.{job}
use iceberg_cti.Outbox.Leases.{AllSound}
use iceberg_cti.Outbox.Fencing.{other_token_fenced}
use iceberg_cti.Outbox.Passes.{KeepsSound, process_due_jobs_bounded}

abbrev settings : Settings
settings = record { jobs_max_attempts = 3; jobs_lease_seconds = 60; jobs_retry_base_seconds = 2 }

abbrev submission : Submission
submission = record {
  kind = JobKind.rss_poll;
  payload = end;
  idempotency_key = " k ";
  max_attempts = none;
  available_at = none;
}

abbrev queued : OutboxJob
queued = new_job settings submission "k" 2 8 9

queues :
    enqueue settings submission 2 8 9 [] (job 1 "j" ∷ []) ≡ ok (queued, job 1 "j" ∷ queued ∷ [])
unfolding enqueue
queues = refl

fourth_delay : retry_delay settings 4 ≡ 16
unfolding retry_delay
fourth_delay = refl

abbrev waiting : Table
waiting = job 1 "j" ∷ job 2 "k" ∷ []

abbrev running : OutboxJob
running = leased settings "w" "t1" 8 (job 1 "j")

abbrev claim : ClaimedJob
claim = claim_of "t1" running

claims_first :
    claim_next settings "w" 8 (λ _. "t1") (λ _ t. t) (λ t. t) waiting
    ≡ (some claim, running ∷ job 2 "k" ∷ [])
unfolding claim_next candidate_ids claim_from
claims_first = refl

-- A row that is deleted after its UPDATE is committed is not claimed.
gone_before_read :
    claim_next settings "w" 8 (λ _. "t1") (λ _ t. t) (λ _. job 2 "k" ∷ []) waiting
    ≡ (none, job 2 "k" ∷ [])
unfolding claim_next candidate_ids claim_from
gone_before_read = refl

abbrev failure : Exception
failure = record { type_name = "ValueError"; message = "no" }

-- A worker whose lease another has taken.
abbrev late_claim : ClaimedJob
late_claim = record claim { lease_token = "t0" }

tokens_differ : ◌≢◌ {A = String} "t1" "t0"
tokens_differ e = let h : false ≡ true = (str_eq_iff "t1" "t0").1 e in cc h

other_token_fenced_example :
    let after = running ∷ job 2 "k" ∷ [] in
    (mark_succeeded late_claim 9 after ≡ (false, after))
    × (mark_failed settings late_claim failure 9 (λ t. t) after ≡ (FailureReport.lost, after))
    × ((row : OutboxJob) × (claimable 8 row ≡ true)
        × (by_id 1 after ≡ some (leased settings "w" "t1" 8 row)))
other_token_fenced_example =
    other_token_fenced settings "w" 8 9 (λ _. "t1") (λ _ t. t) (λ t. t) (λ t. t) waiting late_claim
      failure {won = claim} {after = running ∷ job 2 "k" ∷ []} (λ _ _ u. u) (λ _ _ h. h)
      (refl, (refl, tt)) (refl, (refl, tt)) claims_first refl tokens_differ

-- A worker that is late, with two attempts of three made, reads its row before another worker claims the
-- job for the third attempt, and writes after it: the claim of the other is gone, and the row waits
-- with no attempt left.
abbrev second_attempt : OutboxJob
second_attempt = record running { attempt_count = 2; lease_token = "t0"; leased_by = "v" }

rival_overwritten :
    let rival =
      λ (t : Table). (claim_next settings "w" 60000009 (λ _. "t1") (λ _ t. t) (λ t. t) t).1 in
    let (report, t) = mark_failed settings late_claim failure 9 rival (second_attempt ∷ []) in
    (report ≡ FailureReport.recorded false)
    × (map (λ j. j.status) t ≡ JobStatus.pending ∷ [])
    × (map (λ j. j.lease_token) t ≡ "" ∷ [])
    × (map (λ j. j.attempt_count) t ≡ map (λ j. j.max_attempts) t)
unfolding mark_failed failed_row error_text retry_delay claim_next candidate_ids claim_from
rival_overwritten = (refl, refl, refl, refl)

abbrev round : Round
round = record {
  now_claim = 8;
  now_done = 9;
  token = λ _. "t1";
  others = λ _ t. t;
  gap = λ t. t;
  during = λ t. t;
  between = λ t. t;
  execute = λ c. if c.id == 1 then none else some failure;
}

round-KeepsSound : KeepsSound round
round-KeepsSound = record {
  tokened = λ _. refl;
  at_claim = λ _ _ h. h;
  at_read = λ _ h. h;
  at_work = λ _ h. h;
  at_failure = λ _ h. h;
  kept_rows = λ _ _ h. h;
}

waiting-AllSound : AllSound waiting
waiting-AllSound = (ground arith, (ground arith, tt))

process_due_jobs_bounded_example :
    let (r, t) = process_due_jobs settings "w" (λ _. round) 10 waiting in
    (result : WorkerResult) × (r ≡ some result)
    × (result.succeeded + result.retried + result.failed ≤ result.processed)
    × (result.processed ≤ max 1 10)
    × AllSound t
process_due_jobs_bounded_example =
    process_due_jobs_bounded settings "w" (λ _. round) 10 waiting (λ _. round-KeepsSound)
      waiting-AllSound

one_succeeds_one_waits :
    (process_due_jobs settings "w" (λ _. round) 10 waiting).0
    ≡ some (record { processed = 2; succeeded = 1; retried = 1; failed = 0 })
unfolding process_due_jobs process_rounds run_claim claim_next candidate_ids claim_from
    mark_succeeded mark_failed failed_row error_text retry_delay
one_succeeds_one_waits = refl
