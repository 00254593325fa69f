-- ===== src/Outbox.antt =====
-- src/iceberg/services/jobs.py: the durable outbox. The table is the list of its rows, in order of
-- insertion. Other processes act on the table between two statements of this one: what they do
-- there is a parameter of the functions below, and so are the clock and the random tokens.
pub mod Claim
pub mod Finish
pub mod Worker
pub mod Keys
pub mod Leases
pub mod Fencing
pub mod Order
pub mod Delay
pub mod Passes
mod Tests
use iceberg_cti.Base.{
  ℕ, ◌+◌, ◌*◌, max, Bool, true, false, not, Option, none, some, List, [], ◌∷◌, ◌++◌, Result, ok,
  err, String, str_eq, strip, is_blank, find_first, or_else, ◌==◌, if◌then◌else◌,
}
use iceberg_cti.Models.{JobKind, JobStatus, Fields, OutboxJob, Instant}

-- `get_settings()`: negative settings act as 0 here, since each is raised to 1 by `max`.
pub record Settings : Type 0 where
  pub jobs_max_attempts : ℕ
  pub jobs_lease_seconds : ℕ
  pub jobs_retry_base_seconds : ℕ

abbrev pub Table : Type 0
Table = List OutboxJob

-- Instants are counted in microseconds.
abbrev pub seconds : ℕ → ℕ
seconds n = n * 1000000

abbrev pub max_attempts : Settings → ℕ
max_attempts s = max 1 s.jobs_max_attempts

abbrev pub lease_duration : Settings → ℕ
lease_duration s = seconds (max 1 s.jobs_lease_seconds)

-- `ValueError`: the key is blank.
pub data OutboxError : Type 0 where
  key_required : OutboxError

abbrev pub by_key : String → Table → Option OutboxJob
by_key key table = find_first (λ j. str_eq j.idempotency_key key) table

-- `max_attempts or _max_attempts()`
abbrev pub attempts_or : Option ℕ → ℕ → ℕ
attempts_or none d = d
attempts_or (some n) d = if n == 0 then d else n

-- What the caller of `enqueue` passes.
pub record Submission : Type 0 where
  pub kind : JobKind
  pub payload : Fields
  pub idempotency_key : String
  pub max_attempts : Option ℕ
  pub available_at : Option Instant

-- The row that the flush inserts, with the id that the database gives it.
abbrev pub new_job : Settings → Submission → String → ℕ → Instant → Instant → OutboxJob
new_job settings o key id now now' = record {
  id = id;
  kind = o.kind;
  status = JobStatus.pending;
  payload = o.payload;
  idempotency_key = key;
  attempt_count = 0;
  retry_count = 0;
  max_attempts = max 1 (attempts_or o.max_attempts (max_attempts settings));
  available_at = or_else o.available_at now;
  leased_at = none;
  lease_expires_at = none;
  lease_token = "";
  leased_by = "";
  last_error = "";
  created_at = now';
  started_at = none;
  completed_at = none;
}

-- `raced` holds the rows that other transactions commit between the SELECT and the flush. The unique
-- key makes the flush fail where one of them has the key, and the second SELECT then finds it.
unfoldable pub enqueue :
    Settings
    → Submission
    → ℕ
    → Instant
    → Instant
    → Table
    → Table
    → Result OutboxError (OutboxJob × Table)
enqueue settings o id now now' raced table =
    let key = strip o.idempotency_key in
    if is_blank key then err key_required else elim (by_key key table) [
      | some existing ↦ ok (existing, table)
      | none ↦ elim (by_key key raced) [
        | some existing ↦ ok (existing, table ++ raced)
        | none ↦
            let job = new_job settings o key id now now' in ok (job, (table ++ raced) ++ job ∷ [])
      ]
    ]
