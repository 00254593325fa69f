-- ===== src/Outbox/Finish.antt =====
-- src/iceberg/services/jobs.py: `_retry_delay`, `_mark_succeeded`, `_error_text` and `_mark_failed`.
use iceberg_cti.Base.{
  nat_eq, string_eq, ℕ, ◌+◌, ◌-◌, ◌*◌, ◌^◌, max, min, Bool, not, ◌&&◌, ◌||◌, Option, none, some,
  String, str_eq, strip, prefix, join, is_blank, any_of, update_where, update_first, same_id,
  is_some, leb, ◌==◌, if◌then◌else◌,
}
use iceberg_cti.Models.{JobStatus, OutboxJob, Instant, is_running}
use iceberg_cti.Outbox.{Settings, Table, seconds}
use iceberg_cti.Outbox.Claim.{ClaimedJob, by_id}

-- In seconds; an attempt count of 0 gives the exponent 0, as in the code.
unfoldable pub retry_delay : Settings → ℕ → ℕ
retry_delay settings attempt_count =
    let base = max 1 settings.jobs_retry_base_seconds in
    let exponent = min (attempt_count - 1) 16 in min (base * 2 ^ exponent) 3600

-- `WHERE id = :id AND status = RUNNING AND lease_token = :token`
abbrev pub holds : ClaimedJob → OutboxJob → Bool
holds claim j = (j.id == claim.id) && is_running j.status && str_eq j.lease_token claim.lease_token

abbrev pub succeeded_row : Instant → OutboxJob → OutboxJob
succeeded_row now j = record j {
  status = JobStatus.succeeded;
  completed_at = some now;
  lease_token = "";
  leased_by = "";
  lease_expires_at = none;
  last_error = "";
}

unfoldable pub mark_succeeded : ClaimedJob → Instant → Table → Bool × Table
mark_succeeded claim now table =
    (any_of (holds claim) table, update_where (holds claim) (succeeded_row now) table)

-- An exception, by its class and its text.
pub record Exception : Type 0 where
  pub type_name : String
  pub message : String

unfoldable pub error_text : Exception → String
error_text exc =
    let text = prefix 1000 (strip (join exc.type_name (join ": " exc.message))) in
    if is_blank text then exc.type_name else text

abbrev pub is_terminal : OutboxJob → Bool
is_terminal j = leb j.max_attempts j.attempt_count

unfoldable pub failed_row : Settings → Exception → Instant → OutboxJob → OutboxJob
failed_row settings exc now j =
    let closed = record j {
      retry_count = j.retry_count + 1;
      last_error = error_text exc;
      lease_token = "";
      leased_by = "";
      lease_expires_at = none;
    } in
    if is_terminal j
    then record closed { status = JobStatus.failed; completed_at = some now }
    else record closed {
      status = JobStatus.pending;
      available_at = now + seconds (retry_delay settings j.attempt_count);
    }

-- A column that has the value assigned to it already is not in the UPDATE: `now` stays.
abbrev pub text_column : String → String → String → String
text_column read new now = if str_eq read new then now else new

abbrev pub time_column : Option Instant → Option Instant → Option Instant → Option Instant
time_column read new now = if same_id read new then now else new

abbrev pub due_column : Instant → Instant → Instant → Instant
due_column read new now = if read == new then now else new

-- The UPDATE of the row `k` under the id, whose WHERE has the id alone, with the values assigned to the
-- row as it was read.
abbrev pub overwritten : OutboxJob → OutboxJob → OutboxJob → OutboxJob
overwritten read new k = record k {
  status = new.status;
  retry_count = new.retry_count;
  last_error = text_column read.last_error new.last_error k.last_error;
  lease_token = text_column read.lease_token new.lease_token k.lease_token;
  leased_by = text_column read.leased_by new.leased_by k.leased_by;
  lease_expires_at = time_column read.lease_expires_at new.lease_expires_at k.lease_expires_at;
  completed_at = time_column read.completed_at new.completed_at k.completed_at;
  available_at = due_column read.available_at new.available_at k.available_at;
}

-- `True` and `False` are `recorded`, `None` is `lost`, and `stale` is the `StaleDataError` of an UPDATE
-- that finds no row.
pub data FailureReport : Type 0 where
  lost stale : FailureReport
  recorded : Bool → FailureReport

-- `between` is what other processes do between the SELECT and the UPDATE.
unfoldable pub mark_failed :
    Settings → ClaimedJob → Exception → Instant → (Table → Table) → Table → FailureReport × Table
unfolding failed_row
mark_failed settings claim exc now between table = elim (by_id claim.id table) [
  | none ↦ (FailureReport.lost, table)
  | some j ↦
      let seen = between table in
      if not (is_running j.status) || not (str_eq j.lease_token claim.lease_token)
      then (FailureReport.lost, table)
      else if is_some (by_id claim.id seen)
      then (
        FailureReport.recorded (is_terminal j),
        update_first (λ k. k.id == claim.id) (overwritten j (failed_row settings exc now j)) seen,
      )
      else (FailureReport.stale, seen)
]
