-- ===== src/Deletions/Worker.antt =====
-- src/iceberg/services/storage_deletions.py: the lease of a tombstone, and one bounded pass of a worker.
use iceberg_cti.Outbox.Claim.{expired}
use iceberg_cti.Outbox.Finish.{text_column, time_column, due_column}
use iceberg_cti.Outbox.{lease_duration, Settings}
use iceberg_cti.Models.{Instant}
use iceberg_cti.Deletions.{
  seconds, Faults, execute, World, DeletionStatus, Failure, StorageDeletion,
}
use iceberg_cti.Base.{
  ◌-◌, ◌^◌, ◌*◌, min, join, max, update_first, any_of, find_first, leb, ltb, prefix, str_eq, take,
  update_where, zero, suc, [], ◌∷◌, some, none, ok, err, true, false, nat_eq, string_eq, ◌+◌, ◌&&◌,
  ◌||◌, ◌==◌, not, if◌then◌else◌, Bool, List, Option, ℕ, String, map, select,
}

abbrev is_waiting : DeletionStatus → Bool
is_waiting DeletionStatus.pending = true
is_waiting _ = false

abbrev is_leased : DeletionStatus → Bool
is_leased DeletionStatus.running = true
is_leased _ = false

-- `_claimable`
abbrev pub is_due : Instant → StorageDeletion → Bool
is_due now d =
    (is_waiting d.status && leb d.not_before now && leb d.available_at now)
    || (is_leased d.status && expired d.lease_expires_at now)

abbrev pub sooner : StorageDeletion → StorageDeletion → Bool
sooner a b =
    ltb a.available_at b.available_at || (a.available_at == b.available_at && leb a.id b.id)

abbrev pub insert_due : StorageDeletion → List StorageDeletion → List StorageDeletion
insert_due d [] = d ∷ []
insert_due d (k ∷ ks) = if sooner d k then d ∷ k ∷ ks else k ∷ insert_due d ks

abbrev pub by_due : List StorageDeletion → List StorageDeletion
by_due [] = []
by_due (d ∷ ds) = insert_due d (by_due ds)

abbrev pub lease_row : Settings → String → String → Instant → StorageDeletion → StorageDeletion
lease_row settings worker token now d = record d {
  status = DeletionStatus.running;
  lease_token = token;
  leased_by = prefix 255 worker;
  leased_at = some now;
  lease_expires_at = some (now + lease_duration settings);
  attempt_count = d.attempt_count + 1;
}

-- The loop over the candidates; `others` acts before each UPDATE.
unfoldable pub lease_from :
    Settings
    → String
    → Instant
    → (ℕ → String)
    → (ℕ → List StorageDeletion → List StorageDeletion)
    → List ℕ
    → List StorageDeletion
    → Option (ℕ × String) × List StorageDeletion
lease_from settings worker now token others [] table = (none, table)
lease_from settings worker now token others (i ∷ ids) table =
    let seen = others i table in
    let later = lease_from settings worker now token others ids seen in
    let due : StorageDeletion → Bool = λ d. (d.id == i) && is_due now d in
    if any_of due seen
    then (some (i, token i), update_where due (lease_row settings worker (token i) now) seen)
    else later

unfoldable pub lease_next :
    Settings
    → String
    → Instant
    → (ℕ → String)
    → (ℕ → List StorageDeletion → List StorageDeletion)
    → List StorageDeletion
    → Option (ℕ × String) × List StorageDeletion
unfolding lease_from
lease_next settings worker now token others table =
    lease_from settings worker now token others
      (map (λ d. d.id) (take 16 (by_due (select (is_due now) table)))) table

abbrev pub has_lease : ℕ → String → StorageDeletion → Bool
has_lease row_id token d = (d.id == row_id) && is_leased d.status && str_eq d.lease_token token

-- The completion status is the one that `execute` gives.
unfoldable pub mark_complete :
    ℕ → String → DeletionStatus → Instant → List StorageDeletion → List StorageDeletion
mark_complete row_id token status now table =
    update_where (has_lease row_id token)
      (λ d. record d {
        status = status;
        completed_at = some now;
        lease_token = "";
        leased_by = "";
        lease_expires_at = none;
        last_error = "";
      })
      table

abbrev pub is_exhausted : StorageDeletion → Bool
is_exhausted d = leb d.max_attempts d.attempt_count

abbrev pub detail : Failure → String
detail exc = if exc.is_storage_error then exc.message else "unexpected failure"

abbrev pub retry_or_fail : Settings → Failure → Instant → StorageDeletion → StorageDeletion
retry_or_fail settings exc now d =
    let closed = record d {
      last_error = prefix 1000 (join exc.type_name (join ": " (detail exc)));
      lease_token = "";
      leased_by = "";
      lease_expires_at = none;
    } in
    if is_exhausted d
    then record closed { status = DeletionStatus.failed; completed_at = some now }
    else record closed {
      status = DeletionStatus.pending;
      available_at =
          now
          + seconds
              (max 1 (min (settings.jobs_retry_base_seconds * 2 ^ (d.attempt_count - 1)) 3600));
    }

-- The UPDATE of the row `k` under the id, with the values assigned to the row as it was read: a column
-- that has the value already is not written.
abbrev pub rewritten : StorageDeletion → StorageDeletion → StorageDeletion → StorageDeletion
rewritten read new k = record k {
  status = new.status;
  last_error = text_column read.last_error new.last_error k.last_error;
  lease_token = text_column read.lease_token new.lease_token k.lease_token;
  leased_by = text_column read.leased_by new.leased_by k.leased_by;
  lease_expires_at = time_column read.lease_expires_at new.lease_expires_at k.lease_expires_at;
  completed_at = time_column read.completed_at new.completed_at k.completed_at;
  available_at = due_column read.available_at new.available_at k.available_at;
}

-- Whether the failure is the last, or `none` for the `StaleDataError` of an UPDATE that finds no row, and
-- the table after it; a worker that lost its lease writes nothing. `between` is what other processes do
-- between the SELECT and the UPDATE.
unfoldable pub mark_failure :
    Settings
    → ℕ
    → String
    → Failure
    → Instant
    → (List StorageDeletion → List StorageDeletion)
    → List StorageDeletion
    → Option Bool × List StorageDeletion
mark_failure settings row_id token exc now between table =
    elim (find_first (λ d. d.id == row_id) table) [
      | none ↦ (some false, table)
      | some d ↦
          let seen = between table in
          if not (is_leased d.status) || not (str_eq d.lease_token token)
          then (some false, table)
          else if any_of (λ k. k.id == row_id) seen
          then (
            some (is_exhausted d),
            update_first (λ k. k.id == row_id) (rewritten d (retry_or_fail settings exc now d))
                seen,
          )
          else (none, seen)
    ]

pub record PassResult : Type 0 where
  pub processed : ℕ
  pub succeeded : ℕ
  pub cancelled : ℕ
  pub retried : ℕ
  pub failed : ℕ

-- What one round meets: `during` is what other processes do between the claim and the execution,
-- `before_mark` what they do to the tombstones before its end is written, and `between` what they do between
-- the SELECT and the UPDATE of a failure.
pub record Pass : Type 0 where
  pub now_claim : Instant
  pub now_done : Instant
  pub token : ℕ → String
  pub others : ℕ → List StorageDeletion → List StorageDeletion
  pub during : World → World
  pub before_mark : List StorageDeletion → List StorageDeletion
  pub between : List StorageDeletion → List StorageDeletion
  pub faults : Faults

abbrev pub count_outcome : DeletionStatus → PassResult → PassResult
count_outcome DeletionStatus.cancelled r = record r { cancelled = r.cancelled + 1 }
count_outcome _ r = record r { succeeded = r.succeeded + 1 }

-- `none` where the exception leaves the pass.
abbrev pub count_end : Option Bool → PassResult → Option PassResult
count_end (some true) r = some (record r { failed = r.failed + 1 })
count_end (some false) r = some (record r { retried = r.retried + 1 })
count_end none r = none

-- The `try` around one claimed tombstone.
unfoldable pub run_deletion :
    Settings
    → (String → String)
    → Pass
    → ℕ
    → String
    → PassResult
    → World
    → Option PassResult × World
unfolding mark_failure mark_complete
run_deletion settings path p row_id token result w =
    let counted = record result { processed = result.processed + 1 } in
    let seen = p.during w in
    let table = p.before_mark seen.deletions in
    elim (execute path p.faults row_id seen) [
      | ok done ↦ (
        some (count_outcome done.0 counted),
        record seen {
          deletions = mark_complete row_id token done.0 p.now_done table;
          objects = done.1;
        },
      )
      | err exc ↦
          let (terminal, after) =
            mark_failure settings row_id token exc p.now_done p.between table in
          (count_end terminal counted, record seen { deletions = after })
    ]

-- `passes i` is met by the round with i rounds left after it.
unfoldable pub run_rounds :
    Settings
    → (String → String)
    → String
    → (ℕ → Pass)
    → ℕ
    → PassResult
    → World
    → Option PassResult × World
unfolding lease_next run_deletion
run_rounds settings path worker passes zero result w = (some result, w)
run_rounds settings path worker passes (suc n) result w =
    let p = passes n in
    let (claim, table) = lease_next settings worker p.now_claim p.token p.others w.deletions in
    let leased_world : World = record w { deletions = table } in
    elim claim [
      | none ↦ (some result, leased_world)
      | some c ↦
          let (r, after) = run_deletion settings path p c.0 c.1 result leased_world in
          elim r [
            | none ↦ (none, after)
            | some so_far ↦ run_rounds settings path worker passes n so_far after
          ]
    ]

unfoldable pub process_due_deletions :
    Settings → (String → String) → String → (ℕ → Pass) → ℕ → World → Option PassResult × World
unfolding run_rounds
process_due_deletions settings path worker passes limit w =
    run_rounds settings path worker passes (max 1 limit)
      (record { processed = 0; succeeded = 0; cancelled = 0; retried = 0; failed = 0 }) w
