-- ===== src/Outbox/Claim.antt =====
-- src/iceberg/services/jobs.py: `_claimable_clause` and `_claim_next`, the lease of one due job.
use iceberg_cti.Base.{
  nat_eq, string_eq, ℕ, ◌+◌, Bool, false, ◌&&◌, ◌||◌, Option, none, some, List, [], ◌∷◌, map,
  String, prefix, select, any_of, find_first, update_where, take, ltb, leb, ◌==◌, if◌then◌else◌,
}
use iceberg_cti.Models.{JobKind, JobStatus, Fields, OutboxJob, Instant, is_pending, is_running}
use iceberg_cti.Outbox.{Settings, Table, lease_duration}

pub record ClaimedJob : Type 0 where
  pub id : ℕ
  pub kind : JobKind
  pub payload : Fields
  pub lease_token : String

-- `lease_expires_at IS NOT NULL AND lease_expires_at <= now`
abbrev pub expired : Option Instant → Instant → Bool
expired none now = false
expired (some t) now = leb t now

abbrev pub claimable : Instant → OutboxJob → Bool
claimable now j =
    (is_pending j.status && leb j.available_at now)
    || (is_running j.status && expired j.lease_expires_at now)

-- `ORDER BY available_at, id`
abbrev pub before : OutboxJob → OutboxJob → Bool
before a b =
    ltb a.available_at b.available_at || (a.available_at == b.available_at && leb a.id b.id)

abbrev pub insert_ordered : OutboxJob → Table → Table
insert_ordered j [] = j ∷ []
insert_ordered j (k ∷ ks) = if before j k then j ∷ k ∷ ks else k ∷ insert_ordered j ks

abbrev pub ordered : Table → Table
ordered [] = []
ordered (j ∷ js) = insert_ordered j (ordered js)

-- The first 16 claimable ids.
unfoldable pub candidate_ids : Instant → Table → List ℕ
candidate_ids now table = map (λ j. j.id) (take 16 (ordered (select (claimable now) table)))

-- The values that the UPDATE writes.
abbrev pub leased : Settings → String → String → Instant → OutboxJob → OutboxJob
leased settings worker token now j = record j {
  status = JobStatus.running;
  lease_token = token;
  leased_by = prefix 255 worker;
  leased_at = some now;
  lease_expires_at = some (now + lease_duration settings);
  started_at = some now;
  attempt_count = j.attempt_count + 1;
}

-- `WHERE id = :job_id AND claimable`
abbrev pub claims : Instant → ℕ → OutboxJob → Bool
claims now job_id j = (j.id == job_id) && claimable now j

-- `session.get(OutboxJob, job_id)`
abbrev pub by_id : ℕ → Table → Option OutboxJob
by_id job_id table = find_first (λ j. j.id == job_id) table

abbrev pub claim_of : String → OutboxJob → ClaimedJob
claim_of token j = record { id = j.id; kind = j.kind; payload = j.payload; lease_token = token }

-- The loop over the candidates. `others` is what other processes do before each UPDATE, and `token`
-- is the random token drawn for a candidate; `gap` is what they do between the commit of an UPDATE and the
-- `session.get` that reads the row back, which may be gone by then.
unfoldable pub claim_from :
    Settings
    → String
    → Instant
    → (ℕ → String)
    → (ℕ → Table → Table)
    → (Table → Table)
    → List ℕ
    → Table
    → Option ClaimedJob × Table
claim_from settings worker now token others gap [] table = (none, table)
claim_from settings worker now token others gap (i ∷ is) table =
    let seen = others i table in
    let written = update_where (claims now i) (leased settings worker (token i) now) seen in
    let committed = gap written in
    let later = claim_from settings worker now token others gap is seen in
    if any_of (claims now i) seen
    then elim (by_id i committed) [
      | none ↦ (none, committed)
      | some j ↦ (some (claim_of (token i) j), committed)
    ]
    else later

unfoldable pub claim_next :
    Settings
    → String
    → Instant
    → (ℕ → String)
    → (ℕ → Table → Table)
    → (Table → Table)
    → Table
    → Option ClaimedJob × Table
claim_next settings worker now token others gap table =
    claim_from settings worker now token others gap (candidate_ids now table) table
