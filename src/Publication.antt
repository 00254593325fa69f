-- ===== src/Publication.antt =====
-- src/iceberg/services/publication.py: the snapshot of a published report, and `publish`. A request that
-- raises is rolled back, so its error carries no tables. `Site` holds what the code takes from elsewhere.
pub mod Published
pub mod Frozen
mod Tests
use iceberg_cti.Base.{
  ℕ, Bool, false, not, ◌&&◌, Option, none, some, List, [], ◌∷◌, ◌++◌, String, Result, ok, err,
  ◌>>=◌, ◌>>◌, raise_if, is_none, is_some, is_empty, is_blank, length, select, find_first, str_eq,
  ◌==◌, if◌then◌else◌,
}
use iceberg_cti.Models.{
  Fields, Tlp, ReportStatus, Instant, User, Report, ReportComment, DisseminationEvent, is_open,
  is_approved,
}
use iceberg_cti.Lifecycle.{can_review}
use iceberg_cti.Outbox.{Settings, Table}
use iceberg_cti.Dissemination.{match_decisions}
use iceberg_cti.Dissemination.Feed.{disseminate}
use iceberg_cti.Dissemination.Notify.{WebhookSnapshot, Stamp, enqueue_notifications}
use iceberg_cti.Policy.{Versions}
use iceberg_cti.Policy.Rules.{Python}
use iceberg_cti.Policy.Resolve.{AudienceResolution, recipients_ids, resolve}

-- A row: the frozen representations, with the audience record that the publication adds to them. The
-- record stands for the object that `as_record` writes.
pub record PublicationSnapshot : Type 0 where
  pub report_id : ℕ
  pub snapshot_hash : String
  pub content : Fields
  pub audience : Option AudienceResolution
  pub created_at : Instant

abbrev pub Snapshots : Type 0
Snapshots = List PublicationSnapshot

-- `PublicationConflict`, at the sites that raise it, and `PermissionError`.
pub data PublicationError : Type 0 where
  not_approved audience_changed figure_storage report_changed not_permitted : PublicationError
  blocking_threads : ℕ → PublicationError

-- `comments.open_blocking`
abbrev pub open_blocking : Report → List ReportComment → List ReportComment
open_blocking report comments =
    select (λ c. c.report_id == report.id && is_none c.thread_id && c.blocking && is_open c.status)
      comments

-- `comments.publication_blocked_by`, where `gated` is the setting.
unfoldable pub publication_blocked_by : Bool → Report → List ReportComment → List ReportComment
publication_blocked_by gated report comments =
    if not gated then [] else open_blocking report comments

unfoldable pub get_snapshot : Snapshots → Report → Option PublicationSnapshot
get_snapshot snapshots report =
    if is_blank report.publication_snapshot_hash
    then none
    else find_first
        (λ s. s.report_id == report.id && str_eq s.snapshot_hash report.publication_snapshot_hash)
        snapshots

-- What the code takes from elsewhere: the settings; the clock at each reading; `_payload`, which fails
-- where a figure's storage does; SHA-256 of a payload and of a resolution; the stamps of the outbox;
-- and the rows that a concurrent publisher commits.
pub record Site : Type 0 where
  pub gated : Bool
  pub ceiling : Tlp
  pub name_le : String → String → Bool
  pub py : Python
  pub slug : ℕ → String
  pub capture : Report → Option Fields
  pub digest : Fields → Option AudienceResolution → String
  pub fingerprint : AudienceResolution → String
  pub rival : ℕ → Option DisseminationEvent
  pub settings : Settings
  pub stamps : String → Stamp
  pub webhook : WebhookSnapshot
  pub proxy : Fields
  pub resolved_at : Instant
  pub now : Instant
  pub now' : Instant
  pub written_at : Instant
  pub commits : Bool

-- The tables that a publication reads and writes.
pub record Tables : Type 0 where
  pub users : List User
  pub groups : List ℕ
  pub versions : Versions
  pub comments : List ReportComment
  pub snapshots : Snapshots
  pub events : List DisseminationEvent
  pub jobs : Table

abbrev pub snapshot_of : Snapshots → Report → Option PublicationSnapshot
snapshot_of snapshots report = find_first (λ s. s.report_id == report.id) snapshots

-- The snapshot, the report with its hash, and the table. A failure of storage gives `none`.
unfoldable pub create_snapshot :
    Site → Option AudienceResolution → Report → Snapshots → Option (Report × Snapshots)
create_snapshot site audience report snapshots = elim (snapshot_of snapshots report) [
  | some existing ↦
      some (record report { publication_snapshot_hash = existing.snapshot_hash }, snapshots)
  | none ↦ elim (site.capture report) [
    | none ↦ none
    | some content ↦
        let hash = site.digest content audience in
        some (
          record report { publication_snapshot_hash = hash },
          snapshots
              ++ record {
                report_id = report.id;
                snapshot_hash = hash;
                content = content;
                audience = audience;
                created_at = site.written_at;
              }
                ∷ [],
        )
  ]
]

-- `audience_fingerprint and audience_fingerprint != resolution.fingerprint`
abbrev pub is_stale : Option String → String → Bool
is_stale none current = false
is_stale (some seen) current = not (is_blank seen) && not (str_eq seen current)

-- What a publication gives: the report, who newly received it, and the tables.
pub record Publication : Type 0 where
  pub report : Report
  pub recipients : List User
  pub tables : Tables

-- The resolution that `publish` acts on.
abbrev pub resolution : Site → Tables → Report → List ℕ → AudienceResolution
resolution site t report exceptions =
    resolve site.py site.slug t.versions t.groups
      (match_decisions site.name_le site.ceiling t.users report) report site.resolved_at exceptions

-- The writes, after the guards: the feed records, and the jobs unless the report is a demo.
unfoldable pub distribute : Site → Tables → AudienceResolution → Report → Snapshots → Publication
distribute site t r report snapshots =
    let (recipients, events) =
      disseminate site.name_le site.ceiling t.users report (some (recipients_ids r)) site.rival
        site.written_at t.events in
    let (queued, jobs) =
      enqueue_notifications site.settings site.stamps site.ceiling site.webhook site.proxy report
        recipients t.jobs in
    record {
      report = report;
      recipients = recipients;
      tables = record t {
        snapshots = snapshots;
        events = events;
        jobs = if is_some report.demo_workspace_id then t.jobs else jobs;
      };
    }

abbrev or_raise : {A : Type 0} → Option A → PublicationError → Result PublicationError A
or_raise none e = err e
or_raise (some a) e = ok a

unfoldable pub publish :
    Site → Tables → Report → User → Option String → List ℕ → Result PublicationError Publication
unfolding distribute
publish site t report actor seen exceptions = do
  raise_if (not (is_approved report.status)) not_approved
  let blocking = publication_blocked_by site.gated report t.comments
  raise_if (not (is_empty blocking)) (blocking_threads (length blocking))
  raise_if (not (can_review actor)) not_permitted
  let r = resolution site t report exceptions
  raise_if (is_stale seen (site.fingerprint r)) audience_changed
  let published : Report = record report {
    status = ReportStatus.published;
    published_at = some site.now;
    updated_at = site.now';
  }
  frozen ← or_raise (create_snapshot site (some r) published t.snapshots) figure_storage
  raise_if (not site.commits) report_changed
  ok (distribute site t r frozen.0 frozen.1)
