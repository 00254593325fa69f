-- ===== src/Dissemination/Notify.antt =====
-- src/iceberg/services/dissemination.py: `enqueue_notifications`, the outbox rows of a publication.
use iceberg_cti.Base.{
  ℕ, ◌+◌, Bool, not, ◌||◌, none, List, [], ◌∷◌, String, show, join, strip, is_blank, length, ok,
  err, if◌then◌else◌,
}
use iceberg_cti.Models.{JobKind, Fields, pos, int, obj, end, field, Tlp, User, Report, Instant}
use iceberg_cti.Models.Rank.{is_disseminable}
use iceberg_cti.Outbox.{Settings, Table, Submission, enqueue}

-- What `_webhook_snapshot` reads.
pub record WebhookSnapshot : Type 0 where
  pub enabled : Bool
  pub url : String
  pub as_json : Fields

-- What the database and the clock give to one call of `enqueue`, by the key of the job.
pub record Stamp : Type 0 where
  pub id : ℕ
  pub now : Instant
  pub now' : Instant
  pub raced : Table

abbrev pub email_key : ℕ → ℕ → String
email_key report_id user_id =
    join "publication:" (join (show report_id) (join ":email:" (show user_id)))

abbrev pub webhook_key : ℕ → String
webhook_key report_id = join "publication:" (join (show report_id) ":webhook")

abbrev pub email_job : Report → User → Submission
email_job report user = record {
  kind = JobKind.dissemination_email;
  payload =
      field "report_id" (int (pos report.id)) (field "stakeholder_id" (int (pos user.id)) end);
  idempotency_key = email_key report.id user.id;
  max_attempts = none;
  available_at = none;
}

abbrev pub webhook_job : Report → ℕ → WebhookSnapshot → Fields → Submission
webhook_job report recipient_count webhook proxy = record {
  kind = JobKind.dissemination_webhook;
  payload = field "report_id" (int (pos report.id)) (
      field "recipient_count" (int (pos recipient_count))
        (field "webhook" (obj webhook.as_json) (field "proxy" (obj proxy) end)));
  idempotency_key = webhook_key report.id;
  max_attempts = none;
  available_at = none;
}

-- `enqueue` in the caller's transaction; its key is never blank here, so the error case, in which
-- nothing is written, does not arise.
unfoldable pub submit : Settings → (String → Stamp) → Submission → Table → Table
unfolding enqueue
submit settings stamps o table =
    let s = stamps o.idempotency_key in
    elim (enqueue settings o s.id s.now s.now' s.raced table) [
      | ok (job, after) ↦ after
      | err e ↦ table
    ]

unfoldable pub enqueue_emails : Settings → (String → Stamp) → Report → List User → Table → ℕ × Table
enqueue_emails settings stamps report [] table = (0, table)
enqueue_emails settings stamps report (u ∷ us) table =
    let (queued, after) =
      enqueue_emails settings stamps report us
        (submit settings stamps (email_job report u) table) in
    (queued + 1, after)

unfoldable pub enqueue_notifications :
    Settings
    → (String → Stamp)
    → Tlp
    → WebhookSnapshot
    → Fields
    → Report
    → List User
    → Table
    → ℕ × Table
enqueue_notifications settings stamps ceiling webhook proxy report recipients table =
    let (queued, after) = enqueue_emails settings stamps report recipients table in
    if not (is_disseminable report.tlp ceiling)
    then (queued, after)
    else if not webhook.enabled || is_blank (strip webhook.url)
    then (queued, after)
    else (
      queued + 1,
      submit settings stamps (webhook_job report (length recipients) webhook proxy) after,
    )
