-- ===== src/Dissemination/Restricted.antt =====
-- A restricted report never leaves through the webhook.
use iceberg_cti.Base.{
  strip, is_blank, Option-cases, Bool-cases, inl, inr, ◌≡◌, refl, Bool, true, false, List, [], ◌∷◌,
  ◌++◌, String, All, All-append, length, Option-cases, Bool-cases, inl, inr, strip, is_blank, arith,
}
use iceberg_cti.Models.{JobKind, Fields, Tlp, User, Report}
use iceberg_cti.Models.Rank.{is_disseminable}
use iceberg_cti.Outbox.{by_key, Settings, Table, Submission, by_key, new_job}
use iceberg_cti.Dissemination.Notify.{
  WebhookSnapshot, Stamp, email_job, submit, enqueue_emails, enqueue_notifications,
}

abbrev pub is_webhook : JobKind → Bool
is_webhook JobKind.dissemination_webhook = true
is_webhook _ = false

-- No row of the table is a webhook job.
abbrev pub NoWebhook : Table → Type 0
NoWebhook table = All (λ j. is_webhook j.kind ≡ false) table

submit-NoWebhook :
    (settings : Settings) (stamps : String → Stamp) (o : Submission) (table : Table)
    → ((key : String) → NoWebhook (stamps key).raced)
    → is_webhook o.kind ≡ false
    → NoWebhook table
    → NoWebhook (submit settings stamps o table)
unfolding submit
submit-NoWebhook settings stamps o table clean kind h =
    let s = stamps o.idempotency_key in
    let job = new_job settings o (strip o.idempotency_key) s.id s.now s.now' in
    let both =
      All-append (λ j. is_webhook j.kind ≡ false) table s.raced h (clean o.idempotency_key) in
    let three =
      All-append (λ j. is_webhook j.kind ≡ false) (table ++ s.raced) (job ∷ []) both (kind, tt) in
    elim (Bool-cases (is_blank (strip o.idempotency_key))) [
      | inl blank ↦ rw (blank, submit) h
      | inr full ↦ elim (Option-cases (by_key (strip o.idempotency_key) table)) [
        | inr (j, known) ↦ rw (full, submit, known) h
        | inl new ↦ elim (Option-cases (by_key (strip o.idempotency_key) s.raced)) [
          | inr (j, raced) ↦ rw (full, submit, new, raced) both
          | inl alone ↦ rw (full, submit, new, alone) three
        ]
      ]
    ]

enqueue_emails-NoWebhook :
    (settings : Settings) (stamps : String → Stamp) (report : Report) (us : List User)
    (table : Table)
    → ((key : String) → NoWebhook (stamps key).raced)
    → NoWebhook table
    → let (queued, after) = enqueue_emails settings stamps report us table in
      NoWebhook after × (queued ≡ length us)
unfolding enqueue_emails
enqueue_emails-NoWebhook settings stamps report [] table clean h = (h, refl)
enqueue_emails-NoWebhook settings stamps report (u ∷ us) table clean h =
    let (keeps, count) =
      enqueue_emails-NoWebhook settings stamps report us _ clean
        (submit-NoWebhook settings stamps (email_job report u) table clean refl h) in
    (keeps, omega (arith, count))

-- For a report marked above the ceiling, whatever the webhook settings are, no webhook job is
-- queued, and the count returned is the number of recipients: a table without webhook jobs stays
-- so, where other transactions commit none either.
pub enqueue_notifications-NoWebhook :
    (settings : Settings) (stamps : String → Stamp) (ceiling : Tlp) (webhook : WebhookSnapshot)
    (proxy : Fields) (report : Report) (recipients : List User) (table : Table)
    → ((key : String) → NoWebhook (stamps key).raced)
    → is_disseminable report.tlp ceiling ≡ false
    → NoWebhook table
    → let (queued, after) =
        enqueue_notifications settings stamps ceiling webhook proxy report recipients table in
      NoWebhook after × (queued ≡ length recipients)
unfolding enqueue_notifications
enqueue_notifications-NoWebhook settings stamps ceiling webhook proxy report recipients table clean
      above h =
    rw above (enqueue_emails-NoWebhook settings stamps report recipients table clean h)
