-- ===== src/Dissemination/Tests.antt =====
-- Publications to concrete stakeholders, and the theorems on them.
use iceberg_cti.Models.Rank.{is_disseminable}
use iceberg_cti.Base.{
  string_eq, ◌≡◌, ◌↔◌, refl, true, false, none, List, [], ◌∷◌, map, String, All, nat_eq, is_ok,
  str_le,
}
use iceberg_cti.Models.{ReportStatus, Report, User, Tlp, end}
use iceberg_cti.Access.{ensure_visible}
use iceberg_cti.Dissemination.{match_decisions, decide, matched_stakeholders}
use iceberg_cti.Dissemination.Feed.{disseminate, targets}
use iceberg_cti.Dissemination.Notify.{enqueue_emails, WebhookSnapshot, Stamp, enqueue_notifications}
use iceberg_cti.Outbox.{Settings}
use iceberg_cti.Fixtures.{holder, outsider, reviewer, report, job}
use iceberg_cti.Dissemination.Match.{
  IsAuthorised, published, decide_iff, matched_stakeholders_may_read,
}
use iceberg_cti.Dissemination.Delivery.{IsDelivered, disseminate_idempotent}
use iceberg_cti.Dissemination.Restricted.{NoWebhook, enqueue_notifications-NoWebhook}

abbrev everyone : List User
everyone = reviewer ∷ holder ∷ outsider ∷ []

abbrev approved : Report
approved = report ReportStatus.approved

only_the_group : map (λ u. u.id) (matched_stakeholders str_le Tlp.green everyone approved) ≡ 3 ∷ []
unfolding matched_stakeholders match_decisions decide is_disseminable
only_the_group = refl

decide_iff_example :
    ((decide Tlp.green approved outsider).included ≡ true)
    ↔ IsAuthorised Tlp.green approved outsider
decide_iff_example = decide_iff Tlp.green approved outsider

matched_stakeholders_may_read_example :
    All
      (λ u. is_ok (ensure_visible (published approved) u) ≡ true)
      (matched_stakeholders str_le Tlp.green everyone approved)
matched_stakeholders_may_read_example =
    matched_stakeholders_may_read str_le Tlp.green everyone approved

disseminate_idempotent_example :
    let after = (disseminate str_le Tlp.green everyone approved none (λ _. none) 9 []).1 in
    IsDelivered approved
      (targets (matched_stakeholders str_le Tlp.green everyone approved) none)
      []
      after
    × (disseminate str_le Tlp.green everyone approved none (λ _. none) 12 after ≡ ([], after))
disseminate_idempotent_example =
    disseminate_idempotent str_le Tlp.green everyone approved none (λ _. none) (λ _. none) 9 12 []
      (λ _ _ e. cc) tt

abbrev settings : Settings
settings = record { jobs_max_attempts = 3; jobs_lease_seconds = 60; jobs_retry_base_seconds = 2 }

abbrev webhook : WebhookSnapshot
webhook = record { enabled = true; url = "https://example.org/hook"; as_json = end }

abbrev stamps : String → Stamp
stamps _ = record { id = 5; now = 1; now' = 2; raced = [] }

abbrev secret : Report
secret = record approved { tlp = Tlp.red }

secret_held : is_disseminable Tlp.red Tlp.green ≡ false
unfolding is_disseminable
secret_held = refl

enqueue_notifications-NoWebhook_example :
    let (queued, after) =
      enqueue_notifications settings stamps Tlp.green webhook end secret
        (holder ∷ [])
        (job 1 "j" ∷ []) in
    NoWebhook after × (queued ≡ 1)
enqueue_notifications-NoWebhook_example =
    enqueue_notifications-NoWebhook settings stamps Tlp.green webhook end secret (holder ∷ [])
      (job 1 "j" ∷ []) (λ _. tt) secret_held (refl, tt)

open_report_calls_the_webhook :
    (enqueue_notifications settings stamps Tlp.green webhook end approved (holder ∷ []) []).0 ≡ 2
unfolding enqueue_notifications enqueue_emails is_disseminable
open_report_calls_the_webhook = refl
