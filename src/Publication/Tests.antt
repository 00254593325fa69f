-- ===== src/Publication/Tests.antt =====
-- Publications of concrete reports, and the theorems on them.
use iceberg_cti.Base.{
  nat_eq, string_eq, ◌≡◌, refl, true, false, none, some, [], ◌∷◌, str_le, ok, err,
}
use iceberg_cti.Fixtures.{author, reviewer, holder, outsider, report}
use iceberg_cti.Models.{end, Tlp, ReportStatus, Report}
use iceberg_cti.Publication.{
  PublicationSnapshot, Site, Tables, Publication, not_permitted, create_snapshot, resolution,
  publish, distribute, publication_blocked_by,
}
use iceberg_cti.Publication.Published.{IsPublished, publish-IsPublished}

abbrev site : Site
site = record {
  gated = true;
  ceiling = Tlp.green;
  name_le = str_le;
  py = record { upper = λ s. s; casefold = λ s. s; repr = λ _. "" };
  slug = λ _. "p";
  capture = λ _. some end;
  digest = λ _ _. "h";
  fingerprint = λ _. "f";
  rival = λ _. none;
  settings = record { jobs_max_attempts = 3; jobs_lease_seconds = 60; jobs_retry_base_seconds = 2 };
  stamps = λ _. record { id = 5; now = 1; now' = 2; raced = [] };
  webhook = record { enabled = false; url = ""; as_json = end };
  proxy = end;
  resolved_at = 5;
  now = 6;
  now' = 7;
  written_at = 8;
  commits = true;
}

abbrev tables : Tables
tables = record {
  users = author ∷ reviewer ∷ holder ∷ outsider ∷ [];
  groups = 7 ∷ [];
  versions = [];
  comments = [];
  snapshots = [];
  events = [];
  jobs = [];
}

abbrev approved : Report
approved = report ReportStatus.approved

author_may_not_publish : publish site tables approved author none [] ≡ err not_permitted
unfolding publish publication_blocked_by
author_may_not_publish = refl

abbrev frozen_report : Report
frozen_report = record approved {
  status = ReportStatus.published;
  published_at = some 6;
  updated_at = 7;
  publication_snapshot_hash = "h";
}

abbrev snapshot : PublicationSnapshot
snapshot = record {
  report_id = 10;
  snapshot_hash = "h";
  content = end;
  audience = some (resolution site tables approved []);
  created_at = 8;
}

abbrev published : Publication
published =
    distribute site tables (resolution site tables approved []) frozen_report (snapshot ∷ [])

publishes : publish site tables approved reviewer (some "f") [] ≡ ok published
unfolding publish publication_blocked_by create_snapshot
publishes = refl

publish-IsPublished_example : IsPublished site tables approved reviewer (some "f") [] published
publish-IsPublished_example =
    publish-IsPublished site tables approved reviewer (some "f") [] publishes

freezes :
    create_snapshot site none approved []
    ≡ some (
      record approved { publication_snapshot_hash = "h" },
      record snapshot { audience = none } ∷ [],
    )
unfolding create_snapshot
freezes = refl
