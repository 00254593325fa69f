-- ===== src/Fixtures.antt =====
-- Rows of the tables, for the tests and the examples of all components.
use iceberg_cti.Base.{ℕ, none, some, List, [], ◌∷◌, String}
use iceberg_cti.Models.{
  end, Role, IntelLevel, Tlp, ReportStatus, JobKind, JobStatus, User, Report, AudienceGroup,
  OutboxJob,
}

abbrev pub user : ℕ → Role → List ℕ → User
user id role groups = record {
  id = id;
  auth_provider = some "local";
  issuer = none;
  sub = none;
  email = "a@example.org";
  display_name = "A";
  role = role;
  preferred_intel_level = none;
  token_version = 0;
  department = "";
  job_title = "";
  company_name = "Acme";
  office_location = "";
  created_at = 0;
  tag_subscriptions = [];
  audience_groups = groups;
}

abbrev pub author : User
author = user 1 Role.analyst []

abbrev pub reviewer : User
reviewer = user 2 Role.reviewer []

abbrev pub holder : User
holder = user 3 Role.stakeholder (7 ∷ [])

abbrev pub outsider : User
outsider = user 4 Role.stakeholder []

-- A report by `author` on group 7.
abbrev pub report : ReportStatus → Report
report status = record {
  id = 10;
  notebook_id = 1;
  title = "T";
  body_md = "B";
  key_judgements = "";
  key_assumptions = "";
  intelligence_gaps = "";
  analytic_confidence = none;
  ai_provenance = end;
  intel_level = IntelLevel.tactical;
  tlp = Tlp.green;
  status = status;
  author_id = 1;
  demo_workspace_id = none;
  reviewer_id = none;
  created_at = 0;
  updated_at = 0;
  published_at = none;
  version = 1;
  publication_snapshot_hash = "";
  cited_sources = [];
  cited_iocs = [];
  cited_attachments = [];
  requirements = [];
  tags = [];
  audience_groups = 7 ∷ [];
}

abbrev pub group : ℕ → AudienceGroup
group id = record {
  id = id;
  name = "G";
  slug = "g";
  description = "";
  demo_workspace_id = none;
  created_at = 0;
}

-- A job that waits since the instant 5.
abbrev pub job : ℕ → String → OutboxJob
job id key = record {
  id = id;
  kind = JobKind.rss_poll;
  status = JobStatus.pending;
  payload = end;
  idempotency_key = key;
  attempt_count = 0;
  retry_count = 0;
  max_attempts = 3;
  available_at = 5;
  leased_at = none;
  lease_expires_at = none;
  lease_token = "";
  leased_by = "";
  last_error = "";
  created_at = 5;
  started_at = none;
  completed_at = none;
}
