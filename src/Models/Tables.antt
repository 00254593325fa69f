-- ===== src/Models/Tables.antt =====
-- src/iceberg/models.py: the tables that the modelled services read and write, column by column.
use iceberg_cti.Base.{ℕ, String, Bool, Option, List}
use iceberg_cti.Models.Values.{ℤ, Fields}
use iceberg_cti.Models.Enums.{
  Role, IntelLevel, Tlp, ReportStatus, ReportSection, CommentStatus, JobKind, JobStatus, Priority,
  RequirementStatus, RequirementKind, AnalyticConfidence,
}

-- A UTC instant, and a calendar date.
abbrev pub Instant : Type 0
Instant = ℕ

pub record User : Type 0 where
  pub id : ℕ
  pub auth_provider : Option String
  pub issuer : Option String
  pub sub : Option String
  pub email : String
  pub display_name : String
  pub role : Role
  pub preferred_intel_level : Option IntelLevel
  pub token_version : ℕ
  pub department : String
  pub job_title : String
  pub company_name : String
  pub office_location : String
  pub created_at : Instant
  pub tag_subscriptions : List ℕ
  pub audience_groups : List ℕ

pub record AudienceGroup : Type 0 where
  pub id : ℕ
  pub name : String
  pub slug : String
  pub description : String
  pub demo_workspace_id : Option ℕ
  pub created_at : Instant

pub record Requirement : Type 0 where
  pub id : ℕ
  pub stakeholder_id : ℕ
  pub demo_workspace_id : Option ℕ
  pub title : String
  pub description : String
  pub intel_level : IntelLevel
  pub priority : Priority
  pub kind : RequirementKind
  pub decision_context : String
  pub review_by : Option Instant
  pub status : RequirementStatus
  pub created_at : Instant
  pub updated_at : Instant

pub record Report : Type 0 where
  pub id : ℕ
  pub notebook_id : ℕ
  pub title : String
  pub body_md : String
  pub key_judgements : String
  pub key_assumptions : String
  pub intelligence_gaps : String
  pub analytic_confidence : Option AnalyticConfidence
  pub ai_provenance : Fields
  pub intel_level : IntelLevel
  pub tlp : Tlp
  pub status : ReportStatus
  pub author_id : ℕ
  pub demo_workspace_id : Option ℕ
  pub reviewer_id : Option ℕ
  pub created_at : Instant
  pub updated_at : Instant
  pub published_at : Option Instant
  pub version : ℕ
  pub publication_snapshot_hash : String
  pub cited_sources : List ℕ
  pub cited_iocs : List ℕ
  pub cited_attachments : List ℕ
  pub requirements : List Requirement
  pub tags : List ℕ
  pub audience_groups : List ℕ

pub record DisseminationEvent : Type 0 where
  pub report_id : ℕ
  pub stakeholder_id : ℕ
  pub created_at : Instant
  pub read_at : Option Instant

pub record ReportComment : Type 0 where
  pub id : ℕ
  pub report_id : ℕ
  pub thread_id : Option ℕ
  pub author_id : Option ℕ
  pub section : ReportSection
  pub anchor_version : ℕ
  pub anchor_text : String
  pub anchor_sha256 : String
  pub body : String
  pub suggestion : String
  pub blocking : Bool
  pub status : CommentStatus
  pub mentions : List ℕ
  pub resolved_at : Option Instant
  pub resolved_by_id : Option ℕ
  pub applied_version : Option ℕ
  pub created_at : Instant
  pub updated_at : Instant

-- One rule of a policy version, as `validate_rules` stores it: a key that the stored JSON object
-- does not hold is `none`.
pub data Effect : Type 0 where
  limit_to exclude : Effect

pub record When : Type 0 where
  pub tlp : Option (List String)
  pub intel_level : Option (List String)
  pub requirement_kinds : Option (List String)
  pub tag_ids : Option (List ℤ)

pub record Audience : Type 0 where
  pub audience_group_ids : Option (List ℤ)
  pub stakeholder_ids : Option (List ℤ)
  pub organisations : Option (List String)

pub record Rule : Type 0 where
  pub id : String
  pub description : String
  pub effect : Effect
  pub when : When
  pub audience : Audience

pub record DisseminationPolicy : Type 0 where
  pub id : ℕ
  pub name : String
  pub slug : String
  pub description : String
  pub created_at : Instant
  pub updated_at : Instant

pub record DisseminationPolicyVersion : Type 0 where
  pub id : ℕ
  pub policy_id : ℕ
  pub version : ℕ
  pub note : String
  pub rules : List Rule
  pub effective_from : Option Instant
  pub effective_to : Option Instant
  pub created_at : Instant
  pub created_by_id : Option ℕ
  pub approved_at : Option Instant
  pub approved_by_id : Option ℕ

pub record OutboxJob : Type 0 where
  pub id : ℕ
  pub kind : JobKind
  pub status : JobStatus
  pub payload : Fields
  pub idempotency_key : String
  pub attempt_count : ℕ
  pub retry_count : ℕ
  pub max_attempts : ℕ
  pub available_at : Instant
  pub leased_at : Option Instant
  pub lease_expires_at : Option Instant
  pub lease_token : String
  pub leased_by : String
  pub last_error : String
  pub created_at : Instant
  pub started_at : Option Instant
  pub completed_at : Option Instant
