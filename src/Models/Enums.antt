-- ===== src/Models/Enums.antt =====
-- src/iceberg/models.py: the string enums, with their values where the code compares texts.
use iceberg_cti.Base.{String, Bool, true, false}

pub data Role : Type 0 where
  admin analyst reviewer stakeholder : Role

pub data IntelLevel : Type 0 where
  strategic tactical operational : IntelLevel

pub data Tlp : Type 0 where
  red amber_strict amber green clear : Tlp

pub data ReportStatus : Type 0 where
  draft in_review approved published : ReportStatus

pub data ReportSection : Type 0 where
  body key_judgements key_assumptions intelligence_gaps : ReportSection
  sources attachments indicators figures : ReportSection

pub data CommentStatus : Type 0 where
  open_thread resolved accepted rejected : CommentStatus

pub data JobKind : Type 0 where
  dissemination_email dissemination_webhook rss_poll editorial_mention : JobKind

pub data JobStatus : Type 0 where
  pending running succeeded failed : JobStatus

pub data Priority : Type 0 where
  low medium high critical : Priority

pub data RequirementStatus : Type 0 where
  open_requirement in_progress satisfied closed : RequirementStatus

pub data RequirementKind : Type 0 where
  pir gir rfi : RequirementKind

pub data AnalyticConfidence : Type 0 where
  low moderate high : AnalyticConfidence

-- `StrEnum` values, which `str(...)` gives.
abbrev pub level_value : IntelLevel → String
level_value IntelLevel.strategic = "STRATEGIC"
level_value IntelLevel.tactical = "TACTICAL"
level_value IntelLevel.operational = "OPERATIONAL"

abbrev pub tlp_value : Tlp → String
tlp_value Tlp.red = "RED"
tlp_value Tlp.amber_strict = "AMBER_STRICT"
tlp_value Tlp.amber = "AMBER"
tlp_value Tlp.green = "GREEN"
tlp_value Tlp.clear = "CLEAR"

abbrev pub kind_value : RequirementKind → String
kind_value RequirementKind.pir = "PIR"
kind_value RequirementKind.gir = "GIR"
kind_value RequirementKind.rfi = "RFI"

-- Tests for one member, as the code writes `x == E.MEMBER`.
abbrev pub is_admin : Role → Bool
is_admin Role.admin = true
is_admin _ = false

abbrev pub is_stakeholder : Role → Bool
is_stakeholder Role.stakeholder = true
is_stakeholder _ = false

abbrev pub is_published : ReportStatus → Bool
is_published ReportStatus.published = true
is_published _ = false

abbrev pub is_approved : ReportStatus → Bool
is_approved ReportStatus.approved = true
is_approved _ = false

abbrev pub is_draft : ReportStatus → Bool
is_draft ReportStatus.draft = true
is_draft _ = false

abbrev pub is_in_review : ReportStatus → Bool
is_in_review ReportStatus.in_review = true
is_in_review _ = false

abbrev pub is_pending : JobStatus → Bool
is_pending JobStatus.pending = true
is_pending _ = false

abbrev pub is_running : JobStatus → Bool
is_running JobStatus.running = true
is_running _ = false

abbrev pub is_open : CommentStatus → Bool
is_open CommentStatus.open_thread = true
is_open _ = false

abbrev pub is_accepted : CommentStatus → Bool
is_accepted CommentStatus.accepted = true
is_accepted _ = false

abbrev pub is_pir : RequirementKind → Bool
is_pir RequirementKind.pir = true
is_pir _ = false

abbrev pub same_level : IntelLevel → IntelLevel → Bool
same_level IntelLevel.strategic IntelLevel.strategic = true
same_level IntelLevel.tactical IntelLevel.tactical = true
same_level IntelLevel.operational IntelLevel.operational = true
same_level _ _ = false
