-- ===== src/Feedback.antt =====
-- src/iceberg/services/requirements.py and src/iceberg/services/feedback.py: the requirements of
-- stakeholders, and what they say of the products that answer them.
pub mod Loop
mod Tests
use iceberg_cti.Access.{ensure_visible, AccessError}
use iceberg_cti.Models.{
  RequirementKind, Priority, User, is_pir, DisseminationEvent, Instant, IntelLevel, Report,
  Requirement, RequirementStatus,
}
use iceberg_cti.Base.{
  same_id, any_of, find_first, raise_if, update_where, zero, suc, [], ◌∷◌, refl, arith, inl, inr,
  some, none, ok, err, true, false, nat_eq, string_eq, ◌>>=◌, ◌>>◌, ◌≡◌, ◌≢◌, ◌≤◌, ◌<◌, ◌↔◌, ◌⊎◌,
  ◌+◌, ◌++◌, ◌&&◌, ◌||◌, ◌==◌, not, if◌then◌else◌, Bool, List, Option, ℕ, String, Result, All, map,
  select, elem, Bool-cases, Option-cases, Result-cases,
}

pub data ProductUsefulness : Type 0 where
  not_useful useful highly_useful : ProductUsefulness

pub data RfiSatisfaction : Type 0 where
  met partially_met not_met : RfiSatisfaction

pub record ProductFeedback : Type 0 where
  pub id : ℕ
  pub report_id : ℕ
  pub stakeholder_id : ℕ
  pub usefulness : ProductUsefulness
  pub requirement_id : Option ℕ
  pub satisfaction : Option RfiSatisfaction
  pub comment : String
  pub created_at : Instant
  pub updated_at : Instant

-- The tables that feedback reads and writes.
pub record Store : Type 0 where
  pub requirements : List Requirement
  pub events : List DisseminationEvent
  pub feedback : List ProductFeedback

pub data FeedbackError : Type 0 where
  foreign_demo not_delivered not_your_requirement : FeedbackError
  hidden : AccessError → FeedbackError

-- What a caller of `create_requirement` gives.
pub record Tasking : Type 0 where
  pub title : String
  pub description : String
  pub intel_level : IntelLevel
  pub priority : Priority
  pub kind : RequirementKind
  pub decision_context : String
  pub review_by : Option Instant

unfoldable pub create_requirement : ℕ → Instant → Instant → ℕ → Tasking → Requirement
create_requirement id now now' stakeholder_id t = record {
  id = id;
  stakeholder_id = stakeholder_id;
  demo_workspace_id = none;
  title = t.title;
  description = t.description;
  intel_level = t.intel_level;
  priority = t.priority;
  kind = t.kind;
  decision_context = if is_pir t.kind then t.decision_context else "";
  review_by = if is_pir t.kind then t.review_by else none;
  status = RequirementStatus.open_requirement;
  created_at = now;
  updated_at = now';
}

-- `_requirements_by_id`
abbrev pub requirements_by_id : List Requirement → List ℕ → List Requirement
requirements_by_id table ids = select (λ r. elem r.id ids) table

unfoldable pub set_report_requirements :
    List Requirement → Report → List ℕ → Instant → Result FeedbackError Report
set_report_requirements table report ids now = do
  let chosen : List Requirement = requirements_by_id table ids
  raise_if (any_of (λ r. not (same_id r.demo_workspace_id report.demo_workspace_id)) chosen)
      FeedbackError.foreign_demo
  ok (record report { requirements = chosen; updated_at = now })

abbrev pub set_status : RequirementStatus → Instant → Requirement → Requirement
set_status status now r = record r { status = status; updated_at = now }

unfoldable pub was_delivered : List DisseminationEvent → Report → User → Bool
was_delivered events report stakeholder =
    any_of (λ e. e.report_id == report.id && e.stakeholder_id == stakeholder.id) events

abbrev pub linked_requirements : Report → User → List Requirement
linked_requirements report stakeholder =
    select (λ r. r.stakeholder_id == stakeholder.id) report.requirements

abbrev pub is_of : Report → User → ProductFeedback → Bool
is_of report stakeholder f = f.report_id == report.id && f.stakeholder_id == stakeholder.id

abbrev pub existing_feedback : List ProductFeedback → Report → User → Option ProductFeedback
existing_feedback feedback report stakeholder = find_first (is_of report stakeholder) feedback

-- The verdict of a stakeholder, with the next id and the clock at its readings.
pub record Verdict : Type 0 where
  pub usefulness : ProductUsefulness
  pub requirement_id : Option ℕ
  pub satisfaction : Option RfiSatisfaction
  pub comment : String
  pub id : ℕ
  pub created : Instant
  pub updated : Instant
  pub closed : Instant

-- What `ensure_visible` raises, as an error here.
abbrev pub passed : Result AccessError Report → Result FeedbackError (Unit {0})
passed (ok _) = ok tt
passed (err e) = err (FeedbackError.hidden e)

-- The requirement that a verdict names: the stakeholder's own, and one of the report's.
unfoldable pub named_requirement :
    List Requirement → Report → User → Option ℕ → Result FeedbackError (Option Requirement)
named_requirement table report stakeholder none = ok none
named_requirement table report stakeholder (some id) = elim (find_first (λ r. r.id == id) table) [
  | none ↦ err FeedbackError.not_your_requirement
  | some r ↦
      if r.stakeholder_id == stakeholder.id && any_of (λ q. q.id == r.id) report.requirements
      then ok (some r)
      else err FeedbackError.not_your_requirement
]

abbrev pub id_of : Option Requirement → Option ℕ
id_of none = none
id_of (some r) = some r.id

abbrev pub satisfaction_of : Option Requirement → Option RfiSatisfaction → Option RfiSatisfaction
satisfaction_of none verdict = none
satisfaction_of (some r) verdict = verdict

abbrev pub new_feedback : Report → User → Verdict → ProductFeedback
new_feedback report stakeholder v = record {
  id = v.id;
  report_id = report.id;
  stakeholder_id = stakeholder.id;
  usefulness = v.usefulness;
  requirement_id = none;
  satisfaction = none;
  comment = "";
  created_at = v.created;
  updated_at = v.created;
}

abbrev pub filled : Verdict → Option Requirement → ProductFeedback → ProductFeedback
filled v requirement f = record f {
  usefulness = v.usefulness;
  requirement_id = id_of requirement;
  satisfaction = satisfaction_of requirement v.satisfaction;
  comment = v.comment;
  updated_at = v.updated;
}

-- The one row of a report and a stakeholder, written or added.
unfoldable pub upsert :
    Report → User → Verdict → Option Requirement → List ProductFeedback → List ProductFeedback
upsert report stakeholder v requirement feedback =
    elim (existing_feedback feedback report stakeholder) [
      | some f ↦ update_where (is_of report stakeholder) (filled v requirement) feedback
      | none ↦ feedback ++ (filled v requirement (new_feedback report stakeholder v) ∷ [])
    ]

abbrev pub is_met : Option RfiSatisfaction → Bool
is_met (some RfiSatisfaction.met) = true
is_met _ = false

abbrev pub is_satisfied : RequirementStatus → Bool
is_satisfied RequirementStatus.satisfied = true
is_satisfied _ = false

-- A verdict "met" satisfies the requirement, unless it is satisfied already.
unfoldable pub close_loop : Verdict → Option Requirement → List Requirement → List Requirement
close_loop v none table = table
close_loop v (some r) table =
    if is_met v.satisfaction && not (is_satisfied r.status)
    then update_where (λ q. q.id == r.id) (set_status RequirementStatus.satisfied v.closed) table
    else table

unfoldable pub submit_feedback : Store → Report → User → Verdict → Result FeedbackError Store
unfolding was_delivered named_requirement
submit_feedback s report stakeholder v = do
  passed (ensure_visible report stakeholder)
  raise_if (not (was_delivered s.events report stakeholder)) FeedbackError.not_delivered
  requirement ← named_requirement s.requirements report stakeholder v.requirement_id
  ok (record s {
    requirements = close_loop v requirement s.requirements;
    feedback = upsert report stakeholder v requirement s.feedback;
  })
