-- ===== src/Feedback/Tests.antt =====
-- A delivered product that meets a requirement.
use iceberg_cti.Models.{ReportStatus}
use iceberg_cti.Feedback.Loop.{submit_feedback-IsRecorded, IsRecorded, HasOneRow}
use iceberg_cti.Base.{
  is_ok, [], ◌∷◌, refl, arith, some, none, ok, err, true, nat_eq, string_eq, ◌≡◌,
}
use iceberg_cti.Feedback.{
  new_feedback, filled, Priority, RequirementStatus, RfiSatisfaction, IntelLevel, ProductUsefulness,
  Tasking, set_status, FeedbackError, Report, Requirement, RequirementKind, Store, Verdict,
  submit_feedback, was_delivered, named_requirement, close_loop, upsert, create_requirement,
}
use iceberg_cti.Access.{ensure_visible}
use iceberg_cti.Fixtures.{holder, report}

abbrev tasking : RequirementKind → Tasking
tasking kind = record {
  title = "R";
  description = "";
  intel_level = IntelLevel.tactical;
  priority = Priority.medium;
  kind = kind;
  decision_context = "why";
  review_by = some 9;
}

rfi_undated : (create_requirement 5 1 2 3 (tasking RequirementKind.rfi)).review_by ≡ none
unfolding create_requirement
rfi_undated = refl

abbrev asked : Requirement
asked = record {
  id = 5;
  stakeholder_id = 3;
  demo_workspace_id = none;
  title = "R";
  description = "";
  intel_level = IntelLevel.tactical;
  priority = Priority.medium;
  kind = RequirementKind.rfi;
  decision_context = "";
  review_by = none;
  status = RequirementStatus.open_requirement;
  created_at = 1;
  updated_at = 2;
}

abbrev product : Report
product = record (report ReportStatus.published) { requirements = asked ∷ [] }

abbrev answered : Store
answered = record {
  requirements = asked ∷ [];
  events = record { report_id = 10; stakeholder_id = 3; created_at = 4; read_at = none } ∷ [];
  feedback = [];
}

abbrev verdict : Verdict
verdict = record {
  usefulness = ProductUsefulness.useful;
  requirement_id = some 5;
  satisfaction = some RfiSatisfaction.met;
  comment = "thanks";
  id = 1;
  created = 6;
  updated = 7;
  closed = 8;
}

abbrev closed_store : Store
closed_store = record answered {
  requirements = set_status RequirementStatus.satisfied 8 asked ∷ [];
  feedback = filled verdict (some asked) (new_feedback product holder verdict) ∷ [];
}

submits : submit_feedback answered product holder verdict ≡ ok closed_store
unfolding submit_feedback was_delivered named_requirement close_loop upsert ensure_visible
submits = refl

undelivered_refused :
    submit_feedback (record answered { events = [] }) product holder verdict
    ≡ err FeedbackError.not_delivered
unfolding submit_feedback was_delivered ensure_visible
undelivered_refused = refl

no_row_yet : HasOneRow product holder []
no_row_yet = omega arith

submit_feedback-IsRecorded_example :
    (is_ok (ensure_visible product holder) ≡ true)
    × (was_delivered answered.events product holder ≡ true)
    × IsRecorded product holder verdict [] closed_store.feedback
submit_feedback-IsRecorded_example =
    submit_feedback-IsRecorded answered product holder verdict no_row_yet submits
