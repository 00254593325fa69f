-- ===== src/Lifecycle/Tests.antt =====
-- Runs of the report lifecycle on concrete reports, and the theorems on them.
use iceberg_cti.Base.{
  string_eq, ◌≡◌, refl, arith, true, some, List, [], ◌∷◌, nat_eq, ok, err, is_ok,
}
use iceberg_cti.Models.{ReportStatus, Report}
use iceberg_cti.Lifecycle.{transition, reviewer_required}
use iceberg_cti.Fixtures.{author, reviewer, report}
use iceberg_cti.Lifecycle.Moves.{MayMove, IsMoved, transition_sound, transition_complete}
use iceberg_cti.Lifecycle.Runs.{
  handle, Request, handle_all, IsConsistent, is_early, handle_all-IsConsistent,
  handle_all_without_reviewer,
}

abbrev submit_request : Request
submit_request = record { target = ReportStatus.in_review; actor = author; now = 1; now' = 2 }

abbrev approve_request : Request
approve_request = record { target = ReportStatus.approved; actor = reviewer; now = 3; now' = 4 }

abbrev publish_request : Request
publish_request = record { target = ReportStatus.published; actor = reviewer; now = 5; now' = 6 }

abbrev whole_run : List Request
whole_run = submit_request ∷ approve_request ∷ publish_request ∷ []

whole_run_publishes : (handle_all (report ReportStatus.draft) whole_run).published_at ≡ some 5
unfolding handle_all handle transition
whole_run_publishes = refl

author_may_not_approve :
    transition (report ReportStatus.in_review) ReportStatus.approved author 1 2
    ≡ err reviewer_required
unfolding transition
author_may_not_approve = refl

abbrev submitted : Report
submitted = record (report ReportStatus.draft) { status = ReportStatus.in_review; updated_at = 2 }

submits : transition (report ReportStatus.draft) ReportStatus.in_review author 1 2 ≡ ok submitted
unfolding transition
submits = refl

transition_sound_example :
    MayMove (report ReportStatus.draft) author ReportStatus.draft ReportStatus.in_review
    × IsMoved (report ReportStatus.draft) submitted ReportStatus.in_review author 1 2
transition_sound_example =
    transition_sound (report ReportStatus.draft) ReportStatus.in_review author 1 2 submits

transition_complete_example :
    is_ok (transition (report ReportStatus.approved) ReportStatus.published reviewer 5 6) ≡ true
transition_complete_example =
    transition_complete (report ReportStatus.approved) ReportStatus.published reviewer 5 6
      (MayMove.publish refl)

draft-IsConsistent : IsConsistent (report ReportStatus.draft)
draft-IsConsistent = ground arith

handle_all-IsConsistent_example : IsConsistent (handle_all (report ReportStatus.draft) whole_run)
handle_all-IsConsistent_example =
    handle_all-IsConsistent (report ReportStatus.draft) whole_run draft-IsConsistent

handle_all_without_reviewer_example :
    is_early
      (handle_all
        (report ReportStatus.draft)
        (submit_request ∷ record submit_request { target = ReportStatus.approved } ∷ [])).status
    ≡ true
handle_all_without_reviewer_example =
    handle_all_without_reviewer (report ReportStatus.draft)
      (submit_request ∷ record submit_request { target = ReportStatus.approved } ∷ [])
      (refl, (refl, tt)) refl
