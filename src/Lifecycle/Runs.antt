-- ===== src/Lifecycle/Runs.antt =====
-- What holds of a report over any sequence of requests, each by its own actor and at its own time.
use iceberg_cti.Base.{
  refl, ◌||◌, ◌≡◌, Bool, true, false, none, List, [], ◌∷◌, All, arith, ok, err, is_none,
}
use iceberg_cti.Models.{ReportStatus, Report, User, Instant, is_draft, is_in_review}
use iceberg_cti.Lifecycle.{can_review, transition}

pub record Request : Type 0 where
  pub target : ReportStatus
  pub actor : User
  pub now : Instant
  pub now' : Instant

-- A request that raises leaves the row as it is.
unfoldable pub handle : Report → Request → Report
handle report r = elim (transition report r.target r.actor r.now r.now') [
  | ok new ↦ new
  | err _ ↦ report
]

unfoldable pub handle_all : Report → List Request → Report
handle_all report [] = report
handle_all report (r ∷ rs) = handle_all (handle report r) rs

-- What the row records at each status.
pub record IsConsistent (report : Report) : Type 0 where
  pub draft_unreviewed : report.status ≡ ReportStatus.draft → report.reviewer_id ≡ none
  pub approved_reviewed : report.status ≡ ReportStatus.approved → is_none report.reviewer_id ≡ false
  pub published_reviewed :
      report.status ≡ ReportStatus.published → is_none report.reviewer_id ≡ false
  pub published_dated : report.status ≡ ReportStatus.published → is_none report.published_at ≡ false
  pub dated_published : is_none report.published_at ≡ false → report.status ≡ ReportStatus.published

handle-IsConsistent :
    (report : Report) (r : Request) → IsConsistent report → IsConsistent (handle report r)
unfolding handle transition
handle-IsConsistent report r h = ground arith

-- A draft has no reviewer; an approved or published report has one; and a report has a
-- publication time exactly when it is published. Where this holds of a report, it holds after
-- any sequence of requests, whoever makes them.
pub handle_all-IsConsistent :
    (report : Report) (rs : List Request)
    → IsConsistent report
    → IsConsistent (handle_all report rs)
unfolding handle_all
handle_all-IsConsistent report [] h = h
handle_all-IsConsistent report (r ∷ rs) h =
    handle_all-IsConsistent (handle report r) rs (handle-IsConsistent report r h)

handle-published :
    (report : Report) (r : Request)
    → report.status ≡ ReportStatus.published
    → handle report r ≡ report
unfolding handle transition
handle-published report r h = ground arith

-- No sequence of requests changes a published report.
handle_all-published :
    (report : Report) (rs : List Request)
    → report.status ≡ ReportStatus.published
    → handle_all report rs ≡ report
unfolding handle_all
handle_all-published report [] h = refl
handle_all-published report (r ∷ rs) h =
    rw (handle-published report r h) (handle_all-published report rs h)

abbrev pub is_early : ReportStatus → Bool
is_early s = is_draft s || is_in_review s

handle_early :
    (report : Report) (r : Request)
    → can_review r.actor ≡ false
    → is_early report.status ≡ true
    → is_early (handle report r).status ≡ true
unfolding handle transition
handle_early report r w h = ground arith

-- Where nobody in a sequence of requests is a reviewer or an admin, a report that starts in draft
-- or in review ends there: it is neither approved nor published.
pub handle_all_without_reviewer :
    (report : Report) (rs : List Request)
    → All (λ r. can_review r.actor ≡ false) rs
    → is_early report.status ≡ true
    → is_early (handle_all report rs).status ≡ true
unfolding handle_all
handle_all_without_reviewer report [] w h = h
handle_all_without_reviewer report (r ∷ rs) w h =
    handle_all_without_reviewer (handle report r) rs w.1 (handle_early report r w.0 h)
