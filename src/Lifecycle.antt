-- ===== src/Lifecycle.antt =====
-- src/iceberg/services/lifecycle.py: the state machine of a report, DRAFT to PUBLISHED.
-- `transition` returns the row that it writes, or what it raises; `commit` and `refresh` are the
-- session's. The code reads the clock twice, for `published_at` and for `updated_at`.
pub mod Moves
pub mod Runs
mod Tests
use iceberg_cti.Base.{
  ℕ, Bool, true, false, not, ◌&&◌, none, some, Result, ok, err, ◌>>=◌, ◌>>◌, raise_if, ◌==◌,
  if◌then◌else◌,
}
use iceberg_cti.Models.{
  Role, ReportStatus, Report, User, Instant, is_admin, is_draft, is_in_review, is_approved,
  is_published,
}

-- The sites that raise `LifecycleError`.
pub data LifecycleError : Type 0 where
  cannot_move : ReportStatus → ReportStatus → LifecycleError
  only_author : LifecycleError
  reviewer_required : LifecycleError

-- `target in _ALLOWED[current]`
abbrev pub allowed : ReportStatus → ReportStatus → Bool
allowed ReportStatus.draft ReportStatus.in_review = true
allowed ReportStatus.in_review ReportStatus.approved = true
allowed ReportStatus.in_review ReportStatus.draft = true
allowed ReportStatus.approved ReportStatus.published = true
allowed ReportStatus.approved ReportStatus.in_review = true
allowed _ _ = false

-- `role in {Role.REVIEWER, Role.ADMIN}`
abbrev pub is_reviewing : Role → Bool
is_reviewing Role.reviewer = true
is_reviewing Role.admin = true
is_reviewing _ = false

abbrev pub can_review : User → Bool
can_review user = is_reviewing user.role

-- The guard on the actor.
guard_actor : Report → ReportStatus → User → Result LifecycleError (Unit {0})
guard_actor report target actor =
    if is_draft report.status && is_in_review target
    then raise_if (not (actor.id == report.author_id) && not (is_admin actor.role)) only_author
    else raise_if (not (can_review actor)) reviewer_required

-- The three writes that depend on the target.
stamp : Report → ReportStatus → User → Instant → Report
stamp report target actor now =
    let reviewed =
      if is_approved target then record report { reviewer_id = some actor.id } else report in
    let dated =
      if is_published target then record reviewed { published_at = some now } else reviewed in
    if is_draft target then record dated { reviewer_id = none } else dated

unfoldable pub transition :
    Report → ReportStatus → User → Instant → Instant → Result LifecycleError Report
unfolding guard_actor stamp
transition report target actor now now' = do
  raise_if (not (allowed report.status target)) (cannot_move report.status target)
  guard_actor report target actor
  let stamped = stamp report target actor now
  ok (record stamped { status = target; updated_at = now' })
