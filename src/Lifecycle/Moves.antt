-- ===== src/Lifecycle/Moves.antt =====
-- Which transitions succeed: an independent account of `transition`.
use iceberg_cti.Base.{
  is_ok, refl, inl, inr, ◌≡◌, refl, ◌≢◌, ◌⊎◌, inl, inr, true, none, some, arith, ok,
}
use iceberg_cti.Models.{ReportStatus, Report, User, Instant, is_admin}
use iceberg_cti.Lifecycle.{allowed, can_review, transition}

-- The moves that an actor may make on a report: the author (or an admin) submits, and a reviewer
-- or an admin decides.
pub data MayMove (report : Report) (actor : User) : ReportStatus → ReportStatus → Type 0 where
  submit :
      (actor.id ≡ report.author_id) ⊎ (is_admin actor.role ≡ true)
      → MayMove report actor ReportStatus.draft ReportStatus.in_review
  approve :
      can_review actor ≡ true → MayMove report actor ReportStatus.in_review ReportStatus.approved
  rework : can_review actor ≡ true → MayMove report actor ReportStatus.in_review ReportStatus.draft
  publish :
      can_review actor ≡ true → MayMove report actor ReportStatus.approved ReportStatus.published
  reconsider :
      can_review actor ≡ true → MayMove report actor ReportStatus.approved ReportStatus.in_review

-- The report that a successful move writes.
pub record IsMoved (old new : Report) (target : ReportStatus) (actor : User) (now now' : Instant)
    : Type 0 where
  pub at_target : new.status ≡ target
  pub dated : target ≡ ReportStatus.published → new.published_at ≡ some now
  pub not_dated : target ≢ ReportStatus.published → new.published_at ≡ old.published_at
  pub reviewed : target ≡ ReportStatus.approved → new.reviewer_id ≡ some actor.id
  pub cleared : target ≡ ReportStatus.draft → new.reviewer_id ≡ none
  pub touched : new.updated_at ≡ now'
  pub reviewer_kept :
      target ≢ ReportStatus.approved
      → target ≢ ReportStatus.draft
      → new.reviewer_id ≡ old.reviewer_id
  pub rest :
      record new {
        status = old.status;
        published_at = old.published_at;
        reviewer_id = old.reviewer_id;
        updated_at = old.updated_at;
      }
      ≡ old

ruleset moves = (submit, approve, rework, publish, reconsider)

-- A transition succeeds only along a move that the actor may make, and it writes exactly the
-- fields that the move concerns: the status and the update time always, the publication time on
-- publishing alone, the reviewer on approval, and it clears the reviewer on rework; every other
-- field stays.
pub transition_sound :
    (report : Report) (target : ReportStatus) (actor : User) (now now' : Instant) {new : Report}
    → transition report target actor now now' ≡ ok new
    → MayMove report actor report.status target × IsMoved report new target actor now now'
unfolding transition
transition_sound report target actor now now' h = (grind (arith, moves), ground arith)

-- What a move asks of the statuses and of the actor.
MayMove-guard :
    {report : Report} {actor : User} {s t : ReportStatus}
    → MayMove report actor s t
    → (allowed s t ≡ true)
      × (((s ≡ ReportStatus.draft)
            × (t ≡ ReportStatus.in_review)
            × ((actor.id ≡ report.author_id) ⊎ (is_admin actor.role ≡ true)))
          ⊎ ((s ≢ ReportStatus.draft) × (can_review actor ≡ true)))
MayMove-guard (submit who) = (refl, inl (refl, refl, who))
MayMove-guard (approve who) = (refl, inr ((λ e. cc), who))
MayMove-guard (rework who) = (refl, inr ((λ e. cc), who))
MayMove-guard (publish who) = (refl, inr ((λ e. cc), who))
MayMove-guard (reconsider who) = (refl, inr ((λ e. cc), who))

-- Every move that the actor may make succeeds.
pub transition_complete :
    (report : Report) (target : ReportStatus) (actor : User) (now now' : Instant)
    → MayMove report actor report.status target
    → is_ok (transition report target actor now now') ≡ true
unfolding transition
transition_complete report target actor now now' m = ground (arith, MayMove-guard m)
