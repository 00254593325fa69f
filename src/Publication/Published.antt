-- ===== src/Publication/Published.antt =====
-- What a publication that succeeds has done, and which requests are refused.
use mathlib.Core.Path.{subst}
use iceberg_cti.Base.{
  ℕ, ◌≡◌, refl, true, false, Option, some, List, [], ◌∷◌, String, All, arith, ok, elem, nat_eq,
  beq_refl, Option-cases, inl, inr, is_some, is_empty,
}
use iceberg_cti.Models.{ReportStatus, User, Report}
use iceberg_cti.Lifecycle.{can_review}
use iceberg_cti.Dissemination.{matched_stakeholders}
use iceberg_cti.Dissemination.Feed.{disseminate, narrowed}
use iceberg_cti.Dissemination.Match.{IsMatch}
use iceberg_cti.Dissemination.Delivery.{deliver-All, narrowed-asked, disseminate-IsMatch}
use iceberg_cti.Policy.Resolve.{AudienceResolution, recipients_ids}
use iceberg_cti.Publication.{
  Site, Tables, Snapshots, Publication, publication_blocked_by, is_stale, create_snapshot,
  resolution, distribute, publish,
}

-- Everything that a publication has to respect.
pub record IsPublished (site : Site) (t : Tables) (old : Report) (actor : User)
    (seen : Option String) (exceptions : List ℕ) (p : Publication) : Type 0 where
  pub was_approved : old.status ≡ ReportStatus.approved
  pub by_reviewer : can_review actor ≡ true
  pub unblocked : is_empty (publication_blocked_by site.gated old t.comments) ≡ true
  pub as_previewed : is_stale seen (site.fingerprint (resolution site t old exceptions)) ≡ false
  pub at_status : p.report.status ≡ ReportStatus.published
  pub dated : p.report.published_at ≡ some site.now
  pub in_audience :
      All (λ u. elem u.id (recipients_ids (resolution site t old exceptions)) ≡ true) p.recipients
  pub authorised : All (λ u. IsMatch site.ceiling p.report u) p.recipients
  pub demo_silent : is_some old.demo_workspace_id ≡ true → p.tables.jobs ≡ t.jobs

elem_within :
    (ids asked : List ℕ)
    → ((i : ℕ) → elem i ids ≡ true → elem i asked ≡ true)
    → All (λ i. elem i asked ≡ true) ids
elem_within [] asked h = tt
elem_within (i ∷ is) asked h =
    (h i (rw (beq_refl i) refl), elem_within is asked (λ k e. h k (ground arith)))

elem_self : (ids : List ℕ) → All (λ i. elem i ids ≡ true) ids
elem_self ids = elem_within ids ids (λ _ e. e)

distribute-audience :
    (site : Site) (t : Tables) (r : AudienceResolution) (report : Report) (snapshots : Snapshots)
    → All
        (λ u. elem u.id (recipients_ids r) ≡ true)
        (distribute site t r report snapshots).recipients
unfolding distribute disseminate
distribute-audience site t r report snapshots =
    deliver-All (λ u. elem u.id (recipients_ids r) ≡ true) report site.rival site.written_at
      (narrowed (matched_stakeholders site.name_le site.ceiling t.users report) (recipients_ids r))
      t.events
      (narrowed-asked (matched_stakeholders site.name_le site.ceiling t.users report)
        (recipients_ids r) (recipients_ids r) (elem_self (recipients_ids r)))

distribute-IsMatch :
    (site : Site) (t : Tables) (r : AudienceResolution) (report : Report) (snapshots : Snapshots)
    → All (λ u. IsMatch site.ceiling report u) (distribute site t r report snapshots).recipients
unfolding distribute
distribute-IsMatch site t r report snapshots =
    disseminate-IsMatch site.name_le site.ceiling t.users report (some (recipients_ids r))
      site.rival site.written_at t.events

-- The report as `publish` moves it.
abbrev moved : Site → Report → Report
moved site report = record report {
  status = ReportStatus.published;
  published_at = some site.now;
  updated_at = site.now';
}

create_snapshot-fields :
    (site : Site) (audience : Option AudienceResolution) (report : Report) (snapshots : Snapshots)
    {frozen : Report × Snapshots}
    → create_snapshot site audience report snapshots ≡ some frozen
    → (frozen.0.status ≡ report.status)
      × (frozen.0.published_at ≡ report.published_at)
      × (frozen.0.demo_workspace_id ≡ report.demo_workspace_id)
unfolding create_snapshot
create_snapshot-fields site audience report snapshots h = ground arith

-- A publication that succeeds went from an approved report, by a reviewer or an admin, past no gating
-- thread, to the audience that was previewed if one was; and everyone who newly receives the report is
-- both among the resolved recipients and authorised by its marking, level, topics and scope; and a demo
-- report queues no job.
pub publish-IsPublished :
    (site : Site) (t : Tables) (report : Report) (actor : User) (seen : Option String)
    (exceptions : List ℕ) {p : Publication}
    → publish site t report actor seen exceptions ≡ ok p
    → IsPublished site t report actor seen exceptions p
unfolding publish distribute
publish-IsPublished site t report actor seen exceptions {p} h =
    let r = resolution site t report exceptions in
    elim (Option-cases (create_snapshot site (some r) (moved site report) t.snapshots)) [
      | inl failed ↦ ground arith
      | inr (frozen, froze) ↦
          let kept = create_snapshot-fields site (some r) (moved site report) t.snapshots froze in
          let same : distribute site t r frozen.0 frozen.1 ≡ p = ground arith in
          subst (λ p. IsPublished site t report actor seen exceptions p) same
            (record {
              was_approved = ground arith;
              by_reviewer = ground arith;
              unblocked = ground arith;
              as_previewed = ground arith;
              at_status = kept.0;
              dated = kept.1;
              in_audience = distribute-audience site t r frozen.0 frozen.1;
              authorised = distribute-IsMatch site t r frozen.0 frozen.1;
              demo_silent = λ demo. ground arith;
            })
    ]
