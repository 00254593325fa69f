-- ===== src/Tags/Sound.antt =====
-- What every sequence of requests on the taxonomy keeps.
use iceberg_cti.Tags.Rename.{undo_rename}
use iceberg_cti.Tags.Current.{replace_links-current, All-without, All-current}
use iceberg_cti.Tags.Merge.{move_tag_links, canonical, retired, without}
use iceberg_cti.Tags.Removed.{
  IsLineage-merged, merged-link_other, IsLineage-remaining, link-remaining, remaining, points_at,
}
use iceberg_cti.Tags.Lineage.{
  by_id-put_tag_same, by_id-put_tag_other, IsLineage-put_tag, IsLineage, IsLineage-append,
  link-append, link-put_tag, link,
}
use iceberg_cti.Tags.Effects.{
  merge_tags-effect, delete_tag-effect, rename_tag-effect, update_tag-effect, create_tag-effect,
  undo_rename-effect, IsRewrite,
}
use iceberg_cti.Tags.Steps.{Reach, Step, IsSound}
use iceberg_cti.Tags.Terms.{Tag}
use iceberg_cti.Tags.{
  put_tag, replace_links, Instant, tags_by_id, Letters, set_report_tags, set_user_subscriptions,
  by_id, Taxonomy,
}
use iceberg_cti.Base.{
  strip, sym, ◌∙◌, any_of, [], ◌∷◌, refl, arith, inl, inr, some, none, ok, true, false, nat_eq,
  string_eq, ◌≡◌, ◌≢◌, ◌++◌, List, Option, ℕ, String, Option-cases, Result-cases,
}
use iceberg_cti.Tags.Steps.Step.{
  created, updated, deleted, merged, relabelled, undone, subscribed, classified,
}
use iceberg_cti.Tags.Current.{move_tag_links-current}
use iceberg_cti.Tags.Steps.Reach.{start, more}

IsRewrite-IsSound :
    (tag after : Tag) (x y : Taxonomy)
    → by_id tag.id x.tags ≡ some tag
    → IsRewrite tag after x y
    → IsSound x
    → IsSound y
IsRewrite-IsSound tag after x y there (tags, ids, pointer, off, reports, users) h =
    let row : by_id after.id x.tags ≡ some tag = rw ids there in
    let keep : (i : ℕ) (m : Option ℕ) → link x.tags i ≡ some m → link y.tags i ≡ some m =
      λ i m at. rw tags (link-put_tag i after tag x.tags row pointer ∙ at) in
    let lineage : IsLineage y.tags = rw tags (
      IsLineage-put_tag after tag x.tags row pointer
        (λ was. let tag_was = rw pointer at was in off tag_was (h.0.1 tag.id tag there tag_was))
        h.0) in
    (
      lineage,
      rw reports (All-current x.tags y.tags x.report_tags keep h.1),
      rw users (All-current x.tags y.tags x.subscriptions keep h.2),
    )

created-IsSound :
    (x y : Taxonomy) (tag : Tag)
    → (y.tags ≡ x.tags ++ (tag ∷ []))
      × (tag.merged_into_tag_id ≡ none)
      × (y.report_tags ≡ x.report_tags)
      × (y.subscriptions ≡ x.subscriptions)
    → IsSound x
    → IsSound y
created-IsSound x y tag (tags, unmerged, reports, users) h =
    let keep : (i : ℕ) (m : Option ℕ) → link x.tags i ≡ some m → link y.tags i ≡ some m =
      λ i m at. rw tags (link-append x.tags (tag ∷ []) i m at) in
    (
      rw tags (IsLineage-append tag x.tags unmerged h.0),
      rw reports (All-current x.tags y.tags x.report_tags keep h.1),
      rw users (All-current x.tags y.tags x.subscriptions keep h.2),
    )

deleted-IsSound :
    (x y : Taxonomy) (id : ℕ)
    → (any_of (points_at id) x.tags ≡ false)
      × (y.tags ≡ remaining id x.tags)
      × (y.report_tags ≡ without id x.report_tags)
      × (y.subscriptions ≡ without id x.subscriptions)
    → IsSound x
    → IsSound y
deleted-IsSound x y id (free, tags, reports, users) h =
    let same : (i : ℕ) → i ≢ id → link y.tags i ≡ link x.tags i =
      λ i off. rw tags (link-remaining id x.tags i off) in
    (
      rw tags (IsLineage-remaining id x.tags free h.0),
      rw reports (All-without x.tags y.tags id x.report_tags same h.1),
      rw users (All-without x.tags y.tags id x.subscriptions same h.2),
    )

-- The target of a merge is active, so it is not merged.
target-current :
    (tags : List Tag) (target : Tag)
    → IsLineage tags
    → by_id target.id tags ≡ some target
    → target.active ≡ true
    → target.merged_into_tag_id ≡ none
target-current tags target h there active = elim (Option-cases target.merged_into_tag_id) [
  | inl unmerged ↦ unmerged
  | inr (end, pointer) ↦
      let inactive : target.active ≡ false = h.1 target.id target there (rw pointer refl) in
      let apart : true ≡ false = sym active ∙ inactive in cc
]

merged-IsSound :
    (letters : Letters) (source target : Tag) (at merged_at : Instant) (x y : Taxonomy)
    → by_id source.id x.tags ≡ some source
    → by_id target.id x.tags ≡ some target
    → (target.id ≢ source.id)
      × (source.merged_into_tag_id ≡ none)
      × (target.active ≡ true)
      × (y.tags
          ≡ put_tag
              (retired source target.id at merged_at)
              (put_tag (canonical letters source target at) x.tags))
      × (y.report_tags ≡ (move_tag_links source.id target.id x.report_tags).links)
      × (y.subscriptions ≡ (move_tag_links source.id target.id x.subscriptions).links)
    → IsSound x
    → IsSound y
merged-IsSound letters source target at merged_at x y from to
      (apart, unmerged, active, tags, reports, users) h =
    let kept : Tag = canonical letters source target at in
    let gone : Tag = retired source target.id at merged_at in
    let mid : List Tag = put_tag kept x.tags in
    let current : target.merged_into_tag_id ≡ none = target-current x.tags target h.0 to active in
    let mid_links : (i : ℕ) → link mid i ≡ link x.tags i =
      λ i. link-put_tag i kept target x.tags to refl in
    let lineage : IsLineage mid =
      IsLineage-put_tag kept target x.tags to refl (λ was. h.0.1 target.id target to was) h.0 in
    let source_row : by_id source.id mid ≡ some source =
      by_id-put_tag_other source.id kept x.tags (λ e. apart (sym e)) ∙ from in
    let target_link : link mid target.id ≡ some none =
      mid_links target.id ∙ (rw (to, current) refl) in
    let same : (i : ℕ) → i ≢ source.id → link y.tags i ≡ link x.tags i = λ i off. rw tags (
      merged-link_other gone source target.id mid source_row refl target_link apart i off
      ∙ mid_links i) in
    let end_link : link y.tags target.id ≡ some none =
      same target.id apart ∙ (rw (to, current) refl) in
    (
      rw tags (
          IsLineage-merged gone source target.id mid source_row refl target_link apart refl
            lineage),
      rw reports (
          move_tag_links-current x.tags y.tags source.id target.id x.report_tags same end_link h.1),
      rw users (
          move_tag_links-current x.tags y.tags source.id target.id x.subscriptions same end_link
            h.2),
    )

classified-IsSound :
    (report_id : ℕ) (ids : List ℕ) (now : Instant) (chosen : List Tag) (x y : Taxonomy)
    → set_report_tags report_id ids now x ≡ ok (chosen, y)
    → IsSound x
    → IsSound y
unfolding set_report_tags
classified-IsSound report_id ids now chosen x y done h =
    elim (Result-cases (tags_by_id x.tags ids)) [
      | inl (found, named) ↦
          elim (Result-cases (replace_links x.tags report_id ids x.report_tags)) [
            | inl (rows, replaced) ↦
                let tags : y.tags ≡ x.tags = ground (arith, named, replaced) in
                let reports : y.report_tags ≡ rows = ground (arith, named, replaced) in
                let users : y.subscriptions ≡ x.subscriptions = ground (arith, named, replaced) in
                rw (tags, reports, users)
                  (
                    h.0,
                    replace_links-current x.tags report_id ids x.report_tags rows replaced h.1,
                    h.2,
                  )
            | inr bad ↦ ground (arith, named, bad)
          ]
      | inr bad ↦ ground (arith, bad)
    ]

subscribed-IsSound :
    (user_id : ℕ) (ids : List ℕ) (chosen : List Tag) (x y : Taxonomy)
    → set_user_subscriptions user_id ids x ≡ ok (chosen, y)
    → IsSound x
    → IsSound y
unfolding set_user_subscriptions
subscribed-IsSound user_id ids chosen x y done h = elim (Result-cases (tags_by_id x.tags ids)) [
  | inl (found, named) ↦ elim (Result-cases (replace_links x.tags user_id ids x.subscriptions)) [
    | inl (rows, replaced) ↦
        let tags : y.tags ≡ x.tags = ground (arith, named, replaced) in
        let reports : y.report_tags ≡ x.report_tags = ground (arith, named, replaced) in
        let users : y.subscriptions ≡ rows = ground (arith, named, replaced) in
        rw (tags, reports, users)
          (h.0, h.1, replace_links-current x.tags user_id ids x.subscriptions rows replaced h.2)
    | inr bad ↦ ground (arith, named, bad)
  ]
  | inr bad ↦ ground (arith, bad)
]

undone-IsSound :
    (letters : Letters) (tag : Tag) (given : String) (at undone_at : Instant) (after : Tag)
    (x y : Taxonomy)
    → by_id tag.id x.tags ≡ some tag
    → undo_rename letters tag given at undone_at x ≡ ok (after, y)
    → IsSound x
    → IsSound y
undone-IsSound letters tag given at undone_at after x y there done h =
    let (impact, mid, back, last) =
      undo_rename-effect letters tag given at undone_at x y after done in
    let first = rename_tag-effect letters tag (strip given) at x mid impact there back in
    let tags = first.0 in
    let ids = first.1 in
    let row : by_id impact.tag.id mid.tags ≡ some impact.tag =
      rw tags (by_id-put_tag_same impact.tag tag x.tags (rw ids there)) in
    IsRewrite-IsSound impact.tag after mid y row last
      (IsRewrite-IsSound tag impact.tag x mid there first h)

Step-IsSound : {letters : Letters} {x y : Taxonomy} → Step letters x y → IsSound x → IsSound y
Step-IsSound {letters} {x} {y} (created id now now' kind given f tag done) h =
    created-IsSound x y tag (create_tag-effect letters id now now' kind given f x y tag done) h
Step-IsSound {letters} {x} {y} (updated tag f at after there done) h =
    IsRewrite-IsSound tag after x y there (update_tag-effect letters tag f at x y after done) h
Step-IsSound {letters} {x} {y} (deleted tag at done) h =
    deleted-IsSound x y tag.id (delete_tag-effect tag at x y done) h
Step-IsSound {letters} {x} {y} (merged conflict source target at merged_at result from to done) h =
    merged-IsSound letters source target at merged_at x y from to
      (merge_tags-effect letters conflict source target at merged_at x y result done) h
Step-IsSound {letters} {x} {y} (relabelled tag given at impact there done) h =
    IsRewrite-IsSound tag impact.tag x y there
      (rename_tag-effect letters tag given at x y impact there done) h
Step-IsSound {letters} {x} {y} (undone tag given at undone_at after there done) h =
    undone-IsSound letters tag given at undone_at after x y there done h
Step-IsSound {letters} {x} {y} (subscribed user_id ids chosen done) h =
    subscribed-IsSound user_id ids chosen x y done h
Step-IsSound {letters} {x} {y} (classified report_id ids now chosen done) h =
    classified-IsSound report_id ids now chosen x y done h

-- Whatever sequence of creations, updates, deletions, merges, renames, undone renames, classifications
-- and subscriptions the taxonomy goes through: where each term led by its lineage pointers to a term that
-- is not merged, each merged term was inactive, and each link of a report or a user named a term that is
-- not merged, the same holds after it. So no lineage loops or ends at a missing row, and no link is left
-- on a term that was merged away.
pub Reach-IsSound : (letters : Letters) {x y : Taxonomy} → IsSound x → Reach letters x y → IsSound y
Reach-IsSound letters h start = h
Reach-IsSound letters h (more before step) = Step-IsSound step (Reach-IsSound letters h before)
