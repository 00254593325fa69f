-- ===== src/Tags/Steps.antt =====
-- The requests on the taxonomy as steps, and what every sequence of them keeps.
use iceberg_cti.Tags.Rename.{undo_rename, rename_tag, RenameImpact}
use iceberg_cti.Tags.Merge.{merge_tags}
use iceberg_cti.Tags.Merge.{TagMergeResult}
use iceberg_cti.Tags.Lineage.{link, IsLineage}
use iceberg_cti.Tags.Terms.{Letters, Tag}
use iceberg_cti.Tags.{
  set_report_tags, set_user_subscriptions, delete_tag, update_tag, by_id, create_tag, TagFields,
  TagKind, Instant, TagLink, Taxonomy,
}
use iceberg_cti.Base.{some, none, ok, nat_eq, string_eq, ◌≡◌, Bool, List, ℕ, String, All}

-- One request that succeeds. A request names rows of the table by what it has read of them.
pub data Step (letters : Letters) (x : Taxonomy) (y : Taxonomy) : Type 0 where
  created :
      (id : ℕ) (now now' : Instant) (kind : TagKind) (given : String) (f : TagFields) (tag : Tag)
      → create_tag letters id now now' kind given f x ≡ ok (tag, y)
      → Step letters x y
  updated :
      (tag : Tag) (f : TagFields) (at : Instant) (after : Tag)
      → by_id tag.id x.tags ≡ some tag
      → update_tag letters tag f at x ≡ ok (after, y)
      → Step letters x y
  deleted : (tag : Tag) (at : Instant) → delete_tag tag at x ≡ ok y → Step letters x y
  merged :
      (conflict : Bool) (source target : Tag) (at merged_at : Instant) (result : TagMergeResult)
      → by_id source.id x.tags ≡ some source
      → by_id target.id x.tags ≡ some target
      → merge_tags letters conflict source target at merged_at x ≡ ok (result, y)
      → Step letters x y
  relabelled :
      (tag : Tag) (given : String) (at : Instant) (impact : RenameImpact)
      → by_id tag.id x.tags ≡ some tag
      → rename_tag letters tag given at x ≡ ok (impact, y)
      → Step letters x y
  undone :
      (tag : Tag) (given : String) (at undone_at : Instant) (after : Tag)
      → by_id tag.id x.tags ≡ some tag
      → undo_rename letters tag given at undone_at x ≡ ok (after, y)
      → Step letters x y
  subscribed :
      (user_id : ℕ) (ids : List ℕ) (chosen : List Tag)
      → set_user_subscriptions user_id ids x ≡ ok (chosen, y)
      → Step letters x y
  classified :
      (report_id : ℕ) (ids : List ℕ) (now : Instant) (chosen : List Tag)
      → set_report_tags report_id ids now x ≡ ok (chosen, y)
      → Step letters x y

-- The tables that requests lead to.
pub data Reach (letters : Letters) (x : Taxonomy) : Taxonomy → Type 0 where
  start : Reach letters x x
  more : {y z : Taxonomy} → Reach letters x y → Step letters y z → Reach letters x z

-- The link names a row of the table that is not merged.
abbrev pub NamesCurrent : List Tag → TagLink → Type 0
NamesCurrent tags l = link tags l.1 ≡ some none

abbrev pub IsSound : Taxonomy → Type 0
IsSound x =
    IsLineage x.tags
    × All (NamesCurrent x.tags) x.report_tags
    × All (NamesCurrent x.tags) x.subscriptions
