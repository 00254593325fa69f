-- ===== src/Tags/Merge.antt =====
-- `merge_tags` of src/iceberg/services/tags.py.
use iceberg_cti.Tags.Terms.{Letters, Tag}
use iceberg_cti.Tags.{
  put_tag, same_kind, Taxonomy, normalise_aliases, Instant, TagError, owners, TagLink,
  touch_tagged_reports,
}
use iceberg_cti.Base.{
  is_some, ◌-◌, length, raise_if, [], ◌∷◌, some, ok, false, nat_eq, string_eq, ◌>>=◌, ◌>>◌, ◌++◌,
  ◌==◌, not, Bool, List, ℕ, Result, map, select, elem,
}

-- The rows after, and the counts of links moved and dropped.
pub record Moved : Type 0 where
  pub links : List TagLink
  pub moved : ℕ
  pub deduplicated : ℕ

abbrev pub absent : List ℕ → List ℕ → List ℕ
absent present ids = select (λ o. not (elem o present)) ids

abbrev pub without : ℕ → List TagLink → List TagLink
without tag_id links = select (λ l. not (l.1 == tag_id)) links

-- `_move_tag_links`: the rows of the source go before the missing rows of the target come.
unfoldable pub move_tag_links : ℕ → ℕ → List TagLink → Moved
move_tag_links source target links =
    let from = owners source links in
    let to_move = absent (owners target links) from in
    record {
      links = without source links ++ map (λ o. (o, target)) to_move;
      moved = length to_move;
      deduplicated = length from - length to_move;
    }

pub record TagMergeResult : Type 0 where
  pub source : Tag
  pub target : Tag
  pub report_links_moved : ℕ
  pub report_links_deduplicated : ℕ
  pub subscriptions_moved : ℕ
  pub subscriptions_deduplicated : ℕ

-- The guards in the code's order.
unfoldable pub check_merge : Tag → Tag → Result TagError Unit
check_merge source target = do
  raise_if (source.id == target.id) TagError.merge_into_itself
  raise_if (not (same_kind source.kind target.kind)) TagError.other_kind
  raise_if (is_some source.merged_into_tag_id) TagError.already_merged
  raise_if (not target.active) TagError.target_inactive

abbrev pub canonical : Letters → Tag → Tag → Instant → Tag
canonical letters source target changed_at = record target {
  aliases =
      normalise_aliases letters target.label (target.aliases ++ source.label ∷ source.aliases);
  updated_at = changed_at;
}

abbrev pub retired : Tag → ℕ → Instant → Instant → Tag
retired source target_id changed_at merged_at = record source {
  active = false;
  merged_into_tag_id = some target_id;
  merged_at = some merged_at;
  updated_at = changed_at;
}

-- `conflict`: the database reports an `IntegrityError` before the commit is done.
unfoldable pub merge_tags :
    Letters
    → Bool
    → Tag
    → Tag
    → Instant
    → Instant
    → Taxonomy
    → Result TagError (TagMergeResult × Taxonomy)
unfolding check_merge touch_tagged_reports move_tag_links
merge_tags letters conflict source target changed_at merged_at x = do
  _ ← check_merge source target
  let touched : Taxonomy = touch_tagged_reports (source.id ∷ target.id ∷ []) changed_at x
  let report_links : Moved = move_tag_links source.id target.id x.report_tags
  let user_links : Moved = move_tag_links source.id target.id x.subscriptions
  let kept : Tag = canonical letters source target changed_at
  let gone : Tag = retired source target.id changed_at merged_at
  raise_if conflict TagError.taxonomy_changed
  ok (
    record {
      source = gone;
      target = kept;
      report_links_moved = report_links.moved;
      report_links_deduplicated = report_links.deduplicated;
      subscriptions_moved = user_links.moved;
      subscriptions_deduplicated = user_links.deduplicated;
    },
    record touched {
      tags = put_tag gone (put_tag kept x.tags);
      report_tags = report_links.links;
      subscriptions = user_links.links;
    },
  )
