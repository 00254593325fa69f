-- ===== src/Tags/Rename.antt =====
-- Renames of src/iceberg/services/tags.py, and the names that terms are found by.
use iceberg_cti.Models.{is_published}
use iceberg_cti.Tags.Terms.{Letters, Tag}
use iceberg_cti.Tags.{
  put_tag, owners, TagError, clashes, normalise_aliases, Instant, Taxonomy, slugify,
  touch_tagged_reports,
}
use iceberg_cti.Base.{
  ◌-◌, length, is_empty, is_some, raise_if, is_blank, str_eq, strip, any_of, find_first, [], ◌∷◌,
  some, none, ok, err, false, nat_eq, string_eq, ◌>>=◌, ◌>>◌, ◌++◌, ◌&&◌, ◌||◌, ◌==◌, not,
  if◌then◌else◌, Bool, List, Option, ℕ, String, Result, select, elem,
}

-- The text of a conflict, as its case; the other term is given by its number.
pub data RenameConflict : Type 0 where
  name_required merged_term : RenameConflict
  kind_taken alias_taken : ℕ → RenameConflict

-- The policy rules that name the term are not counted here.
pub record RenameImpact : Type 0 where
  pub tag : Tag
  pub new_label : String
  pub new_slug : String
  pub conflicts : List RenameConflict
  pub draft_reports : ℕ
  pub published_reports : ℕ
  pub frozen_snapshots : ℕ
  pub subscriptions : ℕ
  pub alias_added : String
  pub unchanged : Bool

abbrev pub has_alias : Letters → String → Tag → Bool
has_alias letters slug t = any_of (λ a. str_eq (slugify letters a) slug) t.aliases

abbrev pub conflict_if : Bool → RenameConflict → List RenameConflict
conflict_if b c = if b then c ∷ [] else []

abbrev pub conflict_with : (ℕ → RenameConflict) → Option Tag → List RenameConflict
conflict_with c none = []
conflict_with c (some t) = c t.id ∷ []

-- The name collisions that a new slug has, with a term of the kind and with an alias of any kind.
abbrev pub collisions : Letters → Tag → String → List Tag → List RenameConflict
collisions letters tag slug tags =
    conflict_with RenameConflict.kind_taken (find_first (clashes tag.id tag.kind slug) tags)
    ++ conflict_with RenameConflict.alias_taken
        (find_first (λ t. not (t.id == tag.id) && has_alias letters slug t) tags)

unfoldable pub rename_conflicts : Letters → Tag → String → List Tag → List RenameConflict
rename_conflicts letters tag label tags =
    let slug = slugify letters label in
    let unchanged = not (is_blank label) && str_eq label tag.label in
    conflict_if (is_blank label || is_blank slug) RenameConflict.name_required
    ++ conflict_if (is_some tag.merged_into_tag_id) RenameConflict.merged_term
    ++ (if not (is_blank slug) && not unchanged then collisions letters tag slug tags else [])

unfoldable pub rename_impact : Letters → Tag → String → Taxonomy → RenameImpact
unfolding rename_conflicts
rename_impact letters tag given x =
    let label = strip given in
    let report_ids = owners tag.id x.report_tags in
    let published = select (λ r. elem r.id report_ids && is_published r.status) x.reports in
    record {
      tag = tag;
      new_label = label;
      new_slug = slugify letters label;
      conflicts = rename_conflicts letters tag label x.tags;
      draft_reports = length report_ids - length published;
      published_reports = length published;
      frozen_snapshots =
          length (select (λ r. not (is_blank r.publication_snapshot_hash)) published);
      subscriptions = length (owners tag.id x.subscriptions);
      alias_added = tag.label;
      unchanged = not (is_blank label) && str_eq label tag.label;
    }

abbrev pub renamed : Letters → Tag → String → Instant → Tag
renamed letters tag label changed_at = record tag {
  label = label;
  slug = slugify letters label;
  aliases = normalise_aliases letters label (tag.aliases ++ (tag.label ∷ []));
  updated_at = changed_at;
}

unfoldable pub rename_tag :
    Letters → Tag → String → Instant → Taxonomy → Result TagError (RenameImpact × Taxonomy)
unfolding rename_impact touch_tagged_reports
rename_tag letters tag given changed_at x =
    let impact = rename_impact letters tag given x in
    if not (is_empty impact.conflicts)
    then err TagError.rename_blocked
    else if impact.unchanged
    then ok (impact, x)
    else let after : Tag = renamed letters tag impact.new_label changed_at in
      let touched : Taxonomy = touch_tagged_reports (tag.id ∷ []) changed_at x in
      let saved : Taxonomy = record touched { tags = put_tag after x.tags } in
      ok (
        record (rename_impact letters after after.label saved) {
          unchanged = false;
          alias_added = tag.label;
        },
        saved,
      )

unfoldable pub undo_rename :
    Letters → Tag → String → Instant → Instant → Taxonomy → Result TagError (Tag × Taxonomy)
unfolding rename_tag
undo_rename letters tag given changed_at undone_at x = do
  let previous : String = strip given
  raise_if (is_blank previous) TagError.previous_required
  raise_if (not (any_of (λ a. str_eq (letters.lower a) (letters.lower previous)) tag.aliases))
      TagError.not_an_alias
  back ← rename_tag letters tag previous changed_at x
  let restored : Tag = back.0.tag
  let after : Tag = record restored {
    aliases =
        select (λ a. not (str_eq (letters.lower a) (letters.lower tag.label))) restored.aliases;
    updated_at = undone_at;
  }
  ok (after, record back.1 { tags = put_tag after back.1.tags })

-- By the current slug, else by the slug of an alias.
unfoldable pub find_by_identifier : Letters → String → List Tag → Option Tag
find_by_identifier letters identifier tags =
    let slug = slugify letters identifier in
    if is_blank slug then none else elim (find_first (λ t. str_eq t.slug slug) tags) [
      | some t ↦ some t
      | none ↦ find_first (has_alias letters slug) tags
    ]
