-- ===== src/Tags.antt =====
-- src/iceberg/services/tags.py: curation of the controlled taxonomy, and the links that use it.
pub mod Terms
pub mod Merge
pub mod Rename
pub mod Links
pub mod Lineage
pub mod Removed
pub mod Effects
pub mod Current
pub mod Sound
pub mod Named
pub mod Found
pub mod Seed
pub mod Seeded
pub mod Steps
mod Tests
mod SeedTests
use iceberg_cti.Models.{Report, Instant}
use iceberg_cti.Tags.Terms.{
  normalise_attack_tactics, normalise_motivations, slugify, Motivation, TagError, normalise_aliases,
  same_kind, Letters, Tag, TagKind,
}
use iceberg_cti.Base.{
  same_id, any_of, or_else, is_some, raise_if, str_eq, find_first, is_blank, update_first,
  update_where, strip, zero, suc, [], ◌∷◌, refl, arith, inl, inr, some, none, ok, err, true, false,
  nat_eq, string_eq, ◌>>=◌, ◌>>◌, ◌≡◌, ◌≢◌, ◌≤◌, ◌<◌, ◌↔◌, ◌⊎◌, ◌+◌, ◌++◌, ◌&&◌, ◌||◌, ◌==◌, not,
  if◌then◌else◌, Bool, List, Option, ℕ, String, Result, All, map, select, elem, Bool-cases,
  Option-cases, Result-cases,
}

-- A row of `ReportTag` or of `UserTagSubscription`: the owner and the tag.
abbrev pub TagLink : Type 0
TagLink = ℕ × ℕ

-- The tables that curation writes.
pub record Taxonomy : Type 0 where
  pub tags : List Tag
  pub report_tags : List TagLink
  pub subscriptions : List TagLink
  pub reports : List Report

abbrev pub by_id : ℕ → List Tag → Option Tag
by_id id tags = find_first (λ t. t.id == id) tags

abbrev pub has_name : TagKind → String → Tag → Bool
has_name kind slug t = same_kind t.kind kind && str_eq t.slug slug

abbrev pub owners : ℕ → List TagLink → List ℕ
owners tag_id links = map (λ l. l.0) (select (λ l. l.1 == tag_id) links)

abbrev touch : Instant → Report → Report
touch changed_at r = record r { version = r.version + 1; updated_at = changed_at }

-- `_touch_tagged_reports`
unfoldable pub touch_tagged_reports : List ℕ → Instant → Taxonomy → Taxonomy
touch_tagged_reports tag_ids changed_at x =
    let report_ids = map (λ l. l.0) (select (λ l. elem l.1 tag_ids) x.report_tags) in
    record x { reports = update_where (λ r. elem r.id report_ids) (touch changed_at) x.reports }

-- The optional fields of a request.
pub record TagFields : Type 0 where
  pub label : Option String
  pub external_id : Option String
  pub description : Option String
  pub aliases : Option (List String)
  pub suspected_attribution : Option String
  pub motivations : Option (List String)
  pub first_seen : Option String
  pub last_seen : Option String
  pub attack_tactics : Option (List String)
  pub active : Option Bool

abbrev stripped_or : Option String → String → String
stripped_or none old = old
stripped_or (some s) old = strip s

-- The new tag, and the tables after it.
unfoldable pub create_tag :
    Letters
    → ℕ
    → Instant
    → Instant
    → TagKind
    → String
    → TagFields
    → Taxonomy
    → Result TagError (Tag × Taxonomy)
create_tag letters id now now' kind given f x = do
  let label : String = strip given
  raise_if (is_blank label) TagError.label_required
  let slug : String = slugify letters label
  raise_if (is_blank slug) TagError.label_not_alphanumeric
  raise_if (is_some (find_first (has_name kind slug) x.tags)) TagError.tag_exists
  tactics ← normalise_attack_tactics letters (or_else f.attack_tactics []) kind
  let tag : Tag = record {
    id = id;
    kind = kind;
    label = label;
    slug = slug;
    external_id = stripped_or f.external_id "";
    description = stripped_or f.description "";
    aliases = normalise_aliases letters label (or_else f.aliases []);
    suspected_attribution = stripped_or f.suspected_attribution "";
    motivations = normalise_motivations letters (or_else f.motivations []);
    first_seen = stripped_or f.first_seen "";
    last_seen = stripped_or f.last_seen "";
    attack_tactics = tactics;
    active = true;
    merged_into_tag_id = none;
    merged_at = none;
    created_at = now;
    updated_at = now';
  }
  ok (tag, record x { tags = x.tags ++ (tag ∷ []) })

-- Another tag of the kind has the slug.
abbrev pub clashes : ℕ → TagKind → String → Tag → Bool
clashes id kind slug t = has_name kind slug t && not (t.id == id)

-- The label that a request gives, if it is a new one.
abbrev pub new_label : Tag → Option String → Option String
new_label tag none = none
new_label tag (some given) =
    if not (is_blank (strip given)) && not (str_eq (strip given) tag.label)
    then some (strip given)
    else none

-- The rename in an update, which checks the slug alone.
unfoldable pub relabel : Letters → Tag → Option String → List Tag → Result TagError Tag
relabel letters tag none tags = ok tag
relabel letters tag (some label) tags = do
  let slug : String = slugify letters label
  raise_if (any_of (clashes tag.id tag.kind slug) tags) TagError.tag_exists
  ok (record tag { label = label; slug = slug })

abbrev aliases_or : Letters → Tag → Option (List String) → List String
aliases_or letters tag none = tag.aliases
aliases_or letters tag (some given) = normalise_aliases letters tag.label given

abbrev motivations_or : Letters → Tag → Option (List String) → List Motivation
motivations_or letters tag none = tag.motivations
motivations_or letters tag (some given) = normalise_motivations letters given

abbrev pub tactics_or : Letters → Tag → Option (List String) → Result TagError (List String)
tactics_or letters tag none = ok tag.attack_tactics
tactics_or letters tag (some given) = normalise_attack_tactics letters given tag.kind

abbrev pub activated : Tag → Option Bool → Result TagError Bool
activated tag none = ok tag.active
activated tag (some active) =
    if active && is_some tag.merged_into_tag_id
    then err TagError.merged_cannot_be_active
    else ok active

abbrev pub put_tag : Tag → List Tag → List Tag
put_tag tag tags = update_first (λ t. t.id == tag.id) (λ _. tag) tags

unfoldable pub update_tag :
    Letters → Tag → TagFields → Instant → Taxonomy → Result TagError (Tag × Taxonomy)
unfolding relabel touch_tagged_reports
update_tag letters tag f changed_at x = do
  renamed ← relabel letters tag (new_label tag f.label) x.tags
  tactics ← tactics_or letters renamed f.attack_tactics
  active ← activated renamed f.active
  let after : Tag = record renamed {
    external_id = stripped_or f.external_id renamed.external_id;
    description = stripped_or f.description renamed.description;
    aliases = aliases_or letters renamed f.aliases;
    suspected_attribution = stripped_or f.suspected_attribution renamed.suspected_attribution;
    motivations = motivations_or letters renamed f.motivations;
    first_seen = stripped_or f.first_seen renamed.first_seen;
    last_seen = stripped_or f.last_seen renamed.last_seen;
    attack_tactics = tactics;
    active = active;
    updated_at = changed_at;
  }
  let touched : Taxonomy = touch_tagged_reports (tag.id ∷ []) changed_at x
  ok (after, record touched { tags = put_tag after x.tags })

-- The tables with the tag gone, and its links by cascade.
unfoldable pub delete_tag : Tag → Instant → Taxonomy → Result TagError Taxonomy
unfolding touch_tagged_reports
delete_tag tag changed_at x = do
  raise_if (is_some tag.merged_into_tag_id) TagError.merged_kept
  raise_if (any_of (λ t. same_id t.merged_into_tag_id (some tag.id)) x.tags) TagError.target_kept
  let touched : Taxonomy = touch_tagged_reports (tag.id ∷ []) changed_at x
  ok (record touched {
    tags = select (λ t. not (t.id == tag.id)) x.tags;
    report_tags = select (λ l. not (l.1 == tag.id)) x.report_tags;
    subscriptions = select (λ l. not (l.1 == tag.id)) x.subscriptions;
  })

-- `_tags_by_id`
unfoldable pub tags_by_id : List Tag → List ℕ → Result TagError (List Tag)
tags_by_id tags ids = do
  let chosen : List Tag = select (λ t. elem t.id ids) tags
  raise_if (any_of (λ t. is_some t.merged_into_tag_id) chosen) TagError.selected_merged
  ok chosen

-- `set_user_subscriptions` and `set_report_tags`: the links of one owner are replaced.
unfoldable pub replace_links : List Tag → ℕ → List ℕ → List TagLink → Result TagError (List TagLink)
unfolding tags_by_id
replace_links tags owner ids links = do
  chosen ← tags_by_id tags ids
  ok (select (λ l. not (l.0 == owner)) links ++ map (λ t. (owner, t.id)) chosen)

-- The chosen tags, and the tables after it.
unfoldable pub set_user_subscriptions :
    ℕ → List ℕ → Taxonomy → Result TagError (List Tag × Taxonomy)
unfolding tags_by_id replace_links
set_user_subscriptions user_id ids x = do
  chosen ← tags_by_id x.tags ids
  rows ← replace_links x.tags user_id ids x.subscriptions
  ok (chosen, record x { subscriptions = rows })

-- The report row is written too, and its version column counts the write.
unfoldable pub set_report_tags :
    ℕ → List ℕ → Instant → Taxonomy → Result TagError (List Tag × Taxonomy)
unfolding tags_by_id replace_links
set_report_tags report_id ids now x = do
  chosen ← tags_by_id x.tags ids
  rows ← replace_links x.tags report_id ids x.report_tags
  ok (
    chosen,
    record x {
      report_tags = rows;
      reports = update_where (λ r. r.id == report_id) (touch now) x.reports;
    },
  )
