-- ===== src/Tags/Tests.antt =====
-- A small taxonomy, with two terms of a kind.
use iceberg_cti.Tags.Rename.{renamed, find_by_identifier, rename_tag}
use iceberg_cti.Tags.Lineage.{Leads, same_or_other}
use iceberg_cti.Tags.Terms.{slugify, Letters, Tag}
use iceberg_cti.Tags.Merge.{TagMergeResult, canonical, retired, merge_tags, move_tag_links}
use iceberg_cti.Tags.{
  slugify, TagError, TagFields, create_tag, update_tag, TagKind, TagLink, Taxonomy,
}
use iceberg_cti.Tags.Steps.{Step, IsSound}
use iceberg_cti.Base.{
  [], ◌∷◌, refl, arith, inl, inr, some, none, ok, err, true, false, nat_eq, string_eq, ◌≡◌, ◌+◌,
  List, ℕ, String,
}
use iceberg_cti.Tags.Sound.{Reach-IsSound}
use iceberg_cti.Tags.Links.{rows_after, move_tag_links-rows, rows, IsKeyed}
use iceberg_cti.Tags.Found.{rename_tag-find_by_identifier}
use iceberg_cti.Tags.Steps.Reach.{start, more}

abbrev same_case : Letters
same_case = record { lower = λ s. s; upper = λ s. s }

abbrev term : ℕ → String → Tag
term id label = record {
  id = id;
  kind = TagKind.actor;
  label = label;
  slug = label;
  external_id = "";
  description = "";
  aliases = [];
  suspected_attribution = "";
  motivations = [];
  first_seen = "";
  last_seen = "";
  attack_tactics = [];
  active = true;
  merged_into_tag_id = none;
  merged_at = none;
  created_at = 1;
  updated_at = 1;
}

abbrev apt28 : Tag
apt28 = term 1 "apt28"

abbrev sofacy : Tag
sofacy = term 2 "sofacy"

abbrev links : List TagLink
links = (10, 1) ∷ (10, 2) ∷ (11, 2) ∷ []

abbrev small : Taxonomy
small = record {
  tags = apt28 ∷ sofacy ∷ [];
  report_tags = links;
  subscriptions = (7, 2) ∷ [];
  reports = [];
}

abbrev after_merge : Taxonomy
after_merge = record {
  tags = canonical same_case sofacy apt28 5 ∷ retired sofacy 1 5 6 ∷ [];
  report_tags = (10, 1) ∷ (11, 1) ∷ [];
  subscriptions = (7, 1) ∷ [];
  reports = [];
}

abbrev small_result : TagMergeResult
small_result = record {
  source = retired sofacy 1 5 6;
  target = canonical same_case sofacy apt28 5;
  report_links_moved = 1;
  report_links_deduplicated = 1;
  subscriptions_moved = 1;
  subscriptions_deduplicated = 0;
}

merge_small : merge_tags same_case false sofacy apt28 5 6 small ≡ ok (small_result, after_merge)
unfolding merge_tags
merge_small = refl

small-IsSound : IsSound small
small-IsSound = (
  (
    λ i t at. elim (same_or_other i 1) [
      | inl one ↦ (1, rw one (Leads.here refl))
      | inr not_one ↦ elim (same_or_other i 2) [
        | inl two ↦ (2, rw two (Leads.here refl))
        | inr not_two ↦ ground (arith, not_one, not_two, at)
      ]
    ],
    λ i t at was. ground (arith, at, was),
  ),
  (refl, (refl, (refl, tt))),
  (refl, tt),
)

Reach-IsSound_example : IsSound after_merge
Reach-IsSound_example =
    Reach-IsSound same_case small-IsSound
      (more start (Step.merged false sofacy apt28 5 6 small_result refl refl merge_small))

links-IsKeyed : IsKeyed links
links-IsKeyed o t = ground arith

move_tag_links-rows_example :
    ((o t : ℕ) → rows o t (move_tag_links 2 1 links).links ≡ rows_after 2 1 o t links)
    × ((move_tag_links 2 1 links).moved + (move_tag_links 2 1 links).deduplicated ≡ 2)
move_tag_links-rows_example = move_tag_links-rows 2 1 links links-IsKeyed (omega arith)

renamed-apt28 :
    rename_tag same_case apt28 "fancy bear" 9 small
    ≡ ok (
      record {
        tag = renamed same_case apt28 "fancy bear" 9;
        new_label = "fancy bear";
        new_slug = "fancy-bear";
        conflicts = [];
        draft_reports = 1;
        published_reports = 0;
        frozen_snapshots = 0;
        subscriptions = 0;
        alias_added = "apt28";
        unchanged = false;
      },
      record small { tags = renamed same_case apt28 "fancy bear" 9 ∷ sofacy ∷ [] },
    )
unfolding rename_tag slugify
renamed-apt28 = refl

rename_tag-find_by_identifier_example :
    (t : Tag) × (find_by_identifier same_case "apt28"
        (renamed same_case apt28 "fancy bear" 9 ∷ sofacy ∷ [])
      ≡ some t)
    × (t.id ≡ 1)
unfolding slugify
rename_tag-find_by_identifier_example =
    rename_tag-find_by_identifier same_case apt28 "fancy bear" 9 small
      (record small { tags = renamed same_case apt28 "fancy bear" 9 ∷ sofacy ∷ [] })
      (record {
        tag = renamed same_case apt28 "fancy bear" 9;
        new_label = "fancy bear";
        new_slug = "fancy-bear";
        conflicts = [];
        draft_reports = 1;
        published_reports = 0;
        frozen_snapshots = 0;
        subscriptions = 0;
        alias_added = "apt28";
        unchanged = false;
      })
      refl refl refl refl
      ((λ off. absurd (off refl), (λ off. refl, tt)), (λ off. absurd (off refl), (λ off. refl, tt)))
      renamed-apt28

abbrev only_label : String → TagFields
only_label label = record {
  label = some label;
  external_id = none;
  description = none;
  aliases = none;
  suspected_attribution = none;
  motivations = none;
  first_seen = none;
  last_seen = none;
  attack_tactics = none;
  active = none;
}

-- A label without a letter or digit is refused for a new term.
create_without_slug :
    create_tag same_case 3 9 9 TagKind.actor "!!!" (only_label "!!!") small
    ≡ err TagError.label_not_alphanumeric
unfolding create_tag slugify
create_without_slug = refl

-- The same label is accepted by an update, and leaves the term with an empty slug.
update_without_slug :
    update_tag same_case sofacy (only_label "!!!") 9 (record small { report_tags = [] })
    ≡ ok (
      record sofacy { label = "!!!"; slug = ""; updated_at = 9 },
      record small {
        tags = apt28 ∷ record sofacy { label = "!!!"; slug = ""; updated_at = 9 } ∷ [];
        report_tags = [];
      },
    )
unfolding update_tag slugify
update_without_slug = refl
