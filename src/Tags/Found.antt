-- ===== src/Tags/Found.antt =====
-- Old names after a rename: `find_by_identifier` of src/iceberg/services/tags.py.
use iceberg_cti.Tags.Effects.{put_tag_self}
use iceberg_cti.Tags.Lineage.{same_or_other}
use iceberg_cti.Tags.{Taxonomy, slugify, by_id, put_tag}
use iceberg_cti.Models.{Instant}
use iceberg_cti.Tags.Rename.{
  renamed, rename_impact, RenameImpact, has_alias, find_by_identifier, rename_tag,
}
use iceberg_cti.Tags.Terms.{Letters, Tag}
use iceberg_cti.Tags.Named.{normalise_aliases-answers, or_later, str_eq_refl}
use iceberg_cti.Base.{
  is_empty, ◌∙◌, strip, sym, str_eq_iff, find_first_sound, is_some, find_first, is_blank, str_eq,
  [], ◌∷◌, refl, arith, inl, inr, some, ok, true, false, nat_eq, string_eq, ◌≡◌, ◌≢◌, ◌⊎◌, ◌++◌,
  ◌==◌, Bool, List, ℕ, String, All, elem, Bool-cases, Option-cases,
}

module _ (p : Tag → Bool) (id : ℕ) where
  -- No other row passes the test.
  abbrev IsAlone : List Tag → Type 0
  IsAlone tags = All (λ t. t.id ≢ id → p t ≡ false) tags

  found-id : (tags : List Tag) (t : Tag) → IsAlone tags → find_first p tags ≡ some t → t.id ≡ id
  found-id tags t alone found =
      let (rule, hit) = find_first_sound (λ t. t.id ≢ id → p t ≡ false) p tags t alone found in
      elim (same_or_other t.id id) [
        | inl same ↦ same
        | inr other ↦ let apart : true ≡ false = sym hit ∙ rule other in cc
      ]

  IsAlone-put_tag :
      (after : Tag) (tags : List Tag) → after.id ≡ id → IsAlone tags → IsAlone (put_tag after tags)
  IsAlone-put_tag after [] same h = tt
  IsAlone-put_tag after (x ∷ xs) same h = elim (Bool-cases (x.id == after.id)) [
    | inl hit ↦ rw hit (λ off. absurd (off same), h.1)
    | inr miss ↦ rw miss (h.0, IsAlone-put_tag after xs same h.1)
  ]

  found-put_tag :
      (after old : Tag) (tags : List Tag)
      → by_id after.id tags ≡ some old
      → p after ≡ true
      → is_some (find_first p (put_tag after tags)) ≡ true
  found-put_tag after old [] there hit = cc
  found-put_tag after old (x ∷ xs) there hit = elim (Bool-cases (x.id == after.id)) [
    | inl same ↦ rw (same, hit) refl
    | inr other ↦ elim (Bool-cases (p x)) [
      | inl yes_p ↦ rw (other, yes_p) refl
      | inr no_p ↦ rw (other, no_p) (found-put_tag after old xs (rw other at there) hit)
    ]
  ]

-- No other row answers to the slug.
abbrev pub IsUnshared : Letters → String → ℕ → List Tag → Type 0
IsUnshared letters slug id tags =
    IsAlone (λ t. str_eq t.slug slug) id tags × IsAlone (has_alias letters slug) id tags

find-answers :
    (letters : Letters) (name : String) (after old : Tag) (tags : List Tag)
    → is_blank (slugify letters name) ≡ false
    → by_id after.id tags ≡ some old
    → IsUnshared letters (slugify letters name) after.id tags
    → (after.slug ≡ slugify letters name) ⊎ (has_alias letters (slugify letters name) after ≡ true)
    → (t : Tag) × (find_by_identifier letters name (put_tag after tags) ≡ some t)
      × (t.id ≡ after.id)
unfolding find_by_identifier
find-answers letters name after old tags text there (slugs, aliases) answers =
    let by_slug : Tag → Bool = λ t. str_eq t.slug (slugify letters name) in
    let by_alias : Tag → Bool = has_alias letters (slugify letters name) in
    let slugs_after = IsAlone-put_tag by_slug after.id after tags refl slugs in
    let aliases_after = IsAlone-put_tag by_alias after.id after tags refl aliases in
    elim (Option-cases (find_first by_slug (put_tag after tags))) [
      | inr (t, found) ↦ (
        t,
        rw (find_by_identifier, text, found) refl,
        found-id by_slug after.id (put_tag after tags) t slugs_after found,
      )
      | inl missing ↦ elim (Option-cases (find_first by_alias (put_tag after tags))) [
        | inr (t, found) ↦ (
          t,
          rw (find_by_identifier, text, missing, found) refl,
          found-id by_alias after.id (put_tag after tags) t aliases_after found,
        )
        | inl nowhere ↦ elim answers [
          | inl slug ↦
              let hit : by_slug after ≡ true =
                (str_eq_iff after.slug (slugify letters name)).1 slug in
              let some_row =
                (rw missing at (found-put_tag by_slug after.id after old tags there hit)) in
              cc
          | inr alias ↦
              let some_row =
                (rw nowhere at (found-put_tag by_alias after.id after old tags there alias)) in
              cc
        ]
      ]
    ]

elem-last : (s : String) (xs : List String) → elem s (xs ++ (s ∷ [])) ≡ true
elem-last s [] = rw (str_eq_refl s) refl
elem-last s (x ∷ xs) = or_later (str_eq s x) (elem-last s xs)

-- A term that was renamed is still found by its old name, in tables where the term's slug is that of its
-- label, the label and its slug are not blank, and no other term has that slug or an alias with it. This
-- holds of a rename to the name that the term has, and where the cleaned aliases leave the old label out
-- since the new one differs in case alone.
pub rename_tag-find_by_identifier :
    (letters : Letters) (tag : Tag) (given : String) (at : Instant) (x y : Taxonomy)
    (impact : RenameImpact)
    → by_id tag.id x.tags ≡ some tag
    → tag.slug ≡ slugify letters tag.label
    → is_blank (strip tag.label) ≡ false
    → is_blank (slugify letters tag.label) ≡ false
    → IsUnshared letters (slugify letters tag.label) tag.id x.tags
    → rename_tag letters tag given at x ≡ ok (impact, y)
    → (t : Tag) × (find_by_identifier letters tag.label y.tags ≡ some t) × (t.id ≡ tag.id)
unfolding rename_tag
rename_tag-find_by_identifier letters tag given at x y impact there slug label text unshared done =
    elim (Bool-cases (is_empty (rename_impact letters tag given x).conflicts)) [
      | inl free ↦ elim (Bool-cases (rename_impact letters tag given x).unchanged) [
        | inl same ↦
            let written = rw (rename_tag, free, same) at done in
            let tags : y.tags ≡ put_tag tag x.tags =
              ground (arith, written) ∙ sym (put_tag_self tag x.tags there) in
            rw tags (find-answers letters tag.label tag tag x.tags text there unshared (inl slug))
        | inr new ↦
            let written = rw (rename_tag, free, new) at done in
            let after : Tag = renamed letters tag (strip given) at in
            let tags : y.tags ≡ put_tag after x.tags = ground (arith, written) in
            rw tags (
              find-answers letters tag.label after tag x.tags text there unshared (
                normalise_aliases-answers letters tag.label label (strip given)
                  (tag.aliases ++ (tag.label ∷ [])) (elem-last tag.label tag.aliases)))
      ]
      | inr blocked ↦ ground (arith, blocked)
    ]
