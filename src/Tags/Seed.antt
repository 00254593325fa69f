-- ===== src/Tags/Seed.antt =====
-- The starter taxonomy and the search by alias of src/iceberg/services/tags.py.
use iceberg_cti.Tags.{
  has_name, normalise_attack_tactics, TagError, normalise_motivations, slugify, Taxonomy,
}
use iceberg_cti.Models.{Instant}
use iceberg_cti.Tags.Terms.{normalise_aliases, Letters, Tag, TagKind, is_technique}
use iceberg_cti.Base.{
  update_first, find_first, any_of, or_else, starts, is_blank, strip, [], ◌∷◌, some, none, ok, true,
  false, nat_eq, string_eq, ◌>>=◌, ◌+◌, ◌++◌, ◌&&◌, ◌||◌, not, if◌then◌else◌, Bool, List, Option, ℕ,
  String, Result, map, select, elem,
}

-- An entry of the starter data, whose kind is a known one; `none` for a key that is missing.
pub record Entry : Type 0 where
  pub kind : TagKind
  pub label : String
  pub external_id : Option String
  pub description : Option String
  pub aliases : Option (List String)
  pub suspected_attribution : Option String
  pub motivations : Option (List String)
  pub first_seen : Option String
  pub last_seen : Option String
  pub attack_tactics : Option (List String)

abbrev pub stripped_value : Option String → String
stripped_value s = strip (or_else s "")

-- The tactics of an entry; a technique without the key has its description for one.
abbrev pub entry_tactics : Entry → List String
entry_tactics e = elim e.attack_tactics [
  | some values ↦ values
  | none ↦
      if is_technique e.kind && not (is_blank (stripped_value e.description))
      then stripped_value e.description ∷ []
      else []
]

-- The fields that an import writes, but for kind, label and slug.
abbrev pub refreshed : Letters → Entry → List String → Tag → Tag
refreshed letters e tactics t = record t {
  external_id = stripped_value e.external_id;
  description = stripped_value e.description;
  attack_tactics = tactics;
  aliases = normalise_aliases letters e.label (or_else e.aliases []);
  suspected_attribution = stripped_value e.suspected_attribution;
  motivations = normalise_motivations letters (or_else e.motivations []);
  first_seen = stripped_value e.first_seen;
  last_seen = stripped_value e.last_seen;
}

-- `Tag(kind=…, label=…, slug=…)` with its defaults
abbrev pub blank_tag : Letters → ℕ → Instant → Entry → Tag
blank_tag letters id now e = record {
  id = id;
  kind = e.kind;
  label = e.label;
  slug = slugify letters e.label;
  external_id = "";
  description = "";
  aliases = [];
  suspected_attribution = "";
  motivations = [];
  first_seen = "";
  last_seen = "";
  attack_tactics = [];
  active = true;
  merged_into_tag_id = none;
  merged_at = none;
  created_at = now;
  updated_at = now;
}

-- The table, the number of the next row, and the count of rows created.
pub record Import : Type 0 where
  pub tags : List Tag
  pub next_id : ℕ
  pub created : ℕ

-- One entry. A refresh that changes no field writes the same row.
unfoldable pub seed_entry : Letters → Bool → Instant → Entry → Import → Result TagError Import
seed_entry letters update now e s = do
  tactics ← normalise_attack_tactics letters (entry_tactics e) e.kind
  ok (elim (find_first (has_name e.kind (slugify letters e.label)) s.tags) [
    | none ↦ record {
      tags = s.tags ++ (refreshed letters e tactics (blank_tag letters s.next_id now e) ∷ []);
      next_id = s.next_id + 1;
      created = s.created + 1;
    }
    | some _ ↦
        if update
        then record s {
          tags =
              update_first (has_name e.kind (slugify letters e.label)) (refreshed letters e tactics)
                s.tags;
        }
        else s
  ])

unfoldable pub seed_entries :
    Letters → Bool → Instant → List Entry → Import → Result TagError Import
unfolding seed_entry
seed_entries letters update now [] s = ok s
seed_entries letters update now (e ∷ entries) s =
    seed_entry letters update now e s >>= λ after. seed_entries letters update now entries after

-- `ALIASABLE_KINDS`
abbrev pub is_aliasable : TagKind → Bool
is_aliasable TagKind.actor = true
is_aliasable TagKind.malware = true
is_aliasable TagKind.campaign = true
is_aliasable _ = false

-- `sub in s`
abbrev pub contains : String → String → Bool
contains sub String.[] = is_blank sub
contains sub (String.◌∷◌ c s) = starts sub (String.◌∷◌ c s) || contains sub s

-- `_tag_matches`
unfoldable pub tag_matches : Letters → Tag → String → Bool
tag_matches letters tag needle =
    any_of (λ name. contains needle (letters.lower name) || contains (letters.lower name) needle)
      (tag.label ∷ tag.aliases)

unfoldable pub resolve_alias_report_ids : Letters → String → Taxonomy → List ℕ
unfolding tag_matches
resolve_alias_report_ids letters q x =
    let needle = letters.lower (strip q) in
    let matched = select (λ t. is_aliasable t.kind && tag_matches letters t needle) x.tags in
    if is_blank needle
    then []
    else map (λ l. l.0) (select (λ l. elem l.1 (map (λ t. t.id) matched)) x.report_tags)
