-- ===== src/Tags/SeedTests.antt =====
-- Imports of a small starter taxonomy.
use iceberg_cti.Tags.Seeded.{seed_entries_again}
use iceberg_cti.Tags.Terms.{normalise_tactics, slugify, Letters, TagKind, normalise_attack_tactics}
use iceberg_cti.Tags.Seed.{blank_tag, refreshed, Entry, Import, seed_entries}
use iceberg_cti.Base.{[], ◌∷◌, refl, some, none, ok, false, nat_eq, string_eq, ◌≡◌, List, String}

abbrev same_letters : Letters
same_letters = record { lower = λ s. s; upper = λ s. s }

abbrev entry : TagKind → String → String → Entry
entry kind label description = record {
  kind = kind;
  label = label;
  external_id = none;
  description = some description;
  aliases = none;
  suspected_attribution = none;
  motivations = none;
  first_seen = none;
  last_seen = none;
  attack_tactics = none;
}

abbrev starter : List Entry
starter =
    entry TagKind.actor "apt28" "a group"
    ∷ entry TagKind.sector "energy" ""
    ∷ entry TagKind.actor "apt28" ""
    ∷ []

abbrev nothing_yet : Import
nothing_yet = record { tags = []; next_id = 1; created = 0 }

abbrev imported : Import
imported = record {
  tags =
      refreshed same_letters (entry TagKind.actor "apt28" "a group") []
        (blank_tag same_letters 1 5 (entry TagKind.actor "apt28" "a group"))
      ∷ refreshed same_letters (entry TagKind.sector "energy" "") []
          (blank_tag same_letters 2 5 (entry TagKind.sector "energy" ""))
      ∷ [];
  next_id = 3;
  created = 2;
}

starter-imported : seed_entries same_letters false 5 starter nothing_yet ≡ ok imported
unfolding seed_entries slugify normalise_attack_tactics normalise_tactics
starter-imported = refl

seed_entries_again_example : seed_entries same_letters false 9 starter imported ≡ ok imported
seed_entries_again_example =
    seed_entries_again same_letters false 5 9 starter nothing_yet imported starter-imported

-- The description of a technique is its tactic, in the order and the spelling of the matrix.
technique_tactics :
    normalise_attack_tactics same_letters ("Impact" ∷ "Execution" ∷ []) TagKind.technique
    ≡ ok ("Execution" ∷ "Impact" ∷ [])
unfolding normalise_attack_tactics normalise_tactics
technique_tactics = refl
