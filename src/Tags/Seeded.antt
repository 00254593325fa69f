-- ===== src/Tags/Seeded.antt =====
-- What an import of the starter taxonomy leaves for the next one.
use iceberg_cti.Tags.Named.{str_eq_refl}
use iceberg_cti.Tags.{same_kind, Instant, TagKind, slugify, has_name, normalise_attack_tactics}
use iceberg_cti.Tags.Seed.{
  blank_tag, refreshed, seed_entries, Import, seed_entry, entry_tactics, Entry,
}
use iceberg_cti.Tags.Terms.{Letters, Tag}
use iceberg_cti.Base.{
  ◌∙◌, update_first, find_first, is_some, [], ◌∷◌, refl, arith, inl, inr, ok, true, false, nat_eq,
  string_eq, ◌≡◌, ◌⊎◌, ◌++◌, Bool, List, String, All, Bool-cases, Option-cases, Result-cases,
}

abbrev named : Letters → Entry → List Tag → Bool
named letters e tags = is_some (find_first (has_name e.kind (slugify letters e.label)) tags)

-- The entry has a row, and its tactics are accepted.
abbrev pub IsSeeded : Letters → List Tag → Entry → Type 0
IsSeeded letters tags e =
    (named letters e tags ≡ true)
    × ((tactics : List String) × (normalise_attack_tactics letters (entry_tactics e) e.kind
          ≡ ok tactics))

find_first-grown :
    (p : Tag → Bool) (xs ys : List Tag)
    → is_some (find_first p xs) ≡ true
    → is_some (find_first p (xs ++ ys)) ≡ true
find_first-grown p [] ys h = cc
find_first-grown p (x ∷ xs) ys h = ground (arith, find_first-grown p xs ys)

find_first-last :
    (p : Tag → Bool) (xs : List Tag) (x : Tag)
    → p x ≡ true
    → is_some (find_first p (xs ++ (x ∷ []))) ≡ true
find_first-last p [] x h = rw h refl
find_first-last p (y ∷ xs) x h = ground (arith, find_first-last p xs x h)

-- A write that keeps the answer to a test keeps what is found.
find_first-update_first :
    (p q : Tag → Bool) (f : Tag → Tag) (xs : List Tag)
    → ((t : Tag) → q (f t) ≡ q t)
    → is_some (find_first q (update_first p f xs)) ≡ is_some (find_first q xs)
find_first-update_first p q f [] same = refl
find_first-update_first p q f (x ∷ xs) same = elim (Bool-cases (p x)) [
  | inl hit ↦ elim (Bool-cases (q x)) [
    | inl yes_q ↦ let after : q (f x) ≡ true = same x ∙ yes_q in rw (hit, after, yes_q) refl
    | inr no_q ↦ let after : q (f x) ≡ false = same x ∙ no_q in rw (hit, after, no_q) refl
  ]
  | inr miss ↦ elim (Bool-cases (q x)) [
    | inl yes_q ↦ rw (miss, yes_q) refl
    | inr no_q ↦ rw (miss, no_q) (find_first-update_first p q f xs same)
  ]
]

same_kind_refl : (k : TagKind) → same_kind k k ≡ true
same_kind_refl TagKind.actor = refl
same_kind_refl TagKind.campaign = refl
same_kind_refl TagKind.malware = refl
same_kind_refl TagKind.technique = refl
same_kind_refl TagKind.sector = refl
same_kind_refl TagKind.topic = refl

module _ (letters : Letters) (now : Instant) where
  -- What one entry makes of the table: a new row, or a refresh of the row found, or nothing.
  IsImported : Entry → List Tag → List Tag → Type 0
  IsImported e before tags =
      let is_named : Tag → Bool = has_name e.kind (slugify letters e.label) in
      ((new : Tag) × (is_named new ≡ true) × (tags ≡ before ++ (new ∷ [])))
      ⊎ ((is_some (find_first is_named before) ≡ true)
          × (((tactics : List String) × (tags
                  ≡ update_first is_named (refreshed letters e tactics) before))
              ⊎ (tags ≡ before)))

  seed_entry-IsImported :
      (update : Bool) (e : Entry) (s after : Import)
      → seed_entry letters update now e s ≡ ok after
      → IsImported e s.tags after.tags
        × ((tactics : List String) × (normalise_attack_tactics letters (entry_tactics e) e.kind
              ≡ ok tactics))
  unfolding seed_entry IsImported
  seed_entry-IsImported update e s after done =
      let is_named : Tag → Bool = has_name e.kind (slugify letters e.label) in
      elim (Result-cases (normalise_attack_tactics letters (entry_tactics e) e.kind)) [
        | inl (tactics, accepted) ↦ elim (Option-cases (find_first is_named s.tags)) [
          | inl missing ↦
              let new = refreshed letters e tactics (blank_tag letters s.next_id now e) in
              let hit : is_named new ≡ true =
                rw (same_kind_refl e.kind, str_eq_refl (slugify letters e.label)) refl in
              let written = rw (seed_entry, accepted, missing) at done in
              (inl (new, hit, ground (arith, written)), (tactics, accepted))
          | inr (t, found) ↦ elim (Bool-cases update) [
            | inl refresh ↦
                let written = rw (seed_entry, accepted, found, refresh) at done in
                (inr (rw found refl, inl (tactics, ground (arith, written))), (tactics, accepted))
            | inr keep ↦
                let written = rw (seed_entry, accepted, found, keep) at done in
                (inr (rw found refl, inr (ground (arith, written))), (tactics, accepted))
          ]
        ]
        | inr bad ↦ ground (arith, bad)
      ]

  IsImported-named :
      (e : Entry) (before tags : List Tag) → IsImported e before tags → named letters e tags ≡ true
  unfolding IsImported
  IsImported-named e before tags (inl (new, hit, grown)) =
      rw grown (find_first-last (has_name e.kind (slugify letters e.label)) before new hit)
  IsImported-named e before tags (inr (found, inl (tactics, refresh))) =
      let is_named : Tag → Bool = has_name e.kind (slugify letters e.label) in
      rw refresh (
        find_first-update_first is_named is_named (refreshed letters e tactics) before (λ t. refl)
        ∙ found)
  IsImported-named e before tags (inr (found, inr kept)) = rw kept found

  IsImported-keeps :
      (d e : Entry) (before tags : List Tag)
      → IsImported e before tags
      → named letters d before ≡ true
      → named letters d tags ≡ true
  unfolding IsImported
  IsImported-keeps d e before tags (inl (new, hit, grown)) h =
      rw grown (find_first-grown (has_name d.kind (slugify letters d.label)) before (new ∷ []) h)
  IsImported-keeps d e before tags (inr (found, inl (tactics, refresh))) h = rw refresh (
      find_first-update_first (has_name e.kind (slugify letters e.label))
        (has_name d.kind (slugify letters d.label)) (refreshed letters e tactics) before (λ t. refl)
      ∙ h)
  IsImported-keeps d e before tags (inr (found, inr kept)) h = rw kept h

  seed_entries-keeps :
      (update : Bool) (d : Entry) (entries : List Entry) (s after : Import)
      → seed_entries letters update now entries s ≡ ok after
      → named letters d s.tags ≡ true
      → named letters d after.tags ≡ true
  unfolding seed_entries
  seed_entries-keeps update d [] s after done h =
      let same : s ≡ after = ground arith in rw (← same) h
  seed_entries-keeps update d (e ∷ entries) s after done h =
      elim (Result-cases (seed_entry letters update now e s)) [
        | inl (mid, first) ↦
            let rest : seed_entries letters update now entries mid ≡ ok after =
              rw (seed_entries, first) at done in
            let (imported, accepted) = seed_entry-IsImported update e s mid first in
            seed_entries-keeps update d entries mid after rest
              (IsImported-keeps d e s.tags mid.tags imported h)
        | inr bad ↦ ground (arith, bad)
      ]

  seed_entries-IsSeeded :
      (update : Bool) (entries : List Entry) (s after : Import)
      → seed_entries letters update now entries s ≡ ok after
      → All (IsSeeded letters after.tags) entries
  unfolding seed_entries
  seed_entries-IsSeeded update [] s after done = tt
  seed_entries-IsSeeded update (e ∷ entries) s after done =
      elim (Result-cases (seed_entry letters update now e s)) [
        | inl (mid, first) ↦
            let rest : seed_entries letters update now entries mid ≡ ok after =
              rw (seed_entries, first) at done in
            let (imported, accepted) = seed_entry-IsImported update e s mid first in
            let present = IsImported-named e s.tags mid.tags imported in
            (
              (seed_entries-keeps update e entries mid after rest present, accepted),
              seed_entries-IsSeeded update entries mid after rest,
            )
        | inr bad ↦ ground (arith, bad)
      ]

  seeded_again :
      (entries : List Entry) (s : Import)
      → All (IsSeeded letters s.tags) entries
      → seed_entries letters false now entries s ≡ ok s
  unfolding seed_entries seed_entry
  seeded_again [] s h = refl
  seeded_again (e ∷ entries) s (present, h) =
      let (found, (tactics, accepted)) = present in
      elim (Option-cases (find_first (has_name e.kind (slugify letters e.label)) s.tags)) [
        | inl missing ↦ let apart : false ≡ true = (rw missing at found) in cc
        | inr (t, row) ↦ rw (seed_entries, seed_entry, accepted, row) (seeded_again entries s h)
      ]

-- The import of the starter taxonomy is idempotent: where an import of the entries succeeds, with or
-- without refreshing, a second import of them without refreshing succeeds at any time, creates no term and
-- changes no row.
pub seed_entries_again :
    (letters : Letters) (update : Bool) (now later : Instant) (entries : List Entry)
    (s after : Import)
    → seed_entries letters update now entries s ≡ ok after
    → seed_entries letters false later entries after ≡ ok after
seed_entries_again letters update now later entries s after done =
    seeded_again letters later entries after
      (seed_entries-IsSeeded letters now update entries s after done)
