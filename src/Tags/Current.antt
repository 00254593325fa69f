-- ===== src/Tags/Current.antt =====
-- What the writes of the link tables keep: the links name rows that are not merged.
use iceberg_cti.Tags.Steps.{NamesCurrent}
use iceberg_cti.Tags.{tags_by_id, replace_links, owners, TagLink}
use iceberg_cti.Tags.Lineage.{same_or_other, link}
use iceberg_cti.Tags.Merge.{absent, without, move_tag_links}
use iceberg_cti.Tags.Terms.{Tag}
use iceberg_cti.Base.{
  All-append, All-select, ◌∙◌, All-imply, is_some, any_of, [], ◌∷◌, refl, arith, inl, inr, some,
  none, ok, true, false, nat_eq, string_eq, ◌≡◌, ◌≢◌, ◌++◌, ◌==◌, not, Bool, List, Option, ℕ, All,
  map, select, elem, Bool-cases, Option-cases,
}

pub All-current :
    (xs ys : List Tag) (links : List TagLink)
    → ((i : ℕ) (m : Option ℕ) → link xs i ≡ some m → link ys i ≡ some m)
    → All (NamesCurrent xs) links
    → All (NamesCurrent ys) links
All-current xs ys links keep h =
    All-imply (NamesCurrent xs) (NamesCurrent ys) links (λ l at. keep l.1 none at) h

pub All-without :
    (xs ys : List Tag) (id : ℕ) (links : List TagLink)
    → ((i : ℕ) → i ≢ id → link ys i ≡ link xs i)
    → All (NamesCurrent xs) links
    → All (NamesCurrent ys) (without id links)
All-without xs ys id [] same h = tt
All-without xs ys id (l ∷ links) same h = elim (same_or_other l.1 id) [
  | inl hit ↦
      let there : (l.1 == id) ≡ true = ground (arith, hit) in
      rw there (All-without xs ys id links same h.1)
  | inr miss ↦
      let other : (l.1 == id) ≡ false = ground (arith, miss) in
      rw other (same l.1 miss ∙ h.0, All-without xs ys id links same h.1)
]

All-target :
    (tags : List Tag) (target : ℕ) (ids : List ℕ)
    → link tags target ≡ some none
    → All (NamesCurrent tags) (map (λ o. (o, target)) ids)
All-target tags target [] at = tt
All-target tags target (o ∷ ids) at = (at, All-target tags target ids at)

pub move_tag_links-current :
    (xs ys : List Tag) (source target : ℕ) (links : List TagLink)
    → ((i : ℕ) → i ≢ source → link ys i ≡ link xs i)
    → link ys target ≡ some none
    → All (NamesCurrent xs) links
    → All (NamesCurrent ys) (move_tag_links source target links).links
unfolding move_tag_links
move_tag_links-current xs ys source target links same at h =
    All-append (NamesCurrent ys) (without source links)
      (map (λ o. (o, target)) (absent (owners target links) (owners source links)))
      (All-without xs ys source links same h)
      (All-target ys target (absent (owners target links) (owners source links)) at)

-- The rows that a request names: none is merged, so the first row of each number is not.
link-chosen :
    (ids : List ℕ) (i : ℕ) (tags : List Tag)
    → elem i ids ≡ true
    → any_of (λ t. is_some t.merged_into_tag_id) (select (λ t. elem t.id ids) tags) ≡ false
    → any_of (λ t. t.id == i) tags ≡ true
    → link tags i ≡ some none
link-chosen ids i [] in_ids free there = cc
link-chosen ids i (x ∷ xs) in_ids free there = elim (Bool-cases (x.id == i)) [
  | inl hit ↦
      let same : x.id ≡ i = ground (arith, hit) in
      let chosen : elem x.id ids ≡ true = rw same in_ids in
      let unmerged : is_some x.merged_into_tag_id ≡ false = ground (arith, chosen) in
      elim (Option-cases x.merged_into_tag_id) [
        | inl absent_pointer ↦ rw (hit, absent_pointer) refl
        | inr pointer ↦ ground (arith, unmerged, pointer)
      ]
  | inr miss ↦ elim (Bool-cases (elem x.id ids)) [
    | inl yes_x ↦ rw miss (link-chosen ids i xs in_ids (ground (arith, yes_x)) (rw miss at there))
    | inr no_x ↦ rw miss (link-chosen ids i xs in_ids (rw no_x at free) (rw miss at there))
  ]
]

All-there : (tags : List Tag) → All (λ t. any_of (λ s. s.id == t.id) tags ≡ true) tags
All-there [] = tt
All-there (x ∷ xs) = (
  ground arith,
  All-imply (λ t. any_of (λ s. s.id == t.id) xs ≡ true)
      (λ t. any_of (λ s. s.id == t.id) (x ∷ xs) ≡ true) xs (λ t h. ground (arith, h))
      (All-there xs),
)

All-owned :
    (tags chosen : List Tag) (owner : ℕ)
    → All (λ t. link tags t.id ≡ some none) chosen
    → All (NamesCurrent tags) (map (λ t. (owner, t.id)) chosen)
All-owned tags [] owner h = tt
All-owned tags (t ∷ chosen) owner h = (h.0, All-owned tags chosen owner h.1)

All-others :
    (tags : List Tag) (owner : ℕ) (links : List TagLink)
    → All (NamesCurrent tags) links
    → All (NamesCurrent tags) (select (λ l. not (l.0 == owner)) links)
All-others tags owner links h =
    let p : TagLink → Bool = λ l. not (l.0 == owner) in
    All-imply (λ l. NamesCurrent tags l × (p l ≡ true)) (NamesCurrent tags) (select p links)
      (λ l k. k.0) (All-select (NamesCurrent tags) p links h)

pub replace_links-current :
    (tags : List Tag) (owner : ℕ) (ids : List ℕ) (links after : List TagLink)
    → replace_links tags owner ids links ≡ ok after
    → All (NamesCurrent tags) links
    → All (NamesCurrent tags) after
unfolding replace_links tags_by_id
replace_links-current tags owner ids links after done h =
    let there : Tag → Type 0 = λ t. any_of (λ s. s.id == t.id) tags ≡ true in
    let is_chosen : Tag → Bool = λ t. elem t.id ids in
    let free : any_of (λ t. is_some t.merged_into_tag_id) (select is_chosen tags) ≡ false =
      ground arith in
    let rows : after
        ≡ select (λ l. not (l.0 == owner)) links
          ++ map (λ t. (owner, t.id)) (select is_chosen tags) =
      ground arith in
    rw rows (
      All-append (NamesCurrent tags) (select (λ l. not (l.0 == owner)) links)
        (map (λ t. (owner, t.id)) (select is_chosen tags)) (All-others tags owner links h)
        (All-owned tags (select is_chosen tags) owner (
          All-imply (λ t. there t × (is_chosen t ≡ true)) (λ t. link tags t.id ≡ some none)
            (select is_chosen tags) (λ t k. link-chosen ids t.id tags k.1 free k.0)
            (All-select there is_chosen tags (All-there tags)))))
