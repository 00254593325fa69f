-- ===== src/Tags/Lineage.antt =====
-- The lineage pointers of the tag table, as lookups, and what the writes of the table do to them.
use iceberg_cti.Tags.{put_tag, by_id}
use iceberg_cti.Tags.Terms.{Tag}
use iceberg_cti.Base.{
  sym, ◌∙◌, ap, is_some, [], ◌∷◌, refl, arith, inl, inr, some, none, true, false, nat_eq, string_eq,
  ◌≡◌, ◌≢◌, ◌⊎◌, ◌++◌, ◌==◌, not, List, Option, ℕ, select, Bool-cases,
}

-- The pointer of the row with the id, where there is one.
abbrev pub link_of : Option Tag → Option (Option ℕ)
link_of none = none
link_of (some t) = some t.merged_into_tag_id

abbrev pub link : List Tag → ℕ → Option (Option ℕ)
link tags id = link_of (by_id id tags)

-- The pointers from one tag end at another, which is not merged.
pub data Leads (tags : List Tag) : ℕ → ℕ → Type 0 where
  here : {id : ℕ} → link tags id ≡ some none → Leads tags id id
  next :
      {id after end : ℕ}
      → link tags id ≡ some (some after)
      → Leads tags after end
      → Leads tags id end

pub Leads-keep :
    {xs ys : List Tag} {id end : ℕ}
    → ((i : ℕ) (m : Option ℕ) → link xs i ≡ some m → link ys i ≡ some m)
    → Leads xs id end
    → Leads ys id end
Leads-keep keep (here at) = Leads.here (keep _ none at)
Leads-keep keep (next {id} {after} at more) =
    Leads.next (keep id (some after) at) (Leads-keep keep more)

pub by_id-id : (i : ℕ) (tags : List Tag) (t : Tag) → by_id i tags ≡ some t → t.id ≡ i
by_id-id i [] t e = cc
by_id-id i (x ∷ xs) t e = elim (Bool-cases (x.id == i)) [
  | inl hit ↦ ground (arith, hit, e)
  | inr miss ↦ by_id-id i xs t (rw miss at e)
]

-- A row that is there, replaced.
pub by_id-put_tag_same :
    (tag old : Tag) (tags : List Tag)
    → by_id tag.id tags ≡ some old
    → by_id tag.id (put_tag tag tags) ≡ some tag
by_id-put_tag_same tag old [] e = cc
by_id-put_tag_same tag old (x ∷ xs) e = elim (Bool-cases (x.id == tag.id)) [
  | inl hit ↦ ground (arith, hit)
  | inr miss ↦ rw (miss, miss) (by_id-put_tag_same tag old xs (rw miss at e))
]

pub by_id-put_tag_other :
    (i : ℕ) (tag : Tag) (tags : List Tag) → i ≢ tag.id → by_id i (put_tag tag tags) ≡ by_id i tags
by_id-put_tag_other i tag [] h = refl
by_id-put_tag_other i tag (x ∷ xs) h = ground (arith, h, by_id-put_tag_other i tag xs h)

pub by_id-deleted :
    (i id : ℕ) (tags : List Tag)
    → i ≢ id
    → by_id i (select (λ t. not (t.id == id)) tags) ≡ by_id i tags
by_id-deleted i id [] h = refl
by_id-deleted i id (x ∷ xs) h = ground (arith, h, by_id-deleted i id xs h)

pub by_id-gone : (id : ℕ) (tags : List Tag) → by_id id (select (λ t. not (t.id == id)) tags) ≡ none
by_id-gone id [] = refl
by_id-gone id (x ∷ xs) = ground (arith, by_id-gone id xs)

pub same_or_other : (a b : ℕ) → (a ≡ b) ⊎ (a ≢ b)
same_or_other a b = elim (Bool-cases (a == b)) [
  | inl hit ↦ inl (ground (arith, hit))
  | inr miss ↦ inr (ground (arith, miss))
]

-- A replacement that keeps the pointer keeps all pointers.
pub link-put_tag :
    (i : ℕ) (tag old : Tag) (tags : List Tag)
    → by_id tag.id tags ≡ some old
    → tag.merged_into_tag_id ≡ old.merged_into_tag_id
    → link (put_tag tag tags) i ≡ link tags i
link-put_tag i tag old tags e same = elim (same_or_other i tag.id) [
  | inl hit ↦ rw (hit, by_id-put_tag_same tag old tags e, e, same) refl
  | inr miss ↦ ap link_of (by_id-put_tag_other i tag tags miss)
]

-- Each row leads to a term that is not merged, and a merged row is inactive.
abbrev pub IsLineage : List Tag → Type 0
IsLineage tags =
    ((i : ℕ) (t : Tag) → by_id i tags ≡ some t → (end : ℕ) × Leads tags i end)
    × ((i : ℕ) (t : Tag)
        → by_id i tags ≡ some t
        → is_some t.merged_into_tag_id ≡ true
        → t.active ≡ false)

pub IsLineage-put_tag :
    (tag old : Tag) (tags : List Tag)
    → by_id tag.id tags ≡ some old
    → tag.merged_into_tag_id ≡ old.merged_into_tag_id
    → (is_some tag.merged_into_tag_id ≡ true → tag.active ≡ false)
    → IsLineage tags
    → IsLineage (put_tag tag tags)
IsLineage-put_tag tag old tags e same retired h =
    let keep : (i : ℕ) (m : Option ℕ) → link tags i ≡ some m → link (put_tag tag tags) i ≡ some m =
      λ i m at. link-put_tag i tag old tags e same ∙ at in
    let leads : (i : ℕ) (t : Tag)
        → by_id i tags ≡ some t
        → (end : ℕ) × Leads (put_tag tag tags) i end =
      λ i t at. let (end, path) = h.0 i t at in (end, Leads-keep keep path) in
    (
      λ i t at. elim (same_or_other i tag.id) [
        | inl hit ↦ leads i old (rw hit e)
        | inr miss ↦ leads i t (sym (by_id-put_tag_other i tag tags miss) ∙ at)
      ],
      λ i t at merged. elim (same_or_other i tag.id) [
        | inl hit ↦
            let row : some tag ≡ some t =
              sym (by_id-put_tag_same tag old tags e) ∙ (rw hit at at) in
            let same_t : t ≡ tag = cc in rw same_t (retired (rw same_t at merged))
        | inr miss ↦ h.1 i t (sym (by_id-put_tag_other i tag tags miss) ∙ at) merged
      ],
    )

pub by_id-new :
    (i : ℕ) (tag : Tag) (tags : List Tag) (t : Tag)
    → by_id i (tags ++ (tag ∷ [])) ≡ some t
    → (by_id i tags ≡ some t) ⊎ ((by_id i tags ≡ none) × (t ≡ tag) × (tag.id ≡ i))
by_id-new i tag [] t e = ground (arith, e)
by_id-new i tag (x ∷ xs) t e = elim (Bool-cases (x.id == i)) [
  | inl hit ↦ inl (rw hit (rw hit at e))
  | inr miss ↦ rw miss (by_id-new i tag xs t (rw miss at e))
]

pub link-append :
    (tags ys : List Tag) (i : ℕ) (m : Option ℕ)
    → link tags i ≡ some m
    → link (tags ++ ys) i ≡ some m
link-append [] ys i m e = cc
link-append (x ∷ xs) ys i m e = elim (Bool-cases (x.id == i)) [
  | inl hit ↦ rw hit (rw hit at e)
  | inr miss ↦ rw miss (link-append xs ys i m (rw miss at e))
]

pub IsLineage-append :
    (tag : Tag) (tags : List Tag)
    → tag.merged_into_tag_id ≡ none
    → IsLineage tags
    → IsLineage (tags ++ (tag ∷ []))
IsLineage-append tag tags unmerged h = (
  λ i t at. elim (by_id-new i tag tags t at) [
    | inl old ↦
        let (end, path) = h.0 i t old in (end, Leads-keep (link-append tags (tag ∷ [])) path)
    | inr new ↦ (i, Leads.here (rw (at, new.1, unmerged) refl))
  ],
  λ i t at merged. elim (by_id-new i tag tags t at) [
    | inl old ↦ h.1 i t old merged
    | inr new ↦ let none_some : false ≡ true = (rw (new.1, unmerged) at merged) in cc
  ],
)
