-- ===== src/Tags/Removed.antt =====
-- The two writes that change the pointers of the tag table: a row deleted, and a row merged.
use iceberg_cti.Tags.Lineage.Leads.{here, next}
use iceberg_cti.Tags.Lineage.{
  by_id-put_tag_other, by_id-deleted, by_id-gone, by_id-put_tag_same, link_of, same_or_other,
  IsLineage, Leads, link,
}
use iceberg_cti.Tags.{put_tag, by_id}
use iceberg_cti.Tags.Terms.{Tag}
use iceberg_cti.Base.{
  ◌∙◌, ap, sym, any_of, same_id, [], ◌∷◌, refl, arith, inl, inr, some, none, true, false, nat_eq,
  string_eq, ◌≡◌, ◌≢◌, ◌==◌, not, Bool, List, ℕ, select, Bool-cases,
}

abbrev pub points_at : ℕ → Tag → Bool
points_at id t = same_id t.merged_into_tag_id (some id)

pub link-points :
    (id i after : ℕ) (tags : List Tag)
    → any_of (points_at id) tags ≡ false
    → link tags i ≡ some (some after)
    → after ≢ id
link-points id i after [] h e = cc
link-points id i after (x ∷ xs) h e = elim (Bool-cases (x.id == i)) [
  | inl hit ↦
      let to : some x.merged_into_tag_id ≡ some (some after) = rw hit at e in
      let same : x.merged_into_tag_id ≡ some after = cc in ground (arith, rw same at h)
  | inr miss ↦ elim (Bool-cases (points_at id x)) [
    | inl yes_p ↦ let apart : true ≡ false = (rw yes_p at h) in cc
    | inr no_p ↦ link-points id i after xs (rw no_p at h) (rw miss at e)
  ]
]

module _ (id : ℕ) (tags : List Tag) where
  abbrev pub remaining : List Tag
  remaining = select (λ t. not (t.id == id)) tags

  pub link-remaining : (i : ℕ) → i ≢ id → link remaining i ≡ link tags i
  link-remaining i off = ap link_of (by_id-deleted i id tags off)

  Leads-remaining :
      {i end : ℕ}
      → any_of (points_at id) tags ≡ false
      → i ≢ id
      → Leads tags i end
      → Leads remaining i end
  Leads-remaining {i} free off (here at) = Leads.here (link-remaining i off ∙ at)
  Leads-remaining {i} free off (next {after} at more) =
      Leads.next (link-remaining i off ∙ at)
        (Leads-remaining free (link-points id i after tags free at) more)

  remaining-other : (i : ℕ) (t : Tag) → by_id i remaining ≡ some t → i ≢ id
  remaining-other i t e same =
      let gone : none ≡ some t = sym (by_id-gone id tags) ∙ (rw same at e) in cc

  pub IsLineage-remaining :
      any_of (points_at id) tags ≡ false → IsLineage tags → IsLineage remaining
  IsLineage-remaining free h = (
    λ i t at.
        let off : i ≢ id = remaining-other i t at in
        let (end, path) = h.0 i t (sym (by_id-deleted i id tags off) ∙ at) in
        (end, Leads-remaining free off path),
    λ i t at. h.1 i t (sym (by_id-deleted i id tags (remaining-other i t at)) ∙ at),
  )

-- The row `gone` in the place of its row in the table, which points at the row `target` from then on.
module _ (gone old : Tag) (target : ℕ) (tags : List Tag) where
  module _ (there : by_id gone.id tags ≡ some old) (to : gone.merged_into_tag_id ≡ some target)
      (unmerged : link tags target ≡ some none) (off : target ≢ gone.id) where
    merged-link : link (put_tag gone tags) gone.id ≡ some (some target)
    merged-link = rw (by_id-put_tag_same gone old tags there, to) refl

    pub merged-link_other : (i : ℕ) → i ≢ gone.id → link (put_tag gone tags) i ≡ link tags i
    merged-link_other i other = ap link_of (by_id-put_tag_other i gone tags other)

    from_gone : Leads (put_tag gone tags) gone.id target
    from_gone = Leads.next merged-link (Leads.here (merged-link_other target off ∙ unmerged))

    Leads-merged : {i end : ℕ} → Leads tags i end → (e : ℕ) × Leads (put_tag gone tags) i e
    Leads-merged {i} (here at) = elim (same_or_other i gone.id) [
      | inl same ↦ (target, rw same from_gone)
      | inr other ↦ (i, Leads.here (merged-link_other i other ∙ at))
    ]
    Leads-merged {i} (next {after} at more) = elim (same_or_other i gone.id) [
      | inl same ↦ (target, rw same from_gone)
      | inr other ↦
          let (e, path) = Leads-merged more in (e, Leads.next (merged-link_other i other ∙ at) path)
    ]

    pub IsLineage-merged : gone.active ≡ false → IsLineage tags → IsLineage (put_tag gone tags)
    IsLineage-merged inactive h = (
      λ i t at. elim (same_or_other i gone.id) [
        | inl same ↦ (target, rw same from_gone)
        | inr other ↦
            let (end, path) = h.0 i t (sym (by_id-put_tag_other i gone tags other) ∙ at) in
            Leads-merged path
      ],
      λ i t at merged. elim (same_or_other i gone.id) [
        | inl same ↦
            let row : some gone ≡ some t =
              sym (by_id-put_tag_same gone old tags there) ∙ (rw same at at) in
            let same_t : t ≡ gone = cc in rw same_t inactive
        | inr other ↦ h.1 i t (sym (by_id-put_tag_other i gone tags other) ∙ at) merged
      ],
    )
