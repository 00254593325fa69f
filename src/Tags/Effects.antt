-- ===== src/Tags/Effects.antt =====
-- What a request that succeeds has written, and the guards that it passed.
use iceberg_cti.Tags.Removed.{remaining, points_at}
use iceberg_cti.Tags.Merge.{
  move_tag_links, canonical, retired, TagMergeResult, merge_tags, without, check_merge,
}
use iceberg_cti.Tags.Rename.{undo_rename, renamed, rename_impact, RenameImpact, rename_tag}
use iceberg_cti.Tags.{
  by_id, delete_tag, tactics_or, new_label, activated, put_tag, relabel, update_tag,
  normalise_attack_tactics, Tag, Taxonomy, TagFields, TagKind, Instant, Letters, create_tag,
}
use iceberg_cti.Base.{
  strip, sym, is_empty, any_of, ◌∙◌, is_some, or_else, [], ◌∷◌, refl, arith, inl, inr, some, none,
  ok, true, false, nat_eq, string_eq, ◌≡◌, ◌≢◌, ◌++◌, ◌==◌, Bool, List, Option, ℕ, String,
  Bool-cases, Result-cases,
}

pub create_tag-effect :
    (letters : Letters) (id : ℕ) (now now' : Instant) (kind : TagKind) (given : String)
    (f : TagFields) (x y : Taxonomy) (tag : Tag)
    → create_tag letters id now now' kind given f x ≡ ok (tag, y)
    → (y.tags ≡ x.tags ++ (tag ∷ []))
      × (tag.merged_into_tag_id ≡ none)
      × (y.report_tags ≡ x.report_tags)
      × (y.subscriptions ≡ x.subscriptions)
unfolding create_tag
create_tag-effect letters id now now' kind given f x y tag done =
    elim (Result-cases (normalise_attack_tactics letters (or_else f.attack_tactics []) kind)) [
      | inl good ↦ ground (arith, good)
      | inr bad ↦ ground (arith, bad)
    ]

-- The row is replaced by one with its id and pointer, which is active only where the row was or where it
-- is not merged; the links stay.
abbrev pub IsRewrite : Tag → Tag → Taxonomy → Taxonomy → Type 0
IsRewrite tag after x y =
    (y.tags ≡ put_tag after x.tags)
    × (after.id ≡ tag.id)
    × (after.merged_into_tag_id ≡ tag.merged_into_tag_id)
    × (is_some tag.merged_into_tag_id ≡ true → tag.active ≡ false → after.active ≡ false)
    × (y.report_tags ≡ x.report_tags)
    × (y.subscriptions ≡ x.subscriptions)

relabel-keeps :
    (letters : Letters) (tag after : Tag) (label : Option String) (tags : List Tag)
    → relabel letters tag label tags ≡ ok after
    → (after.id ≡ tag.id)
      × (after.merged_into_tag_id ≡ tag.merged_into_tag_id)
      × (after.active ≡ tag.active)
unfolding relabel
relabel-keeps letters tag after none tags done = ground arith
relabel-keeps letters tag after (some label) tags done = ground arith

activated-inactive :
    (tag : Tag) (given : Option Bool) (b : Bool)
    → activated tag given ≡ ok b
    → is_some tag.merged_into_tag_id ≡ true
    → tag.active ≡ false
    → b ≡ false
activated-inactive tag none b done merged inactive = ground arith
activated-inactive tag (some true) b done merged inactive = ground arith
activated-inactive tag (some false) b done merged inactive = ground arith

pub update_tag-effect :
    (letters : Letters) (tag : Tag) (f : TagFields) (at : Instant) (x y : Taxonomy) (after : Tag)
    → update_tag letters tag f at x ≡ ok (after, y)
    → IsRewrite tag after x y
unfolding update_tag
update_tag-effect letters tag f at x y after done =
    elim (Result-cases (relabel letters tag (new_label tag f.label) x.tags)) [
      | inl (new, renamed) ↦ elim (Result-cases (tactics_or letters new f.attack_tactics)) [
        | inl (tactics, chosen) ↦ elim (Result-cases (activated new f.active)) [
          | inl (active, set) ↦
              let (ids, merged, was) =
                relabel-keeps letters tag new (new_label tag f.label) x.tags renamed in
              let off = activated-inactive new f.active active set in
              let written = rw (update_tag, renamed, chosen, set) at done in
              (
                ground (arith, written),
                ground (arith, written, ids),
                ground (arith, written, merged),
                λ was_merged inactive.
                    let now_off : active ≡ false = off (rw merged was_merged) (was ∙ inactive) in
                    ground (arith, written, now_off),
                ground (arith, written),
                ground (arith, written),
              )
          | inr bad ↦ ground (arith, renamed, chosen, bad)
        ]
        | inr bad ↦ ground (arith, renamed, bad)
      ]
      | inr bad ↦ ground (arith, bad)
    ]

pub put_tag_self :
    (tag : Tag) (tags : List Tag) → by_id tag.id tags ≡ some tag → put_tag tag tags ≡ tags
put_tag_self tag [] e = refl
put_tag_self tag (x ∷ xs) e = elim (Bool-cases (x.id == tag.id)) [
  | inl hit ↦
      let row : some x ≡ some tag = rw hit at e in let same : x ≡ tag = cc in rw (hit, same) refl
  | inr miss ↦ rw (miss, put_tag_self tag xs (rw miss at e)) refl
]

pub rename_tag-effect :
    (letters : Letters) (tag : Tag) (given : String) (at : Instant) (x y : Taxonomy)
    (impact : RenameImpact)
    → by_id tag.id x.tags ≡ some tag
    → rename_tag letters tag given at x ≡ ok (impact, y)
    → IsRewrite tag impact.tag x y
unfolding rename_tag
rename_tag-effect letters tag given at x y impact there done =
    elim (Bool-cases (is_empty (rename_impact letters tag given x).conflicts)) [
      | inl free ↦ elim (Bool-cases (rename_impact letters tag given x).unchanged) [
        | inl same ↦
            let written = rw (rename_tag, free, same) at done in
            let same_tag : impact.tag ≡ tag = ground (arith, written) in
            let same_x : y ≡ x = ground (arith, written) in
            rw (same_tag, same_x)
              (
                sym (put_tag_self tag x.tags there),
                refl,
                refl,
                λ merged inactive. inactive,
                refl,
                refl,
              )
        | inr new ↦
            let written = rw (rename_tag, free, new) at done in
            let new_tag : impact.tag ≡ renamed letters tag (strip given) at =
              ground (arith, written) in
            rw new_tag (
              ground (arith, written),
              refl,
              refl,
              λ merged inactive. inactive,
              ground (arith, written),
              ground (arith, written),
            )
      ]
      | inr blocked ↦ ground (arith, blocked)
    ]

pub delete_tag-effect :
    (tag : Tag) (at : Instant) (x y : Taxonomy)
    → delete_tag tag at x ≡ ok y
    → (any_of (points_at tag.id) x.tags ≡ false)
      × (y.tags ≡ remaining tag.id x.tags)
      × (y.report_tags ≡ without tag.id x.report_tags)
      × (y.subscriptions ≡ without tag.id x.subscriptions)
unfolding delete_tag
delete_tag-effect tag at x y done = ground arith

pub check_merge-effect :
    (source target : Tag) (u : Unit)
    → check_merge source target ≡ ok u
    → (target.id ≢ source.id) × (source.merged_into_tag_id ≡ none) × (target.active ≡ true)
unfolding check_merge
check_merge-effect source target u done = ground arith

pub merge_tags-effect :
    (letters : Letters) (conflict : Bool) (source target : Tag) (at merged_at : Instant)
    (x y : Taxonomy) (result : TagMergeResult)
    → merge_tags letters conflict source target at merged_at x ≡ ok (result, y)
    → (target.id ≢ source.id)
      × (source.merged_into_tag_id ≡ none)
      × (target.active ≡ true)
      × (y.tags
          ≡ put_tag
              (retired source target.id at merged_at)
              (put_tag (canonical letters source target at) x.tags))
      × (y.report_tags ≡ (move_tag_links source.id target.id x.report_tags).links)
      × (y.subscriptions ≡ (move_tag_links source.id target.id x.subscriptions).links)
unfolding merge_tags
merge_tags-effect letters conflict source target at merged_at x y result done =
    elim (Result-cases (check_merge source target)) [
      | inl (u, passed) ↦
          let (apart, unmerged, active) = check_merge-effect source target u passed in
          (
            apart,
            unmerged,
            active,
            ground (arith, passed),
            ground (arith, passed),
            ground (arith, passed),
          )
      | inr bad ↦ ground (arith, bad)
    ]

pub undo_rename-effect :
    (letters : Letters) (tag : Tag) (given : String) (at undone_at : Instant) (x y : Taxonomy)
    (after : Tag)
    → undo_rename letters tag given at undone_at x ≡ ok (after, y)
    → (impact : RenameImpact) × (mid : Taxonomy) × (rename_tag letters tag (strip given) at x
        ≡ ok (impact, mid))
      × IsRewrite impact.tag after mid y
unfolding undo_rename
undo_rename-effect letters tag given at undone_at x y after done =
    elim (Result-cases (rename_tag letters tag (strip given) at x)) [
      | inl (back, renamed_back) ↦ (
        back.0,
        back.1,
        renamed_back,
        (
          ground (arith, renamed_back),
          ground (arith, renamed_back),
          ground (arith, renamed_back),
          λ merged inactive. ground (arith, renamed_back, inactive),
          ground (arith, renamed_back),
          ground (arith, renamed_back),
        ),
      )
      | inr bad ↦ ground (arith, bad)
    ]
