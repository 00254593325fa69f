-- ===== src/Tags/Links.antt =====
-- What a merge of two terms makes of a table of links.
use iceberg_cti.Tags.Merge.{move_tag_links, without, absent}
use iceberg_cti.Tags.{owners, TagLink}
use iceberg_cti.Base.{
  ◌∙◌, sym, max, length-select, length, [], ◌∷◌, refl, arith, inl, inr, true, false, nat_eq,
  string_eq, ◌≡◌, ◌≢◌, ◌≤◌, ◌+◌, ◌++◌, ◌&&◌, ◌==◌, not, if◌then◌else◌, List, ℕ, map, select, elem,
  Bool-cases,
}

-- The rows of one owner and one tag, of which the composite key admits one.
abbrev pub rows : ℕ → ℕ → List TagLink → ℕ
rows owner tag_id links = length (select (λ l. l.0 == owner && l.1 == tag_id) links)

abbrev pub IsKeyed : List TagLink → Type 0
IsKeyed links = (owner tag_id : ℕ) → rows owner tag_id links ≤ 1

abbrev times : ℕ → List ℕ → ℕ
times o ids = length (select (λ i. i == o) ids)

rows-join : (o t : ℕ) (xs ys : List TagLink) → rows o t (xs ++ ys) ≡ rows o t xs + rows o t ys
rows-join o t [] ys = omega arith
rows-join o t (x ∷ xs) ys = ground (arith, rows-join o t xs ys)

rows-without_same : (o t : ℕ) (links : List TagLink) → rows o t (without t links) ≡ 0
rows-without_same o t [] = refl
rows-without_same o t (l ∷ links) = ground (arith, rows-without_same o t links)

rows-without_other :
    (o t s : ℕ) (links : List TagLink) → t ≢ s → rows o t (without s links) ≡ rows o t links
rows-without_other o t s [] h = refl
rows-without_other o t s (l ∷ links) h = ground (arith, h, rows-without_other o t s links h)

rows-new_same : (o t : ℕ) (ids : List ℕ) → rows o t (map (λ i. (i, t)) ids) ≡ times o ids
rows-new_same o t [] = refl
rows-new_same o t (i ∷ ids) = ground (arith, rows-new_same o t ids)

rows-new_other : (o t s : ℕ) (ids : List ℕ) → t ≢ s → rows o t (map (λ i. (i, s)) ids) ≡ 0
rows-new_other o t s [] h = refl
rows-new_other o t s (i ∷ ids) h = ground (arith, h, rows-new_other o t s ids h)

times-owners : (o t : ℕ) (links : List TagLink) → times o (owners t links) ≡ rows o t links
times-owners o t [] = refl
times-owners o t (l ∷ links) = ground (arith, times-owners o t links)

times-absent_out :
    (o : ℕ) (present ids : List ℕ) → elem o present ≡ true → times o (absent present ids) ≡ 0
times-absent_out o present [] h = refl
times-absent_out o present (i ∷ ids) h = elim (Bool-cases (i == o)) [
  | inl hit ↦
      let same : i ≡ o = ground (arith, hit) in rw (same, h) (times-absent_out o present ids h)
  | inr miss ↦ ground (arith, miss, times-absent_out o present ids h)
]

times-absent_in :
    (o : ℕ) (present ids : List ℕ)
    → elem o present ≡ false
    → times o (absent present ids) ≡ times o ids
times-absent_in o present [] h = refl
times-absent_in o present (i ∷ ids) h = elim (Bool-cases (i == o)) [
  | inl hit ↦
      let same : i ≡ o = ground (arith, hit) in
      ground (arith, same, h, times-absent_in o present ids h)
  | inr miss ↦ ground (arith, miss, times-absent_in o present ids h)
]

times-elem : (o : ℕ) (ids : List ℕ) → elem o ids ≡ true → 1 ≤ times o ids
times-elem o [] h = cc
times-elem o (i ∷ ids) h = elim (Bool-cases (o == i)) [
  | inl hit ↦ ground (arith, hit)
  | inr miss ↦ ground (arith, miss, times-elem o ids (rw miss at h))
]

times-not_elem : (o : ℕ) (ids : List ℕ) → elem o ids ≡ false → times o ids ≡ 0
times-not_elem o [] h = refl
times-not_elem o (i ∷ ids) h = ground (arith, h, times-not_elem o ids)

length-absent : (present ids : List ℕ) → length (absent present ids) ≤ length ids
length-absent present ids = length-select (λ o. not (elem o present)) ids

-- What the row count of one owner and one tag is after the source's rows went and the target's came.
abbrev pub rows_after : ℕ → ℕ → ℕ → ℕ → List TagLink → ℕ
rows_after source target o t links =
    if t == source
    then 0
    else if t == target
    then max (rows o source links) (rows o target links)
    else rows o t links

module _ (source target : ℕ) (links : List TagLink) where
  abbrev to_move : List ℕ
  to_move = absent (owners target links) (owners source links)

  -- Where no pair has two rows, an owner that the target has is not moved, and another is moved once.
  target_rows :
      (o : ℕ)
      → IsKeyed links
      → rows o target links + times o to_move ≡ max (rows o source links) (rows o target links)
  target_rows o keyed =
      let present = times-owners o target links in
      let from = times-owners o source links in
      let one = keyed o source in
      let two = keyed o target in
      elim (Bool-cases (elem o (owners target links))) [
        | inl there ↦
            let none_moved = times-absent_out o (owners target links) (owners source links) there in
            let at_least = times-elem o (owners target links) there in
            omega (arith, none_moved, at_least, present, one, two)
        | inr missing ↦
            let all_moved = times-absent_in o (owners target links) (owners source links) missing in
            let no_row = times-not_elem o (owners target links) missing in
            omega (arith, all_moved, no_row, present, from)
      ]

-- A merge moves the links of its source. Where the two terms differ and no pair of owner and tag has two
-- rows: after the move the source has no row; an owner has a row of the target exactly where it had one
-- of either, and no second one; the rows of each other tag are as before; and the counts of moved and of
-- deduplicated links add up to the links that the source had.
pub move_tag_links-rows :
    (source target : ℕ) (links : List TagLink)
    → IsKeyed links
    → target ≢ source
    → ((o t : ℕ)
        → rows o t (move_tag_links source target links).links ≡ rows_after source target o t links)
      × ((move_tag_links source target links).moved
            + (move_tag_links source target links).deduplicated
          ≡ length (owners source links))
unfolding move_tag_links
move_tag_links-rows source target links keyed apart =
    let moving = to_move source target links in
    (
      λ o t.
          let split = rows-join o t (without source links) (map (λ i. (i, target)) moving) in
          elim (Bool-cases (t == source)) [
            | inl at_source ↦
                let t_is : t ≡ source = ground (arith, at_source) in
                let gone : rows o t (without source links) ≡ 0 =
                  rw t_is (rows-without_same o source links) in
                let no_new = rows-new_other o t target moving (λ e. apart (sym e ∙ t_is)) in
                rw at_source (omega (arith, split, gone, no_new))
            | inr off_source ↦
                let t_off : t ≢ source = ground (arith, off_source) in
                let kept = rows-without_other o t source links t_off in
                elim (Bool-cases (t == target)) [
                  | inl at_target ↦
                      let t_is : t ≡ target = ground (arith, at_target) in
                      let new : rows o t (map (λ i. (i, target)) moving) ≡ times o moving =
                        rw t_is (rows-new_same o target moving) in
                      let kept_target : rows o t (without source links) ≡ rows o target links =
                        rw t_is (rw t_is at kept) in
                      rw (off_source, at_target)
                        (omega
                          (arith, split, kept_target, new, target_rows source target links o keyed))
                  | inr off_target ↦
                      let no_new = rows-new_other o t target moving (ground (arith, off_target)) in
                      rw (off_source, off_target) (omega (arith, split, kept, no_new))
                ]
          ],
      omega (arith, length-absent (owners target links) (owners source links)),
    )
