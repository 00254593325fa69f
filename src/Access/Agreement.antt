-- ===== src/Access/Agreement.antt =====
-- The read rule and its SQL form agree, and the guards say what they promise.
use iceberg_cti.Base.{
  ℕ, ◌≡◌, refl, ◌≢◌, ◌↔◌, ◌⊎◌, true, false, not, ◌&&◌, ◌||◌, List, [], ◌∷◌, arith, ok, is_ok, ◌==◌,
  any_of, elem, overlaps, is_empty, if◌then◌else◌, nat_eq,
}
use iceberg_cti.Models.{Report, User, Role, ReportStatus, is_stakeholder}
use iceberg_cti.Access.{
  ensure_visible, ensure_editable, Link, is_scoped, has_matching_group,
  stakeholder_visibility_clause,
}

-- The ids that a link table gives one owner: what the ORM loads as the relationship.
abbrev pub linked : ℕ → List Link → List ℕ
linked owner [] = []
linked owner (l ∷ ls) = if l.0 == owner then l.1 ∷ linked owner ls else linked owner ls

is_scoped-linked : (ls : List Link) (r : ℕ) → is_scoped ls r ≡ not (is_empty (linked r ls))
is_scoped-linked [] r = refl
is_scoped-linked (l ∷ ls) r = ground (arith, is_scoped-linked ls r)

elem-linked :
    (ls : List Link) (u g : ℕ) → any_of (λ m. (m.1 == g) && (m.0 == u)) ls ≡ elem g (linked u ls)
elem-linked [] u g = refl
elem-linked (l ∷ ls) u g = ground (arith, elem-linked ls u g)

has_matching_group-linked :
    (rs us : List Link) (r u : ℕ)
    → has_matching_group rs us r u ≡ overlaps (linked r rs) (linked u us)
has_matching_group-linked [] us r u = refl
has_matching_group-linked (l ∷ rs) us r u =
    ground (arith, elem-linked us u l.1, has_matching_group-linked rs us r u)

overlaps-nil : (xs : List ℕ) → overlaps xs [] ≡ false
overlaps-nil [] = refl
overlaps-nil (x ∷ xs) = overlaps-nil xs

overlaps-cons : (y : ℕ) (xs ys : List ℕ) → overlaps xs (y ∷ ys) ≡ (elem y xs || overlaps xs ys)
overlaps-cons y [] ys = refl
overlaps-cons y (x ∷ xs) ys = ground (arith, overlaps-cons y xs ys)

pub overlaps_comm : (xs ys : List ℕ) → overlaps xs ys ≡ overlaps ys xs
overlaps_comm xs [] = overlaps-nil xs
overlaps_comm xs (y ∷ ys) = ground (arith, overlaps-cons y xs ys, overlaps_comm xs ys)

-- For a published report whose groups are those of the link table, and a stakeholder whose groups
-- are those of theirs, the SQL clause holds exactly where `ensure_visible` lets the report through.
pub stakeholder_visibility_clause_agrees :
    (report : Report) (user : User) (report_links user_links : List Link)
    → report.status ≡ ReportStatus.published
    → user.role ≡ Role.stakeholder
    → report.audience_groups ≡ linked report.id report_links
    → user.audience_groups ≡ linked user.id user_links
    → stakeholder_visibility_clause report_links user_links report.id user.id
      ≡ is_ok (ensure_visible report user)
unfolding stakeholder_visibility_clause ensure_visible
stakeholder_visibility_clause_agrees report user rs us pub_ holder rg ug = ground (
  arith,
  is_scoped-linked rs report.id,
  has_matching_group-linked rs us report.id user.id,
  overlaps_comm user.audience_groups report.audience_groups,
)

-- A stakeholder reads a report exactly when it is published, and is unscoped or scoped to one of
-- their groups; every other role reads every report.
ensure_visible_iff :
    (report : Report) (user : User)
    → (ensure_visible report user ≡ ok report) ↔ (
        (is_stakeholder user.role ≡ false)
        ⊎ ((report.status ≡ ReportStatus.published)
            × ((report.audience_groups ≡ [])
                ⊎ (overlaps user.audience_groups report.audience_groups ≡ true))))
unfolding ensure_visible
ensure_visible_iff report user = ground arith

-- Content edits pass exactly for the author or an admin, and only before publication.
ensure_editable_iff :
    (report : Report) (user : User)
    → (is_ok (ensure_editable report user) ≡ true) ↔ (
        ((report.author_id ≡ user.id) ⊎ (user.role ≡ Role.admin))
        × (report.status ≢ ReportStatus.published))
unfolding ensure_editable
ensure_editable_iff report user = ground arith
