-- ===== src/Audience/Closed.antt =====
-- The scope of a report fails closed: a request is granted whole or refused whole.
use mathlib.Core.Path.{subst}
use iceberg_cti.Base.{
  Result-cases, ℕ, ◌≡◌, refl, Bool, true, false, not, List, [], ◌∷◌, map, some, arith, ok, inl, inr,
  all_of, is_some, same_id, not, Bool, ◌==◌, any_of, all_of, select, find_first_sound, All, elem,
  dedup, is_empty, is_none, is_some, same_id, Bool-cases, Option-cases, nat_eq,
}
use iceberg_cti.Models.{AudienceGroup, Report}
use iceberg_cti.Audience.{by_id, pick, resolve_groups, set_report_audience, delete_group}
use iceberg_cti.Access.{Link}

trivial_All : (groups : List AudienceGroup) → All (λ _. Unit {0}) groups
trivial_All [] = tt
trivial_All (g ∷ gs) = (tt, trivial_All gs)

by_id-id :
    (groups : List AudienceGroup) (i : ℕ) (g : AudienceGroup) → by_id groups i ≡ some g → g.id ≡ i
by_id-id groups i g h = ground (
  arith,
  find_first_sound (λ _. Unit {0}) (λ (x : AudienceGroup). x.id == i) groups g (trivial_All groups)
      h,
)

pick_ids :
    (groups : List AudienceGroup) (is : List ℕ)
    → any_of (λ i. is_none (by_id groups i)) is ≡ false
    → map (λ g. g.id) (pick groups is) ≡ is
pick_ids groups [] h = refl
pick_ids groups (i ∷ is) h = elim (Option-cases (by_id groups i)) [
  | inl missing ↦ ground arith
  | inr (g, found) ↦ ground (arith, by_id-id groups i g found, pick_ids groups is)
]

-- Asked for any list of ids, the lookup gives the groups of exactly those ids, each once and in the
-- order of their first mention, or refuses the whole request.
resolve_groups_whole :
    (table : List AudienceGroup) (ids : List ℕ) {groups : List AudienceGroup}
    → resolve_groups table ids ≡ ok groups
    → map (λ g. g.id) groups ≡ dedup ids
unfolding resolve_groups
resolve_groups_whole table ids h =
    ground
      (arith, pick_ids (select (λ (g : AudienceGroup). elem g.id (dedup ids)) table) (dedup ids))

is_empty-dedup : (ids : List ℕ) → is_empty (dedup ids) ≡ is_empty ids
is_empty-dedup [] = refl
is_empty-dedup (i ∷ is) = refl

any_of-not {ℓ} :
    {A : Type ℓ} (p : A → Bool) (xs : List A)
    → any_of (λ x. not (p x)) xs ≡ false
    → all_of p xs ≡ true
any_of-not p [] h = refl
any_of-not p (x ∷ xs) h = ground (arith, any_of-not p xs)

is_empty-map {ℓ κ} :
    {A : Type ℓ} {B : Type κ} (f : A → B) (xs : List A) → is_empty (map f xs) ≡ is_empty xs
is_empty-map f [] = refl
is_empty-map f (x ∷ xs) = refl

-- What a request that succeeds has done, with the groups that it resolved.
pub record IsScoped (old new : Report) (ids : List ℕ) (groups : List AudienceGroup) : Type 0 where
  pub as_requested : new.audience_groups ≡ dedup ids
  pub unscoped_on_request : is_empty new.audience_groups ≡ is_empty ids
  pub demo_kept : is_some old.demo_workspace_id ≡ true → is_empty new.audience_groups ≡ false
  pub resolved : new.audience_groups ≡ map (λ g. g.id) groups
  pub isolated : all_of (λ g. same_id g.demo_workspace_id old.demo_workspace_id) groups ≡ true
  pub rest : record new { audience_groups = old.audience_groups } ≡ old

-- A scope that is set names exactly the groups requested; so a report never becomes unscoped unless
-- the request is the empty list, and never at all if it belongs to a demo workspace. Every group of
-- the new scope belongs to the workspace of the report, and no other field of the row changes.
set_report_audience-IsScoped :
    (table : List AudienceGroup) (report : Report) (ids : List ℕ) {new : Report}
    → set_report_audience table report ids ≡ ok new
    → (groups : List AudienceGroup) × IsScoped report new ids groups
unfolding set_report_audience
set_report_audience-IsScoped table report ids {new} h =
    elim (Result-cases (resolve_groups table ids)) [
      | inr (e, refused) ↦ ground arith
      | inl (groups, found) ↦ (
        groups,
        ground (
          arith,
          resolve_groups_whole table ids found,
          is_empty-dedup ids,
          is_empty-map (λ (g : AudienceGroup). g.id) groups,
          any_of-not (λ (g : AudienceGroup). same_id g.demo_workspace_id report.demo_workspace_id)
              groups,
        ),
      )
    ]

elem-select_ne :
    (table : List AudienceGroup) (i j : ℕ)
    → (i == j) ≡ false
    → elem i (map (λ g. g.id) table) ≡ true
    → elem i (map (λ g. g.id) (select (λ g. not (g.id == j)) table)) ≡ true
elem-select_ne [] i j ne h = h
elem-select_ne (g ∷ gs) i j ne h = ground (arith, elem-select_ne gs i j ne)

unreferenced :
    (table : List AudienceGroup) (links : List Link) (j : ℕ)
    → any_of (λ l. l.1 == j) links ≡ false
    → All (λ l. elem l.1 (map (λ g. g.id) table) ≡ true) links
    → All (λ l. elem l.1 (map (λ g. g.id) (select (λ g. not (g.id == j)) table)) ≡ true) links
unreferenced table [] j none_left k = tt
unreferenced table (l ∷ ls) j none_left k =
    (elem-select_ne table l.1 j (ground arith) k.0, unreferenced table ls j (ground arith) k.1)

-- Deleting a group leaves no dangling scope: where every link names a group of the table, every link
-- still does after a deletion that succeeds.
pub delete_group_safe :
    (table : List AudienceGroup) (links : List Link) (group : AudienceGroup)
    {left : List AudienceGroup}
    → delete_group table links group ≡ ok left
    → All (λ l. elem l.1 (map (λ g. g.id) table) ≡ true) links
    → All (λ l. elem l.1 (map (λ g. g.id) left) ≡ true) links
unfolding delete_group
delete_group_safe table links group h k = elim (Bool-cases (any_of (λ l. l.1 == group.id) links)) [
  | inl used ↦ ground arith
  | inr free ↦
      subst
        (λ (r : List AudienceGroup).
          All (λ (l : Link). elem l.1 (map (λ (g : AudienceGroup). g.id) r) ≡ true) links)
        (ground arith) (unreferenced table links group.id free k)
]
