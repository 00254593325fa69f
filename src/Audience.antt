-- ===== src/Audience.antt =====
-- src/iceberg/services/audience.py: need-to-know groups and the scope of a report. The groups of a
-- report are ids, as in its link table; auditing and the session's commit are left out.
pub mod Closed
mod Tests
use iceberg_cti.Base.{
  ℕ, Bool, not, ◌&&◌, List, [], ◌∷◌, map, Option, none, some, Result, ok, err, ◌>>=◌, ◌>>◌,
  raise_if, ◌==◌, any_of, select, find_first, elem, dedup, is_empty, is_none, is_some, same_id,
  if◌then◌else◌, nat_eq,
}
use iceberg_cti.Models.{AudienceGroup, Report}
use iceberg_cti.Access.{Link}

-- The sites that raise `HTTPException`.
pub data AudienceError : Type 0 where
  unknown_groups outside_demo demo_unscoped demo_reset group_assigned : AudienceError

abbrev pub status_code : AudienceError → ℕ
status_code AudienceError.unknown_groups = 422
status_code AudienceError.outside_demo = 422
status_code AudienceError.demo_unscoped = 422
status_code AudienceError.demo_reset = 409
status_code AudienceError.group_assigned = 409

-- `by_id.get(group_id)`
abbrev pub by_id : List AudienceGroup → ℕ → Option AudienceGroup
by_id groups group_id = find_first (λ g. g.id == group_id) groups

-- `[by_id[group_id] for group_id in requested]`
abbrev pub pick : List AudienceGroup → List ℕ → List AudienceGroup
pick groups [] = []
pick groups (i ∷ is) = elim (by_id groups i) [ none ↦ pick groups is | some g ↦ g ∷ pick groups is ]

unfoldable pub resolve_groups :
    List AudienceGroup → List ℕ → Result AudienceError (List AudienceGroup)
resolve_groups table group_ids =
    let requested = dedup group_ids in
    let groups = select (λ g. elem g.id requested) table in
    if is_empty requested
    then ok []
    else if any_of (λ i. is_none (by_id groups i)) requested
    then err AudienceError.unknown_groups
    else ok (pick groups requested)

-- The report's row with its new scope.
unfoldable pub set_report_audience :
    List AudienceGroup → Report → List ℕ → Result AudienceError Report
set_report_audience table report group_ids = do
  groups ← resolve_groups table group_ids
  raise_if (any_of (λ g. not (same_id g.demo_workspace_id report.demo_workspace_id)) groups)
      AudienceError.outside_demo
  raise_if (is_some report.demo_workspace_id && is_empty groups) AudienceError.demo_unscoped
  ok (record report { audience_groups = map (λ g. g.id) groups })

-- The table of groups with the group gone.
unfoldable pub delete_group :
    List AudienceGroup → List Link → AudienceGroup → Result AudienceError (List AudienceGroup)
delete_group table report_links group = do
  raise_if (is_some group.demo_workspace_id) AudienceError.demo_reset
  raise_if (any_of (λ l. l.1 == group.id) report_links) AudienceError.group_assigned
  ok (select (λ g. not (g.id == group.id)) table)
