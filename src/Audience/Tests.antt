-- ===== src/Audience/Tests.antt =====
-- Scopes of concrete reports, and the theorems on them.
use iceberg_cti.Base.{string_eq, ◌≡◌, refl, true, List, [], ◌∷◌, All, elem, nat_eq, ok, err}
use iceberg_cti.Models.{ReportStatus, Report, AudienceGroup}
use iceberg_cti.Access.{Link}
use iceberg_cti.Audience.{AudienceError, resolve_groups, set_report_audience, delete_group}
use iceberg_cti.Fixtures.{group, report}
use iceberg_cti.Audience.Closed.{delete_group_safe}

abbrev groups : List AudienceGroup
groups = group 7 ∷ group 8 ∷ []

unknown_id_refused : resolve_groups groups (7 ∷ 9 ∷ []) ≡ err AudienceError.unknown_groups
unfolding resolve_groups
unknown_id_refused = refl

resolves : resolve_groups groups (8 ∷ 7 ∷ 8 ∷ []) ≡ ok (group 8 ∷ group 7 ∷ [])
unfolding resolve_groups
resolves = refl

abbrev rescoped : Report
rescoped = record (report ReportStatus.draft) { audience_groups = 8 ∷ [] }

rescopes : set_report_audience groups (report ReportStatus.draft) (8 ∷ []) ≡ ok rescoped
unfolding set_report_audience resolve_groups
rescopes = refl

deletes : delete_group groups ((10, 7) ∷ []) (group 8) ≡ ok (group 7 ∷ [])
unfolding delete_group
deletes = refl

delete_group_safe_example : All (λ (l : Link). elem l.1 (7 ∷ []) ≡ true) ((10, 7) ∷ [])
delete_group_safe_example = delete_group_safe groups ((10, 7) ∷ []) (group 8) deletes (refl, tt)
