-- ===== src/Access/Tests.antt =====
-- Readers and editors of concrete reports, and the theorems on them.
use iceberg_cti.Base.{string_eq, ◌≡◌, refl, [], ◌∷◌, nat_eq, ok, err, is_ok}
use iceberg_cti.Models.{ReportStatus}
use iceberg_cti.Access.{AccessError, ensure_visible, stakeholder_visibility_clause}
use iceberg_cti.Fixtures.{holder, outsider, report}
use iceberg_cti.Access.Agreement.{stakeholder_visibility_clause_agrees}

holder_reads :
    ensure_visible (report ReportStatus.published) holder ≡ ok (report ReportStatus.published)
unfolding ensure_visible
holder_reads = refl

outsider_gets_404 :
    ensure_visible (report ReportStatus.published) outsider ≡ err AccessError.report_not_found
unfolding ensure_visible
outsider_gets_404 = refl

stakeholder_visibility_clause_agrees_example :
    stakeholder_visibility_clause ((10, 7) ∷ []) ((3, 7) ∷ []) 10 3
    ≡ is_ok (ensure_visible (report ReportStatus.published) holder)
stakeholder_visibility_clause_agrees_example =
    stakeholder_visibility_clause_agrees (report ReportStatus.published) holder ((10, 7) ∷ [])
      ((3, 7) ∷ []) refl refl refl refl
