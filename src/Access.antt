-- ===== src/Access.antt =====
-- src/iceberg/services/reports.py: who may read, own and edit a report. A guard gives the report
-- back or raises an HTTP error; the last definitions are the SQL form of the read rule.
pub mod Agreement
mod Tests
use iceberg_cti.Base.{
  ℕ, Bool, not, ◌&&◌, ◌||◌, List, Result, ok, err, ◌>>=◌, ◌>>◌, raise_if, ◌==◌, any_of, overlaps,
  is_empty, nat_eq,
}
use iceberg_cti.Models.{Report, User, is_admin, is_stakeholder, is_published}

-- The sites that raise `HTTPException`.
pub data AccessError : Type 0 where
  report_not_found not_the_author published_immutable : AccessError

abbrev pub status_code : AccessError → ℕ
status_code AccessError.report_not_found = 404
status_code AccessError.not_the_author = 403
status_code AccessError.published_immutable = 409

unfoldable pub ensure_visible : Report → User → Result AccessError Report
ensure_visible report user = do
  raise_if (is_stakeholder user.role && not (is_published report.status))
      AccessError.report_not_found
  raise_if
      (is_stakeholder user.role
        && not (is_empty report.audience_groups)
        && not (overlaps user.audience_groups report.audience_groups))
      AccessError.report_not_found
  ok report

unfoldable pub ensure_author : Report → User → Result AccessError Report
ensure_author report user = do
  raise_if (not (report.author_id == user.id) && not (is_admin user.role))
      AccessError.not_the_author
  ok report

unfoldable pub ensure_editable : Report → User → Result AccessError Report
unfolding ensure_author
ensure_editable report user = do
  _ ← ensure_author report user
  raise_if (is_published report.status) AccessError.published_immutable
  ok report

-- A row of a link table: `(report_id, group_id)` or `(user_id, group_id)`.
abbrev pub Link : Type 0
Link = ℕ × ℕ

-- `EXISTS (… WHERE report_id = :id)`
abbrev pub is_scoped : List Link → ℕ → Bool
is_scoped report_links report_id = any_of (λ l. l.0 == report_id) report_links

-- `EXISTS (… JOIN … ON group_id WHERE report_id = :id AND user_id = :user)`
abbrev pub has_matching_group : List Link → List Link → ℕ → ℕ → Bool
has_matching_group report_links user_links report_id user_id =
    any_of (λ l. (l.0 == report_id) && any_of (λ m. (m.1 == l.1) && (m.0 == user_id)) user_links)
      report_links

unfoldable pub stakeholder_visibility_clause : List Link → List Link → ℕ → ℕ → Bool
stakeholder_visibility_clause report_links user_links report_id user_id =
    not (is_scoped report_links report_id)
    || has_matching_group report_links user_links report_id user_id
