-- ===== src/Comments/Applied.antt =====
-- Accepting a suggestion: the one edit that it makes, and what it asks for.
use iceberg_cti.Comments.{
  CommentStatus, ensure_editable, User, ReportComment, section_text, write_section,
}
use iceberg_cti.Models.{Report, ReportSection}
use iceberg_cti.Base.{
  is_ok, refl, some, true, nat_eq, string_eq, ◌≡◌, ◌+◌, ℕ, String, IsEdit, count,
}

-- What an accepted suggestion asked for, and what it wrote.
pub record IsApplied (report : Report) (thread : ReportComment) (actor : User) (expected stored : ℕ)
    (after : Report) (closed : ReportComment) : Type 0 where
  pub as_loaded : report.version ≡ expected
  pub as_stored : stored ≡ expected
  pub by_owner : is_ok (ensure_editable report actor) ≡ true
  pub was_open : thread.status ≡ CommentStatus.open_thread
  pub old_text : String
  pub new_text : String
  pub read : section_text report thread.section ≡ some old_text
  pub wrote : section_text after thread.section ≡ some new_text
  pub edited : IsEdit thread.anchor_text thread.suggestion old_text new_text
  pub unique : count thread.anchor_text old_text ≡ 1
  pub bumped : after.version ≡ report.version + 1
  pub rest :
      write_section thread.section old_text
        (record after { updated_at = report.updated_at; version = report.version })
      ≡ report
  pub recorded : closed.applied_version ≡ some after.version
  pub accepted : closed.status ≡ CommentStatus.accepted

pub write_section-dated :
    (s : ReportSection) (report : Report) (text : String)
    → (write_section s text report).updated_at ≡ report.updated_at
      × (write_section s text report).version ≡ report.version
write_section-dated ReportSection.body report text = (refl, refl)
write_section-dated ReportSection.key_judgements report text = (refl, refl)
write_section-dated ReportSection.key_assumptions report text = (refl, refl)
write_section-dated ReportSection.intelligence_gaps report text = (refl, refl)
write_section-dated ReportSection.sources report text = (refl, refl)
write_section-dated ReportSection.attachments report text = (refl, refl)
write_section-dated ReportSection.indicators report text = (refl, refl)
write_section-dated ReportSection.figures report text = (refl, refl)
