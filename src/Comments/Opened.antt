-- ===== src/Comments/Opened.antt =====
-- A new thread: what it records, and that its suggestion can be accepted at once.
use iceberg_cti.Comments.Applied.{write_section-dated}
use iceberg_cti.Comments.{
  CommentStatus, ensure_editable, section_text, Instant, Table, is_writer, Draft, ReportComment,
  Desk, User, accept_suggestion, create_thread,
}
use iceberg_cti.Models.{Report}
use iceberg_cti.Base.{
  replace_first, count, is_ok, text_length, is_blank, arith, inl, inr, some, none, ok, true, false,
  nat_eq, string_eq, ◌≡◌, ◌≤◌, ◌&&◌, String, Option-cases,
}

-- What the checks of `create_thread` establish of the new thread.
pub record IsQuoting (report : Report) (author : User) (t : ReportComment) : Type 0 where
  pub by_writer : is_writer author ≡ true
  pub said : (is_blank t.body && is_blank t.suggestion) ≡ false
  pub short_body : text_length t.body ≤ 4000
  pub short_suggestion : text_length t.suggestion ≤ 4000
  pub short_quote : text_length t.anchor_text ≤ 2000
  pub of_revision : t.anchor_version ≡ report.version
  pub root : t.thread_id ≡ none
  pub unclosed : t.status ≡ CommentStatus.open_thread

-- A thread that is created is by a writer, says or suggests something within the limits, and records
-- the revision of the report that it was written against.
create_thread-IsQuoting :
    (desk : Desk) (report : Report) (author : User) (draft : Draft) (table : Table)
    {t : ReportComment} {after : Table}
    → create_thread desk report author draft table ≡ ok (t, after)
    → IsQuoting report author t
unfolding create_thread
create_thread-IsQuoting desk report author draft table h = ground arith

suggestion_quoted :
    (desk : Desk) (report : Report) (author : User) (draft : Draft) (table : Table)
    {t : ReportComment} {after : Table}
    → create_thread desk report author draft table ≡ ok (t, after)
    → is_blank t.suggestion ≡ false
    → (text : String) × (section_text report t.section ≡ some text) × (count t.anchor_text text ≡ 1)
unfolding create_thread
suggestion_quoted desk report author draft table h suggests =
    elim (Option-cases (section_text report draft.section)) [
      | inl nothing ↦ absurd (ground arith)
      | inr (text, has) ↦ (text, ground arith, ground arith)
    ]

-- A suggestion that was just made can be accepted: by a writer who may edit the report, with the version
-- that the thread names, as long as the report is the one it was made on.
accept_new_suggestion :
    (desk desk' : Desk) (report : Report) (author actor : User) (draft : Draft) (table : Table)
    (edited : Instant) {t : ReportComment} {after : Table}
    → create_thread desk report author draft table ≡ ok (t, after)
    → is_blank t.suggestion ≡ false
    → is_writer actor ≡ true
    → is_ok (ensure_editable report actor) ≡ true
    → is_ok (accept_suggestion desk' report t actor t.anchor_version report.version edited) ≡ true
unfolding accept_suggestion
accept_new_suggestion desk desk' report author actor draft table edited {t} h suggests writer
      editor =
    let q = create_thread-IsQuoting desk report author draft table h in
    let (text, has, once) = suggestion_quoted desk report author draft table h suggests in
    let dated =
      write_section-dated t.section report (replace_first t.anchor_text t.suggestion text) in
    rw has (ground (arith, dated.1))
