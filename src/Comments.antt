-- ===== src/Comments.antt =====
-- src/iceberg/services/comments.py: editorial threads on the sections of a report, and suggested edits.
-- The digest of a section's text, `str.lower`, the clock, the ids that the database assigns and the stamps
-- of the outbox are the parameters in `Desk`.
pub mod Mentions
pub mod Applied
pub mod Moves
pub mod Opened
mod Tests
use iceberg_cti.Comments.Mentions.{notify_mentions, is_writer, resolve_mentions}
use iceberg_cti.Dissemination.Notify.{Stamp}
use iceberg_cti.Access.{ensure_editable, AccessError}
use iceberg_cti.Base.{
  replace_first, count, is_some, text_length, zero, suc, [], ◌∷◌, refl, arith, inl, inr, false,
  nat_eq, string_eq, ◌>>=◌, ◌>>◌, ◌≡◌, ◌≢◌, ◌≤◌, ◌<◌, ◌↔◌, ◌⊎◌, ◌+◌, ◌++◌, ◌||◌, ℕ, String, All,
  map, select, elem, Bool-cases, Option-cases, Result-cases, ltb, ◌&&◌, str_eq, true, ◌==◌, List,
  is_blank, not, ok, Bool, err, if◌then◌else◌, none, raise_if, some, Option, Result, strip,
}
use iceberg_cti.Outbox.{Table, Settings}
use iceberg_cti.Models.{
  is_open, is_accepted, CommentStatus, Instant, Report, ReportComment, ReportSection, User,
}

-- The sites that raise `CommentError`; `guarded` is what `ensure_editable` raises, and `stale_row` the
-- session's `StaleDataError`, which the application answers with 409.
pub data CommentError : Type 0 where
  writers_only not_found empty_comment comment_too_long quote_too_long : CommentError
  section_not_editable must_quote not_in_section ambiguous_quote : CommentError
  reply_to_reply empty_reply reply_too_long : CommentError
  only_a_thread already_closed accepted_is_history no_replacement : CommentError
  report_moved_on no_longer_unique stale_row : CommentError
  guarded : AccessError → CommentError

-- The settings, the clock at its readings, the next id, and what else a write takes from outside.
pub record Desk : Type 0 where
  pub settings : Settings
  pub stamps : String → Stamp
  pub lower : String → String
  pub digest : String → String
  pub users : List User
  pub id : ℕ
  pub now : Instant
  pub now' : Instant

-- `_SECTION_FIELDS` and `section_text`
abbrev pub section_text : Report → ReportSection → Option String
section_text report ReportSection.body = some report.body_md
section_text report ReportSection.key_judgements = some report.key_judgements
section_text report ReportSection.key_assumptions = some report.key_assumptions
section_text report ReportSection.intelligence_gaps = some report.intelligence_gaps
section_text report _ = none

-- `setattr(report, field, text)`, for a section that has a field.
abbrev pub write_section : ReportSection → String → Report → Report
write_section ReportSection.body text report = record report { body_md = text }
write_section ReportSection.key_judgements text report = record report { key_judgements = text }
write_section ReportSection.key_assumptions text report = record report { key_assumptions = text }
write_section ReportSection.intelligence_gaps text report = record report {
  intelligence_gaps = text;
}
write_section _ text report = report

abbrev pub require_writer : User → Result CommentError (Unit {0})
require_writer user = raise_if (not (is_writer user)) CommentError.writers_only

pub record AnchorState : Type 0 where
  pub section : ReportSection
  pub anchor_version : ℕ
  pub current_version : ℕ
  pub section_changed : Bool
  pub anchor_present : Bool
  pub occurrences : ℕ

-- `text.count(quote) if quote else 0`
abbrev pub occurrences_of : String → String → ℕ
occurrences_of quote text = if is_blank quote then 0 else count quote text

unfoldable pub anchor_state : Desk → Report → ReportComment → AnchorState
anchor_state desk report comment = elim (section_text report comment.section) [
  | none ↦ record {
    section = comment.section;
    anchor_version = comment.anchor_version;
    current_version = report.version;
    section_changed = not (report.version == comment.anchor_version);
    anchor_present = true;
    occurrences = 0;
  }
  | some text ↦ record {
    section = comment.section;
    anchor_version = comment.anchor_version;
    current_version = report.version;
    section_changed = not (str_eq (desk.digest text) comment.anchor_sha256);
    anchor_present =
        not (is_blank comment.anchor_text) && ltb 0 (occurrences_of comment.anchor_text text);
    occurrences = occurrences_of comment.anchor_text text;
  }
]

abbrev pub max_body : ℕ
max_body = 4000

abbrev pub max_anchor : ℕ
max_anchor = 2000

-- What a caller of `create_thread` gives, each text stripped.
pub record Draft : Type 0 where
  pub section : ReportSection
  pub body : String
  pub anchor_text : String
  pub suggestion : String
  pub blocking : Bool

-- The checks of a draft's texts against the section that they are about.
unfoldable pub check_anchor : Draft → Option String → Result CommentError (Unit {0})
check_anchor draft none =
    raise_if (not (is_blank draft.suggestion)) CommentError.section_not_editable
check_anchor draft (some text) = do
  raise_if (not (is_blank draft.suggestion) && is_blank draft.anchor_text) CommentError.must_quote
  raise_if (not (is_blank draft.anchor_text) && count draft.anchor_text text == 0)
      CommentError.not_in_section
  raise_if
      (not (is_blank draft.anchor_text)
        && not (is_blank draft.suggestion)
        && ltb 1 (count draft.anchor_text text))
      CommentError.ambiguous_quote

-- The new row, with the digest of the section's text if it has one.
abbrev pub new_thread : Desk → Report → User → Draft → ReportComment
new_thread desk report author draft = record {
  id = desk.id;
  report_id = report.id;
  thread_id = none;
  author_id = some author.id;
  section = draft.section;
  anchor_version = report.version;
  anchor_text = draft.anchor_text;
  anchor_sha256 = elim (section_text report draft.section) [
    | none ↦ ""
    | some text ↦ desk.digest text
  ];
  body = draft.body;
  suggestion = draft.suggestion;
  blocking = draft.blocking;
  status = CommentStatus.open_thread;
  mentions = resolve_mentions desk.lower desk.users draft.body;
  resolved_at = none;
  resolved_by_id = none;
  applied_version = none;
  created_at = desk.now;
  updated_at = desk.now';
}

abbrev pub stripped : Draft → Draft
stripped draft = record draft {
  body = strip draft.body;
  anchor_text = strip draft.anchor_text;
  suggestion = strip draft.suggestion;
}

-- The new thread, and the outbox with a job for each writer who is mentioned.
unfoldable pub create_thread :
    Desk → Report → User → Draft → Table → Result CommentError (ReportComment × Table)
unfolding check_anchor
create_thread desk report author given table = do
  require_writer author
  let draft : Draft = stripped given
  raise_if (is_blank draft.body && is_blank draft.suggestion) CommentError.empty_comment
  raise_if (ltb max_body (text_length draft.body) || ltb max_body (text_length draft.suggestion))
      CommentError.comment_too_long
  raise_if (ltb max_anchor (text_length draft.anchor_text)) CommentError.quote_too_long
  check_anchor draft (section_text report draft.section)
  let comment : ReportComment = new_thread desk report author draft
  ok (comment, notify_mentions desk.settings desk.stamps comment report comment.mentions table)

unfoldable pub reply :
    Desk
    → Report
    → ReportComment
    → User
    → String
    → Table
    → Result CommentError (ReportComment × Table)
reply desk report thread author given table = do
  require_writer author
  raise_if (is_some thread.thread_id) CommentError.reply_to_reply
  let body : String = strip given
  raise_if (is_blank body) CommentError.empty_reply
  raise_if (ltb max_body (text_length body)) CommentError.reply_too_long
  let draft : Draft = record {
    section = thread.section;
    body = body;
    anchor_text = "";
    suggestion = "";
    blocking = false;
  }
  let comment : ReportComment = record (new_thread desk report author draft) {
    thread_id = some thread.id;
    anchor_sha256 = "";
  }
  ok (comment, notify_mentions desk.settings desk.stamps comment report comment.mentions table)

-- `_close`
abbrev pub close : Desk → User → CommentStatus → Option ℕ → ReportComment → ReportComment
close desk actor outcome applied thread = record thread {
  status = outcome;
  resolved_at = some desk.now;
  resolved_by_id = some actor.id;
  applied_version = applied;
  updated_at = desk.now';
}

unfoldable pub resolve : Desk → ReportComment → User → Result CommentError ReportComment
resolve desk thread actor = do
  require_writer actor
  raise_if (is_some thread.thread_id) CommentError.only_a_thread
  raise_if (not (is_open thread.status)) CommentError.already_closed
  ok (close desk actor CommentStatus.resolved none thread)

unfoldable pub reject : Desk → ReportComment → User → Result CommentError ReportComment
reject desk thread actor = do
  require_writer actor
  raise_if (is_some thread.thread_id) CommentError.only_a_thread
  raise_if (not (is_open thread.status)) CommentError.already_closed
  ok (close desk actor CommentStatus.rejected none thread)

unfoldable pub reopen : Desk → ReportComment → User → Result CommentError ReportComment
reopen desk thread actor = do
  require_writer actor
  raise_if (is_accepted thread.status) CommentError.accepted_is_history
  ok (record thread {
    status = CommentStatus.open_thread;
    resolved_at = none;
    resolved_by_id = none;
    updated_at = desk.now';
  })

-- What `ensure_editable` raises, as an error here.
abbrev pub passed : Result AccessError Report → Result CommentError (Unit {0})
passed (ok _) = ok tt
passed (err e) = err (CommentError.guarded e)

-- The text of a section that has a field.
abbrev pub editable_text : Option String → Result CommentError String
editable_text none = err CommentError.section_not_editable
editable_text (some text) = ok text

-- The commit of an edit: the mapper compares the row's version with the one that was loaded, and adds 1.
abbrev pub edit_report : ℕ → Report → Result CommentError Report
edit_report stored report = do
  raise_if (not (stored == report.version)) CommentError.stale_row
  ok (record report { version = report.version + 1 })

-- `stored` is the version in the database at the commit, and `edited` the clock before it.
unfoldable pub accept_suggestion :
    Desk
    → Report
    → ReportComment
    → User
    → ℕ
    → ℕ
    → Instant
    → Result CommentError (Report × ReportComment)
accept_suggestion desk report thread actor expected stored edited = do
  require_writer actor
  raise_if (is_some thread.thread_id) CommentError.only_a_thread
  raise_if (is_blank thread.suggestion) CommentError.no_replacement
  raise_if (not (is_open thread.status)) CommentError.already_closed
  raise_if (not (report.version == expected)) CommentError.report_moved_on
  passed (ensure_editable report actor)
  text ← editable_text (section_text report thread.section)
  raise_if (not (count thread.anchor_text text == 1)) CommentError.no_longer_unique
  let edited_report : Report =
      record (write_section thread.section (replace_first thread.anchor_text thread.suggestion text)
        report) { updated_at = edited }
  after ← edit_report stored edited_report
  ok (after, close desk actor CommentStatus.accepted (some after.version) thread)
