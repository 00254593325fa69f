-- ===== src/Comments/Tests.antt =====
-- Threads on concrete reports, and the theorems on them.
use iceberg_cti.Access.{ensure_editable}
use iceberg_cti.Comments.Moves.{handle_all-IsSound, Act, IsSound, handle_all}
use iceberg_cti.Comments.{
  resolve_mentions, CommentStatus, notify_mentions, CommentError, ReportSection, check_anchor,
  close, new_thread, Desk, Draft, accept_suggestion, create_thread,
}
use iceberg_cti.Models.{ReportStatus, Report, ReportComment}
use iceberg_cti.Base.{
  replace_first, count, is_ok, [], ◌∷◌, refl, arith, some, ok, err, true, nat_eq, string_eq, ◌≡◌,
  List,
}
use iceberg_cti.Comments.Mentions.{notify_mentions, resolve_mentions, find_mentions}
use iceberg_cti.Fixtures.{author, reviewer, holder, report}

abbrev desk : Desk
desk = record {
  settings = record { jobs_max_attempts = 3; jobs_lease_seconds = 60; jobs_retry_base_seconds = 2 };
  stamps = λ _. record { id = 5; now = 1; now' = 2; raced = [] };
  lower = λ s. s;
  digest = λ s. s;
  users = author ∷ reviewer ∷ holder ∷ [];
  id = 4;
  now = 6;
  now' = 7;
}

abbrev drafted : Report
drafted = record (report ReportStatus.draft) { body_md = "one two three" }

abbrev suggestion : Draft
suggestion = record {
  section = ReportSection.body;
  body = "see @a1";
  anchor_text = " two ";
  suggestion = "2";
  blocking = true;
}

one_two : count "two" "one two three" ≡ 1
unfolding count
one_two = refl

overlapping_count : count "aa" "aaaaa" ≡ 2
unfolding count
overlapping_count = refl

blank_count : count "" "abc" ≡ 4
unfolding count
blank_count = refl

handles_found : find_mentions 0 "x@ann.b, @c @de" ≡ "ann.b" ∷ "de" ∷ []
unfolding find_mentions
handles_found = refl

stakeholder_may_not_comment :
    create_thread desk drafted holder suggestion [] ≡ err CommentError.writers_only
unfolding create_thread
stakeholder_may_not_comment = refl

ambiguous_refused :
    create_thread desk (record drafted { body_md = "two two" }) reviewer suggestion []
    ≡ err CommentError.ambiguous_quote
unfolding create_thread check_anchor count
ambiguous_refused = refl

abbrev thread : ReportComment
thread = new_thread desk drafted reviewer (record suggestion { anchor_text = "two" })

creates : create_thread desk drafted reviewer suggestion [] ≡ ok (thread, [])
unfolding create_thread check_anchor count notify_mentions resolve_mentions
creates = refl

author_may_edit : is_ok (ensure_editable drafted author) ≡ true
unfolding ensure_editable
author_may_edit = refl

abbrev edited : Report
edited = record drafted { body_md = "one 2 three"; updated_at = 9; version = 2 }

abbrev closed : ReportComment
closed = close desk author CommentStatus.accepted (some 2) thread

reloading_asked :
    accept_suggestion desk drafted thread author 3 1 9 ≡ err CommentError.report_moved_on
unfolding accept_suggestion
reloading_asked = refl

abbrev acts : List Act
acts =
    Act.rejecting desk reviewer ∷ Act.reopening desk reviewer ∷ Act.accepting desk author 1 1 9 ∷ []

thread-IsSound : IsSound thread
thread-IsSound = ground arith

handle_all-IsSound_example : IsSound (handle_all (drafted, thread) acts).1
handle_all-IsSound_example = handle_all-IsSound (drafted, thread) acts thread-IsSound

-- The passage stands in two places, which overlap, and is counted once.
abbrev overlapping : Report
overlapping = record drafted { body_md = "ababa" }

abbrev thread_on_overlap : ReportComment
thread_on_overlap = new_thread desk overlapping reviewer (record suggestion { anchor_text = "aba" })

overlap_accepted :
    accept_suggestion desk overlapping thread_on_overlap author 1 1 9
    ≡ ok (
      record overlapping { body_md = "2ba"; updated_at = 9; version = 2 },
      close desk author CommentStatus.accepted (some 2) thread_on_overlap,
    )
unfolding accept_suggestion ensure_editable count replace_first
overlap_accepted = refl
