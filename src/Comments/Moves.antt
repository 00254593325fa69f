-- ===== src/Comments/Moves.antt =====
-- The life of a thread: any sequence of decisions on it, and of other edits of the report.
use iceberg_cti.Comments.{
  close, Instant, is_open, reopen, CommentError, CommentStatus, User, reject, Desk,
  accept_suggestion, resolve,
}
use iceberg_cti.Models.{Report, ReportComment}
use iceberg_cti.Base.{
  is_some, ◌∙◌, [], ◌∷◌, refl, arith, inl, inr, some, none, ok, err, true, false, nat_eq, string_eq,
  ◌≡◌, List, Option, ℕ, Result, Result-cases,
}

-- A decision on the thread at its own time, or another write of the report.
pub data Act : Type 0 where
  resolving rejecting reopening : Desk → User → Act
  accepting : Desk → User → ℕ → ℕ → Instant → Act
  editing : Report → Act

abbrev or_same {ℓ} : {A : Type ℓ} → A → Option A → A
or_same a none = a
or_same a (some b) = b

abbrev thread_after : ReportComment → Result CommentError ReportComment → ReportComment
thread_after thread (ok t) = t
thread_after thread (err e) = thread

abbrev both_after :
    Report × ReportComment → Result CommentError (Report × ReportComment) → Report × ReportComment
both_after s (ok t) = t
both_after s (err e) = s

-- An act that raises changes nothing.
unfoldable pub handle : Report × ReportComment → Act → Report × ReportComment
handle (report, thread) (Act.resolving desk actor) =
    (report, thread_after thread (resolve desk thread actor))
handle (report, thread) (Act.rejecting desk actor) =
    (report, thread_after thread (reject desk thread actor))
handle (report, thread) (Act.reopening desk actor) =
    (report, thread_after thread (reopen desk thread actor))
handle (report, thread) (Act.accepting desk actor expected stored edited) =
    both_after (report, thread) (accept_suggestion desk report thread actor expected stored edited)
handle (report, thread) (Act.editing other) = (other, thread)

unfoldable pub handle_all : Report × ReportComment → List Act → Report × ReportComment
handle_all s [] = s
handle_all s (a ∷ acts) = handle_all (handle s a) acts

-- What a thread records at each status.
pub record IsSound (t : ReportComment) : Type 0 where
  pub open_undated : t.status ≡ CommentStatus.open_thread → t.resolved_at ≡ none
  pub open_undecided : t.status ≡ CommentStatus.open_thread → t.resolved_by_id ≡ none
  pub closed_dated : is_open t.status ≡ false → is_some t.resolved_at ≡ true
  pub closed_decided : is_open t.status ≡ false → is_some t.resolved_by_id ≡ true
  pub accepted_applied : t.status ≡ CommentStatus.accepted → is_some t.applied_version ≡ true
  pub applied_accepted : is_some t.applied_version ≡ true → t.status ≡ CommentStatus.accepted

accept_suggestion-closes :
    (desk : Desk) (report : Report) (thread : ReportComment) (actor : User) (expected stored : ℕ)
    (edited : Instant) {after : Report} {closed : ReportComment}
    → accept_suggestion desk report thread actor expected stored edited ≡ ok (after, closed)
    → (closed ≡ close desk actor CommentStatus.accepted (some after.version) thread)
      × (is_open thread.status ≡ true)
unfolding accept_suggestion
accept_suggestion-closes desk report thread actor expected stored edited h = ground arith

handle-IsSound : (s : Report × ReportComment) (a : Act) → IsSound s.1 → IsSound (handle s a).1
unfolding handle resolve reject reopen
handle-IsSound (report, thread) (Act.resolving desk actor) h = ground arith
handle-IsSound (report, thread) (Act.rejecting desk actor) h = ground arith
handle-IsSound (report, thread) (Act.reopening desk actor) h = ground arith
handle-IsSound (report, thread) (Act.accepting desk actor expected stored edited) h =
    elim (Result-cases (accept_suggestion desk report thread actor expected stored edited)) [
      | inr (e, refused) ↦ rw refused h
      | inl ((after, closed), done) ↦
          let c = accept_suggestion-closes desk report thread actor expected stored edited done in
          rw (done, c.0) (ground arith)
    ]
handle-IsSound (report, thread) (Act.editing other) h = h

-- An open thread has no decision on it; a closed one says when and by whom it was closed; and a thread
-- names a version of the report exactly when its suggestion was accepted. Where this holds of a
-- thread, it holds after any sequence of decisions and of other edits of the report.
pub handle_all-IsSound :
    (s : Report × ReportComment) (acts : List Act) → IsSound s.1 → IsSound (handle_all s acts).1
unfolding handle_all
handle_all-IsSound s [] h = h
handle_all-IsSound s (a ∷ acts) h = handle_all-IsSound (handle s a) acts (handle-IsSound s a h)

handle-accepted :
    (s : Report × ReportComment) (a : Act)
    → s.1.status ≡ CommentStatus.accepted
    → (handle s a).1 ≡ s.1
unfolding handle resolve reject reopen
handle-accepted (report, thread) (Act.resolving desk actor) h = ground arith
handle-accepted (report, thread) (Act.rejecting desk actor) h = ground arith
handle-accepted (report, thread) (Act.reopening desk actor) h = ground arith
handle-accepted (report, thread) (Act.accepting desk actor expected stored edited) h =
    elim (Result-cases (accept_suggestion desk report thread actor expected stored edited)) [
      | inr (e, refused) ↦ rw refused refl
      | inl ((after, closed), done) ↦
          let c = accept_suggestion-closes desk report thread actor expected stored edited done in
          ground arith
    ]
handle-accepted (report, thread) (Act.editing other) h = refl

-- An accepted suggestion stays as it is: no sequence of decisions and edits changes its thread, so that
-- it is never applied again.
handle_all-accepted :
    (s : Report × ReportComment) (acts : List Act)
    → s.1.status ≡ CommentStatus.accepted
    → (handle_all s acts).1 ≡ s.1
unfolding handle_all
handle_all-accepted s [] h = refl
handle_all-accepted s (a ∷ acts) h =
    let same = handle-accepted s a h in handle_all-accepted (handle s a) acts (rw same h) ∙ same
