-- ===== src/Candidates/Undone.antt =====
-- Reopening a candidate that was accepted.
use iceberg_cti.Candidates.{
  Source, text_or, IocType, cleared, ensure_source, FeedCandidateStatus, some_id, Desk, FeedItem,
  FeedIndicatorCandidate, create_ioc, decide, Drawn, Ioc, accept_candidate, reopen,
}
use iceberg_cti.Base.{
  find_first, or_else, [], ◌∷◌, refl, arith, inl, inr, some, ok, false, nat_eq, string_eq, ◌≡◌, ◌≢◌,
  ◌++◌, ◌==◌, not, List, Option, ℕ, String, All, select, elem, Option-cases, Result-cases,
}

-- What an acceptance has written of the indicators and of the candidate.
abbrev IsAccepted : Drawn → FeedIndicatorCandidate → FeedIndicatorCandidate → Desk → Desk → Type 0
IsAccepted drawn c after desk done =
    (ioc : Ioc) × (ioc.id ≡ drawn.ioc_id)
    × (done.iocs ≡ desk.iocs ++ (ioc ∷ []))
    × (done.cited ≡ desk.cited)
    × (after.ioc_id ≡ some drawn.ioc_id)
    × (after.status ≡ FeedCandidateStatus.accepted)
    × ((actor_id : ℕ) → cleared actor_id after ≡ cleared actor_id c)

create_ioc-id :
    (drawn : Drawn) (notebook_id : ℕ) (ioc_type : IocType) (value description : String)
    (source_id : ℕ) (sources : List Source) (iocs : List Ioc) (made : Ioc × List Ioc)
    → create_ioc drawn notebook_id ioc_type value description source_id sources iocs ≡ ok made
    → (made.0.id ≡ drawn.ioc_id) × (made.1 ≡ iocs ++ (made.0 ∷ []))
unfolding create_ioc
create_ioc-id drawn notebook_id ioc_type value description source_id sources iocs made ran =
    (ground arith, ground arith)

accept_candidate-IsAccepted :
    (drawn : Drawn) (c after : FeedIndicatorCandidate) (actor_id : ℕ) (notebook : Option ℕ)
    (item : FeedItem) (desk done : Desk)
    → accept_candidate drawn c actor_id notebook item desk ≡ ok (after, done)
    → IsAccepted drawn c after desk done
unfolding accept_candidate
accept_candidate-IsAccepted drawn c after actor_id notebook item desk done ran =
    elim (Option-cases (some_id notebook)) [
      | inl missing ↦ ground (arith, missing)
      | inr (notebook_id, given) ↦
          let with_source = ensure_source drawn item notebook_id desk.sources in
          elim (Result-cases (
            create_ioc drawn notebook_id (or_else c.ioc_type IocType.domain)
              (text_or c.normalized_value c.raw_value) (drawn.description item.id) with_source.0.id
              with_source.1 desk.iocs)) [
                | inl (made, created) ↦
                    let result = rw (accept_candidate, given, created) at ran in
                    let (id, grown) =
                      create_ioc-id drawn notebook_id (or_else c.ioc_type IocType.domain)
                        (text_or c.normalized_value c.raw_value) (drawn.description item.id)
                        with_source.0.id with_source.1 desk.iocs made created in
                    (
                      made.0,
                      id,
                      ground (arith, result, grown),
                      ground (arith, result),
                      ground (arith, result, id),
                      ground (arith, result),
                      λ later. ground (arith, result),
                    )
                | inr (e, failed) ↦ ground (arith, given, failed)
              ]
    ]

select-fresh :
    (id : ℕ) (iocs : List Ioc) (ioc : Ioc)
    → All (λ i. i.id ≢ id) iocs
    → ioc.id ≡ id
    → select (λ i. not (i.id == id)) (iocs ++ (ioc ∷ [])) ≡ iocs
select-fresh id [] ioc fresh same = ground (arith, same)
select-fresh id (i ∷ iocs) ioc (off, fresh) same =
    ground (arith, off, select-fresh id iocs ioc fresh same)

-- Reopening undoes an acceptance: where the indicator that the acceptance made got a new id and no report
-- cites it, reopening the candidate succeeds, leaves the indicators as they were before, and the candidate
-- pending and linked to nothing; a source that was made stays.
pub reopen-decide :
    (drawn : Drawn) (c after : FeedIndicatorCandidate) (actor_id later_actor_id : ℕ)
    (notebook other_ioc : Option ℕ) (desk done : Desk)
    → decide drawn c FeedCandidateStatus.accepted actor_id notebook other_ioc desk
      ≡ ok (after, done)
    → All (λ i. i.id ≢ drawn.ioc_id) desk.iocs
    → drawn.ioc_id ≢ 0
    → elem drawn.ioc_id desk.cited ≡ false
    → reopen after later_actor_id done
      ≡ ok (cleared later_actor_id c, record done { iocs = desk.iocs })
unfolding reopen decide
reopen-decide drawn c after actor_id later_actor_id notebook other_ioc desk done ran fresh positive
      uncited =
    elim (Option-cases (find_first (λ i. i.id == c.feed_item_id) desk.items)) [
      | inl missing ↦ ground (arith, missing)
      | inr (item, found) ↦
          let accepted : accept_candidate drawn c actor_id notebook item desk ≡ ok (after, done) =
            ground (arith, found) in
          let (ioc, same, iocs, cited, link, status, clear) =
            accept_candidate-IsAccepted drawn c after actor_id notebook item desk done accepted in
          let free : elem drawn.ioc_id done.cited ≡ false = rw cited uncited in
          let back : select (λ i. not (i.id == drawn.ioc_id)) done.iocs ≡ desk.iocs =
            rw iocs (select-fresh drawn.ioc_id desk.iocs ioc fresh same) in
          let given : some_id (some drawn.ioc_id) ≡ some drawn.ioc_id = ground (arith, positive) in
          rw (reopen, status, link, given, free, back, clear later_actor_id) refl
    ]
