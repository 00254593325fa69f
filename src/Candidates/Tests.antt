-- ===== src/Candidates/Tests.antt =====
-- A candidate of a feed item, accepted and reopened.
use iceberg_cti.Candidates.{
  IocType, CandidateError, FeedCandidateStatus, Tlp, cleared, Desk, Drawn, FeedIndicatorCandidate,
  FeedItem, decide, reopen,
}
use iceberg_cti.Base.{[], ◌∷◌, refl, arith, some, none, ok, err, nat_eq, string_eq, ◌≡◌}
use iceberg_cti.Candidates.Undone.{reopen-decide}

abbrev drawn : Drawn
drawn = record {
  source_id = 40;
  ioc_id = 50;
  now = 9;
  strip_markup = λ s. s;
  description = λ id. "Accepted from feed item";
}

abbrev item : FeedItem
item = record {
  id = 3;
  title = "T";
  link = "https://example.org";
  summary = "S";
  content = "";
  ingested_at = none;
}

abbrev desk : Desk
desk = record { items = item ∷ []; notebooks = 7 ∷ []; sources = []; iocs = []; cited = [] }

abbrev found : FeedIndicatorCandidate
found = record {
  id = 1;
  feed_item_id = 3;
  raw_value = "evil.example";
  normalized_value = "";
  ioc_type = none;
  status = FeedCandidateStatus.pending;
  decided_at = none;
  decided_by_id = none;
  notebook_id = none;
  source_id = none;
  ioc_id = none;
  duplicate_ioc_id = none;
}

abbrev taken : FeedIndicatorCandidate
taken = record found {
  status = FeedCandidateStatus.accepted;
  decided_at = some 9;
  decided_by_id = some 2;
  notebook_id = some 7;
  source_id = some 40;
  ioc_id = some 50;
}

abbrev filed : Desk
filed = record desk {
  items = record item { ingested_at = some 9 } ∷ [];
  sources =
      record {
        id = 40;
        notebook_id = 7;
        feed_item_id = some 3;
        title = "T";
        reference = "https://example.org";
        tlp = Tlp.clear;
        summary = "S";
        content_md = "S";
        captured_at = 9;
      }
      ∷ [];
  iocs =
      record {
        id = 50;
        notebook_id = 7;
        ioc_type = IocType.domain;
        value = "evil.example";
        description = "Accepted from feed item";
        tlp = Tlp.clear;
        source_id = some 40;
        created_at = 9;
      }
      ∷ [];
}

found_accepted :
    decide drawn found FeedCandidateStatus.accepted 2 (some 7) none desk ≡ ok (taken, filed)
unfolding decide
found_accepted = refl

reopen-decide_example : reopen taken 5 filed ≡ ok (cleared 5 found, record filed { iocs = [] })
reopen-decide_example =
    reopen-decide drawn found taken 2 5 (some 7) none desk filed found_accepted tt (omega arith)
      refl

-- What is decided is not decided again, and an indicator that a report cites is not taken back.
decided_once :
    decide drawn taken FeedCandidateStatus.rejected 2 none none filed
    ≡ err CandidateError.decided_already
unfolding decide
decided_once = refl

cited_stays : reopen taken 5 (record filed { cited = 50 ∷ [] }) ≡ err CandidateError.ioc_cited
unfolding reopen
cited_stays = refl

duplicate_elsewhere :
    decide drawn found FeedCandidateStatus.duplicate 2 (some 8) (some 50) filed
    ≡ err CandidateError.duplicate_not_found
unfolding decide
duplicate_elsewhere = refl
