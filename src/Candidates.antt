-- ===== src/Candidates.antt =====
-- src/iceberg/services/feed_indicators.py: the decisions on indicators that were found in a feed item, with
-- `create_ioc` of src/iceberg/services/iocs.py and `add_source` of src/iceberg/services/notebooks.py as
-- they are called here.
pub mod Undone
mod Tests
use iceberg_cti.Models.{Instant, Tlp}
use iceberg_cti.Evidence.Rows.{Source}
use iceberg_cti.Base.{
  update_where, any_of, find_first, or_else, same_id, strip, is_blank, raise_if, zero, suc, [], ◌∷◌,
  refl, arith, inl, inr, some, none, ok, err, true, false, nat_eq, string_eq, ◌>>=◌, ◌>>◌, ◌≡◌, ◌≢◌,
  ◌≤◌, ◌<◌, ◌↔◌, ◌⊎◌, ◌+◌, ◌++◌, ◌&&◌, ◌||◌, ◌==◌, not, if◌then◌else◌, Bool, List, Option, ℕ,
  String, Result, All, map, select, elem, Bool-cases, Option-cases, Result-cases,
}

pub data IocType : Type 0 where
  ip_src ip_dst domain hostname url md5 sha1 sha256 email filename cve : IocType

pub data FeedCandidateStatus : Type 0 where
  pending accepted rejected duplicate : FeedCandidateStatus

-- The columns that a decision reads or writes.
pub record FeedIndicatorCandidate : Type 0 where
  pub id : ℕ
  pub feed_item_id : ℕ
  pub raw_value : String
  pub normalized_value : String
  pub ioc_type : Option IocType
  pub status : FeedCandidateStatus
  pub decided_at : Option Instant
  pub decided_by_id : Option ℕ
  pub notebook_id : Option ℕ
  pub source_id : Option ℕ
  pub ioc_id : Option ℕ
  pub duplicate_ioc_id : Option ℕ

pub record Ioc : Type 0 where
  pub id : ℕ
  pub notebook_id : ℕ
  pub ioc_type : IocType
  pub value : String
  pub description : String
  pub tlp : Tlp
  pub source_id : Option ℕ
  pub created_at : Instant

pub record FeedItem : Type 0 where
  pub id : ℕ
  pub title : String
  pub link : String
  pub summary : String
  pub content : String
  pub ingested_at : Option Instant

-- The tables; of the citations of indicators by reports, the ids cited.
pub record Desk : Type 0 where
  pub items : List FeedItem
  pub notebooks : List ℕ
  pub sources : List Source
  pub iocs : List Ioc
  pub cited : List ℕ

-- The sites that raise `HTTPException`.
pub data CandidateError : Type 0 where
  decided_already invalid_decision item_not_found notebook_required notebook_not_found :
      CandidateError
  value_required duplicate_required duplicate_not_found ioc_cited : CandidateError

abbrev pub is_pending_candidate : FeedCandidateStatus → Bool
is_pending_candidate FeedCandidateStatus.pending = true
is_pending_candidate _ = false

-- Python's truth value of an optional id
abbrev pub some_id : Option ℕ → Option ℕ
some_id none = none
some_id (some n) = if n == 0 then none else some n

abbrev pub text_or : String → String → String
text_or s d = if is_blank s then d else s

-- What one request draws: ids for a new source and a new indicator, the clock, the text without markup
-- (`re.sub(r"<[^>]*>", "", …)`), and the description of an indicator, by the id of its item.
pub record Drawn : Type 0 where
  pub source_id : ℕ
  pub ioc_id : ℕ
  pub now : Instant
  pub strip_markup : String → String
  pub description : ℕ → String

abbrev pub source_of_item : FeedItem → ℕ → Source → Bool
source_of_item item notebook_id s =
    (s.notebook_id == notebook_id) && same_id s.feed_item_id (some item.id)

-- `_ensure_source`: the source, and the sources after it.
unfoldable pub ensure_source : Drawn → FeedItem → ℕ → List Source → Source × List Source
ensure_source drawn item notebook_id sources =
    elim (find_first (source_of_item item notebook_id) sources) [
      | some s ↦ (s, sources)
      | none ↦
          let source : Source = record {
            id = drawn.source_id;
            notebook_id = notebook_id;
            feed_item_id = some item.id;
            title = item.title;
            reference = item.link;
            tlp = Tlp.clear;
            summary = drawn.strip_markup (text_or item.summary item.content);
            content_md = drawn.strip_markup (text_or item.content item.summary);
            captured_at = drawn.now;
          } in
          (source, sources ++ (source ∷ []))
    ]

-- `_scoped_source_id` and `_resolve_tlp`, without a marking of its own.
abbrev pub scoped_source : ℕ → ℕ → List Source → Option Source
scoped_source notebook_id source_id sources =
    if source_id == 0 then none else elim (find_first (λ s. s.id == source_id) sources) [
      | none ↦ none
      | some s ↦ if s.notebook_id == notebook_id then some s else none
    ]

abbrev pub tlp_or_amber : Option Source → Tlp
tlp_or_amber none = Tlp.amber
tlp_or_amber (some s) = s.tlp

abbrev pub id_of_source : Option Source → Option ℕ
id_of_source none = none
id_of_source (some s) = some s.id

unfoldable pub create_ioc :
    Drawn
    → ℕ
    → IocType
    → String
    → String
    → ℕ
    → List Source
    → List Ioc
    → Result CandidateError (Ioc × List Ioc)
create_ioc drawn notebook_id ioc_type value description source_id sources iocs = do
  raise_if (is_blank (strip value)) CandidateError.value_required
  let scoped : Option Source = scoped_source notebook_id source_id sources
  let ioc : Ioc = record {
    id = drawn.ioc_id;
    notebook_id = notebook_id;
    ioc_type = ioc_type;
    value = strip value;
    description = description;
    tlp = tlp_or_amber scoped;
    source_id = id_of_source scoped;
    created_at = drawn.now;
  }
  ok (ioc, iocs ++ (ioc ∷ []))

abbrev pub decided_candidate :
    FeedCandidateStatus → Instant → ℕ → FeedIndicatorCandidate → FeedIndicatorCandidate
decided_candidate decision now actor_id c = record c {
  status = decision;
  decided_at = some now;
  decided_by_id = some actor_id;
}

abbrev pub mark_ingested : Instant → FeedItem → FeedItem
mark_ingested now item = record item { ingested_at = some (or_else item.ingested_at now) }

-- `decide` with ACCEPTED, past its guards on the status.
unfoldable pub accept_candidate :
    Drawn
    → FeedIndicatorCandidate
    → ℕ
    → Option ℕ
    → FeedItem
    → Desk
    → Result CandidateError (FeedIndicatorCandidate × Desk)
unfolding ensure_source create_ioc
accept_candidate drawn c actor_id notebook item desk = elim (some_id notebook) [
  | none ↦ err CandidateError.notebook_required
  | some notebook_id ↦ do
    raise_if (not (elem notebook_id desk.notebooks)) CandidateError.notebook_not_found
    let with_source : Source × List Source = ensure_source drawn item notebook_id desk.sources
    made ←
        create_ioc drawn notebook_id (or_else c.ioc_type IocType.domain)
          (text_or c.normalized_value c.raw_value) (drawn.description item.id) with_source.0.id
          with_source.1 desk.iocs
    ok (
      record (decided_candidate FeedCandidateStatus.accepted drawn.now actor_id c) {
        notebook_id = some notebook_id;
        source_id = some with_source.0.id;
        ioc_id = some made.0.id;
      },
      record desk {
        items = update_where (λ i. i.id == item.id) (mark_ingested drawn.now) desk.items;
        sources = with_source.1;
        iocs = made.1;
      },
    )
]

abbrev pub is_ioc_of : ℕ → ℕ → Ioc → Bool
is_ioc_of ioc_id notebook_id i = (i.id == ioc_id) && (i.notebook_id == notebook_id)

unfoldable pub mark_duplicate :
    Drawn
    → FeedIndicatorCandidate
    → ℕ
    → Option ℕ
    → Option ℕ
    → Desk
    → Result CandidateError (FeedIndicatorCandidate × Desk)
mark_duplicate drawn c actor_id (some notebook_id) (some ioc_id) desk = do
  raise_if (not (any_of (is_ioc_of ioc_id notebook_id) desk.iocs))
      CandidateError.duplicate_not_found
  ok (
    record (decided_candidate FeedCandidateStatus.duplicate drawn.now actor_id c) {
      notebook_id = some notebook_id;
      duplicate_ioc_id = some ioc_id;
    },
    desk,
  )
mark_duplicate drawn c actor_id _ _ desk = err CandidateError.duplicate_required

unfoldable pub decide :
    Drawn
    → FeedIndicatorCandidate
    → FeedCandidateStatus
    → ℕ
    → Option ℕ
    → Option ℕ
    → Desk
    → Result CandidateError (FeedIndicatorCandidate × Desk)
unfolding accept_candidate mark_duplicate
decide drawn c decision actor_id notebook other_ioc desk = do
  raise_if (not (is_pending_candidate c.status)) CandidateError.decided_already
  raise_if (is_pending_candidate decision) CandidateError.invalid_decision
  elim (find_first (λ i. i.id == c.feed_item_id) desk.items) [
    | none ↦ err CandidateError.item_not_found
    | some item ↦ elim decision [
      | FeedCandidateStatus.accepted ↦ accept_candidate drawn c actor_id notebook item desk
      | FeedCandidateStatus.duplicate ↦
          mark_duplicate drawn c actor_id (some_id notebook) (some_id other_ioc) desk
      | FeedCandidateStatus.rejected ↦
          ok (decided_candidate FeedCandidateStatus.rejected drawn.now actor_id c, desk)
      | FeedCandidateStatus.pending ↦ err CandidateError.invalid_decision
    ]
  ]

abbrev pub cleared : ℕ → FeedIndicatorCandidate → FeedIndicatorCandidate
cleared actor_id c = record c {
  status = FeedCandidateStatus.pending;
  decided_at = none;
  decided_by_id = some actor_id;
  notebook_id = none;
  source_id = none;
  ioc_id = none;
  duplicate_ioc_id = none;
}

unfoldable pub reopen :
    FeedIndicatorCandidate → ℕ → Desk → Result CandidateError (FeedIndicatorCandidate × Desk)
reopen c actor_id desk =
    if is_pending_candidate c.status then ok (c, desk) else elim (some_id c.ioc_id) [
      | none ↦ ok (cleared actor_id c, desk)
      | some ioc_id ↦ do
        raise_if (elem ioc_id desk.cited) CandidateError.ioc_cited
        ok (cleared actor_id c, record desk { iocs = select (λ i. not (i.id == ioc_id)) desk.iocs })
    ]
