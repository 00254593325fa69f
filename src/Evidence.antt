-- ===== src/Evidence.antt =====
-- src/iceberg/services/evidence.py: items offered by other systems, and the decisions on them.
pub mod Rows
pub mod Offered
pub mod Replay
pub mod History
pub mod Life
mod Tests
use iceberg_cti.Evidence.Rows.{
  EvidenceError, EvidenceState, Source, is_live, is_revoked, EvidenceReference,
}
use iceberg_cti.Models.Rank.{tlp_rank}
use iceberg_cti.Policy.Rules.{text_of, Python}
use iceberg_cti.Evidence.Offered.{max_text, Envelope, Wire, validate}
use iceberg_cti.Models.{Instant, Json, Tlp, Fields, Report, User}
use iceberg_cti.Base.{
  insert_by, update_where, leb, prefix, raise_if, str_le, find_first, sort_by, str_eq, strip,
  is_blank, join, zero, suc, [], ◌∷◌, refl, arith, inl, inr, some, none, ok, err, true, false,
  nat_eq, string_eq, ◌>>=◌, ◌>>◌, ◌≡◌, ◌≢◌, ◌≤◌, ◌<◌, ◌↔◌, ◌⊎◌, ◌+◌, ◌++◌, ◌&&◌, ◌||◌, ◌==◌, not,
  if◌then◌else◌, Bool, List, Option, ℕ, String, Result, All, map, select, elem, Bool-cases,
  Option-cases, Result-cases,
}

-- The settings, the library calls, the clock at its two readings, and the ids that the database
-- assigns.
pub record Desk : Type 0 where
  pub wire : Wire
  pub floor : Tlp
  pub same : Fields → Fields → Bool
  pub id : ℕ
  pub source_id : ℕ
  pub now : Instant
  pub now' : Instant

-- `_strengthen`
unfoldable pub strengthen : Tlp → Tlp → Tlp
unfolding tlp_rank
strengthen floor marking = if leb (tlp_rank floor) (tlp_rank marking) then marking else floor

abbrev pub same_item : Envelope → EvidenceReference → Bool
same_item e r = str_eq r.source_system e.source_system && str_eq r.external_id e.external_id

abbrev pub same_identity : Envelope → EvidenceReference → Bool
same_identity e r = same_item e r && str_eq r.revision e.revision

abbrev pub identity_match : Envelope → List EvidenceReference → Option EvidenceReference
identity_match e rows = find_first (same_identity e) rows

abbrev pub same_content : Desk → EvidenceReference → Envelope → Bool
same_content desk existing e = desk.same existing.payload e.payload

-- The rows that a new revision takes the place of.
abbrev pub is_older : Envelope → EvidenceReference → Bool
is_older e r = same_item e r && is_live r.state

abbrev pub supersede : EvidenceReference → EvidenceReference
supersede r = record r { state = EvidenceState.superseded }

abbrev pub new_reference : Desk → ℕ → Envelope → User → EvidenceReference
unfolding strengthen
new_reference desk notebook_id e actor = record {
  id = desk.id;
  notebook_id = notebook_id;
  schema_version = e.schema_version;
  source_system = e.source_system;
  external_id = e.external_id;
  revision = e.revision;
  evidence_type = e.evidence_type;
  title = e.title;
  summary = e.summary;
  deep_link = e.deep_link;
  tlp = strengthen desk.floor e.declared_tlp;
  content_sha256 = e.content_sha256;
  provenance = e.provenance;
  payload = e.payload;
  state = EvidenceState.pending;
  received_at = desk.now;
  received_by_id = some actor.id;
  decided_at = none;
  decided_by_id = none;
  source_id = none;
  revoked_at = none;
  revoked_reason = "";
}

pub record IntakeResult : Type 0 where
  pub reference : EvidenceReference
  pub created : Bool
  pub superseded : List ℕ

-- The rest of `intake`, after the lookup of the identity.
unfoldable pub record_item :
    Desk
    → ℕ
    → Envelope
    → User
    → List EvidenceReference
    → Option EvidenceReference
    → Result EvidenceError (IntakeResult × List EvidenceReference)
record_item desk notebook_id e actor rows (some existing) = do
  raise_if (not (same_content desk existing e)) EvidenceError.different_content
  ok (record { reference = existing; created = false; superseded = [] }, rows)
record_item desk notebook_id e actor rows none =
    let reference = new_reference desk notebook_id e actor in
    ok (
      record {
        reference = reference;
        created = true;
        superseded = map (λ r. r.id) (select (is_older e) rows);
      },
      update_where (is_older e) supersede rows ++ (reference ∷ []),
    )

-- The result, and the table after it.
unfoldable pub intake :
    Desk
    → ℕ
    → Json
    → User
    → List EvidenceReference
    → Result EvidenceError (IntakeResult × List EvidenceReference)
unfolding record_item validate
intake desk notebook_id envelope actor rows = do
  e ← validate desk.wire envelope
  record_item desk notebook_id e actor rows (identity_match e rows)

unfoldable pub get_or_404 : ℕ → ℕ → List EvidenceReference → Result EvidenceError EvidenceReference
get_or_404 notebook_id id rows = elim (find_first (λ r. r.id == id) rows) [
  | none ↦ err EvidenceError.reference_not_found
  | some r ↦ if r.notebook_id == notebook_id then ok r else err EvidenceError.reference_not_found
]

-- `sorted(provenance.items())`: the keys of a dict are distinct.
abbrev pub sorted_pairs : Fields → List (String × Json)
sorted_pairs Fields.end = []
sorted_pairs (Fields.field k v fs) = insert_by (λ a b. str_le a.0 b.0) (k, v) (sorted_pairs fs)

abbrev pub join_lines : List String → String
join_lines [] = ""
join_lines (line ∷ []) = line
join_lines (line ∷ next ∷ lines) = join line (join "\n" (join_lines (next ∷ lines)))

abbrev pub line_if : String → String → List String
line_if given line = if is_blank given then [] else line ∷ []

-- `_body`
abbrev pub body_text : Python → EvidenceReference → String
body_text py r =
    let title : String = join "_Evidence reference from **" (
      join r.source_system
        (join "** `" (join r.external_id (join "` revision `" (join r.revision "`_"))))) in
    strip (
      join_lines (
        line_if r.summary r.summary
        ++ ("" ∷ title ∷ [])
        ++ line_if r.deep_link (join "Origin: " r.deep_link)
        ++ line_if r.content_sha256 (join "Declared digest: `" (join r.content_sha256 "`"))
        ++ map (λ p. join p.0 (join ": " (text_of py p.1))) (sorted_pairs r.provenance)))

-- `notebooks.add_source`, as `accept` calls it.
abbrev pub add_source : Desk → ℕ → EvidenceReference → Source
add_source desk notebook_id r = record {
  id = desk.source_id;
  notebook_id = notebook_id;
  feed_item_id = none;
  title = r.title;
  reference = r.deep_link;
  tlp = r.tlp;
  summary = r.summary;
  content_md = body_text desk.wire.python r;
  captured_at = desk.now;
}

abbrev pub decided : Desk → User → EvidenceState → EvidenceReference → EvidenceReference
decided desk actor state r = record r {
  state = state;
  decided_at = some desk.now';
  decided_by_id = some actor.id;
}

-- The row after the decision, and the source that it adds, if any.
unfoldable pub accept :
    Desk → ℕ → User → EvidenceReference → Result EvidenceError (EvidenceReference × Option Source)
accept desk notebook_id actor r = elim r.state [
  | EvidenceState.accepted ↦ ok (r, none)
  | EvidenceState.revoked ↦ err EvidenceError.accept_revoked
  | EvidenceState.superseded ↦ err EvidenceError.accept_superseded
  | _ ↦
      let source = add_source desk notebook_id r in
      ok (
        record (decided desk actor EvidenceState.accepted r) { source_id = some source.id },
        some source,
      )
]

unfoldable pub reject : Desk → User → EvidenceReference → Result EvidenceError EvidenceReference
reject desk actor r = elim r.state [
  | EvidenceState.accepted ↦ err EvidenceError.reject_accepted
  | EvidenceState.revoked ↦ err EvidenceError.reject_revoked
  | EvidenceState.superseded ↦ err EvidenceError.reject_superseded
  | _ ↦ ok (decided desk actor EvidenceState.rejected r)
]

unfoldable pub revoke : Desk → String → EvidenceReference → EvidenceReference
revoke desk reason r = record r {
  state = EvidenceState.revoked;
  revoked_at = some desk.now;
  revoked_reason = prefix max_text (strip reason);
}

abbrev pub is_behind : Report → EvidenceReference → Bool
is_behind report r = elim r.source_id [ none ↦ false | some id ↦ elem id report.cited_sources ]

abbrev comes_first : EvidenceReference → EvidenceReference → Bool
comes_first a b =
    if str_eq a.source_system b.source_system
    then str_le a.external_id b.external_id
    else str_le a.source_system b.source_system

-- The rows of the manifest, which takes the fields that it names from each.
unfoldable pub manifest_rows : Report → List EvidenceReference → List EvidenceReference
manifest_rows report rows = sort_by comes_first (select (is_behind report) rows)

unfoldable pub revoked_for_report : Report → List EvidenceReference → List EvidenceReference
revoked_for_report report rows = select (λ r. is_behind report r && is_revoked r.state) rows
