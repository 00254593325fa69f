-- ===== src/Evidence/Tests.antt =====
-- Offers, decisions and withdrawals on concrete envelopes.
use iceberg_cti.Evidence.Rows.{EvidenceReference}
use iceberg_cti.Models.{Fields, Json}
use iceberg_cti.Evidence.Replay.{intake-IsOffered, IsOffered}
use iceberg_cti.Evidence.{
  add_source, strengthen, EvidenceError, EvidenceState, Tlp, new_reference, record_item, supersede,
  Desk, IntakeResult, accept, intake,
}
use iceberg_cti.Evidence.Life.{handle_all-IsKept, handle_all, Act, HasStep, Store}
use iceberg_cti.Base.{
  is_ok, [], ◌∷◌, refl, some, none, ok, err, true, nat_eq, string_eq, ◌≡◌, List, String,
}
use iceberg_cti.Evidence.Offered.{Envelope, Wire, validate, text_field, valid_link}
use iceberg_cti.Fixtures.{author, reviewer}

abbrev wire : Wire
wire = record {
  python = record { upper = λ s. s; casefold = λ s. s; repr = λ _. "?" };
  lower = λ s. s;
  loads = λ _. none;
  size = λ _. 10;
  urlparse = λ _. record { scheme = "https"; netloc = "osint" };
}

abbrev desk : Desk
desk = record {
  wire = wire;
  floor = Tlp.amber;
  same = λ _ _. true;
  id = 4;
  source_id = 6;
  now = 8;
  now' = 9;
}

abbrev text : String → String → Fields → Fields
text key value rest = Fields.field key (Json.str value) rest

abbrev payload : String → Fields
payload revision = text "schema_version" "iceberg.evidence/1" (
    text "source_system" "osint-1" (
      text "external_id" " x "
        (text "revision" revision (text "title" "T" (text "tlp" "GREEN" Fields.end)))))

abbrev offered : String → Envelope
offered revision = record {
  schema_version = "iceberg.evidence/1";
  source_system = "osint-1";
  external_id = "x";
  revision = revision;
  evidence_type = "";
  title = "T";
  summary = "";
  deep_link = "";
  content_sha256 = "";
  provenance = Fields.end;
  declared_tlp = Tlp.green;
  payload = payload revision;
}

validates : validate wire (Json.obj (payload "1")) ≡ ok (offered "1")
unfolding validate text_field valid_link
validates = refl

validates_next : validate wire (Json.obj (payload "2")) ≡ ok (offered "2")
unfolding validate text_field valid_link
validates_next = refl

untitled_refused :
    validate wire (Json.obj (text "schema_version" "2" Fields.end))
    ≡ err
        (EvidenceError.missing_fields ("source_system" ∷ "external_id" ∷ "revision" ∷ "title" ∷ []))
unfolding validate
untitled_refused = refl

abbrev first : EvidenceReference
first = new_reference desk 1 (offered "1") author

abbrev taken : EvidenceReference
taken = record first {
  state = EvidenceState.accepted;
  decided_at = some 9;
  decided_by_id = some 2;
  source_id = some 6;
}

accepts : accept desk 1 reviewer first ≡ ok (taken, some (add_source desk 1 first))
unfolding accept new_reference strengthen
accepts = refl

abbrev second : EvidenceReference
second = record (new_reference desk 1 (offered "2") author) { id = 5 }

abbrev next : Desk
next = record desk { id = 5 }

abbrev offer_result : IntakeResult
offer_result = record { reference = second; created = true; superseded = 4 ∷ [] }

offers :
    intake next 1 (Json.obj (payload "2")) author (taken ∷ [])
    ≡ ok (offer_result, supersede taken ∷ second ∷ [])
unfolding intake record_item validate text_field valid_link new_reference
offers = refl

past_refused : accept desk 1 reviewer (supersede taken) ≡ err EvidenceError.accept_superseded
unfolding accept
past_refused = refl

-- A rejected row is not superseded by a newer one, and may still be accepted.
older_accepted :
    is_ok (accept desk 1 reviewer (record first { state = EvidenceState.rejected })) ≡ true
unfolding accept
older_accepted = refl

intake-IsOffered_example :
    IsOffered Tlp.amber (offered "2") offer_result (supersede taken ∷ second ∷ [])
intake-IsOffered_example =
    intake-IsOffered next 1 (Json.obj (payload "2")) author (taken ∷ []) validates_next offers refl

abbrev acts : List Act
acts =
    Act.offering desk 1 (Json.obj (payload "1")) author
    ∷ Act.accepting desk 1 4 reviewer
    ∷ Act.offering next 1 (Json.obj (payload "2")) author
    ∷ Act.revoking desk 1 4 "gone"
    ∷ Act.rejecting desk 1 5 reviewer
    ∷ []

abbrev nothing : Store
nothing = record { rows = []; sources = [] }

handle_all-IsKept_example : HasStep Tlp.amber nothing (handle_all nothing acts)
handle_all-IsKept_example =
    handle_all-IsKept Tlp.amber nothing acts (refl, (tt, (refl, (tt, (tt, tt)))))
      (record { rows_sound = tt; sources_marked = tt })
