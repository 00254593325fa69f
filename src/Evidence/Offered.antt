-- ===== src/Evidence/Offered.antt =====
-- src/iceberg/services/evidence.py: `decode_envelope` and `validate`, on the values of `json.loads`.
use iceberg_cti.Evidence.Rows.{EvidenceError}
use iceberg_cti.Policy.Rules.{get_text, text_of, get, Python}
use iceberg_cti.Models.{end, Fields, Json, Tlp}
use iceberg_cti.Base.{
  is_empty, length, is_blank, ltb, strip, raise_if, str_eq, leb, text_length, [], ◌∷◌, some, none,
  ok, err, true, false, nat_eq, string_eq, ◌>>=◌, ◌>>◌, ◌&&◌, ◌||◌, ◌==◌, not, if◌then◌else◌, Bool,
  List, Option, ℕ, String, Result, select,
}
use Prim.Native.Char.{Char, code}

-- What `urlparse` says of a link.
pub record Url : Type 0 where
  pub scheme : String
  pub netloc : String

-- The library calls: `json.loads`, the bytes of `json.dumps`, `urlparse`, `str.lower`, and what
-- `Python` has.
pub record Wire : Type 0 where
  pub python : Python
  pub lower : String → String
  pub loads : List ℕ → Option Json
  pub size : Json → ℕ
  pub urlparse : String → Url

pub record Envelope : Type 0 where
  pub schema_version : String
  pub source_system : String
  pub external_id : String
  pub revision : String
  pub evidence_type : String
  pub title : String
  pub summary : String
  pub deep_link : String
  pub content_sha256 : String
  pub provenance : Fields
  pub declared_tlp : Tlp
  pub payload : Fields

abbrev pub max_envelope_bytes : ℕ
max_envelope_bytes = 65536

abbrev pub max_text : ℕ
max_text = 4000

abbrev pub required_fields : List String
required_fields = "schema_version" ∷ "source_system" ∷ "external_id" ∷ "revision" ∷ "title" ∷ []

abbrev lower_or_digit : Char → Bool
lower_or_digit c = let n = code c in (leb b'a' n && leb n b'z') || (leb b'0' n && leb n b'9')

abbrev pub all_chars : (Char → Bool) → String → Bool
all_chars p String.[] = true
all_chars p (String.◌∷◌ c s) = p c && all_chars p s

-- `_SYSTEM.match`, on a text without a newline at its end.
abbrev pub is_system : String → Bool
is_system String.[] = false
is_system (String.◌∷◌ c s) =
    lower_or_digit c
    && all_chars (λ d. lower_or_digit d || code d == b'.' || code d == b'_' || code d == b'-') s
    && leb 1 (text_length s)
    && leb (text_length s) 63

-- `_SHA256.match`, on a text without a newline at its end.
abbrev pub is_sha256 : String → Bool
is_sha256 s =
    text_length s == 64
    && all_chars
        (λ c. (leb b'0' (code c) && leb (code c) b'9') || (leb b'a' (code c) && leb (code c) b'f'))
        s

-- `_text`
unfoldable pub text_field : Fields → String → Bool → Result EvidenceError String
text_field envelope key required = elim (get key envelope) [
  | none ↦ if required then err (EvidenceError.is_required key) else ok ""
  | some (Json.str given) ↦
      let value = strip given in
      if required && is_blank value
      then err (EvidenceError.is_required key)
      else if ltb max_text (text_length value)
      then err (EvidenceError.too_long key)
      else ok value
  | some _ ↦ err (EvidenceError.not_string key)
]

-- A link that is given must be of the web, with a host.
abbrev is_web : Url → Bool
is_web parsed =
    (str_eq parsed.scheme "http" || str_eq parsed.scheme "https") && not (is_blank parsed.netloc)

unfoldable pub valid_link : Wire → Fields → Result EvidenceError String
unfolding text_field
valid_link wire envelope = do
  link ← text_field envelope "deep_link" false
  raise_if (not (is_blank link) && not (is_web (wire.urlparse link))) EvidenceError.bad_link
  ok link

-- `TLP(s)`
abbrev pub tlp_of : String → Option Tlp
tlp_of s =
    if str_eq s "RED"
    then some Tlp.red
    else if str_eq s "AMBER_STRICT"
    then some Tlp.amber_strict
    else if str_eq s "AMBER"
    then some Tlp.amber
    else if str_eq s "GREEN"
    then some Tlp.green
    else if str_eq s "CLEAR"
    then some Tlp.clear
    else none

abbrev pub marking_of : Wire → Fields → Option Tlp
marking_of wire envelope = elim (get "tlp" envelope) [
  | none ↦ tlp_of (wire.python.upper "AMBER")
  | some v ↦ tlp_of (wire.python.upper (text_of wire.python v))
]

abbrev pub or_raise : {A : Type 0} → EvidenceError → Option A → Result EvidenceError A
or_raise e none = err e
or_raise e (some a) = ok a

-- A dict, if the value is one.
abbrev pub as_object : Json → Option Fields
as_object (Json.obj fs) = some fs
as_object _ = none

abbrev pub provenance_of : Fields → Option Fields
provenance_of envelope = elim (get "provenance" envelope) [ none ↦ some end | some v ↦ as_object v ]

unfoldable pub decode_envelope : Wire → List ℕ → Result EvidenceError Fields
decode_envelope wire raw = do
  raise_if (ltb max_envelope_bytes (length raw)) (EvidenceError.too_many_bytes (length raw))
  parsed ← or_raise EvidenceError.not_json_object (wire.loads raw)
  or_raise EvidenceError.not_json_object (as_object parsed)

unfoldable pub validate : Wire → Json → Result EvidenceError Envelope
unfolding text_field valid_link
validate wire given = do
  envelope ← or_raise EvidenceError.not_json_object (as_object given)
  raise_if (ltb max_envelope_bytes (wire.size given))
      (EvidenceError.too_many_bytes (wire.size given))
  let missing : List String =
      select (λ key. is_blank (strip (get_text wire.python key envelope))) required_fields
  raise_if (not (is_empty missing)) (EvidenceError.missing_fields missing)
  schema_version ← text_field envelope "schema_version" true
  raise_if (not (str_eq schema_version "iceberg.evidence/1")) EvidenceError.unsupported_schema
  system ← text_field envelope "source_system" true
  raise_if (not (is_system (wire.lower system))) EvidenceError.bad_system
  given_digest ← text_field envelope "content_sha256" false
  let digest : String = wire.lower given_digest
  raise_if (not (is_blank digest) && not (is_sha256 digest)) EvidenceError.bad_digest
  declared ← or_raise EvidenceError.bad_tlp (marking_of wire envelope)
  provenance ← or_raise EvidenceError.bad_provenance (provenance_of envelope)
  external_id ← text_field envelope "external_id" true
  revision ← text_field envelope "revision" true
  evidence_type ← text_field envelope "evidence_type" false
  title ← text_field envelope "title" true
  summary ← text_field envelope "summary" false
  link ← valid_link wire envelope
  ok (record {
    schema_version = schema_version;
    source_system = wire.lower system;
    external_id = external_id;
    revision = revision;
    evidence_type = evidence_type;
    title = title;
    summary = summary;
    deep_link = link;
    content_sha256 = digest;
    provenance = provenance;
    declared_tlp = declared;
    payload = envelope;
  })
