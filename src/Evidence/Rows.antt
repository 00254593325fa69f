-- ===== src/Evidence/Rows.antt =====
-- src/iceberg/models.py: evidence references and the sources made of them, and the errors of
-- src/iceberg/services/evidence.py. A source's reliability grade is left out.
use iceberg_cti.Models.{Fields, Instant, Tlp}
use iceberg_cti.Base.{true, false, nat_eq, string_eq, Bool, List, Option, ℕ, String}

pub data EvidenceState : Type 0 where
  pending accepted rejected superseded revoked : EvidenceState

pub record EvidenceReference : Type 0 where
  pub id : ℕ
  pub notebook_id : ℕ
  pub schema_version : String
  pub source_system : String
  pub external_id : String
  pub revision : String
  pub evidence_type : String
  pub title : String
  pub summary : String
  pub deep_link : String
  pub tlp : Tlp
  pub content_sha256 : String
  pub provenance : Fields
  pub payload : Fields
  pub state : EvidenceState
  pub received_at : Instant
  pub received_by_id : Option ℕ
  pub decided_at : Option Instant
  pub decided_by_id : Option ℕ
  pub source_id : Option ℕ
  pub revoked_at : Option Instant
  pub revoked_reason : String

pub record Source : Type 0 where
  pub id : ℕ
  pub notebook_id : ℕ
  pub feed_item_id : Option ℕ
  pub title : String
  pub reference : String
  pub tlp : Tlp
  pub summary : String
  pub content_md : String
  pub captured_at : Instant

-- The sites that raise `EvidenceError`.
pub data EvidenceError : Type 0 where
  too_many_bytes : ℕ → EvidenceError
  not_json_object unsupported_schema bad_system bad_digest bad_tlp bad_provenance bad_link :
      EvidenceError
  missing_fields : List String → EvidenceError
  not_string is_required too_long : String → EvidenceError
  different_content reference_not_found : EvidenceError
  accept_revoked accept_superseded : EvidenceError
  reject_accepted reject_revoked reject_superseded : EvidenceError

abbrev pub status_code : EvidenceError → ℕ
status_code EvidenceError.different_content = 409
status_code EvidenceError.reference_not_found = 404
status_code EvidenceError.accept_revoked = 409
status_code EvidenceError.accept_superseded = 409
status_code EvidenceError.reject_accepted = 409
status_code EvidenceError.reject_revoked = 409
status_code EvidenceError.reject_superseded = 409
status_code _ = 422

-- `state in [PENDING, ACCEPTED]`
abbrev pub is_live : EvidenceState → Bool
is_live EvidenceState.pending = true
is_live EvidenceState.accepted = true
is_live _ = false

abbrev pub is_revoked : EvidenceState → Bool
is_revoked EvidenceState.revoked = true
is_revoked _ = false
