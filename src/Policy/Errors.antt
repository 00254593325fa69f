-- ===== src/Policy/Errors.antt =====
-- src/iceberg/services/audience_policy.py: the sites that raise `PolicyError`, with what their
-- messages name.
use iceberg_cti.Base.{ℕ, String}

pub data PolicyError : Type 0 where
  rules_not_list too_many_rules : PolicyError
  rule_not_object unknown_fields blank_id : ℕ → PolicyError
  duplicate_id bad_effect when_not_object unknown_when_keys : String → PolicyError
  audience_not_object unknown_audience_keys empty_audience : String → PolicyError
  not_string_list empty_value unknown_value not_int_list : String → String → PolicyError
  policy_not_found name_required name_taken window_reversed : PolicyError
  still_draft : ℕ → PolicyError
  immutable already_approved not_approved publication_record : PolicyError

abbrev pub status_code : PolicyError → ℕ
status_code policy_not_found = 404
status_code name_taken = 409
status_code (still_draft n) = 409
status_code immutable = 409
status_code already_approved = 409
status_code not_approved = 409
status_code publication_record = 409
status_code _ = 422
