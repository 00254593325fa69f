-- ===== src/Policy/Tests.antt =====
-- Policies in force on concrete reports, and the theorems on them.
use iceberg_cti.Base.{
  string_eq, ℕ, ◌≡◌, refl, arith, true, none, some, List, [], ◌∷◌, map, String, All, select, dedup,
  sort_by, leb, nat_eq, ok,
}
use iceberg_cti.Models.{
  Role, ReportStatus, Report, end, Json, nil, cons, arr, obj, field, str, int, pos, Rule, Effect,
  DisseminationPolicyVersion,
}
use iceberg_cti.Dissemination.{MatchDecision, authorised}
use iceberg_cti.Policy.{
  keep_live, supersede_earlier, Versions, Window, approve, applicable_versions,
}
use iceberg_cti.Policy.Rules.{
  int_list, str_list, validate_audience, validate_when, validate_rule, validate_from, Python,
  validate_rules,
}
use iceberg_cti.Policy.Resolve.{
  matches_audience, rule_applies_to_report, blocked_by_rules, blocked_by, decision, sort_out,
  resolve, decide_one,
}
use iceberg_cti.Fixtures.{holder, outsider, report, user}
use iceberg_cti.Policy.Narrow.{receives, granted, resolve-included}
use iceberg_cti.Policy.Live.{IsNewest, applicable_versions-IsNewest}
use iceberg_cti.Policy.Supersede.{IsOver, approve-IsOver}
use iceberg_cti.Policy.Normal.{all_normal, validate_rules_normal}

-- ASCII stands for Unicode here.
abbrev python : Python
python = record { upper = λ s. s; casefold = λ s. s; repr = λ _. "" }

abbrev slug : ℕ → String
slug _ = "p"

abbrev rule : Rule
rule = record {
  id = "r";
  description = "";
  effect = Effect.limit_to;
  when = record {
    tlp = some ("GREEN" ∷ []);
    intel_level = none;
    requirement_kinds = none;
    tag_ids = none;
  };
  audience = record {
    audience_group_ids = some (pos 7 ∷ []);
    stakeholder_ids = none;
    organisations = none;
  };
}

abbrev first : DisseminationPolicyVersion
first = record {
  id = 1;
  policy_id = 1;
  version = 1;
  note = "";
  rules = rule ∷ [];
  effective_from = none;
  effective_to = none;
  created_at = 0;
  created_by_id = none;
  approved_at = some 1;
  approved_by_id = some 2;
}

abbrev second : DisseminationPolicyVersion
second = record first { id = 2; version = 2; approved_at = none; approved_by_id = none }

abbrev after : Versions
after =
    record first { effective_to = some 5 }
    ∷ record second { approved_at = some 5; approved_by_id = some 2 }
    ∷ []

approves : approve second 2 5 6 (first ∷ second ∷ []) ≡ ok after
unfolding approve supersede_earlier
approves = refl

approve-IsOver_example : All (IsOver 1 2 8) after
approve-IsOver_example = approve-IsOver second 2 5 6 8 (first ∷ second ∷ []) approves (omega arith)

abbrev window : Window
window = record { from = none; to = none }

applicable_versions-IsNewest_example :
    All (IsNewest 4 (first ∷ second ∷ [])) (applicable_versions slug 4 (first ∷ second ∷ []))
applicable_versions-IsNewest_example = applicable_versions-IsNewest slug 4 (first ∷ second ∷ [])

abbrev bases : List MatchDecision
bases =
    record { user = holder; included = true; reason = authorised }
    ∷ record { user = outsider; included = true; reason = authorised }
    ∷ record { user = user 5 Role.stakeholder (7 ∷ []); included = true; reason = authorised }
    ∷ []

abbrev approved : Report
approved = record (report ReportStatus.approved) { audience_groups = [] }

narrowed_to_one :
    map
      (λ d. d.user_id)
      (resolve python slug (first ∷ []) (7 ∷ []) bases approved 4 (5 ∷ [])).included
    ≡ 3 ∷ []
unfolding resolve decide_one sort_out decision applicable_versions keep_live blocked_by
    blocked_by_rules rule_applies_to_report matches_audience
narrowed_to_one = refl

resolve-included_example :
    (resolve python slug (first ∷ []) (7 ∷ []) bases approved 4 (5 ∷ [])).included
    ≡ map granted (
        select
          (receives python slug
            (applicable_versions slug 4 (first ∷ []))
            (sort_by leb (dedup (5 ∷ [])))
            approved)
          bases)
resolve-included_example =
    resolve-included python slug (first ∷ []) (7 ∷ []) bases approved 4 (5 ∷ [])

abbrev base_outsider : MatchDecision
base_outsider = record { user = outsider; included = true; reason = authorised }

abbrev submitted : Json
submitted = arr (
    cons
      (obj (
        field "id" (str " r ") (
          field "effect" (str "LIMIT_TO") (
            field "audience" (obj (field "audience_group_ids" (arr (cons (int (pos 7)) nil)) end))
              (field "when" (obj (field "tlp" (arr (cons (str "GREEN") nil)) end)) end)))))
      nil)

accepted : validate_rules python submitted ≡ ok (rule ∷ [])
unfolding validate_rules validate_from validate_rule validate_when validate_audience str_list
    int_list
accepted = refl

validate_rules_normal_example : all_normal [] (rule ∷ []) ≡ true
validate_rules_normal_example = validate_rules_normal python submitted accepted

-- An audience whose one list is empty passes validation.
abbrev empty_audience_list : Json
empty_audience_list = arr (
    cons
      (obj (
        field "id" (str "r") (
          field "effect" (str "LIMIT_TO")
            (field "audience" (obj (field "audience_group_ids" (arr nil) end)) end))))
      nil)

abbrev nobody_rule : Rule
nobody_rule = record rule {
  when = record { tlp = none; intel_level = none; requirement_kinds = none; tag_ids = none };
  audience = record { audience_group_ids = some []; stakeholder_ids = none; organisations = none };
}

empty_audience_list_accepted : validate_rules python empty_audience_list ≡ ok (nobody_rule ∷ [])
unfolding validate_rules validate_from validate_rule validate_when validate_audience str_list
    int_list
empty_audience_list_accepted = refl

nobody_selected : rule_applies_to_report nobody_rule approved ≡ true
unfolding rule_applies_to_report
nobody_selected = refl
