-- ===== src/Policy/Resolve.antt =====
-- src/iceberg/services/audience_policy.py: `resolve` and its helpers. `slug` is the slug of a policy
-- by its id, and `py.casefold` is Python's.
use iceberg_cti.Base.{
  ℕ, Bool, true, false, not, ◌&&◌, ◌||◌, Option, none, some, List, [], ◌∷◌, ◌++◌, map, String, join,
  show, is_blank, is_empty, elem, overlaps, difference, dedup, sort_by, leb, nat_eq, string_eq,
  if◌then◌else◌,
}
use iceberg_cti.Models.{
  ℤ, int_eq, Instant, User, Report, Rule, Effect, DisseminationPolicyVersion, tlp_value,
  level_value, kind_value,
}
use iceberg_cti.Dissemination.{Reason, MatchDecision}
use iceberg_cti.Policy.{Versions, applicable_versions}
use iceberg_cti.Policy.Rules.{Python}

-- Why a stakeholder receives the product or not: the base reason, or that of this module, with the
-- description of the rule that decided.
pub data Outcome : Type 0 where
  base : Reason → Outcome
  exception : Outcome
  policy_exclude policy_limit : String → Outcome

pub record RecipientDecision : Type 0 where
  pub user_id : ℕ
  pub display_name : String
  pub email : String
  pub organisation : String
  pub included : Bool
  pub reason : Outcome
  pub rule : String

pub data Warning : Type 0 where
  unknown_groups : String → List ℤ → Warning
  no_recipients no_policy : Warning

pub record AudienceResolution : Type 0 where
  pub report_id : ℕ
  pub resolved_at : Instant
  pub applied_versions : List String
  pub included : List RecipientDecision
  pub excluded : List RecipientDecision
  pub exceptions : List ℕ
  pub warnings : List Warning

abbrev pub recipients_ids : AudienceResolution → List ℕ
recipients_ids r = map (λ d. d.user_id) r.included

-- `version.label`
abbrev pub label : (ℕ → String) → DisseminationPolicyVersion → String
label slug v = join (slug v.policy_id) (join "@v" (show v.version))

-- `"key" in when` fails, or the value is among those listed.
abbrev pub admits : String → Option (List String) → Bool
admits value none = true
admits value (some values) = elem value values

abbrev pub admits_tags : List ℕ → Option (List ℤ) → Bool
admits_tags tags none = true
admits_tags tags (some ids) = overlaps ids (map ℤ.pos tags)

abbrev pub admits_kinds : List String → Option (List String) → Bool
admits_kinds kinds none = true
admits_kinds kinds (some wanted) = overlaps wanted kinds

unfoldable pub rule_applies_to_report : Rule → Report → Bool
rule_applies_to_report rule report =
    admits (tlp_value report.tlp) rule.when.tlp
    && admits (level_value report.intel_level) rule.when.intel_level
    && admits_tags report.tags rule.when.tag_ids
    && admits_kinds (map (λ r. kind_value r.kind) report.requirements) rule.when.requirement_kinds

-- `audience.get(key, [])`
abbrev pub list_or_empty {ℓ} : {A : Type ℓ} → Option (List A) → List A
list_or_empty none = []
list_or_empty (some xs) = xs

unfoldable pub matches_audience : Python → Rule → User → Bool
matches_audience py rule user =
    elem (ℤ.pos user.id) (list_or_empty rule.audience.stakeholder_ids)
    || overlaps (list_or_empty rule.audience.audience_group_ids) (map ℤ.pos user.audience_groups)
    || (not (is_empty (list_or_empty rule.audience.organisations))
        && elem (py.casefold user.company_name)
            (map py.casefold (list_or_empty rule.audience.organisations)))

abbrev pub is_exclude : Effect → Bool
is_exclude Effect.exclude = true
is_exclude Effect.limit_to = false

-- The description of a rule, or what its effect is called.
abbrev pub described : Rule → String
described rule =
    if is_blank rule.description
    then if is_exclude rule.effect
      then "withheld from a named audience"
      else "restricted to a named audience"
    else rule.description

unfoldable pub decision : User → Bool → Outcome → String → RecipientDecision
decision user included reason rule = record {
  user_id = user.id;
  display_name = user.display_name;
  email = user.email;
  organisation = user.company_name;
  included = included;
  reason = reason;
  rule = rule;
}

-- Whether one rule blocks a recipient.
abbrev pub blocks : Python → Rule → Report → User → Bool
blocks py rule report user =
    rule_applies_to_report rule report
    && (if is_exclude rule.effect
        then matches_audience py rule user
        else not (matches_audience py rule user))

abbrev pub outcome_of : Rule → Outcome
outcome_of rule =
    if is_exclude rule.effect
    then policy_exclude (described rule)
    else policy_limit (described rule)

-- The inner loop: the first rule of a version that blocks, by its label and its outcome.
unfoldable pub blocked_by_rules :
    Python → String → List Rule → Report → User → Option (Outcome × String)
blocked_by_rules py ref [] report user = none
blocked_by_rules py ref (r ∷ rs) report user =
    if blocks py r report user
    then some (outcome_of r, join ref (join ":" r.id))
    else blocked_by_rules py ref rs report user

-- The outer loop.
unfoldable pub blocked_by :
    Python → (ℕ → String) → Versions → Report → User → Option (Outcome × String)
blocked_by py slug [] report user = none
blocked_by py slug (v ∷ vs) report user =
    let later = blocked_by py slug vs report user in
    elim (blocked_by_rules py (label slug v) v.rules report user) [
      | some block ↦ some block
      | none ↦ later
    ]

-- The body of the loop over the base decisions.
unfoldable pub decide_one :
    Python → (ℕ → String) → Versions → List ℕ → Report → MatchDecision → RecipientDecision
decide_one py slug live withheld report d =
    if not d.included
    then decision d.user false (base d.reason) ""
    else if elem d.user.id withheld
    then decision d.user false exception ""
    else elim (blocked_by py slug live report d.user) [
      | some (outcome, rule) ↦ decision d.user false outcome rule
      | none ↦ decision d.user true (base d.reason) ""
    ]

-- The two lists that the loop builds.
unfoldable pub sort_out : List RecipientDecision → List RecipientDecision × List RecipientDecision
sort_out [] = ([], [])
sort_out (d ∷ ds) =
    let (included, excluded) = sort_out ds in
    if d.included then (d ∷ included, excluded) else (included, d ∷ excluded)

-- A rule of a live version that names groups which are gone.
abbrev pub int_le : ℤ → ℤ → Bool
int_le (ℤ.pos a) (ℤ.pos b) = leb a b
int_le (ℤ.negsuc a) (ℤ.negsuc b) = leb b a
int_le (ℤ.negsuc a) (ℤ.pos b) = true
int_le (ℤ.pos a) (ℤ.negsuc b) = false

abbrev pub warn_rules : List ℕ → String → List Rule → List Warning
warn_rules known ref [] = []
warn_rules known ref (r ∷ rs) =
    let missing =
      sort_by int_le
        (dedup (difference (list_or_empty r.audience.audience_group_ids) (map ℤ.pos known))) in
    let rest = warn_rules known ref rs in
    if is_empty missing then rest else unknown_groups (join ref (join ":" r.id)) missing ∷ rest

abbrev pub warn_versions : (ℕ → String) → List ℕ → Versions → List Warning
warn_versions slug known [] = []
warn_versions slug known (v ∷ vs) =
    warn_rules known (label slug v) v.rules ++ warn_versions slug known vs

abbrev pub warn_if : Bool → Warning → List Warning
warn_if true w = w ∷ []
warn_if false w = []

-- `known` are the ids of the audience groups, `bases` is what `match_decisions` gives, and `asked` are
-- the exceptions of the caller.
unfoldable pub resolve :
    Python
    → (ℕ → String)
    → Versions
    → List ℕ
    → List MatchDecision
    → Report
    → Instant
    → List ℕ
    → AudienceResolution
unfolding decide_one sort_out
resolve py slug table known bases report moment asked =
    let withheld = sort_by leb (dedup asked) in
    let live = applicable_versions slug moment table in
    let (included, excluded) = sort_out (map (decide_one py slug live withheld report) bases) in
    record {
      report_id = report.id;
      resolved_at = moment;
      applied_versions = map (label slug) live;
      included = included;
      excluded = excluded;
      exceptions = withheld;
      warnings =
          warn_versions slug known live
          ++ warn_if (is_empty included) no_recipients
          ++ warn_if (is_empty live) no_policy;
    }
