-- ===== src/Policy/Rules.antt =====
-- src/iceberg/services/audience_policy.py: `_str_list`, `_int_list` and `validate_rules`.
use iceberg_cti.Base.{
  ℕ, suc, ◌+◌, Bool, true, false, not, ◌&&◌, ◌||◌, Option, none, some, List, [], ◌∷◌, map, String,
  Result, ok, err, ◌>>=◌, ◌>>◌, raise_if, is_none, any_of, elem, dedup, ltb, str_eq, strip,
  is_blank, join, show, string_eq, if◌then◌else◌,
}
use iceberg_cti.Models.{
  ℤ, int_eq, Json, null, bool, int, float, str, arr, obj, Items, nil, cons, Fields, end, field,
  Effect, When, Audience, Rule,
}
use iceberg_cti.Policy.Errors.{
  PolicyError, rules_not_list, too_many_rules, rule_not_object, unknown_fields, blank_id,
  duplicate_id, bad_effect, when_not_object, unknown_when_keys, audience_not_object,
  unknown_audience_keys, empty_audience, not_string_list, empty_value, unknown_value, not_int_list,
}

-- Python's Unicode tables, and `str` of a value that is no string.
pub record Python : Type 0 where
  pub upper : String → String
  pub casefold : String → String
  pub repr : Json → String

-- `value.get(key)`: the keys of a dict are distinct.
abbrev pub get : String → Fields → Option Json
get key end = none
get key (field k v fs) = if str_eq k key then some v else get key fs

-- `set(value) - keys` is not empty.
abbrev pub has_unknown : List String → Fields → Bool
has_unknown keys end = false
has_unknown keys (field k v fs) = not (elem k keys) || has_unknown keys fs

abbrev pub items_length : Items → ℕ
items_length nil = 0
items_length (cons v vs) = suc (items_length vs)

-- `all(isinstance(item, str))`, with the items.
abbrev pub all_str : Items → Option (List String)
all_str nil = some []
all_str (cons (str s) vs) = elim (all_str vs) [ none ↦ none | some ss ↦ some (s ∷ ss) ]
all_str (cons _ vs) = none

-- No item is a bool, and every item is an int.
abbrev pub all_int : Items → Option (List ℤ)
all_int nil = some []
all_int (cons (int n) vs) = elim (all_int vs) [ none ↦ none | some ns ↦ some (n ∷ ns) ]
all_int (cons _ vs) = none

abbrev pub list_of {ℓ} : {A : Type ℓ} → (Items → Option A) → Json → Option A
list_of read (arr vs) = read vs
list_of read _ = none

-- `[item.strip().upper() if allowed else item.strip()]`
abbrev pub clean_items : Python → Option (List String) → List String → List String
clean_items py none items = map strip items
clean_items py (some allowed) items = map (λ s. py.upper (strip s)) items

abbrev pub has_foreign : Option (List String) → List String → Bool
has_foreign none items = false
has_foreign (some allowed) items = any_of (λ s. not (elem s allowed)) items

unfoldable pub str_list :
    Python → String → String → Json → Option (List String) → Result PolicyError (List String)
str_list py ref key value allowed = elim (list_of all_str value) [
  | none ↦ err (not_string_list ref key)
  | some raw ↦
      let items = clean_items py allowed raw in
      if any_of is_blank items
      then err (empty_value ref key)
      else if has_foreign allowed items
      then err (unknown_value ref key)
      else ok (dedup items)
]

unfoldable pub int_list : String → String → Json → Result PolicyError (List ℤ)
int_list ref key value = elim (list_of all_int value) [
  | none ↦ err (not_int_list ref key)
  | some items ↦ ok (dedup items)
]

abbrev pub tlps : List String
tlps = "RED" ∷ "AMBER_STRICT" ∷ "AMBER" ∷ "GREEN" ∷ "CLEAR" ∷ []

abbrev pub levels : List String
levels = "STRATEGIC" ∷ "TACTICAL" ∷ "OPERATIONAL" ∷ []

abbrev pub kinds : List String
kinds = "PIR" ∷ "GIR" ∷ "RFI" ∷ []

abbrev pub rule_keys : List String
rule_keys = "id" ∷ "description" ∷ "effect" ∷ "when" ∷ "audience" ∷ []

abbrev pub when_keys : List String
when_keys = "tlp" ∷ "intel_level" ∷ "tag_ids" ∷ "requirement_kinds" ∷ []

abbrev pub audience_keys : List String
audience_keys = "audience_group_ids" ∷ "organisations" ∷ "stakeholder_ids" ∷ []

-- Python's truth of a value.
abbrev pub truthy : Json → Bool
truthy null = false
truthy (bool b) = b
truthy (int n) = not (int_eq.beq n (ℤ.pos 0))
truthy (float is_zero s) = not is_zero
truthy (str s) = not (is_blank s)
truthy (arr nil) = false
truthy (arr (cons v vs)) = true
truthy (obj end) = false
truthy (obj (field k v fs)) = true

-- `str(value)`
abbrev pub text_of : Python → Json → String
text_of py (str s) = s
text_of py v = py.repr v

-- `str(raw.get(key, ""))`
abbrev pub get_text : Python → String → Fields → String
get_text py key raw = elim (get key raw) [ none ↦ "" | some v ↦ text_of py v ]

-- `str(raw.get("id", "") or f"rule-{index + 1}").strip()`, where `number` is `index + 1`.
abbrev pub rule_id_of : Python → ℕ → Fields → String
rule_id_of py number raw =
    let given : String = elim (get "id" raw) [
      | none ↦ join "rule-" (show number)
      | some v ↦ if truthy v then text_of py v else join "rule-" (show number)
    ] in
    strip given

abbrev pub effect_of : String → Option Effect
effect_of s =
    if str_eq s "LIMIT_TO"
    then some Effect.limit_to
    else if str_eq s "EXCLUDE"
    then some Effect.exclude
    else none

-- `raw.get(key) or {}`, which must be an object.
abbrev pub object_or_empty : Option Json → Option Fields
object_or_empty none = some end
object_or_empty (some (obj fs)) = some fs
object_or_empty (some v) = if truthy v then none else some end

-- `if key in raw: out[key] = check(raw[key])`
abbrev pub checked :
    {A : Type 0} → (Json → Result PolicyError A) → Option Json → Result PolicyError (Option A)
checked check none = ok none
checked check (some v) = do a ← check v; ok (some a)

abbrev pub or_error : {A : Type 0} → Option A → PolicyError → Result PolicyError A
or_error none e = err e
or_error (some a) e = ok a

unfoldable pub validate_when : Python → String → Fields → Result PolicyError When
validate_when py ref raw = do
  fs ← or_error (object_or_empty (get "when" raw)) (when_not_object ref)
  raise_if (has_unknown when_keys fs) (unknown_when_keys ref)
  tlp ← checked (λ v. str_list py ref "tlp" v (some tlps)) (get "tlp" fs)
  level ← checked (λ v. str_list py ref "intel_level" v (some levels)) (get "intel_level" fs)
  requirement_kinds ←
      checked (λ v. str_list py ref "requirement_kinds" v (some kinds)) (get "requirement_kinds" fs)
  tag_ids ← checked (int_list ref "tag_ids") (get "tag_ids" fs)
  ok (record {
    tlp = tlp;
    intel_level = level;
    requirement_kinds = requirement_kinds;
    tag_ids = tag_ids;
  })

-- `not audience`
abbrev pub is_unset : Audience → Bool
is_unset a = is_none a.audience_group_ids && is_none a.stakeholder_ids && is_none a.organisations

unfoldable pub validate_audience : Python → String → Fields → Result PolicyError Audience
validate_audience py ref raw = do
  fs ← or_error (object_or_empty (get "audience" raw)) (audience_not_object ref)
  raise_if (has_unknown audience_keys fs) (unknown_audience_keys ref)
  groups ← checked (int_list ref "audience_group_ids") (get "audience_group_ids" fs)
  stakeholders ← checked (int_list ref "stakeholder_ids") (get "stakeholder_ids" fs)
  organisations ← checked (λ v. str_list py ref "organisations" v none) (get "organisations" fs)
  let audience : Audience = record {
    audience_group_ids = groups;
    stakeholder_ids = stakeholders;
    organisations = organisations;
  }
  raise_if (is_unset audience) (empty_audience ref)
  ok audience

-- The body of the loop, for the rule with this number and the ids seen before.
unfoldable pub validate_rule : Python → ℕ → List String → Json → Result PolicyError Rule
validate_rule py number seen (obj raw) = do
  raise_if (has_unknown rule_keys raw) (unknown_fields number)
  let ref = rule_id_of py number raw
  raise_if (is_blank ref) (blank_id number)
  raise_if (elem ref seen) (duplicate_id ref)
  effect ← or_error (effect_of (py.upper (strip (get_text py "effect" raw)))) (bad_effect ref)
  when ← validate_when py ref raw
  audience ← validate_audience py ref raw
  ok (record {
    id = ref;
    description = strip (get_text py "description" raw);
    effect = effect;
    when = when;
    audience = audience;
  })
validate_rule py number seen _ = err (rule_not_object number)

unfoldable pub validate_from : Python → ℕ → List String → Items → Result PolicyError (List Rule)
validate_from py number seen nil = ok []
validate_from py number seen (cons v vs) = do
  rule ← validate_rule py number seen v
  rest ← validate_from py (number + 1) (rule.id ∷ seen) vs
  ok (rule ∷ rest)

abbrev pub max_rules : ℕ
max_rules = 100

unfoldable pub validate_rules : Python → Json → Result PolicyError (List Rule)
validate_rules py (arr items) = do
  raise_if (ltb max_rules (items_length items)) too_many_rules
  validate_from py 1 [] items
validate_rules py _ = err rules_not_list
