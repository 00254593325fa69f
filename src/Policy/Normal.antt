-- ===== src/Policy/Normal.antt =====
-- What a rule set has once it is validated.
use mathlib.Core.Path.{subst}
use iceberg_cti.Base.{
  all_of, ◌&&◌, dedup_from, ℕ, ◌+◌, ◌≡◌, refl, Bool, true, false, not, Option, none, some, List, [],
  ◌∷◌, String, All, arith, ok, err, Bool-cases, Option-cases, inl, inr, elem, any_of, is_blank,
  string_eq, nat_eq, Result, Result-cases,
}
use iceberg_cti.Models.{
  null, str, float, int, bool, arr, obj, Fields, Json, Items, nil, cons, Rule, When,
}
use iceberg_cti.Policy.Errors.{PolicyError}
use iceberg_cti.Policy.Rules.{
  object_or_empty, rule_id_of, has_foreign, clean_items, get, all_str, checked, list_of, Python,
  str_list, validate_rule, validate_when, validate_audience, validate_from, validate_rules,
  is_unset, tlps, levels, kinds,
}

dedup_from-All :
    (P : String → Type 0) (seen xs : List String) → All P xs → All P (dedup_from seen xs)
dedup_from-All P seen [] h = tt
dedup_from-All P seen (x ∷ xs) h = elim (Bool-cases (elem x seen)) [
  | inl old ↦ rw old (dedup_from-All P seen xs h.1)
  | inr new ↦ rw new (h.0, dedup_from-All P (x ∷ seen) xs h.1)
]

none_foreign :
    (allowed xs : List String)
    → any_of (λ s. not (elem s allowed)) xs ≡ false
    → All (λ s. elem s allowed ≡ true) xs
none_foreign allowed [] h = tt
none_foreign allowed (x ∷ xs) h = ground (arith, none_foreign allowed xs)

all_of-All : (p : String → Bool) (xs : List String) → All (λ s. p s ≡ true) xs → all_of p xs ≡ true
all_of-All p [] h = refl
all_of-All p (x ∷ xs) h = ground (arith, all_of-All p xs h.1)

str_list-within :
    (py : Python) (ref key : String) (value : Json) (allowed : List String) {values : List String}
    → str_list py ref key value (some allowed) ≡ ok values
    → all_of (λ s. elem s allowed) values ≡ true
unfolding str_list
str_list-within py ref key value allowed {values} h = elim (Option-cases (list_of all_str value)) [
  | inl other ↦ ground arith
  | inr (raw, strings) ↦
      let items = clean_items py (some allowed) raw in
      elim (Bool-cases (any_of is_blank items)) [
        | inl blank ↦ cc (rw (strings, str_list, blank) at h)
        | inr full ↦ elim (Bool-cases (has_foreign (some allowed) items)) [
          | inl foreign ↦ cc (rw (strings, str_list, full, foreign) at h)
          | inr known ↦
              subst (λ r. all_of (λ s. elem s allowed) r ≡ true) (ground arith)
                (all_of-All (λ s. elem s allowed) _
                  (dedup_from-All (λ s. elem s allowed ≡ true) [] items
                    (none_foreign allowed items known)))
        ]
      ]
]

-- The values of a key, where it is given, are among those allowed.
abbrev pub within : List String → Option (List String) → Bool
within allowed none = true
within allowed (some values) = all_of (λ s. elem s allowed) values

-- What a result holds, when it is one.
abbrev holding : {A : Type 0} → (A → Bool) → Result PolicyError A → Bool
holding p (ok a) = p a
holding p (err e) = true

checked-within :
    (py : Python) (ref key : String) (allowed : List String) (o : Option Json)
    → holding (within allowed) (checked (λ v. str_list py ref key v (some allowed)) o) ≡ true
checked-within py ref key allowed none = refl
checked-within py ref key allowed (some v) =
    elim (Result-cases (str_list py ref key v (some allowed))) [
      | inl (values, e) ↦ rw e (str_list-within py ref key v allowed e)
      | inr (e, refused) ↦ rw refused refl
    ]

-- The selectors of a rule hold only values of the enums.
abbrev pub is_known : When → Bool
is_known w = within tlps w.tlp && within levels w.intel_level && within kinds w.requirement_kinds

validate_when_known :
    (py : Python) (ref : String) (raw : Fields) → holding is_known (validate_when py ref raw) ≡ true
unfolding validate_when
validate_when_known py ref raw = elim (Option-cases (object_or_empty (get "when" raw))) [
  | inl bad ↦ rw bad refl
  | inr (fs, good) ↦ rw good (
      ground (
        arith,
        checked-within py ref "tlp" tlps (get "tlp" fs),
        checked-within py ref "intel_level" levels (get "intel_level" fs),
        checked-within py ref "requirement_kinds" kinds (get "requirement_kinds" fs),
      ))
]

validate_audience_set :
    (py : Python) (ref : String) (raw : Fields)
    → holding (λ a. not (is_unset a)) (validate_audience py ref raw) ≡ true
unfolding validate_audience
validate_audience_set py ref raw = ground arith

-- A rule that is stored after the rules with these ids: it has an id that none of them has, it names an
-- audience, and its selectors hold only values of the enums.
abbrev pub is_normal : List String → Rule → Bool
is_normal seen r =
    not (is_blank r.id) && not (elem r.id seen) && not (is_unset r.audience) && is_known r.when

abbrev pub all_normal : List String → List Rule → Bool
all_normal seen [] = true
all_normal seen (r ∷ rs) = is_normal seen r && all_normal (r.id ∷ seen) rs

validate_rule_normal :
    (py : Python) (n : ℕ) (seen : List String) (v : Json)
    → holding (is_normal seen) (validate_rule py n seen v) ≡ true
unfolding validate_rule
validate_rule_normal py n seen (obj raw) =
    let ref = rule_id_of py n raw in
    ground (arith, validate_when_known py ref raw, validate_audience_set py ref raw)
validate_rule_normal py n seen null = refl
validate_rule_normal py n seen (bool b) = refl
validate_rule_normal py n seen (int i) = refl
validate_rule_normal py n seen (float b s) = refl
validate_rule_normal py n seen (str s) = refl
validate_rule_normal py n seen (arr vs) = refl

validate_from_normal :
    (py : Python) (n : ℕ) (seen : List String) (vs : Items)
    → holding (all_normal seen) (validate_from py n seen vs) ≡ true
unfolding validate_from
validate_from_normal py n seen nil = refl
validate_from_normal py n seen (cons v vs) = elim (Result-cases (validate_rule py n seen v)) [
  | inr (e, refused) ↦ rw refused refl
  | inl (r, good) ↦ rw good (
      ground (
        arith,
        (rw good at (validate_rule_normal py n seen v)),
        validate_from_normal py (n + 1) (r.id ∷ seen) vs,
      ))
]

-- Every rule of a set that `validate_rules` accepts has an id that is not blank and that no rule
-- before it has, gives at least one key of its audience, whose list may be empty, and selects only by
-- values of the enums.
pub validate_rules_normal :
    (py : Python) (v : Json) {rules : List Rule}
    → validate_rules py v ≡ ok rules
    → all_normal [] rules ≡ true
unfolding validate_rules
validate_rules_normal py (arr vs) h = ground (arith, validate_from_normal py 1 [] vs)
validate_rules_normal py null h = cc
validate_rules_normal py (bool b) h = cc
validate_rules_normal py (int i) h = cc
validate_rules_normal py (float b s) h = cc
validate_rules_normal py (str s) h = cc
validate_rules_normal py (obj fs) h = cc
