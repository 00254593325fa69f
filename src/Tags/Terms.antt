-- ===== src/Tags/Terms.antt =====
-- src/iceberg/services/tags.py: the terms of the taxonomy, and how their texts are cleaned, with
-- `normalise_tactics` of src/iceberg/services/attack.py.
use iceberg_cti.Models.{Instant}
use iceberg_cti.Base.{
  any_of, is_empty, is_blank, is_space, join, leb, str_eq, strip, [], ◌∷◌, some, none, ok, err,
  true, false, nat_eq, string_eq, ◌&&◌, ◌||◌, ◌==◌, not, if◌then◌else◌, Bool, List, Option, ℕ,
  String, Result, map, select, elem,
}
use Prim.Native.Char.{Char, code}

pub data TagKind : Type 0 where
  actor campaign malware technique sector topic : TagKind

pub data Motivation : Type 0 where
  espionage financial hacktivism destructive influence : Motivation

pub record Tag : Type 0 where
  pub id : ℕ
  pub kind : TagKind
  pub label : String
  pub slug : String
  pub external_id : String
  pub description : String
  pub aliases : List String
  pub suspected_attribution : String
  pub motivations : List Motivation
  pub first_seen : String
  pub last_seen : String
  pub attack_tactics : List String
  pub active : Bool
  pub merged_into_tag_id : Option ℕ
  pub merged_at : Option Instant
  pub created_at : Instant
  pub updated_at : Instant

-- The sites that raise `HTTPException`; a conflict of a rename is listed with the others.
pub data TagError : Type 0 where
  label_required label_not_alphanumeric tag_exists : TagError
  merged_cannot_be_active merged_kept target_kept : TagError
  merge_into_itself other_kind already_merged target_inactive taxonomy_changed : TagError
  tactics_of_technique unknown_tactic : TagError
  rename_blocked previous_required not_an_alias selected_merged : TagError

-- Python's `str.lower` and `str.upper`.
pub record Letters : Type 0 where
  pub lower : String → String
  pub upper : String → String

abbrev kind_number : TagKind → ℕ
kind_number TagKind.actor = 0
kind_number TagKind.campaign = 1
kind_number TagKind.malware = 2
kind_number TagKind.technique = 3
kind_number TagKind.sector = 4
kind_number TagKind.topic = 5

abbrev pub same_kind : TagKind → TagKind → Bool
same_kind a b = kind_number a == kind_number b

abbrev pub is_technique : TagKind → Bool
is_technique TagKind.technique = true
is_technique _ = false

-- The runs of characters that are kept, joined by `fill`; `started` after the first one, `gap` after a
-- character that is not kept.
abbrev pub join_runs : (Char → Bool) → Char → Bool → Bool → String → String
join_runs keep fill started gap String.[] = String.[]
join_runs keep fill started gap (String.◌∷◌ c s) =
    let run = join_runs keep fill true false s in
    let rest = join_runs keep fill started true s in
    if keep c
    then if started && gap then String.◌∷◌ fill (String.◌∷◌ c run) else String.◌∷◌ c run
    else rest

-- `[a-z0-9]`
abbrev pub in_slug : Char → Bool
in_slug c = let n = code c in (leb b'a' n && leb n b'z') || (leb b'0' n && leb n b'9')

-- `_SLUG_RE.sub("-", label.strip().lower()).strip("-")`
unfoldable pub slugify : Letters → String → String
slugify letters label = join_runs in_slug "-" false false (letters.lower (strip label))

-- `_ALIAS_SPLIT_RE.split`, where texts between separators may be empty; `word` is read so far.
abbrev split_from : String → String → List String
split_from word String.[] = word ∷ []
split_from word (String.◌∷◌ c s) =
    let next = split_from "" s in
    let more = split_from (join word (String.◌∷◌ c String.[])) s in
    if code c == b',' || code c == b'\n' then word ∷ next else more

-- `_dedupe`, after the keys in `seen`.
unfoldable pub dedupe_from : Letters → List String → List String → List String
dedupe_from letters seen [] = []
dedupe_from letters seen (a ∷ aliases) =
    let key = letters.lower (strip a) in
    let new = dedupe_from letters (key ∷ seen) aliases in
    let rest = dedupe_from letters seen aliases in
    if not (is_blank (strip a)) && not (elem key seen) then strip a ∷ new else rest

unfoldable pub dedupe : Letters → List String → List String
unfolding dedupe_from
dedupe letters aliases = dedupe_from letters [] aliases

-- `parse_aliases` and `parse_attack_tactics`
abbrev pub parse_aliases : Letters → String → List String
parse_aliases letters raw = dedupe letters (map strip (split_from "" raw))

unfoldable pub normalise_aliases : Letters → String → List String → List String
unfolding dedupe
normalise_aliases letters label aliases =
    select (λ a. not (str_eq (letters.lower a) (letters.lower (strip label))))
      (dedupe letters aliases)

-- `Motivation(s)`
abbrev motivation_of : String → Option Motivation
motivation_of s =
    if str_eq s "ESPIONAGE"
    then some Motivation.espionage
    else if str_eq s "FINANCIAL"
    then some Motivation.financial
    else if str_eq s "HACKTIVISM"
    then some Motivation.hacktivism
    else if str_eq s "DESTRUCTIVE"
    then some Motivation.destructive
    else if str_eq s "INFLUENCE"
    then some Motivation.influence
    else none

abbrev motivation_number : Motivation → ℕ
motivation_number Motivation.espionage = 0
motivation_number Motivation.financial = 1
motivation_number Motivation.hacktivism = 2
motivation_number Motivation.destructive = 3
motivation_number Motivation.influence = 4

abbrev pub motivations_from : Letters → List Motivation → List String → List Motivation
motivations_from letters seen [] = []
motivations_from letters seen (v ∷ values) = elim (motivation_of (letters.upper (strip v))) [
  | none ↦ motivations_from letters seen values
  | some m ↦
      if any_of (λ k. motivation_number k == motivation_number m) seen
      then motivations_from letters seen values
      else m ∷ motivations_from letters (m ∷ seen) values
]

unfoldable pub normalise_motivations : Letters → List String → List Motivation
normalise_motivations letters values = motivations_from letters [] values

abbrev pub tactic_order : List String
tactic_order =
    "Reconnaissance" ∷ "Resource Development" ∷ "Initial Access" ∷ "Execution" ∷ "Persistence"
    ∷ "Privilege Escalation" ∷ "Defense Evasion" ∷ "Credential Access" ∷ "Discovery"
    ∷ "Lateral Movement" ∷ "Collection" ∷ "Command and Control" ∷ "Exfiltration" ∷ "Impact" ∷ []

-- `_tactic_key`: the words between spaces, dashes and underscores.
abbrev pub tactic_key : Letters → String → String
tactic_key letters value =
    letters.lower
      (join_runs (λ c. not (is_space c || code c == b'-' || code c == b'_')) " " false false value)

unfoldable pub normalise_tactics : Letters → List String → List String
normalise_tactics letters values =
    select (λ t. elem (letters.lower t) (map (tactic_key letters) values)) tactic_order

unfoldable pub normalise_attack_tactics :
    Letters → List String → TagKind → Result TagError (List String)
unfolding normalise_tactics
normalise_attack_tactics letters values kind =
    let cleaned = select (λ v. not (is_blank v)) (map strip values) in
    if not (is_technique kind)
    then if is_empty cleaned then ok [] else err TagError.tactics_of_technique
    else if any_of (λ v. is_empty (normalise_tactics letters (v ∷ []))) cleaned
    then err TagError.unknown_tactic
    else ok (normalise_tactics letters cleaned)
