-- ===== src/Hypotheses.antt =====
-- src/iceberg/services/ach.py: the matrix of competing hypotheses, its normal form and its scores.
pub mod Scores
pub mod Distinct
pub mod Leading
pub mod Stable
mod Tests
use iceberg_cti.Policy.Rules.{text_of, get_text, get, Python}
use iceberg_cti.Models.{Fields, Instant, Json}
use iceberg_cti.Base.{
  find_first, or_else, str_eq, all_digits, show, starts, join, max, text_length, int_from, is_blank,
  is_some, strip, text_drop, Numerals, zero, suc, [], ◌∷◌, refl, arith, inl, inr, some, none, ok,
  err, true, false, nat_eq, string_eq, ◌>>=◌, ◌>>◌, ◌≡◌, ◌≢◌, ◌≤◌, ◌<◌, ◌↔◌, ◌⊎◌, ◌+◌, ◌++◌, ◌&&◌,
  ◌||◌, ◌==◌, not, if◌then◌else◌, Bool, List, Option, ℕ, String, Result, All, map, select, elem,
  Bool-cases, Option-cases, Result-cases,
}

pub data AchCellRating : Type 0 where
  strongly_consistent consistent neutral : AchCellRating
  inconsistent strongly_inconsistent not_applicable : AchCellRating

-- `{"id": …, "text": …}`
pub record Row : Type 0 where
  pub id : String
  pub text : String

pub record AchModel : Type 0 where
  pub id : ℕ
  pub notebook_id : ℕ
  pub title : String
  pub question : String
  pub hypotheses : List Row
  pub evidence : List Row
  pub ratings : List (String × String)
  pub notes : String
  pub created_at : Instant
  pub updated_at : Instant

-- A `ValueError` of `int`, and the 404 of `get_scoped`.
pub data AchError : Type 0 where
  not_a_number analysis_not_found : AchError

-- `row.get("id")`, where it is a string.
abbrev pub given_id : Json → Option String
given_id (Json.obj fs) = elim (get "id" fs) [ some (Json.str s) ↦ some s | _ ↦ none ]
given_id _ = none

abbrev pub row_text : Python → Json → String
row_text py (Json.obj fs) = strip (get_text py "text" fs)
row_text py row = strip (text_of py row)

-- What stands after the prefix of an id of the right form.
abbrev pub numeral : Numerals → String → String → Option String
numeral numerals prefix id =
    let rest = text_drop (text_length prefix) id in
    if starts prefix id && not (is_blank rest) && all_digits numerals rest then some rest else none

abbrev pub numeral_of : Numerals → String → Option String → Option String
numeral_of numerals prefix none = none
numeral_of numerals prefix (some id) = numeral numerals prefix id

-- The greatest number among the ids of the right form.
unfoldable pub max_number : Numerals → String → ℕ → List Json → Result AchError ℕ
max_number numerals prefix greatest [] = ok greatest
max_number numerals prefix greatest (row ∷ rows) =
    elim (numeral_of numerals prefix (given_id row)) [
      | none ↦ max_number numerals prefix greatest rows
      | some digits ↦ elim (int_from numerals 0 digits) [
        | none ↦ err AchError.not_a_number
        | some n ↦ max_number numerals prefix (max greatest n) rows
      ]
    ]

-- The id that a row keeps, if it has one that is valid and new.
abbrev pub kept_id : Numerals → String → List String → Option String → Option String
kept_id numerals prefix used none = none
kept_id numerals prefix used (some id) =
    if is_some (numeral numerals prefix id) && not (elem id used) then some id else none

-- The second loop, from the ids in use and the last number that was allocated.
unfoldable pub normal_rows : Python → Numerals → String → List String → ℕ → List Json → List Row
normal_rows py numerals prefix used counter [] = []
normal_rows py numerals prefix used counter (row ∷ rows) =
    if is_blank (row_text py row)
    then normal_rows py numerals prefix used counter rows
    else elim (kept_id numerals prefix used (given_id row)) [
      | some id ↦
          record { id = id; text = row_text py row }
          ∷ normal_rows py numerals prefix (id ∷ used) counter rows
      | none ↦
          let id = join prefix (show (counter + 1)) in
          record { id = id; text = row_text py row }
          ∷ normal_rows py numerals prefix (id ∷ used) (counter + 1) rows
    ]

-- `_normalise_rows`
unfoldable pub normalise_rows : Python → Numerals → List Json → String → Result AchError (List Row)
unfolding max_number normal_rows
normalise_rows py numerals rows prefix = do
  greatest ← max_number numerals prefix 0 rows
  ok (normal_rows py numerals prefix [] greatest rows)

abbrev pub rating_value : AchCellRating → String
rating_value AchCellRating.strongly_consistent = "STRONGLY_CONSISTENT"
rating_value AchCellRating.consistent = "CONSISTENT"
rating_value AchCellRating.neutral = "NEUTRAL"
rating_value AchCellRating.inconsistent = "INCONSISTENT"
rating_value AchCellRating.strongly_inconsistent = "STRONGLY_INCONSISTENT"
rating_value AchCellRating.not_applicable = "NOT_APPLICABLE"

-- `ACHCellRating(s)`
abbrev pub rating_of : String → Option AchCellRating
rating_of s =
    if str_eq s "STRONGLY_CONSISTENT"
    then some AchCellRating.strongly_consistent
    else if str_eq s "CONSISTENT"
    then some AchCellRating.consistent
    else if str_eq s "NEUTRAL"
    then some AchCellRating.neutral
    else if str_eq s "INCONSISTENT"
    then some AchCellRating.inconsistent
    else if str_eq s "STRONGLY_INCONSISTENT"
    then some AchCellRating.strongly_inconsistent
    else if str_eq s "NOT_APPLICABLE"
    then some AchCellRating.not_applicable
    else none

abbrev pub is_neutral : AchCellRating → Bool
is_neutral AchCellRating.neutral = true
is_neutral _ = false

-- The key of a cell.
abbrev pub cell_key : String → String → String
cell_key hid eid = join hid (join ":" eid)

abbrev pub keys_with : String → List Row → List String
keys_with hid evidence = map (λ e. cell_key hid e.id) evidence

abbrev pub live_keys : List Row → List Row → List String
live_keys [] evidence = []
live_keys (h ∷ hypotheses) evidence = keys_with h.id evidence ++ live_keys hypotheses evidence

-- The rating of a cell that is kept: a live key, and a value that is a rating other than neutral.
abbrev pub kept_rating : Python → List String → String → Json → Option AchCellRating
kept_rating py live key value =
    if elem key live
    then elim (rating_of (py.upper (strip (text_of py value)))) [
      | none ↦ none
      | some rating ↦ if is_neutral rating then none else some rating
    ]
    else none

unfoldable pub clean_ratings : Python → List String → Fields → List (String × String)
clean_ratings py live Fields.end = []
clean_ratings py live (Fields.field key value rest) = elim (kept_rating py live key value) [
  | none ↦ clean_ratings py live rest
  | some rating ↦ (key, rating_value rating) ∷ clean_ratings py live rest
]

pub record Matrix : Type 0 where
  pub hypotheses : List Row
  pub evidence : List Row
  pub ratings : List (String × String)

unfoldable pub normalise :
    Python → Numerals → List Json → List Json → Fields → Result AchError Matrix
unfolding normalise_rows clean_ratings
normalise py numerals hypotheses evidence ratings = do
  hyps ← normalise_rows py numerals hypotheses "h"
  evs ← normalise_rows py numerals evidence "e"
  ok (record {
    hypotheses = hyps;
    evidence = evs;
    ratings = clean_ratings py (live_keys hyps evs) ratings;
  })

unfoldable pub get_scoped : ℕ → ℕ → List AchModel → Result AchError AchModel
get_scoped notebook_id ach_id table = elim (find_first (λ a. a.id == ach_id) table) [
  | none ↦ err AchError.analysis_not_found
  | some a ↦ if a.notebook_id == notebook_id then ok a else err AchError.analysis_not_found
]

-- The texts that a caller gives, and the rows and ratings of the request.
pub record Request : Type 0 where
  pub title : Option String
  pub question : Option String
  pub hypotheses : Option (List Json)
  pub evidence : Option (List Json)
  pub ratings : Option Fields
  pub notes : Option String

unfoldable pub create_ach :
    Python → Numerals → ℕ → Instant → Instant → ℕ → String → Request → Result AchError AchModel
unfolding normalise
create_ach py numerals id now now' notebook_id title request = do
  m ←
      normalise py numerals (or_else request.hypotheses []) (or_else request.evidence [])
        (or_else request.ratings Fields.end)
  ok (record {
    id = id;
    notebook_id = notebook_id;
    title = title;
    question = or_else request.question "";
    hypotheses = m.hypotheses;
    evidence = m.evidence;
    ratings = m.ratings;
    notes = or_else request.notes "";
    created_at = now;
    updated_at = now';
  })

-- The stored rows and ratings, as the JSON columns hold them.
abbrev pub row_json : Row → Json
row_json row =
    Json.obj
      (Fields.field "id" (Json.str row.id) (Fields.field "text" (Json.str row.text) Fields.end))

abbrev pub ratings_json : List (String × String) → Fields
ratings_json [] = Fields.end
ratings_json ((key, value) ∷ rest) = Fields.field key (Json.str value) (ratings_json rest)

unfoldable pub update_ach :
    Python → Numerals → AchModel → Request → Instant → Result AchError AchModel
unfolding normalise
update_ach py numerals ach request now = do
  m ←
      normalise py numerals (or_else request.hypotheses (map row_json ach.hypotheses))
        (or_else request.evidence (map row_json ach.evidence))
        (or_else request.ratings (ratings_json ach.ratings))
  ok (record ach {
    title = or_else request.title ach.title;
    question = or_else request.question ach.question;
    hypotheses = m.hypotheses;
    evidence = m.evidence;
    ratings = m.ratings;
    notes = or_else request.notes ach.notes;
    updated_at = now;
  })
