-- ===== src/Hypotheses/Tests.antt =====
-- Matrices with clashing, missing and foreign ids.
use iceberg_cti.Hypotheses.Stable.{normalise_again}
use iceberg_cti.Hypotheses.Leading.{leading_hypothesis_ids_iff, IsLeader}
use Prim.Native.Char.{code}
use iceberg_cti.Hypotheses.{
  ratings_json, row_json, AchError, AchModel, Fields, Json, Matrix, Python, max_number, normal_rows,
  normalise_rows, clean_ratings, normalise,
}
use iceberg_cti.Hypotheses.Scores.{inconsistency_score, leading_hypothesis_ids}
use iceberg_cti.Base.{
  digits_before, ◌-◌, leb, HasAscii, Numerals, [], ◌∷◌, refl, some, none, ok, err, true, nat_eq,
  string_eq, ◌≡◌, ◌↔◌, ◌&&◌, if◌then◌else◌, List, String, map, elem, show,
}

abbrev python : Python
python = record { upper = λ s. s; casefold = λ s. s; repr = λ _. "?" }

-- The ASCII digits, and no other.
abbrev numerals : Numerals
numerals = record {
  isdigit = λ c. leb 48 (code c) && leb (code c) 57;
  decimal = λ c. if leb 48 (code c) && leb (code c) 57 then some (code c - 48) else none;
}

numerals-HasAscii : HasAscii numerals
numerals-HasAscii = record {
  ascii_isdigit = λ c low high. rw (low, high) refl;
  ascii_decimal = λ c low high. rw (low, high) refl;
}

abbrev given : String → String → Json
given id text =
    Json.obj (Fields.field "id" (Json.str id) (Fields.field "text" (Json.str text) Fields.end))

abbrev hypotheses : List Json
hypotheses = given "h2" " A" ∷ given "h2" "B" ∷ given "h7" " " ∷ Json.str "C" ∷ []

abbrev evidence : List Json
evidence = given "e1" "X" ∷ []

abbrev ratings : Fields
ratings = Fields.field "h2:e1" (Json.str "INCONSISTENT") (
    Fields.field "h8:e1" (Json.str "NEUTRAL")
      (Fields.field "h7:e1" (Json.str "CONSISTENT") Fields.end))

abbrev matrix : Matrix
matrix = record {
  hypotheses =
      record { id = "h2"; text = "A" }
      ∷ record { id = "h8"; text = "B" }
      ∷ record { id = "h9"; text = "C" }
      ∷ [];
  evidence = record { id = "e1"; text = "X" } ∷ [];
  ratings = ("h2:e1", "INCONSISTENT") ∷ [];
}

normalises : normalise python numerals hypotheses evidence ratings ≡ ok matrix
unfolding normalise normalise_rows max_number normal_rows clean_ratings show digits_before
normalises = refl

-- `isdigit` also accepts characters that `int` refuses, as a superscript two.
superscript_raises :
    normalise_rows python (record { isdigit = λ _. true; decimal = λ _. none }) evidence "e"
    ≡ err AchError.not_a_number
unfolding normalise_rows max_number
superscript_raises = refl

abbrev ach : AchModel
ach = record {
  id = 1;
  notebook_id = 2;
  title = "T";
  question = "Q";
  hypotheses = matrix.hypotheses;
  evidence = matrix.evidence;
  ratings = matrix.ratings;
  notes = "";
  created_at = 1;
  updated_at = 2;
}

two_lead : leading_hypothesis_ids ach ≡ "h8" ∷ "h9" ∷ []
unfolding leading_hypothesis_ids inconsistency_score
two_lead = refl

leading_hypothesis_ids_iff_example :
    (elem "h8" (leading_hypothesis_ids ach) ≡ true) ↔ IsLeader ach "h8"
leading_hypothesis_ids_iff_example = leading_hypothesis_ids_iff ach "h8"

normalise_again_example :
    normalise python numerals
      (map row_json matrix.hypotheses)
      (map row_json matrix.evidence)
      (ratings_json matrix.ratings)
    ≡ ok matrix
normalise_again_example =
    normalise_again python numerals hypotheses evidence ratings numerals-HasAscii (λ r. refl)
      normalises
