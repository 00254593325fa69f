-- ===== src/Hypotheses/Scores.antt =====
-- src/iceberg/services/ach.py: `inconsistency_score` and `leading_hypothesis_ids`.
use iceberg_cti.Hypotheses.{rating_of, Row, cell_key, AchCellRating, AchModel}
use iceberg_cti.Base.{
  or_else, min, str_eq, [], ◌∷◌, some, none, nat_eq, string_eq, ◌+◌, ◌==◌, if◌then◌else◌, List,
  Option, ℕ, String, map, select,
}

-- `_INCONSISTENCY_WEIGHT.get(rating, 0)`
abbrev pub weight : AchCellRating → ℕ
weight AchCellRating.inconsistent = 1
weight AchCellRating.strongly_inconsistent = 2
weight _ = 0

abbrev pub lookup : String → List (String × String) → Option String
lookup key [] = none
lookup key ((k, v) ∷ rest) = if str_eq k key then some v else lookup key rest

-- `_rating`
abbrev pub rating_at : AchModel → String → String → AchCellRating
rating_at ach hid eid = elim (lookup (cell_key hid eid) ach.ratings) [
  | none ↦ AchCellRating.neutral
  | some raw ↦ or_else (rating_of raw) AchCellRating.neutral
]

abbrev pub total : AchModel → String → List Row → ℕ
total ach hid [] = 0
total ach hid (e ∷ evidence) = weight (rating_at ach hid e.id) + total ach hid evidence

-- `scores[hid] = total`
abbrev pub put_score : String → ℕ → List (String × ℕ) → List (String × ℕ)
put_score hid n [] = (hid, n) ∷ []
put_score hid n (s ∷ scores) =
    if str_eq s.0 hid then (hid, n) ∷ scores else s ∷ put_score hid n scores

abbrev pub add_scores : AchModel → List Row → List (String × ℕ) → List (String × ℕ)
add_scores ach [] scores = scores
add_scores ach (h ∷ hypotheses) scores =
    add_scores ach hypotheses (put_score h.id (total ach h.id ach.evidence) scores)

unfoldable pub inconsistency_score : AchModel → List (String × ℕ)
inconsistency_score ach = add_scores ach ach.hypotheses []

-- `min(scores.values())`
abbrev pub least : ℕ → List (String × ℕ) → ℕ
least n [] = n
least n (s ∷ scores) = least (min n s.1) scores

-- `[hid for hid, s in scores.items() if s == lo]`
abbrev pub leaders_of : List (String × ℕ) → List String
leaders_of [] = []
leaders_of (s ∷ scores) = map (λ t. t.0) (select (λ t. t.1 == least s.1 scores) (s ∷ scores))

unfoldable pub leading_hypothesis_ids : AchModel → List String
unfolding inconsistency_score
leading_hypothesis_ids ach = leaders_of (inconsistency_score ach)
