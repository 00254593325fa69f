-- ===== src/Hypotheses/Leading.antt =====
-- The leading hypotheses and their scores.
use iceberg_cti.Hypotheses.{Row, AchModel}
use iceberg_cti.Hypotheses.Scores.{
  inconsistency_score, leaders_of, leading_hypothesis_ids, add_scores, total, least, put_score,
}
use iceberg_cti.Base.{
  ==_iff, sym, ◌∙◌, leb, str_eq_iff, All-imply, Memᴰ, min, str_eq, beq_refl, [], ◌∷◌, refl, arith,
  inl, inr, true, false, nat_eq, string_eq, ◌≡◌, ◌≤◌, ◌↔◌, ◌⊎◌, ◌&&◌, ◌||◌, ◌==◌, List, ℕ, String,
  All, map, select, elem, Bool-cases,
}

-- `least n scores` is below `n` and every score, and is one of them.
least_le :
    (n : ℕ) (scores : List (String × ℕ))
    → (least n scores ≤ n) × All (λ s. least n scores ≤ s.1) scores
least_le n [] = (omega arith, tt)
least_le n (s ∷ scores) =
    let rest = least_le (min n s.1) scores in
    (omega (arith, rest.0), (omega (arith, rest.0), rest.1))

least_among :
    (n : ℕ) (scores : List (String × ℕ))
    → (least n scores ≡ n) ⊎ ((s : String × ℕ) × Memᴰ s scores × (s.1 ≡ least n scores))
least_among n [] = inl refl
least_among n (s ∷ scores) = elim (least_among (min n s.1) scores) [
  | inr (t, among, same) ↦ inr (t, Memᴰ.tail among, same)
  | inl same ↦ elim (Bool-cases (leb n s.1)) [
    | inl first ↦ inl (ground (arith, same))
    | inr later ↦ inr (s, Memᴰ.head refl, ground (arith, same))
  ]
]

-- What holds of the key of each item holds of each key.
All-key :
    {A : Type 0} (f : A → String) (Q : String → Type 0) (xs : List A) (k : String)
    → All (λ x. Q (f x)) xs
    → elem k (map f xs) ≡ true
    → Q k
All-key f Q [] k h among = cc
All-key f Q (x ∷ xs) k h among = elim (Bool-cases (string_eq.beq k (f x))) [
  | inl same ↦ rw ((string_eq.beq_iff k (f x)).0 same) h.0
  | inr other ↦ All-key f Q xs k h.1 (rw other at among)
]

All-self : {A : Type 0} (f : A → String) (xs : List A) → All (λ x. elem (f x) (map f xs) ≡ true) xs
All-self f [] = tt
All-self f (x ∷ xs) = (
  rw (beq_refl (f x)) refl,
  All-imply (λ y. elem (f y) (map f xs) ≡ true) (λ y. elem (f y) (map f (x ∷ xs)) ≡ true) xs
      (λ y h. ground (arith, h)) (All-self f xs),
)

abbrev keys : List (String × ℕ) → List String
keys scores = map (λ s. s.0) scores

elem-put_score :
    (k hid : String) (n : ℕ) (scores : List (String × ℕ))
    → elem k (keys (put_score hid n scores)) ≡ elem k (keys scores) || string_eq.beq k hid
elem-put_score k hid n [] = ground arith
elem-put_score k hid n (s ∷ scores) = elim (Bool-cases (str_eq s.0 hid)) [
  | inl same ↦
      let is_hid : s.0 ≡ hid = (str_eq_iff s.0 hid).0 same in rw (same, is_hid) (ground arith)
  | inr other ↦ rw (other, elem-put_score k hid n scores) (ground arith)
]

elem-add_scores :
    (ach : AchModel) (k : String) (rows : List Row) (scores : List (String × ℕ))
    → elem k (keys (add_scores ach rows scores))
      ≡ elem k (keys scores) || elem k (map (λ r. r.id) rows)
elem-add_scores ach k [] scores = ground arith
elem-add_scores ach k (r ∷ rows) scores =
    let n = total ach r.id ach.evidence in
    rw (elem-add_scores ach k rows (put_score r.id n scores), elem-put_score k r.id n scores)
      (ground arith)

-- Each score is that of its key.
abbrev AreTotals : AchModel → List (String × ℕ) → Type 0
AreTotals ach scores = All (λ s. s.1 ≡ total ach s.0 ach.evidence) scores

put_score-AreTotals :
    (ach : AchModel) (hid : String) (scores : List (String × ℕ))
    → AreTotals ach scores
    → AreTotals ach (put_score hid (total ach hid ach.evidence) scores)
put_score-AreTotals ach hid [] h = (refl, tt)
put_score-AreTotals ach hid (s ∷ scores) h = elim (Bool-cases (str_eq s.0 hid)) [
  | inl same ↦ rw same (refl, h.1)
  | inr other ↦ rw other (h.0, put_score-AreTotals ach hid scores h.1)
]

add_scores-AreTotals :
    (ach : AchModel) (rows : List Row) (scores : List (String × ℕ))
    → AreTotals ach scores
    → AreTotals ach (add_scores ach rows scores)
add_scores-AreTotals ach [] scores h = h
add_scores-AreTotals ach (r ∷ rows) scores h =
    add_scores-AreTotals ach rows (put_score r.id (total ach r.id ach.evidence) scores)
      (put_score-AreTotals ach r.id scores h)

-- A key is selected by its score.
elem-select :
    (ach : AchModel) (k : String) (n : ℕ) (scores : List (String × ℕ))
    → AreTotals ach scores
    → elem k (keys (select (λ t. t.1 == n) scores))
      ≡ elem k (keys scores) && total ach k ach.evidence == n
elem-select ach k n [] h = refl
elem-select ach k n (s ∷ scores) h = elim (Bool-cases (string_eq.beq k s.0)) [
  | inl same ↦
      let is_k : k ≡ s.0 = (string_eq.beq_iff k s.0).0 same in
      let value : s.1 ≡ total ach k ach.evidence = rw is_k h.0 in
      let rest = elem-select ach k n scores h.1 in
      elim (Bool-cases (total ach k ach.evidence == n)) [
        | inl hit ↦ rw (value, hit, same) refl
        | inr miss ↦ rw (value, miss, same, rest, miss) (ground arith)
      ]
  | inr other ↦
      let rest = elem-select ach k n scores h.1 in
      elim (Bool-cases (s.1 == n)) [
        | inl hit ↦ rw (hit, other) rest
        | inr miss ↦ rw (miss, other) rest
      ]
]

-- A hypothesis that no hypothesis is below.
pub record IsLeader (ach : AchModel) (hid : String) : Type 0 where
  pub is_hypothesis : elem hid (map (λ h. h.id) ach.hypotheses) ≡ true
  pub is_least : All (λ h. total ach hid ach.evidence ≤ total ach h.id ach.evidence) ach.hypotheses

All-mem : {A : Type 0} (P : A → Type 0) (xs : List A) {m : A} → All P xs → Memᴰ m xs → P m
All-mem P [] h k = elim k [ ]
All-mem P (x ∷ xs) h (Memᴰ.head e) = rw e h.0
All-mem P (x ∷ xs) h (Memᴰ.tail k) = All-mem P xs h.1 k

totals_above :
    (ach : AchModel) (n : ℕ) (scores : List (String × ℕ))
    → AreTotals ach scores
    → All (λ s. n ≤ s.1) scores
    → All (λ s. n ≤ total ach s.0 ach.evidence) scores
totals_above ach n [] h k = tt
totals_above ach n (s ∷ scores) h k = (omega (arith, h.0, k.0), totals_above ach n scores h.1 k.1)

-- The scores, where there are any, with the least of them.
module _ (ach : AchModel) (s : String × ℕ) (scores : List (String × ℕ))
    (valued : AreTotals ach (s ∷ scores))
    (known : (k : String)
      → elem k (keys (s ∷ scores)) ≡ elem k (map (λ h. h.id) ach.hypotheses)) where
  above :
      (k : String)
      → elem k (map (λ h. h.id) ach.hypotheses) ≡ true
      → least s.1 scores ≤ total ach k ach.evidence
  above k h =
      All-key (λ t. t.0) (λ k. least s.1 scores ≤ total ach k ach.evidence) (s ∷ scores) k
        (totals_above ach (least s.1 scores) (s ∷ scores) valued (least_le s.1 scores))
        (known k ∙ h)

  reached :
      (k : String) × (elem k (map (λ h. h.id) ach.hypotheses) ≡ true)
      × (total ach k ach.evidence ≡ least s.1 scores)
  reached = elim (least_among s.1 scores) [
    | inl same ↦
        (s.0, sym (known s.0) ∙ (All-self (λ t. t.0) (s ∷ scores)).0, omega (arith, same, valued.0))
    | inr (t, among, same) ↦ (
      t.0,
      sym (known t.0)
          ∙ All-mem (λ t. elem t.0 (keys (s ∷ scores)) ≡ true) (s ∷ scores)
              (All-self (λ t. t.0) (s ∷ scores)) (Memᴰ.tail among),
      omega (arith, same, All-mem (λ t. t.1 ≡ total ach t.0 ach.evidence) scores valued.1 among),
    )
  ]

  leading_of :
      (hid : String)
      → (elem hid (keys (select (λ t. t.1 == least s.1 scores) (s ∷ scores))) ≡ true)
        ↔ IsLeader ach hid
  leading_of hid =
      let n = least s.1 scores in
      let chosen = elem-select ach hid n (s ∷ scores) valued in
      (
        (λ h.
            let both : elem hid (keys (s ∷ scores)) && total ach hid ach.evidence == n ≡ true =
              sym chosen ∙ h in
            let is_n : total ach hid ach.evidence ≡ n = ground arith in
            record {
              is_hypothesis = sym (known hid) ∙ ground arith;
              is_least =
                  All-imply (λ h. elem h.id (map (λ h. h.id) ach.hypotheses) ≡ true)
                    (λ h. total ach hid ach.evidence ≤ total ach h.id ach.evidence) ach.hypotheses
                    (λ h among. omega (arith, above h.id among, is_n))
                    (All-self (λ h. h.id) ach.hypotheses);
            }),
        (λ l.
            let (k, among, same) = reached in
            let below_k : total ach hid ach.evidence ≤ total ach k ach.evidence =
              All-key (λ h. h.id) (λ k. total ach hid ach.evidence ≤ total ach k ach.evidence)
                ach.hypotheses k l.is_least among in
            let is_n : total ach hid ach.evidence ≡ n =
              omega (arith, below_k, same, above hid l.is_hypothesis) in
            chosen
            ∙ rw (known hid, l.is_hypothesis, (==_iff (total ach hid ach.evidence) n).1 is_n) refl),
      )

scores_of :
    (ach : AchModel) (hid : String) (scores : List (String × ℕ))
    → AreTotals ach scores
    → ((k : String) → elem k (keys scores) ≡ elem k (map (λ h. h.id) ach.hypotheses))
    → (elem hid (leaders_of scores) ≡ true) ↔ IsLeader ach hid
scores_of ach hid [] valued known =
    ((λ h. cc), λ l. let none_known : false ≡ true = known hid ∙ l.is_hypothesis in cc)
scores_of ach hid (s ∷ scores) valued known = leading_of ach s scores valued known hid

-- The leading hypotheses of a matrix, with any number of hypotheses and items of evidence, are exactly
-- the ids of its hypotheses whose weighted inconsistency with the evidence no hypothesis is below.
pub leading_hypothesis_ids_iff :
    (ach : AchModel) (hid : String)
    → (elem hid (leading_hypothesis_ids ach) ≡ true) ↔ IsLeader ach hid
unfolding leading_hypothesis_ids inconsistency_score
leading_hypothesis_ids_iff ach hid =
    scores_of ach hid (inconsistency_score ach) (add_scores-AreTotals ach ach.hypotheses [] tt)
      (λ k. elem-add_scores ach k ach.hypotheses [])
