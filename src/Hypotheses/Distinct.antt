-- ===== src/Hypotheses/Distinct.antt =====
-- The ids and the ratings of a normal matrix.
use Prim.Native.Char.{code}
use iceberg_cti.Hypotheses.{
  kept_rating, row_text, Fields, is_neutral, Python, live_keys, rating_value, AchCellRating, Matrix,
  clean_ratings, kept_id, normal_rows, normalise, normalise_rows, numeral_of, given_id, Json,
  max_number, numeral, Row,
}
use iceberg_cti.Base.{
  is_blank, max, int_from, ap, ◌∙◌, all_digits-show, int_from-show, is_blank-show, sym, ==_refl,
  show, HasAscii, join, text_length, Numerals, starts, text_drop, [], ◌∷◌, refl, arith, inl, inr,
  some, none, ok, true, false, nat_eq, string_eq, ◌≡◌, ◌≤◌, ◌<◌, ◌+◌, List, Option, ℕ, String, All,
  elem, Bool-cases, Option-cases, Result-cases,
}

text_drop-join : (p s : String) → text_drop (text_length p) (join p s) ≡ s
text_drop-join String.[] s = refl
text_drop-join (String.◌∷◌ c p) s = text_drop-join p s

starts-join_self : (p s : String) → starts p (join p s) ≡ true
starts-join_self String.[] s = refl
starts-join_self (String.◌∷◌ c p) s = rw (==_refl (code c), starts-join_self p s) refl

-- Each row's id is none that stands before.
abbrev pub HasNewIds : List String → List Row → Type 0
HasNewIds used [] = Unit
HasNewIds used (row ∷ rows) = (elem row.id used ≡ false) × HasNewIds (row.id ∷ used) rows

module _ (numerals : Numerals) (ascii : HasAscii numerals) (prefix : String) where
  pub numeral-show : (n : ℕ) → numeral numerals prefix (join prefix (show n)) ≡ some (show n)
  numeral-show n =
      rw
        (
          starts-join_self prefix (show n),
          text_drop-join prefix (show n),
          is_blank-show n,
          all_digits-show numerals ascii n,
        )
        refl

  same_number : (a b : ℕ) → join prefix (show a) ≡ join prefix (show b) → a ≡ b
  same_number a b h =
      let same : show a ≡ show b =
        sym (text_drop-join prefix (show a))
        ∙ ap (text_drop (text_length prefix)) h
        ∙ text_drop-join prefix (show b) in
      let read : some a ≡ some b =
        sym (int_from-show numerals ascii a)
        ∙ ap (int_from numerals 0) same
        ∙ int_from-show numerals ascii b in
      cc

  -- An allocated id that a row already has has at most this number.
  abbrev IsBelow : ℕ → Json → Type 0
  IsBelow m row = (n : ℕ) → given_id row ≡ some (join prefix (show n)) → n ≤ m

  max_number-IsBelow :
      (rows : List Json) (greatest : ℕ) {m : ℕ}
      → max_number numerals prefix greatest rows ≡ ok m
      → (greatest ≤ m) × All (IsBelow m) rows
  unfolding max_number
  max_number-IsBelow [] greatest h = (ground arith, tt)
  max_number-IsBelow (row ∷ rows) greatest {m} h =
      elim (Option-cases (numeral_of numerals prefix (given_id row))) [
        | inl no_number ↦
            let rest = max_number-IsBelow rows greatest (rw (max_number, no_number) at h) in
            (
              rest.0,
              (
                (λ n given.
                    let found : numeral_of numerals prefix (given_id row) ≡ some (show n) =
                      rw given (numeral-show n) in
                    cc),
                rest.1,
              ),
            )
        | inr (digits, number) ↦ elim (Option-cases (int_from numerals 0 digits)) [
          | inl unread ↦ let bad = rw (max_number, number, unread) at h in cc
          | inr (k, read) ↦
              let rest =
                max_number-IsBelow rows (max greatest k) (rw (max_number, number, read) at h) in
              (
                omega (arith, rest.0),
                (
                  (λ n given.
                      let found : numeral_of numerals prefix (given_id row) ≡ some (show n) =
                        rw given (numeral-show n) in
                      let shown : digits ≡ show n = cc in
                      let is_n : some k ≡ some n =
                        sym read ∙ rw shown (int_from-show numerals ascii n) in
                      let same : k ≡ n = cc in omega (arith, rest.0, same)),
                  rest.1,
                ),
              )
        ]
      ]

  -- No id that is still to be allocated is in use.
  abbrev IsFree : ℕ → List String → Type 0
  IsFree counter used = (n : ℕ) → counter < n → elem (join prefix (show n)) used ≡ false

  IsFree-kept :
      (m counter : ℕ) (used : List String) (row : Json) (id : String)
      → IsBelow m row
      → m ≤ counter
      → given_id row ≡ some id
      → IsFree counter used
      → IsFree counter (id ∷ used)
  IsFree-kept m counter used row id below le given free n later =
      elim (Bool-cases (string_eq.beq (join prefix (show n)) id)) [
        | inl same ↦
            let is_id : join prefix (show n) ≡ id =
              (string_eq.beq_iff (join prefix (show n)) id).0 same in
            let small : n ≤ m = below n (rw is_id given) in absurd (omega (arith, small, later, le))
        | inr other ↦ rw (other, free n later) refl
      ]

  IsFree-allocated :
      (counter : ℕ) (used : List String)
      → IsFree counter used
      → IsFree (counter + 1) (join prefix (show (counter + 1)) ∷ used)
  IsFree-allocated counter used free n later =
      elim (Bool-cases (string_eq.beq (join prefix (show n)) (join prefix (show (counter + 1))))) [
        | inl same ↦
            let is_next : n ≡ counter + 1 = same_number n (counter + 1) (
              (string_eq.beq_iff (join prefix (show n)) (join prefix (show (counter + 1)))).0
                same) in
            absurd (omega (arith, is_next, later))
        | inr other ↦ rw (other, free n (omega arith)) refl
      ]

  kept_id-new :
      (used : List String) (given : Option String) {id : String}
      → kept_id numerals prefix used given ≡ some id
      → (given ≡ some id) × (elem id used ≡ false)
  kept_id-new used none h = cc
  kept_id-new used (some given) h = ground arith

  normal_rows-HasNewIds :
      (py : Python) (rows : List Json) (m counter : ℕ) (used : List String)
      → All (IsBelow m) rows
      → m ≤ counter
      → IsFree counter used
      → HasNewIds used (normal_rows py numerals prefix used counter rows)
  unfolding normal_rows
  normal_rows-HasNewIds py [] m counter used below le free = tt
  normal_rows-HasNewIds py (row ∷ rows) m counter used below le free =
      elim (Bool-cases (is_blank (row_text py row))) [
        | inl blank ↦ rw blank (normal_rows-HasNewIds py rows m counter used below.1 le free)
        | inr full ↦ elim (Option-cases (kept_id numerals prefix used (given_id row))) [
          | inr (id, kept) ↦
              let (given, new) = kept_id-new used (given_id row) kept in
              rw (full, kept)
                (
                  new,
                  normal_rows-HasNewIds py rows m counter (id ∷ used) below.1 le
                      (IsFree-kept m counter used row id below.0 le given free),
                )
          | inl replaced ↦
              rw (full, replaced)
                (
                  free (counter + 1) (omega arith),
                  normal_rows-HasNewIds py rows m (counter + 1)
                      (join prefix (show (counter + 1)) ∷ used) below.1 (omega arith)
                      (IsFree-allocated counter used free),
                )
        ]
      ]

  pub normalise_rows-HasNewIds :
      (py : Python) (rows : List Json) {normal : List Row}
      → normalise_rows py numerals rows prefix ≡ ok normal
      → HasNewIds [] normal
  unfolding normalise_rows
  normalise_rows-HasNewIds py rows {normal} h =
      elim (Result-cases (max_number numerals prefix 0 rows)) [
        | inr (e, refused) ↦ ground arith
        | inl (m, read) ↦
            let is_normal : normal ≡ normal_rows py numerals prefix [] m rows = ground arith in
            rw is_normal (
              normal_rows-HasNewIds py rows m m [] (max_number-IsBelow rows 0 read).1 (omega arith)
                (λ n later. refl))
      ]

-- A stored rating is of a live cell, and is the value of a rating other than neutral.
pub record IsKeptRating (live : List String) (r : String × String) : Type 0 where
  pub key_live : elem r.0 live ≡ true
  pub rating : AchCellRating
  pub is_value : r.1 ≡ rating_value rating
  pub not_neutral : is_neutral rating ≡ false

pub clean_ratings-IsKeptRating :
    (py : Python) (live : List String) (ratings : Fields)
    → All (IsKeptRating live) (clean_ratings py live ratings)
unfolding clean_ratings
clean_ratings-IsKeptRating py live Fields.end = tt
clean_ratings-IsKeptRating py live (Fields.field key value rest) =
    elim (Option-cases (kept_rating py live key value)) [
      | inl dropped ↦ rw (clean_ratings, dropped) (clean_ratings-IsKeptRating py live rest)
      | inr (rating, kept) ↦
          rw (clean_ratings, kept)
            (
              record {
                key_live = ground arith;
                rating = rating;
                is_value = refl;
                not_neutral = ground arith;
              },
              clean_ratings-IsKeptRating py live rest,
            )
    ]

-- What a matrix in normal form has.
pub record IsNormal (m : Matrix) : Type 0 where
  pub hypotheses_new : HasNewIds [] m.hypotheses
  pub evidence_new : HasNewIds [] m.evidence
  pub ratings_kept : All (IsKeptRating (live_keys m.hypotheses m.evidence)) m.ratings

-- Where `int` reads the ASCII digits as such, `normalise` gives, of whatever rows and ratings a caller
-- sends, hypotheses of which no two have one id, evidence of which no two have one id, and ratings each
-- of which is for a hypothesis and an item of evidence that are there, has one of the six values and is
-- not neutral.
normalise-IsNormal :
    (py : Python) (numerals : Numerals) (hypotheses evidence : List Json) (ratings : Fields)
    {m : Matrix}
    → HasAscii numerals
    → normalise py numerals hypotheses evidence ratings ≡ ok m
    → IsNormal m
unfolding normalise
normalise-IsNormal py numerals hypotheses evidence ratings {m} ascii h =
    elim (Result-cases (normalise_rows py numerals hypotheses "h")) [
      | inr (e, refused) ↦ ground arith
      | inl (hyps, first) ↦ elim (Result-cases (normalise_rows py numerals evidence "e")) [
        | inr (e, refused) ↦ ground arith
        | inl (evs, second) ↦
            let is_m : m ≡ record {
              hypotheses = hyps;
              evidence = evs;
              ratings = clean_ratings py (live_keys hyps evs) ratings;
            } =
              ground arith in
            rw is_m (record {
              hypotheses_new = normalise_rows-HasNewIds numerals ascii "h" py hypotheses first;
              evidence_new = normalise_rows-HasNewIds numerals ascii "e" py evidence second;
              ratings_kept = clean_ratings-IsKeptRating py (live_keys hyps evs) ratings;
            })
      ]
    ]
