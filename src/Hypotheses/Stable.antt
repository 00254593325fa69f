-- ===== src/Hypotheses/Stable.antt =====
-- The normal form of a normal matrix.
use iceberg_cti.Hypotheses.Distinct.{
  clean_ratings-IsKeptRating, IsKeptRating, numeral-show, normalise_rows-HasNewIds, HasNewIds,
}
use iceberg_cti.Hypotheses.{
  is_neutral, kept_rating, live_keys, ratings_json, Matrix, rating_value, text_of, AchCellRating,
  Fields, get_text, clean_ratings, normalise, given_id, numeral, numeral_of, row_json, row_text,
  Json, Python, kept_id, max_number, normal_rows, normalise_rows, Row,
}
use iceberg_cti.Base.{
  ap, strip_idem, join, int_from-show, show, int_from, max, is_blank, strip, HasAscii, Numerals, [],
  ◌∷◌, refl, arith, inl, inr, some, none, ok, true, false, nat_eq, string_eq, ◌≡◌, ◌+◌, List,
  Option, ℕ, String, All, map, elem, Bool-cases, Option-cases, Result-cases,
}

-- A row that `normalise_rows` leaves as it is.
record IsStable (numerals : Numerals) (prefix : String) (row : Row) : Type 0 where
  is_stripped : strip row.text ≡ row.text
  is_full : is_blank row.text ≡ false
  digits : String
  numbered : numeral numerals prefix row.id ≡ some digits
  number : ℕ
  read : int_from numerals 0 digits ≡ some number

module _ (numerals : Numerals) (ascii : HasAscii numerals) (prefix : String) where
  -- A number in the id of a row can be read.
  abbrev HasReadable : Json → Type 0
  HasReadable row =
      (digits : String)
      → numeral_of numerals prefix (given_id row) ≡ some digits
      → (n : ℕ) × (int_from numerals 0 digits ≡ some n)

  max_number-HasReadable :
      (rows : List Json) (greatest : ℕ) {m : ℕ}
      → max_number numerals prefix greatest rows ≡ ok m
      → All HasReadable rows
  unfolding max_number
  max_number-HasReadable [] greatest h = tt
  max_number-HasReadable (row ∷ rows) greatest h =
      elim (Option-cases (numeral_of numerals prefix (given_id row))) [
        | inl no_number ↦ (
          (λ digits found. cc),
          max_number-HasReadable rows greatest (rw (max_number, no_number) at h),
        )
        | inr (digits, number) ↦ elim (Option-cases (int_from numerals 0 digits)) [
          | inl unread ↦ let bad = rw (max_number, number, unread) at h in cc
          | inr (k, read) ↦ (
            (λ other found. let same : digits ≡ other = cc in (k, rw (← same) read)),
            max_number-HasReadable rows (max greatest k) (rw (max_number, number, read) at h),
          )
        ]
      ]

  kept_id-numeral :
      (used : List String) (given : Option String) {id : String}
      → kept_id numerals prefix used given ≡ some id
      → (given ≡ some id) × ((digits : String) × (numeral numerals prefix id ≡ some digits))
  kept_id-numeral used none h = cc
  kept_id-numeral used (some given) {id} h = elim (Option-cases (numeral numerals prefix given)) [
    | inl no_number ↦ let bad = rw no_number at h in cc
    | inr (digits, number) ↦
        let same : given ≡ id = ground arith in rw (← same) (refl, (digits, number))
  ]

  stripped_text : (py : Python) (row : Json) → strip (row_text py row) ≡ row_text py row
  stripped_text py (Json.obj fs) = strip_idem (get_text py "text" fs)
  stripped_text py Json.null = strip_idem (text_of py Json.null)
  stripped_text py (Json.bool b) = strip_idem (text_of py (Json.bool b))
  stripped_text py (Json.int n) = strip_idem (text_of py (Json.int n))
  stripped_text py (Json.float b s) = strip_idem (text_of py (Json.float b s))
  stripped_text py (Json.str s) = strip_idem (text_of py (Json.str s))
  stripped_text py (Json.arr vs) = strip_idem (text_of py (Json.arr vs))

  normal_rows-IsStable :
      (py : Python) (rows : List Json) (used : List String) (counter : ℕ)
      → All HasReadable rows
      → All (IsStable numerals prefix) (normal_rows py numerals prefix used counter rows)
  unfolding normal_rows
  normal_rows-IsStable py [] used counter h = tt
  normal_rows-IsStable py (row ∷ rows) used counter h =
      elim (Bool-cases (is_blank (row_text py row))) [
        | inl blank ↦ rw blank (normal_rows-IsStable py rows used counter h.1)
        | inr full ↦ elim (Option-cases (kept_id numerals prefix used (given_id row))) [
          | inr (id, kept) ↦
              let (given, (digits, numbered)) = kept_id-numeral used (given_id row) kept in
              let (n, read) = h.0 digits (rw (given, numbered) refl) in
              rw (full, kept)
                (
                  record {
                    is_stripped = stripped_text py row;
                    is_full = full;
                    digits = digits;
                    numbered = numbered;
                    number = n;
                    read = read;
                  },
                  normal_rows-IsStable py rows (id ∷ used) counter h.1,
                )
          | inl replaced ↦
              rw (full, replaced)
                (
                  record {
                    is_stripped = stripped_text py row;
                    is_full = full;
                    digits = show (counter + 1);
                    numbered = numeral-show numerals ascii prefix (counter + 1);
                    number = counter + 1;
                    read = int_from-show numerals ascii (counter + 1);
                  },
                  normal_rows-IsStable py rows (join prefix (show (counter + 1)) ∷ used)
                      (counter + 1) h.1,
                )
        ]
      ]

  normal_rows-again :
      (py : Python) (rows : List Row) (used : List String) (counter : ℕ)
      → HasNewIds used rows
      → All (IsStable numerals prefix) rows
      → normal_rows py numerals prefix used counter (map row_json rows) ≡ rows
  unfolding normal_rows
  normal_rows-again py [] used counter new h = refl
  normal_rows-again py (row ∷ rows) used counter new h =
      let again = normal_rows-again py rows (row.id ∷ used) counter new.1 h.1 in
      let text : row_text py (row_json row) ≡ row.text = h.0.is_stripped in
      let kept : kept_id numerals prefix used (given_id (row_json row)) ≡ some row.id =
        rw (h.0.numbered, new.0) refl in
      let same : Path Row (record { id = row.id; text = row_text py (row_json row) }) row =
        ap (λ t. record { id = row.id; text = t }) text in
      rw (normal_rows, text, h.0.is_full, kept, again) (ap (λ r. r ∷ rows) same)

  max_number-again :
      (rows : List Row) (greatest : ℕ)
      → All (IsStable numerals prefix) rows
      → (m : ℕ) × (max_number numerals prefix greatest (map row_json rows) ≡ ok m)
  unfolding max_number
  max_number-again [] greatest h = (greatest, refl)
  max_number-again (row ∷ rows) greatest h =
      let number : numeral_of numerals prefix (given_id (row_json row)) ≡ some h.0.digits =
        h.0.numbered in
      rw (max_number, number, h.0.read) (max_number-again rows (max greatest h.0.number) h.1)

  normalise_rows-again :
      (py : Python) (rows : List Json) {normal : List Row}
      → normalise_rows py numerals rows prefix ≡ ok normal
      → normalise_rows py numerals (map row_json normal) prefix ≡ ok normal
  unfolding normalise_rows
  normalise_rows-again py rows {normal} h =
      elim (Result-cases (max_number numerals prefix 0 rows)) [
        | inr (e, refused) ↦ ground arith
        | inl (m, read) ↦
            let is_normal : normal ≡ normal_rows py numerals prefix [] m rows = ground arith in
            let stable = normal_rows-IsStable py rows [] m (max_number-HasReadable rows 0 read) in
            let (again, counted) =
              max_number-again (normal_rows py numerals prefix [] m rows) 0 stable in
            let new = normalise_rows-HasNewIds numerals ascii prefix py rows h in
            let same : normal_rows py numerals prefix [] again
                  (map row_json (normal_rows py numerals prefix [] m rows))
                ≡ normal_rows py numerals prefix [] m rows =
              normal_rows-again py (normal_rows py numerals prefix [] m rows) [] again
                (rw is_normal at new) stable in
            rw (is_normal, counted, same) refl
      ]

kept_rating-value :
    (py : Python) (live : List String) (key : String) (r : AchCellRating)
    → py.upper (rating_value r) ≡ rating_value r
    → elem key live ≡ true
    → is_neutral r ≡ false
    → kept_rating py live key (Json.str (rating_value r)) ≡ some r
kept_rating-value py live key AchCellRating.strongly_consistent upper known other =
    rw (known, upper) refl
kept_rating-value py live key AchCellRating.consistent upper known other = rw (known, upper) refl
kept_rating-value py live key AchCellRating.neutral upper known other = cc
kept_rating-value py live key AchCellRating.inconsistent upper known other = rw (known, upper) refl
kept_rating-value py live key AchCellRating.strongly_inconsistent upper known other =
    rw (known, upper) refl
kept_rating-value py live key AchCellRating.not_applicable upper known other =
    rw (known, upper) refl

ratings-again :
    (py : Python) (live : List String) (ratings : List (String × String))
    → ((r : AchCellRating) → py.upper (rating_value r) ≡ rating_value r)
    → All (IsKeptRating live) ratings
    → clean_ratings py live (ratings_json ratings) ≡ ratings
unfolding clean_ratings
ratings-again py live [] upper h = refl
ratings-again py live (r ∷ ratings) upper h =
    let kept : kept_rating py live r.0 (Json.str r.1) ≡ some h.0.rating =
      rw h.0.is_value (
        kept_rating-value py live r.0 h.0.rating (upper h.0.rating) h.0.key_live h.0.not_neutral) in
    rw (clean_ratings, kept, ratings-again py live ratings upper h.1) (rw (← h.0.is_value) refl)

-- Where `int` reads the ASCII digits as such and `upper` keeps the six values of a rating, the normal form
-- is stable: normalising the rows and ratings that `normalise` gave, as they are stored, gives the same
-- again, so that a later edit of other fields keeps every id, text and rating.
pub normalise_again :
    (py : Python) (numerals : Numerals) (hypotheses evidence : List Json) (ratings : Fields)
    {m : Matrix}
    → HasAscii numerals
    → ((r : AchCellRating) → py.upper (rating_value r) ≡ rating_value r)
    → normalise py numerals hypotheses evidence ratings ≡ ok m
    → normalise py numerals
        (map row_json m.hypotheses)
        (map row_json m.evidence)
        (ratings_json m.ratings)
      ≡ ok m
unfolding normalise
normalise_again py numerals hypotheses evidence ratings {m} ascii upper h =
    elim (Result-cases (normalise_rows py numerals hypotheses "h")) [
      | inr (e, refused) ↦ ground arith
      | inl (hyps, first) ↦ elim (Result-cases (normalise_rows py numerals evidence "e")) [
        | inr (e, refused) ↦ ground arith
        | inl (evs, second) ↦
            let live = live_keys hyps evs in
            let is_m : m ≡ record {
              hypotheses = hyps;
              evidence = evs;
              ratings = clean_ratings py live ratings;
            } =
              ground arith in
            rw
              (
                is_m,
                normalise_rows-again numerals ascii "h" py hypotheses first,
                normalise_rows-again numerals ascii "e" py evidence second,
                ratings-again py live (clean_ratings py live ratings) upper
                    (clean_ratings-IsKeptRating py live ratings),
              )
              refl
      ]
    ]
