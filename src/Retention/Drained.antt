-- ===== src/Retention/Drained.antt =====
-- Deletion in batches: what each page leaves, and the end of the loop.
use iceberg_cti.Retention.Lists.{
  length-take-drop, length-take, nonempty-length, select-All, select-ext, All-both, All-keep, drop,
  is_empty-length, length-map, select_comm,
}
use iceberg_cti.Retention.{delete_in_batches, size_or, counted, drain, page, delete_ids}
use iceberg_cti.Base.{
  sym, ltb, is_empty, min, ◌∙◌, ==_refl, take, All-imply, length, zero, suc, [], ◌∷◌, refl, arith,
  inl, inr, some, none, true, false, nat_eq, string_eq, ◌≡◌, ◌<◌, ◌+◌, ◌==◌, not, Bool, List,
  Option, ℕ, All, map, select, elem, Bool-cases,
}

size_positive : (batch_size : Option ℕ) → 0 < size_or batch_size
size_positive none = omega arith
size_positive (some zero) = omega arith
size_positive (some (suc n)) = omega arith

-- What the driver says, where it says a positive number, is the number of rows.
abbrev pub IsHonest : (ℕ → Option ℕ) → Type 0
IsHonest reported = (n : ℕ) → counted (reported n) n ≡ n

-- No two rows have one key.
abbrev pub HasKeys : {A : Type 0} → (A → ℕ) → List A → Type 0
HasKeys key [] = Unit
HasKeys key (x ∷ xs) = All (λ y. (key y == key x) ≡ false) xs × HasKeys key xs

module _ {A : Type 0} (key : A → ℕ) (matches : A → Bool) where
  HasKeys-select : (p : A → Bool) (rows : List A) → HasKeys key rows → HasKeys key (select p rows)
  HasKeys-select p [] h = tt
  HasKeys-select p (r ∷ rows) h = elim (Bool-cases (p r)) [
    | inl yes_p ↦
        rw yes_p (All-keep (λ y. (key y == key r) ≡ false) p rows h.0, HasKeys-select p rows h.1)
    | inr no_p ↦ rw no_p (HasKeys-select p rows h.1)
  ]

  All-other :
      (x : A) (ids : List ℕ) (rows : List A)
      → All (λ y. (key y == key x) ≡ false) rows
      → All (λ y. not (elem (key y) (key x ∷ ids)) ≡ not (elem (key y) ids)) rows
  All-other x ids rows h =
      All-imply (λ y. (key y == key x) ≡ false)
        (λ y. not (elem (key y) (key x ∷ ids)) ≡ not (elem (key y) ids)) rows (λ y k. rw k refl) h

  delete_none : (rows : List A) → delete_ids key matches [] rows ≡ rows
  delete_none [] = refl
  delete_none (r ∷ rows) = rw (delete_none rows) refl

  -- Deleting the first keys leaves the rest.
  delete_first :
      (n : ℕ) (rows : List A)
      → HasKeys key rows
      → delete_ids key matches (map key (take n rows)) rows ≡ drop n rows
  delete_first zero rows h = delete_none rows
  delete_first (suc n) [] h = refl
  delete_first (suc n) (r ∷ rows) h =
      let ids = map key (take n rows) in
      let same =
        select-ext (λ y. not (elem (key y) (key r ∷ ids))) (λ y. not (elem (key y) ids)) rows
          (All-other r ids rows h.0) in
      rw (==_refl (key r)) (same ∙ delete_first n rows h.1)

  foreign :
      (x : A) (p : A → Bool) (rows : List A)
      → All (λ y. (key y == key x) ≡ false) rows
      → elem (key x) (map key (select p rows)) ≡ false
  foreign x p [] h = refl
  foreign x p (r ∷ rows) h = elim (Bool-cases (p r)) [
    | inl yes_p ↦
        let other : (key x == key r) ≡ false = ground (arith, h.0) in
        rw (yes_p, other, foreign x p rows h.1) refl
    | inr no_p ↦ rw no_p (foreign x p rows h.1)
  ]

  -- The rows that do not match have no key of those that do.
  apart :
      (rows : List A)
      → HasKeys key rows
      → All
          (λ r. elem (key r) (map key (select matches rows)) ≡ false)
          (select (λ r. not (matches r)) rows)
  apart [] h = tt
  apart (r ∷ rows) h = elim (Bool-cases (matches r)) [
    | inl hit ↦ rw hit (
        All-imply
          (λ y. ((key y == key r) ≡ false) × (elem (key y) (map key (select matches rows)) ≡ false))
          (λ y. elem (key y) (key r ∷ map key (select matches rows)) ≡ false)
          (select (λ y. not (matches y)) rows) (λ y k. rw (k.0, k.1) refl)
          (All-both (λ y. (key y == key r) ≡ false)
            (λ y. elem (key y) (map key (select matches rows)) ≡ false)
            (select (λ y. not (matches y)) rows)
            (All-keep (λ y. (key y == key r) ≡ false) (λ y. not (matches y)) rows h.0)
            (apart rows h.1)))
    | inr miss ↦ rw miss (foreign r matches rows h.0, apart rows h.1)
  ]

  elem-take :
      (k n : ℕ) (xs : List A) → elem k (map key xs) ≡ false → elem k (map key (take n xs)) ≡ false
  elem-take k zero xs h = refl
  elem-take k (suc n) [] h = refl
  elem-take k (suc n) (x ∷ xs) h = ground (arith, elem-take k n xs)

  -- A page of deletes leaves the rows that do not match, and the rest of those that do.
  page-others :
      (limit : ℕ) (rows : List A)
      → HasKeys key rows
      → select (λ r. not (matches r)) (delete_ids key matches (page key matches limit rows) rows)
        ≡ select (λ r. not (matches r)) rows
  page-others limit rows h =
      let ids = page key matches limit rows in
      let others = select (λ r. not (matches r)) rows in
      select_comm (λ r. not (matches r)) (λ r. not (elem (key r) ids)) rows
      ∙ select-All (λ r. not (elem (key r) ids)) others
          (All-imply (λ r. elem (key r) (map key (select matches rows)) ≡ false)
            (λ r. not (elem (key r) ids) ≡ true) others
            (λ r k. rw (elem-take (key r) limit (select matches rows) k) refl) (apart rows h))

  page-rest :
      (limit : ℕ) (rows : List A)
      → HasKeys key rows
      → select matches (delete_ids key matches (page key matches limit rows) rows)
        ≡ drop limit (select matches rows)
  page-rest limit rows h =
      select_comm matches (λ r. not (elem (key r) (page key matches limit rows))) rows
      ∙ delete_first limit (select matches rows) (HasKeys-select matches rows h)

  -- The page has the rows that are gone, and is short only when no match is left.
  page-length :
      (limit : ℕ) (rows : List A)
      → HasKeys key rows
      → (length (page key matches limit rows) ≡ min limit (length (select matches rows)))
        × (length (page key matches limit rows)
              + length (select matches (delete_ids key matches (page key matches limit rows) rows))
            ≡ length (select matches rows))
  page-length limit rows h =
      rw (page-rest limit rows h, length-map key (take limit (select matches rows)))
        (length-take limit (select matches rows), length-take-drop limit (select matches rows))

  none_left :
      (rows : List A) → length (select matches rows) ≡ 0 → select (λ r. not (matches r)) rows ≡ rows
  none_left [] h = refl
  none_left (r ∷ rows) h = ground (arith, none_left rows)

  drain_lem :
      (reported : ℕ → Option ℕ) (limit fuel deleted : ℕ) (rows : List A)
      → IsHonest reported
      → 0 < limit
      → HasKeys key rows
      → length (select matches rows) < fuel
      → drain key matches reported limit fuel deleted rows
        ≡ some (deleted + length (select matches rows), select (λ r. not (matches r)) rows)
  unfolding drain
  drain_lem reported limit zero deleted rows honest some_limit keyed enough = ground arith
  drain_lem reported limit (suc fuel) deleted rows honest some_limit keyed enough =
      let ids = page key matches limit rows in
      let after = delete_ids key matches ids rows in
      let n = length ids in
      let sum = page-length limit rows keyed in
      let others = page-others limit rows keyed in
      let given = honest n in
      elim (Bool-cases (is_empty ids)) [
        | inl empty ↦
            let nothing : length (select matches rows) ≡ 0 =
              omega (arith, sum, is_empty-length ids empty, some_limit) in
            rw (empty, nothing, none_left rows nothing) (ground arith)
        | inr full ↦ elim (Bool-cases (ltb n limit)) [
          | inl short ↦
              let whole : n ≡ length (select matches rows) = ground (arith, sum) in
              let nothing : length (select matches after) ≡ 0 = ground (arith, sum) in
              let left : select (λ r. not (matches r)) rows ≡ after =
                sym others ∙ none_left after nothing in
              rw (full, short, given, left, whole) refl
          | inr long ↦
              let some_row : 0 < n = nonempty-length ids full in
              let rest =
                drain_lem reported limit fuel (deleted + n) after honest some_limit
                  (HasKeys-select (λ r. not (elem (key r) ids)) rows keyed)
                  (omega (arith, sum, some_row, enough)) in
              let total : deleted + n + length (select matches after)
                  ≡ deleted + length (select matches rows) =
                omega (arith, sum) in
              rw (full, long, given) (rest ∙ rw (total, others) refl)
        ]
      ]

-- Where no two rows have one key and the driver counts rightly if it counts at all, the deletion ends
-- for every table and every batch size, 0 and none included: it returns how many rows matched, and leaves
-- exactly the rows that do not match, in their order.
pub delete_in_batches_total :
    {A : Type 0} (key : A → ℕ) (matches : A → Bool) (reported : ℕ → Option ℕ)
    (batch_size : Option ℕ) (rows : List A)
    → IsHonest reported
    → HasKeys key rows
    → delete_in_batches key matches reported batch_size rows
      ≡ some (length (select matches rows), select (λ r. not (matches r)) rows)
unfolding delete_in_batches
delete_in_batches_total key matches reported batch_size rows honest keyed =
    drain_lem key matches reported (size_or batch_size) (suc (length (select matches rows))) 0 rows
      honest (size_positive batch_size) keyed (omega arith)
    ∙ (let sum : 0 + length (select matches rows) ≡ length (select matches rows) = omega arith in
        rw sum refl)
