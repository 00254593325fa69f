-- ===== src/Retention.antt =====
-- src/iceberg/services/retention.py: deletion of the matching rows of a table, a batch at a time.
mod Lists
pub mod Drained
mod Tests
use iceberg_cti.Base.{
  ltb, is_empty, length, take, zero, suc, [], ◌∷◌, refl, arith, inl, inr, some, none, ok, err, true,
  false, nat_eq, string_eq, ◌>>=◌, ◌>>◌, ◌≡◌, ◌≢◌, ◌≤◌, ◌<◌, ◌↔◌, ◌⊎◌, ◌+◌, ◌++◌, ◌&&◌, ◌||◌, ◌==◌,
  not, if◌then◌else◌, Bool, List, Option, ℕ, String, Result, All, map, select, elem, Bool-cases,
  Option-cases, Result-cases,
}

-- `batch_size or BATCH_SIZE`
abbrev pub size_or : Option ℕ → ℕ
size_or none = 1000
size_or (some zero) = 1000
size_or (some (suc n)) = suc n

-- The rows that the driver says it deleted, where it says a positive number.
abbrev pub counted : Option ℕ → ℕ → ℕ
counted none asked = asked
counted (some zero) asked = asked
counted (some (suc n)) asked = suc n

-- A table of any model, by its primary key and the condition of the `where`.
module _ {A : Type 0} (key : A → ℕ) (matches : A → Bool) where
  -- `SELECT id … WHERE … LIMIT`
  abbrev pub page : ℕ → List A → List ℕ
  page limit rows = map key (take limit (select matches rows))

  -- `DELETE … WHERE id IN ids`
  abbrev pub delete_ids : List ℕ → List A → List A
  delete_ids ids rows = select (λ r. not (elem (key r) ids)) rows

  -- The loop, with `reported` what the driver says of a delete of so many rows; the table, and the
  -- count that is returned.
  unfoldable pub drain : (ℕ → Option ℕ) → ℕ → ℕ → ℕ → List A → Option (ℕ × List A)
  drain reported limit zero deleted rows = none
  drain reported limit (suc fuel) deleted rows =
      let ids = page limit rows in
      let after = delete_ids ids rows in
      let n = length ids in
      let total = deleted + counted (reported n) n in
      let rest = drain reported limit fuel total after in
      if is_empty ids
      then some (deleted, rows)
      else if ltb n limit
      then some (total, after)
      else rest

  -- Each round but the last deletes a row that matches, so that one more round than there are matching rows
  -- is enough.
  unfoldable pub delete_in_batches : (ℕ → Option ℕ) → Option ℕ → List A → Option (ℕ × List A)
  unfolding drain
  delete_in_batches reported batch_size rows =
      drain reported (size_or batch_size) (suc (length (select matches rows))) 0 rows
