-- ===== src/Retention/Tests.antt =====
-- Deletion on a table of numbers.
use iceberg_cti.Retention.Drained.{delete_in_batches_total}
use iceberg_cti.Base.{
  ltb, [], ◌∷◌, refl, arith, some, none, nat_eq, string_eq, ◌≡◌, Bool, List, Option, ℕ,
}
use iceberg_cti.Retention.{delete_in_batches, drain}

abbrev table : List ℕ
table = 4 ∷ 1 ∷ 5 ∷ 2 ∷ 6 ∷ []

abbrev is_old : ℕ → Bool
is_old n = ltb 3 n

abbrev silent : ℕ → Option ℕ
silent n = none

two_rounds : delete_in_batches (λ n. n) is_old silent (some 2) table ≡ some (3, 1 ∷ 2 ∷ [])
unfolding delete_in_batches drain
two_rounds = refl

delete_in_batches_total_example :
    delete_in_batches (λ n. n) is_old silent (some 2) table ≡ some (3, 1 ∷ 2 ∷ [])
delete_in_batches_total_example =
    delete_in_batches_total (λ n. n) is_old silent (some 2) table (λ n. refl) (ground arith)
