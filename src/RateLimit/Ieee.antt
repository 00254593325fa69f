-- ===== src/RateLimit/Ieee.antt =====
-- The floating-point numbers of src/iceberg/auth/rate_limit.py: a parameter, with what IEEE 754 says of the
-- operations that the code calls.
use iceberg_cti.Base.{
  nat_eq, string_eq, ℕ, suc, ◌≤◌, ◌<◌, ◌≡◌, ◌^◌, Bool, true, if◌then◌else◌, ltb, leb,
}

-- `of_int` is the conversion of an int, `floor` is `math.floor` with 0 for a negative number, and `ceil`
-- is `math.ceil` of a number that is not negative.
pub record Floats : Type 1 where
  pub Float : Type 0
  pub of_int : ℕ → Float
  pub add : Float → Float → Float
  pub sub : Float → Float → Float
  pub mul : Float → Float → Float
  pub div : Float → Float → Float
  pub lt : Float → Float → Bool
  pub le : Float → Float → Bool
  pub is_finite : Float → Bool
  pub floor : Float → ℕ
  pub ceil : Float → ℕ

-- Python's `max` and `min` of two numbers keep the first one unless the second is past it.
abbrev pub larger : (f : Floats) → f.Float → f.Float → f.Float
larger f a b = if f.lt a b then b else a

abbrev pub smaller : (f : Floats) → f.Float → f.Float → f.Float
smaller f a b = if f.lt b a then b else a

-- The integers that a double holds exactly.
abbrev pub IsExact : ℕ → Type 0
IsExact n = n ≤ 2 ^ 53

-- What holds of doubles. A number is not NaN where it is at most another, and a difference, a product
-- or a quotient is rounded, so that no law speaks of its exact value beyond integers and zero.
pub record IeeeLaws (f : Floats) : Type 0 where
  pub lt_exact : (m n : ℕ) → IsExact m → IsExact n → f.lt (f.of_int m) (f.of_int n) ≡ ltb m n
  pub le_exact : (m n : ℕ) → IsExact m → IsExact n → f.le (f.of_int m) (f.of_int n) ≡ leb m n
  pub sub_one : (n : ℕ) → IsExact (suc n) → f.sub (f.of_int (suc n)) (f.of_int 1) ≡ f.of_int n
  pub sub_self : (a : f.Float) → f.is_finite a ≡ true → f.sub a a ≡ f.of_int 0
  pub add_zero : (n : ℕ) → IsExact n → f.add (f.of_int n) (f.of_int 0) ≡ f.of_int n
  pub zero_mul :
      (a : f.Float)
      → f.is_finite a ≡ true
      → f.lt (f.of_int 0) a ≡ true
      → f.mul (f.of_int 0) a ≡ f.of_int 0
  pub div_finite :
      (m n : ℕ)
      → IsExact m
      → IsExact n
      → 0 < n
      → f.is_finite (f.div (f.of_int m) (f.of_int n)) ≡ true
  pub div_positive :
      (m n : ℕ)
      → IsExact m
      → IsExact n
      → 0 < m
      → 0 < n
      → f.lt (f.of_int 0) (f.div (f.of_int m) (f.of_int n)) ≡ true
  pub lt-le : (a b : f.Float) → f.lt a b ≡ true → f.le a b ≡ true
  pub le_trans : (a b c : f.Float) → f.le a b ≡ true → f.le b c ≡ true → f.le a c ≡ true
  pub add_nonneg :
      (a b : f.Float)
      → f.le (f.of_int 0) a ≡ true
      → f.le (f.of_int 0) b ≡ true
      → f.le (f.of_int 0) (f.add a b) ≡ true
  pub mul_nonneg :
      (a b : f.Float)
      → f.le (f.of_int 0) a ≡ true
      → f.is_finite b ≡ true
      → f.lt (f.of_int 0) b ≡ true
      → f.le (f.of_int 0) (f.mul a b) ≡ true
  pub sub_nonneg :
      (a b : f.Float)
      → f.le b a ≡ true
      → f.is_finite b ≡ true
      → f.le (f.of_int 0) (f.sub a b) ≡ true
  pub sub_le :
      (a b : f.Float)
      → f.le b a ≡ true
      → f.is_finite b ≡ true
      → f.le (f.of_int 0) b ≡ true
      → f.le (f.sub a b) a ≡ true
  pub int_finite : (n : ℕ) → IsExact n → f.is_finite (f.of_int n) ≡ true
  pub floor_le : (a : f.Float) (n : ℕ) → IsExact n → f.le a (f.of_int n) ≡ true → f.floor a ≤ n
  pub floor_exact : (n : ℕ) → IsExact n → f.floor (f.of_int n) ≡ n
