-- ===== src/Base/Digits.antt =====
-- Reading numbers: Python's `str.isdigit` and `int`, on what `str` writes.
use Prim.Native.Nat.{ℕ, zero, suc, ◌+◌, ◌-◌, ◌*◌, ◌/◌, ◌%◌, ◌<◌}
use Prim.Native.Char.{Char, code}
use Prim.Native.String.{String}
use mathlib.Core.Path.{◌≡◌, refl, ◌∙◌}
use mathlib.Core.Logic.{inl, inr}
use mathlib.Core.Bool.{Bool, true, false, ◌&&◌}
use mathlib.Core.Option.{Option, none, some}
use native.Mathlib.Omega.{arith}
use iceberg_cti.Base.Tests.{◌==◌, ==_iff, leb, Bool-cases}
use iceberg_cti.Base.Text.{is_blank, join, digit, digits_before, show}

-- Python's Unicode tables: the characters that `isdigit` accepts, and the digits that `int` reads.
pub record Numerals : Type 0 where
  pub isdigit : Char → Bool
  pub decimal : Char → Option ℕ

-- On the ASCII digits they are what is expected.
pub record HasAscii (numerals : Numerals) : Type 0 where
  pub ascii_isdigit :
      (c : Char) → leb 48 (code c) ≡ true → leb (code c) 57 ≡ true → numerals.isdigit c ≡ true
  pub ascii_decimal :
      (c : Char)
      → leb 48 (code c) ≡ true
      → leb (code c) 57 ≡ true
      → numerals.decimal c ≡ some (code c - 48)

-- `s.isdigit()` of a text that is not empty
abbrev pub all_digits : Numerals → String → Bool
all_digits numerals String.[] = true
all_digits numerals (String.◌∷◌ c s) = numerals.isdigit c && all_digits numerals s

-- `int(s)`, after digits of the value `n`; it raises on what is no decimal digit.
abbrev pub int_from : Numerals → ℕ → String → Option ℕ
int_from numerals n String.[] = some n
int_from numerals n (String.◌∷◌ c s) = elim (numerals.decimal c) [
  | none ↦ none
  | some d ↦ int_from numerals (n * 10 + d) s
]

module _ (numerals : Numerals) (ascii : HasAscii numerals) where
  int_from-digit :
      (n d : ℕ) (rest : String)
      → d < 10
      → int_from numerals n (join (digit d) rest) ≡ int_from numerals (n * 10 + d) rest
  int_from-digit n zero rest h = rw (ascii.ascii_decimal "0" refl refl) refl
  int_from-digit n (suc zero) rest h = rw (ascii.ascii_decimal "1" refl refl) refl
  int_from-digit n (suc (suc zero)) rest h = rw (ascii.ascii_decimal "2" refl refl) refl
  int_from-digit n (suc (suc (suc zero))) rest h = rw (ascii.ascii_decimal "3" refl refl) refl
  int_from-digit n (suc (suc (suc (suc zero)))) rest h = rw (ascii.ascii_decimal "4" refl refl) refl
  int_from-digit n (suc (suc (suc (suc (suc zero))))) rest h =
      rw (ascii.ascii_decimal "5" refl refl) refl
  int_from-digit n (suc (suc (suc (suc (suc (suc zero)))))) rest h =
      rw (ascii.ascii_decimal "6" refl refl) refl
  int_from-digit n (suc (suc (suc (suc (suc (suc (suc zero))))))) rest h =
      rw (ascii.ascii_decimal "7" refl refl) refl
  int_from-digit n (suc (suc (suc (suc (suc (suc (suc (suc zero)))))))) rest h =
      rw (ascii.ascii_decimal "8" refl refl) refl
  int_from-digit n (suc (suc (suc (suc (suc (suc (suc (suc (suc zero))))))))) rest h =
      rw (ascii.ascii_decimal "9" refl refl) refl
  int_from-digit n (suc (suc (suc (suc (suc (suc (suc (suc (suc (suc d)))))))))) rest h =
      ground arith

  int_from-digits_before :
      (f n : ℕ) (rest : String)
      → n < f
      → int_from numerals 0 (digits_before f n rest) ≡ int_from numerals n rest
  unfolding digits_before
  int_from-digits_before zero n rest h = ground arith
  int_from-digits_before (suc f) n rest h = elim (Bool-cases (n / 10 == 0)) [
    | inl last ↦
        let small : n / 10 ≡ 0 = (==_iff (n / 10) 0).0 last in
        let whole : 0 * 10 + n % 10 ≡ n = omega arith in
        rw last (int_from-digit 0 (n % 10) rest (omega arith) ∙ rw whole refl)
    | inr more ↦
        let whole : n / 10 * 10 + n % 10 ≡ n = omega arith in
        let less : n / 10 < f = ground arith in
        rw more (
          int_from-digits_before f (n / 10) (join (digit (n % 10)) rest) less
          ∙ int_from-digit (n / 10) (n % 10) rest (omega arith)
          ∙ rw whole refl)
  ]

  pub int_from-show : (n : ℕ) → int_from numerals 0 (show n) ≡ some n
  unfolding show
  int_from-show n = int_from-digits_before (suc n) n "" (omega arith)

  all_digits-digit :
      (d : ℕ) (rest : String)
      → d < 10
      → all_digits numerals (join (digit d) rest) ≡ all_digits numerals rest
  all_digits-digit zero rest h = rw (ascii.ascii_isdigit "0" refl refl) refl
  all_digits-digit (suc zero) rest h = rw (ascii.ascii_isdigit "1" refl refl) refl
  all_digits-digit (suc (suc zero)) rest h = rw (ascii.ascii_isdigit "2" refl refl) refl
  all_digits-digit (suc (suc (suc zero))) rest h = rw (ascii.ascii_isdigit "3" refl refl) refl
  all_digits-digit (suc (suc (suc (suc zero)))) rest h = rw (ascii.ascii_isdigit "4" refl refl) refl
  all_digits-digit (suc (suc (suc (suc (suc zero))))) rest h =
      rw (ascii.ascii_isdigit "5" refl refl) refl
  all_digits-digit (suc (suc (suc (suc (suc (suc zero)))))) rest h =
      rw (ascii.ascii_isdigit "6" refl refl) refl
  all_digits-digit (suc (suc (suc (suc (suc (suc (suc zero))))))) rest h =
      rw (ascii.ascii_isdigit "7" refl refl) refl
  all_digits-digit (suc (suc (suc (suc (suc (suc (suc (suc zero)))))))) rest h =
      rw (ascii.ascii_isdigit "8" refl refl) refl
  all_digits-digit (suc (suc (suc (suc (suc (suc (suc (suc (suc zero))))))))) rest h =
      rw (ascii.ascii_isdigit "9" refl refl) refl
  all_digits-digit (suc (suc (suc (suc (suc (suc (suc (suc (suc (suc d)))))))))) rest h =
      ground arith

  all_digits-digits_before :
      (f n : ℕ) (rest : String)
      → all_digits numerals rest ≡ true
      → all_digits numerals (digits_before f n rest) ≡ true
  unfolding digits_before
  all_digits-digits_before zero n rest h = h
  all_digits-digits_before (suc f) n rest h =
      let now = all_digits-digit (n % 10) rest (omega arith) ∙ h in
      elim (Bool-cases (n / 10 == 0)) [
        | inl last ↦ rw last now
        | inr more ↦ rw more (all_digits-digits_before f (n / 10) (join (digit (n % 10)) rest) now)
      ]

  pub all_digits-show : (n : ℕ) → all_digits numerals (show n) ≡ true
  unfolding show
  all_digits-show n = all_digits-digits_before (suc n) n "" refl

-- A number has at least one digit.
is_blank-digit : (d : ℕ) (rest : String) → d < 10 → is_blank (join (digit d) rest) ≡ false
is_blank-digit zero rest h = refl
is_blank-digit (suc zero) rest h = refl
is_blank-digit (suc (suc zero)) rest h = refl
is_blank-digit (suc (suc (suc zero))) rest h = refl
is_blank-digit (suc (suc (suc (suc zero)))) rest h = refl
is_blank-digit (suc (suc (suc (suc (suc zero))))) rest h = refl
is_blank-digit (suc (suc (suc (suc (suc (suc zero)))))) rest h = refl
is_blank-digit (suc (suc (suc (suc (suc (suc (suc zero))))))) rest h = refl
is_blank-digit (suc (suc (suc (suc (suc (suc (suc (suc zero)))))))) rest h = refl
is_blank-digit (suc (suc (suc (suc (suc (suc (suc (suc (suc zero))))))))) rest h = refl
is_blank-digit (suc (suc (suc (suc (suc (suc (suc (suc (suc (suc d)))))))))) rest h = ground arith

is_blank-digits_before :
    (f n : ℕ) (rest : String) → is_blank rest ≡ false → is_blank (digits_before f n rest) ≡ false
unfolding digits_before
is_blank-digits_before zero n rest h = h
is_blank-digits_before (suc f) n rest h =
    let more =
      is_blank-digits_before f (n / 10) (join (digit (n % 10)) rest)
        (is_blank-digit (n % 10) rest (omega arith)) in
    ground (arith, is_blank-digit (n % 10) rest (omega arith))

pub is_blank-show : (n : ℕ) → is_blank (show n) ≡ false
unfolding show digits_before
is_blank-show n =
    let more =
      is_blank-digits_before n (n / 10) (join (digit (n % 10)) "")
        (is_blank-digit (n % 10) "" (omega arith)) in
    ground (arith, is_blank-digit (n % 10) "" (omega arith))
