-- ===== src/RateLimit/Tests.antt =====
-- A policy of two requests a minute, on numbers that count units of 2 ^ -53.
use native.Mathlib.Nat.{le-div_iff_mul-le}
use iceberg_cti.RateLimit.Ieee.{Floats, IeeeLaws, IsExact}
use iceberg_cti.RateLimit.{
  Response, Buckets, RateLimitPolicy, RateLimitDecision, consume, dispatch, capacity,
}
use iceberg_cti.Base.{
  All, suc, ltb, leb, ◌<◌, ◌-◌, ◌/◌, ℕ, ◌*◌, [], ◌∷◌, refl, arith, none, true, false, nat_eq,
  string_eq, ◌≡◌, ◌≤◌, ◌+◌, List, String,
}
use iceberg_cti.RateLimit.Bounds.{AllWithin, IsUsual, consume_all, consume_all-AllWithin}
use iceberg_cti.RateLimit.Burst.{burst, count_key, consume-burst}

abbrev fixed : Floats
fixed = record {
  Float = ℕ;
  of_int = λ n. n * 9007199254740992;
  add = λ a b. a + b;
  sub = λ a b. a - b;
  mul = λ a b. a * b / 9007199254740992;
  div = λ a b. a * 9007199254740992 / b;
  lt = ltb;
  le = leb;
  is_finite = λ _. true;
  floor = λ a. a / 9007199254740992;
  ceil = λ a. (a + 9007199254740991) / 9007199254740992;
}

div_positive_fixed :
    (m n : ℕ)
    → IsExact m
    → IsExact n
    → 0 < m
    → 0 < n
    → fixed.lt (fixed.of_int 0) (fixed.div (fixed.of_int m) (fixed.of_int n)) ≡ true
div_positive_fixed m n em en pm pn =
    let top = m * 9007199254740992 * 9007199254740992 in
    let bottom = n * 9007199254740992 in
    let one : 1 ≤ top / bottom =
      (le-div_iff_mul-le {k = bottom} {x = 1} {y = top} (omega (arith, pn))).1
        (omega (arith, en, pm)) in
    ground (arith, one)

fixed_laws : IeeeLaws fixed
fixed_laws = record {
  lt_exact = λ m n _ _. ground arith;
  le_exact = λ m n _ _. ground arith;
  sub_one = λ n _. omega arith;
  sub_self = λ a _. omega arith;
  add_zero = λ n _. omega arith;
  zero_mul = λ a _ _. omega arith;
  div_finite = λ m n _ _ _. refl;
  div_positive = div_positive_fixed;
  lt-le = λ a b h. ground arith;
  le_trans = λ a b c h k. ground arith;
  add_nonneg = λ a b h k. ground arith;
  mul_nonneg = λ a b h k l. ground arith;
  sub_nonneg = λ a b h k. ground arith;
  sub_le = λ a b h k l. ground arith;
  int_finite = λ n _. refl;
  floor_le = λ a n _ h. ground arith;
  floor_exact = λ n _. omega arith;
}

abbrev two_a_minute : RateLimitPolicy
two_a_minute = record {
  name = "search";
  methods = "GET" ∷ [];
  limit = 2;
  period_seconds = 60;
  key_strategy = "ip";
  paths = "/search" ∷ [];
  patterns = [];
  burst = none;
}

two_a_minute-IsUsual : IsUsual two_a_minute
two_a_minute-IsUsual = record {
  limit_positive = omega arith;
  period_positive = omega arith;
  limit_exact = omega arith;
  period_exact = omega arith;
  capacity_exact = omega arith;
}

-- The third request at once is refused.
third_refused :
    ((consume fixed two_a_minute "a" 7
        (burst fixed (λ _. two_a_minute) 7 ("a" ∷ "b" ∷ []) [])).0.allowed
      ≡ true)
    × ((consume fixed two_a_minute "a" 7
          (burst fixed (λ _. two_a_minute) 7 ("a" ∷ "b" ∷ "a" ∷ []) [])).0.allowed
        ≡ false)
unfolding consume
third_refused = (refl, refl)

consume-burst_example :
    let (decision, _) =
      consume fixed two_a_minute "a" 7
        (burst fixed (λ _. two_a_minute) 7 ("a" ∷ "b" ∷ "a" ∷ []) []) in
    (decision.allowed ≡ ltb (count_key "a" ("a" ∷ "b" ∷ "a" ∷ [])) (capacity two_a_minute))
    × (decision.remaining ≡ capacity two_a_minute - suc (count_key "a" ("a" ∷ "b" ∷ "a" ∷ [])))
consume-burst_example =
    consume-burst fixed_laws (λ _. two_a_minute) 7 "a" ("a" ∷ "b" ∷ "a" ∷ []) []
      two_a_minute-IsUsual refl refl

-- Half a minute after the burst, and after a step back of the clock.
abbrev history : List (String × ℕ)
history =
    ("a", 0) ∷ ("a", 1) ∷ ("b", 1) ∷ ("a", 30 * 9007199254740992) ∷ ("b", 9007199254740992) ∷ []

consume_all-AllWithin_example :
    let (decisions, after) = consume_all fixed (λ _. two_a_minute) history [] in
    All (λ (d : String × RateLimitDecision). d.1.remaining ≤ capacity two_a_minute) decisions
    × AllWithin fixed (λ _. two_a_minute) after
consume_all-AllWithin_example =
    consume_all-AllWithin fixed_laws (λ _. two_a_minute) history [] (λ _. two_a_minute-IsUsual) tt

abbrev empty_bucket : Buckets fixed
empty_bucket = ("a", record { tokens = 0; updated_at = 5 }) ∷ []

-- A refused request gets its answer in the form of its route.
throttled_page :
    dispatch fixed true false
      (λ s. s)
      (two_a_minute ∷ [])
      (λ p. "a")
      false
      "GET"
      "/search"
      5
      empty_bucket
    ≡ (
      Response.throttled false 31 (record {
        allowed = false;
        limit = 2;
        remaining = 0;
        retry_after = 31;
        reset_after = 61;
      }),
      empty_bucket,
    )
unfolding dispatch
throttled_page = refl

store_down :
    dispatch fixed true false (λ s. s) (two_a_minute ∷ []) (λ p. "a") true "GET" "/search" 5 []
    ≡ (Response.unavailable, [])
unfolding dispatch
store_down = refl
