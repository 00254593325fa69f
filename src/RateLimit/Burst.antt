-- ===== src/RateLimit/Burst.antt =====
-- A burst: requests at one reading of the clock.
use iceberg_cti.Base.{
  zero, nat_eq, string_eq, Option, ap, leb, ltb, ◌∙◌, sym, or_else, str_eq_iff, str_eq, suc, [],
  ◌∷◌, refl, arith, inl, inr, none, true, false, ◌≡◌, ◌≤◌, ◌-◌, if◌then◌else◌, List, ℕ, String,
  Bool-cases,
}
use iceberg_cti.RateLimit.Ieee.{Floats, IsExact, IeeeLaws}
use iceberg_cti.RateLimit.{
  refill_rate, full_bucket, left_after, capacity, refilled, set_bucket, bucket_at, consume, Buckets,
  Bucket, RateLimitPolicy,
}
use iceberg_cti.RateLimit.Bounds.{IsUsual, bucket_at-set_bucket_same, bucket_at-set_bucket_other}

-- The requests with the key.
abbrev pub count_key : String → List String → ℕ
count_key key [] = 0
count_key key (k ∷ ks) = let rest = count_key key ks in if str_eq k key then suc rest else rest

-- The buckets after requests with these keys, all at one reading of the clock.
abbrev pub burst :
    (f : Floats) → (String → RateLimitPolicy) → f.Float → List String → Buckets f → Buckets f
burst f policy_of now [] buckets = buckets
burst f policy_of now (k ∷ ks) buckets =
    burst f policy_of now ks (consume f (policy_of k) k now buckets).1

-- The bucket that a request with the key meets.
abbrev pub met : (f : Floats) → RateLimitPolicy → String → f.Float → Buckets f → Bucket f
met f p key now buckets = or_else (bucket_at key buckets) (full_bucket f p now)

smaller_exact :
    (f : Floats) (n c : ℕ) → n ≤ c → (if ltb n c then f.of_int n else f.of_int c) ≡ f.of_int n
smaller_exact f n c le = elim (Bool-cases (ltb n c)) [
  | inl under ↦ rw under refl
  | inr over ↦ let same : c ≡ n = ground (arith, le, over) in rw over (ap f.of_int same)
]

-- A token is spent where there is one.
left_after_exact :
    {f : Floats} (laws : IeeeLaws f) (n : ℕ)
    → IsExact n
    → left_after f (f.of_int n) ≡ f.of_int (n - 1)
left_after_exact {f} laws zero exact = rw (laws.le_exact 1 0 (omega arith) exact) refl
left_after_exact {f} laws (suc n) exact =
    let enough : leb 1 (suc n) ≡ true = ground arith in
    let one_less : suc n - 1 ≡ n = omega arith in
    rw (laws.le_exact 1 (suc n) (omega arith) exact, laws.sub_one n exact, enough, one_less) refl

-- Without time between two requests nothing is refilled.
refilled_at_once :
    {f : Floats} (laws : IeeeLaws f) (p : RateLimitPolicy) (now : f.Float) (n : ℕ)
    → IsUsual p
    → f.is_finite now ≡ true
    → n ≤ capacity p
    → refilled f p (record { tokens = f.of_int n; updated_at = now }) now ≡ f.of_int n
refilled_at_once {f} laws p now n u finite le =
    let rate_finite : f.is_finite (refill_rate f p) ≡ true =
      laws.div_finite p.limit p.period_seconds u.limit_exact u.period_exact u.period_positive in
    let rate_positive : f.lt (f.of_int 0) (refill_rate f p) ≡ true =
      laws.div_positive p.limit p.period_seconds u.limit_exact u.period_exact u.limit_positive
        u.period_positive in
    let exact : IsExact n = omega (arith, le, u.capacity_exact) in
    rw
      (
        laws.sub_self now finite,
        laws.lt_exact 0 0 (omega arith) (omega arith),
        laws.zero_mul (refill_rate f p) rate_finite rate_positive,
        laws.add_zero n exact,
        laws.lt_exact n (capacity p) exact u.capacity_exact,
      )
      (smaller_exact f n (capacity p) le)

-- One request at the reading of the bucket it meets.
consume_at_once :
    {f : Floats} (laws : IeeeLaws f) (p : RateLimitPolicy) (key : String) (now : f.Float) (n : ℕ)
    (buckets : Buckets f)
    → IsUsual p
    → f.is_finite now ≡ true
    → n ≤ capacity p
    → met f p key now buckets ≡ record { tokens = f.of_int n; updated_at = now }
    → let (decision, after) = consume f p key now buckets in
      (decision.allowed ≡ leb 1 n)
      × (decision.remaining ≡ n - 1)
      × (after ≡ set_bucket key (record { tokens = f.of_int (n - 1); updated_at = now }) buckets)
unfolding consume
consume_at_once {f} laws p key now n buckets u finite le start =
    let exact : IsExact n = omega (arith, le, u.capacity_exact) in
    let tokens : refilled f p (met f p key now buckets) now ≡ f.of_int n =
      ap (λ (b : Bucket f). refilled f p b now) start ∙ refilled_at_once laws p now n u finite le in
    let after : left_after f (refilled f p (met f p key now buckets) now) ≡ f.of_int (n - 1) =
      ap (left_after f) tokens ∙ left_after_exact laws n exact in
    (
      ap (f.le (f.of_int 1)) tokens ∙ laws.le_exact 1 n (omega arith) exact,
      ap f.floor after ∙ laws.floor_exact (n - 1) (omega (arith, exact)),
      ap (λ (t : f.Float). set_bucket key (record { tokens = t; updated_at = now }) buckets) after,
    )

other_met :
    {f : Floats} (policy_of : String → RateLimitPolicy) (now : f.Float) (key k : String)
    (buckets : Buckets f)
    → str_eq k key ≡ false
    → met f (policy_of key) key now (consume f (policy_of k) k now buckets).1
      ≡ met f (policy_of key) key now buckets
unfolding consume
other_met {f} policy_of now key k buckets miss =
    ap (λ (b : Option (Bucket f)). or_else b (full_bucket f (policy_of key) now))
      (bucket_at-set_bucket_other key k _ buckets miss)

same_met :
    {f : Floats} (p : RateLimitPolicy) (now : f.Float) (key : String) (b : Bucket f)
    (buckets : Buckets f)
    → met f p key now (set_bucket key b buckets) ≡ b
same_met {f} p now key b buckets =
    ap (λ (o : Option (Bucket f)). or_else o (full_bucket f p now))
      (bucket_at-set_bucket_same key b buckets)

-- What requests with other keys and with the key leave of the bucket that the key meets.
burst_met :
    {f : Floats} (laws : IeeeLaws f) (policy_of : String → RateLimitPolicy) (now : f.Float)
    (key : String) (n : ℕ) (ks : List String) (buckets : Buckets f)
    → IsUsual (policy_of key)
    → f.is_finite now ≡ true
    → n ≤ capacity (policy_of key)
    → met f (policy_of key) key now buckets ≡ record { tokens = f.of_int n; updated_at = now }
    → met f (policy_of key) key now (burst f policy_of now ks buckets)
      ≡ record { tokens = f.of_int (n - count_key key ks); updated_at = now }
burst_met laws policy_of now key n [] buckets u finite le start =
    let unspent : n - 0 ≡ n = omega arith in rw unspent start
burst_met {f} laws policy_of now key n (k ∷ ks) buckets u finite le start =
    let next = (consume f (policy_of k) k now buckets).1 in
    elim (Bool-cases (str_eq k key)) [
      | inl hit ↦
          let same : k ≡ key = (str_eq_iff k key).0 hit in
          let p = policy_of key in
          let (_, _, spent) = consume_at_once laws p key now n buckets u finite le start in
          let arrived =
            burst_met laws policy_of now key (n - 1) ks (consume f p key now buckets).1 u finite
              (omega (arith, le)) (ap (met f p key now) spent ∙ same_met p now key _ buckets) in
          let total : n - 1 - count_key key ks ≡ n - suc (count_key key ks) = omega arith in
          rw (hit, same) (rw (sym total) arrived)
      | inr miss ↦ rw miss (
          burst_met laws policy_of now key n ks next u finite le
            (other_met policy_of now key k buckets miss ∙ start))
    ]

-- From a store without the key, of the requests with the key at one reading of the clock exactly the
-- first `capacity` are allowed, and each tells how many are left, whatever requests with other keys come in
-- between: the next request is allowed where fewer than `capacity` with the key came before it, and
-- only there. The limit and the period of the key's policy are not zero, a double holds its limit, period and
-- capacity exactly, the reading is finite, and the numbers are as IEEE 754 says.
pub consume-burst :
    {f : Floats} (laws : IeeeLaws f) (policy_of : String → RateLimitPolicy) (now : f.Float)
    (key : String) (ks : List String) (buckets : Buckets f)
    → IsUsual (policy_of key)
    → f.is_finite now ≡ true
    → bucket_at key buckets ≡ none
    → let p = policy_of key in
      let (decision, _) = consume f p key now (burst f policy_of now ks buckets) in
      (decision.allowed ≡ ltb (count_key key ks) (capacity p))
      × (decision.remaining ≡ capacity p - suc (count_key key ks))
consume-burst {f} laws policy_of now key ks buckets u finite new =
    let p = policy_of key in
    let n = capacity p - count_key key ks in
    let start : met f p key now buckets ≡ full_bucket f p now = rw new refl in
    let reached =
      burst_met laws policy_of now key (capacity p) ks buckets u finite (omega arith) start in
    let (passed, left, _) =
      consume_at_once laws p key now n (burst f policy_of now ks buckets) u finite (omega arith)
        reached in
    (passed ∙ ground arith, left ∙ omega arith)
