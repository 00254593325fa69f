-- ===== src/RateLimit/Bounds.antt =====
-- The tokens of a bucket over a history of requests.
use iceberg_cti.Base.{
  nat_eq, string_eq, Option, ap, ◌∙◌, sym, or_else, str_eq_iff, str_eq, [], ◌∷◌, refl, arith, inl,
  inr, some, true, false, ◌≡◌, ◌≤◌, ◌<◌, List, String, Bool-cases, Option-cases, All,
}
use iceberg_cti.RateLimit.Ieee.{Floats, larger, smaller, IsExact, IeeeLaws}
use iceberg_cti.RateLimit.{
  refill_rate, full_bucket, left_after, capacity, refilled, set_bucket, bucket_at, consume, Buckets,
  Bucket, RateLimitPolicy, RateLimitDecision,
}

pub bucket_at-set_bucket_same :
    {f : Floats} (key : String) (b : Bucket f) (bs : Buckets f)
    → bucket_at key (set_bucket key b bs) ≡ some b
bucket_at-set_bucket_same key b [] = rw ((str_eq_iff key key).1 refl) refl
bucket_at-set_bucket_same key b (c ∷ cs) = elim (Bool-cases (str_eq c.0 key)) [
  | inl hit ↦ rw (hit, (str_eq_iff key key).1 refl) refl
  | inr miss ↦ rw (miss, miss) (bucket_at-set_bucket_same key b cs)
]

pub bucket_at-set_bucket_other :
    {f : Floats} (key k : String) (b : Bucket f) (bs : Buckets f)
    → str_eq k key ≡ false
    → bucket_at key (set_bucket k b bs) ≡ bucket_at key bs
bucket_at-set_bucket_other key k b [] h = rw h refl
bucket_at-set_bucket_other key k b (c ∷ cs) h = elim (Bool-cases (str_eq c.0 k)) [
  | inl hit ↦ let same : c.0 ≡ k = (str_eq_iff c.0 k).0 hit in rw (hit, h) (rw same (rw h refl))
  | inr miss ↦ elim (Bool-cases (str_eq c.0 key)) [
    | inl found ↦ rw (miss, found) refl
    | inr other ↦ rw (miss, other) (bucket_at-set_bucket_other key k b cs h)
  ]
]

-- A policy whose limit and period are not zero, and whose limit, period and capacity a double holds
-- exactly.
pub record IsUsual (p : RateLimitPolicy) : Type 0 where
  pub limit_positive : 0 < p.limit
  pub period_positive : 0 < p.period_seconds
  pub limit_exact : IsExact p.limit
  pub period_exact : IsExact p.period_seconds
  pub capacity_exact : IsExact (capacity p)

-- The tokens of the bucket are a number between 0 and the capacity.
pub record IsWithin (f : Floats) (p : RateLimitPolicy) (b : Bucket f) : Type 0 where
  pub not_negative : f.le (f.of_int 0) b.tokens ≡ true
  pub not_over : f.le b.tokens (f.of_int (capacity p)) ≡ true

-- The policy of a key is part of the key.
abbrev pub AllWithin : (f : Floats) → (String → RateLimitPolicy) → Buckets f → Type 0
AllWithin f policy_of buckets =
    All (λ (b : String × Bucket f). IsWithin f (policy_of b.0) b.1) buckets

larger_nonneg :
    {f : Floats} (laws : IeeeLaws f) (a : f.Float)
    → f.le (f.of_int 0) (larger f (f.of_int 0) a) ≡ true
larger_nonneg {f} laws a = elim (Bool-cases (f.lt (f.of_int 0) a)) [
  | inl up ↦ rw up (laws.lt-le (f.of_int 0) a up)
  | inr down ↦ rw down (laws.le_exact 0 0 (omega arith) (omega arith))
]

full_bucket-IsWithin :
    {f : Floats} (laws : IeeeLaws f) (p : RateLimitPolicy) (now : f.Float)
    → IsUsual p
    → IsWithin f p (full_bucket f p now)
full_bucket-IsWithin {f} laws p now u = record {
  not_negative = laws.le_exact 0 (capacity p) (omega arith) u.capacity_exact ∙ ground arith;
  not_over =
      laws.le_exact (capacity p) (capacity p) u.capacity_exact u.capacity_exact ∙ ground arith;
}

smaller-IsWithin :
    {f : Floats} (laws : IeeeLaws f) (p : RateLimitPolicy) (sum now : f.Float)
    → IsUsual p
    → f.le (f.of_int 0) sum ≡ true
    → IsWithin f p (record { tokens = smaller f (f.of_int (capacity p)) sum; updated_at = now })
smaller-IsWithin {f} laws p sum now u h = elim (Bool-cases (f.lt sum (f.of_int (capacity p)))) [
  | inl under ↦
      rw under
        (record { not_negative = h; not_over = laws.lt-le sum (f.of_int (capacity p)) under })
  | inr over ↦
      let full = full_bucket-IsWithin laws p now u in
      rw over (record { not_negative = full.not_negative; not_over = full.not_over })
]

refilled-IsWithin :
    {f : Floats} (laws : IeeeLaws f) (p : RateLimitPolicy) (b : Bucket f) (now : f.Float)
    → IsUsual p
    → IsWithin f p b
    → IsWithin f p (record { tokens = refilled f p b now; updated_at = now })
refilled-IsWithin {f} laws p b now u h =
    let c = f.of_int (capacity p) in
    let elapsed = larger f (f.of_int 0) (f.sub now b.updated_at) in
    let gained = f.mul elapsed (refill_rate f p) in
    let rate_finite : f.is_finite (refill_rate f p) ≡ true =
      laws.div_finite p.limit p.period_seconds u.limit_exact u.period_exact u.period_positive in
    let rate_positive : f.lt (f.of_int 0) (refill_rate f p) ≡ true =
      laws.div_positive p.limit p.period_seconds u.limit_exact u.period_exact u.limit_positive
        u.period_positive in
    let gained_nonneg : f.le (f.of_int 0) gained ≡ true =
      laws.mul_nonneg elapsed (refill_rate f p) (larger_nonneg laws (f.sub now b.updated_at))
        rate_finite rate_positive in
    let sum_nonneg : f.le (f.of_int 0) (f.add b.tokens gained) ≡ true =
      laws.add_nonneg b.tokens gained h.not_negative gained_nonneg in
    smaller-IsWithin laws p (f.add b.tokens gained) now u sum_nonneg

left_after-IsWithin :
    {f : Floats} (laws : IeeeLaws f) (p : RateLimitPolicy) (tokens now : f.Float)
    → IsWithin f p (record { tokens = tokens; updated_at = now })
    → IsWithin f p (record { tokens = left_after f tokens; updated_at = now })
left_after-IsWithin {f} laws p tokens now h = elim (Bool-cases (f.le (f.of_int 1) tokens)) [
  | inl enough ↦ rw enough (record {
    not_negative = laws.sub_nonneg tokens (f.of_int 1) enough (laws.int_finite 1 (omega arith));
    not_over =
        laws.le_trans (f.sub tokens (f.of_int 1)) tokens (f.of_int (capacity p))
          (laws.sub_le tokens (f.of_int 1) enough (laws.int_finite 1 (omega arith))
            (laws.le_exact 0 1 (omega arith) (omega arith)))
          h.not_over;
  })
  | inr short ↦ rw short h
]

bucket_at-IsWithin :
    {f : Floats} (policy_of : String → RateLimitPolicy) (key : String) (bs : Buckets f)
    {b : Bucket f}
    → AllWithin f policy_of bs
    → bucket_at key bs ≡ some b
    → IsWithin f (policy_of key) b
bucket_at-IsWithin policy_of key [] h e = cc
bucket_at-IsWithin {f} policy_of key (c ∷ cs) {b} h e = elim (Bool-cases (str_eq c.0 key)) [
  | inl hit ↦
      let same : c.0 ≡ key = (str_eq_iff c.0 key).0 hit in
      let found : some c.1 ≡ some b = (rw hit at e) in
      let got : c.1 ≡ b = ap (λ (o : Option (Bucket f)). or_else o b) found in
      let mine : IsWithin f (policy_of key) c.1 = (rw same at h.0) in rw (sym got) mine
  | inr miss ↦ bucket_at-IsWithin policy_of key cs h.1 (rw miss at e)
]

set_bucket-AllWithin :
    {f : Floats} (policy_of : String → RateLimitPolicy) (key : String) (b : Bucket f)
    (bs : Buckets f)
    → IsWithin f (policy_of key) b
    → AllWithin f policy_of bs
    → AllWithin f policy_of (set_bucket key b bs)
set_bucket-AllWithin policy_of key b [] k h = (k, tt)
set_bucket-AllWithin policy_of key b (c ∷ cs) k h = elim (Bool-cases (str_eq c.0 key)) [
  | inl hit ↦ rw hit (k, h.1)
  | inr miss ↦ rw miss (h.0, set_bucket-AllWithin policy_of key b cs k h.1)
]

-- The requests of a history, each with the key of its bucket and the reading of the clock.
abbrev pub consume_all :
    (f : Floats)
    → (String → RateLimitPolicy)
    → List (String × f.Float)
    → Buckets f
    → List (String × RateLimitDecision) × Buckets f
consume_all f policy_of [] buckets = ([], buckets)
consume_all f policy_of (r ∷ history) buckets =
    let (decision, after) = consume f (policy_of r.0) r.0 r.1 buckets in
    let (decisions, last) = consume_all f policy_of history after in
    ((r.0, decision) ∷ decisions, last)

consume-AllWithin :
    {f : Floats} (laws : IeeeLaws f) (policy_of : String → RateLimitPolicy) (key : String)
    (now : f.Float) (buckets : Buckets f)
    → IsUsual (policy_of key)
    → AllWithin f policy_of buckets
    → let (decision, after) = consume f (policy_of key) key now buckets in
      (decision.remaining ≤ capacity (policy_of key)) × AllWithin f policy_of after
unfolding consume
consume-AllWithin {f} laws policy_of key now buckets u h =
    let p = policy_of key in
    let b : Bucket f = or_else (bucket_at key buckets) (full_bucket f p now) in
    let start : IsWithin f p b = elim (Option-cases (bucket_at key buckets)) [
      | inl new ↦ rw new (full_bucket-IsWithin laws p now u)
      | inr (old, got) ↦ rw got (bucket_at-IsWithin policy_of key buckets h got)
    ] in
    let after =
      left_after-IsWithin laws p (refilled f p b now) now
        (refilled-IsWithin laws p b now u start) in
    (
      laws.floor_le (left_after f (refilled f p b now)) (capacity p) u.capacity_exact
          after.not_over,
      set_bucket-AllWithin policy_of key
          (record { tokens = left_after f (refilled f p b now); updated_at = now }) buckets after h,
    )

-- Whatever requests come and whatever the clock reads, every bucket holds between 0 and its capacity of
-- tokens, and no decision tells more remaining tokens than the capacity, provided that the buckets held so
-- before, that no policy has a limit or a period of zero, that a double holds each limit, period and
-- capacity exactly, and that the numbers are as IEEE 754 says.
pub consume_all-AllWithin :
    {f : Floats} (laws : IeeeLaws f) (policy_of : String → RateLimitPolicy)
    (history : List (String × f.Float)) (buckets : Buckets f)
    → ((key : String) → IsUsual (policy_of key))
    → AllWithin f policy_of buckets
    → let (decisions, after) = consume_all f policy_of history buckets in
      All (λ (d : String × RateLimitDecision). d.1.remaining ≤ capacity (policy_of d.0)) decisions
      × AllWithin f policy_of after
consume_all-AllWithin laws policy_of [] buckets u h = (tt, h)
consume_all-AllWithin {f} laws policy_of (r ∷ history) buckets u h =
    let (shown, kept) = consume-AllWithin laws policy_of r.0 r.1 buckets (u r.0) h in
    let (rest, last) =
      consume_all-AllWithin laws policy_of history (consume f (policy_of r.0) r.0 r.1 buckets).1 u
        kept in
    ((shown, rest), last)
