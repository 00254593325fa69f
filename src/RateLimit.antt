-- ===== src/RateLimit.antt =====
-- src/iceberg/auth/rate_limit.py: token buckets, and the middleware that spends them. The
-- floating-point numbers are a parameter, with the operations that the code calls.
pub mod Ieee
pub mod Bounds
pub mod Burst
mod Tests
use iceberg_cti.RateLimit.Ieee.{Floats, smaller, larger}
use iceberg_cti.Base.{
  max, min, ◌*◌, ◌/◌, any_of, find_first, leb, or_else, starts, str_eq, ◌-◌, zero, suc, [], ◌∷◌,
  refl, arith, inl, inr, some, none, ok, err, true, false, nat_eq, string_eq, ◌>>=◌, ◌>>◌, ◌≡◌, ◌≢◌,
  ◌≤◌, ◌<◌, ◌↔◌, ◌⊎◌, ◌+◌, ◌++◌, ◌&&◌, ◌||◌, ◌==◌, not, if◌then◌else◌, Bool, List, Option, ℕ,
  String, Result, All, map, select, elem, Bool-cases, Option-cases, Result-cases,
}

-- `patterns` are the full matches of the regular expressions.
pub record RateLimitPolicy : Type 0 where
  pub name : String
  pub methods : List String
  pub limit : ℕ
  pub period_seconds : ℕ
  pub key_strategy : String
  pub paths : List String
  pub patterns : List (String → Bool)
  pub burst : Option ℕ

-- `self.burst or self.limit`
abbrev pub capacity : RateLimitPolicy → ℕ
capacity p = let given = or_else p.burst 0 in if given == 0 then p.limit else given

abbrev pub refill_rate : (f : Floats) → RateLimitPolicy → f.Float
refill_rate f p = f.div (f.of_int p.limit) (f.of_int p.period_seconds)

unfoldable pub matches : (String → String) → RateLimitPolicy → String → String → Bool
matches upper p method path =
    elem (upper method) p.methods
    && (elem path p.paths || any_of (λ full_match. full_match path) p.patterns)

pub record RateLimitDecision : Type 0 where
  pub allowed : Bool
  pub limit : ℕ
  pub remaining : ℕ
  pub retry_after : ℕ
  pub reset_after : ℕ

pub record Bucket (f : Floats) : Type 0 where
  pub tokens : f.Float
  pub updated_at : f.Float

-- The dictionary of the store, by key.
abbrev pub Buckets : Floats → Type 0
Buckets f = List (String × Bucket f)

abbrev pub bucket_at : {f : Floats} → String → Buckets f → Option (Bucket f)
bucket_at key [] = none
bucket_at key (b ∷ bs) = if str_eq b.0 key then some b.1 else bucket_at key bs

abbrev pub set_bucket : {f : Floats} → String → Bucket f → Buckets f → Buckets f
set_bucket key b [] = (key, b) ∷ []
set_bucket key b (c ∷ cs) = if str_eq c.0 key then (key, b) ∷ cs else c ∷ set_bucket key b cs

abbrev pub ceil_seconds : (f : Floats) → f.Float → ℕ
ceil_seconds f value = if not (f.is_finite value) then 0 else f.ceil (larger f (f.of_int 0) value)

abbrev pub full_bucket : (f : Floats) → RateLimitPolicy → f.Float → Bucket f
full_bucket f p now = record { tokens = f.of_int (capacity p); updated_at = now }

-- `min(policy.capacity, tokens + max(0.0, now - updated_at) * policy.refill_rate)`
abbrev pub refilled : (f : Floats) → RateLimitPolicy → Bucket f → f.Float → f.Float
refilled f p b now =
    let elapsed = larger f (f.of_int 0) (f.sub now b.updated_at) in
    smaller f (f.of_int (capacity p)) (f.add b.tokens (f.mul elapsed (refill_rate f p)))

abbrev pub left_after : (f : Floats) → f.Float → f.Float
left_after f tokens = if f.le (f.of_int 1) tokens then f.sub tokens (f.of_int 1) else tokens

-- `InMemoryRateLimitStore.consume`, which its lock makes one step.
unfoldable pub consume :
    (f : Floats) → RateLimitPolicy → String → f.Float → Buckets f → RateLimitDecision × Buckets f
consume f p key now buckets =
    let b : Bucket f = or_else (bucket_at key buckets) (full_bucket f p now) in
    let tokens = refilled f p b now in
    let after = left_after f tokens in
    (
      record {
        allowed = f.le (f.of_int 1) tokens;
        limit = p.limit;
        remaining = f.floor after;
        retry_after =
            if f.le (f.of_int 1) tokens
            then 0
            else ceil_seconds f (f.div (f.sub (f.of_int 1) tokens) (refill_rate f p));
        reset_after =
            ceil_seconds f (f.div (f.sub (f.of_int (capacity p)) after) (refill_rate f p));
      },
      set_bucket key (record { tokens = after; updated_at = now }) buckets,
    )

-- What the middleware does with a request.
pub data Response : Type 0 where
  passed unavailable : Response
  throttled : Bool → ℕ → RateLimitDecision → Response

-- `_throttled_response`: whether it is JSON, and its `Retry-After`.
abbrev pub throttled_response : String → RateLimitDecision → Response
throttled_response path d = Response.throttled (starts "/api/" path) (max 1 d.retry_after) d

-- `_match_policy`
abbrev pub match_policy :
    (String → String) → List RateLimitPolicy → String → String → Option RateLimitPolicy
match_policy upper policies method path =
    find_first (λ p. matches upper p (upper method) path) policies

-- `dispatch`, with the settings `rate_limit_active` and `rate_limit_fail_open`; `key_of` is the bucket key
-- of the request under a policy, and `down` is a store that raises.
unfoldable pub dispatch :
    (f : Floats)
    → Bool
    → Bool
    → (String → String)
    → List RateLimitPolicy
    → (RateLimitPolicy → String)
    → Bool
    → String
    → String
    → f.Float
    → Buckets f
    → Response × Buckets f
unfolding matches consume
dispatch f active fail_open upper policies key_of down method path now buckets =
    if not active
    then (Response.passed, buckets)
    else elim (match_policy upper policies method path) [
      | none ↦ (Response.passed, buckets)
      | some p ↦
          let (decision, after) = consume f p (key_of p) now buckets in
          if down
          then (if fail_open then Response.passed else Response.unavailable, buckets)
          else if decision.allowed
          then (Response.passed, after)
          else (throttled_response path decision, after)
    ]
