-- ===== src/Outbox/Delay.antt =====
-- The delay before a retry: at least a second, at most an hour, doubling in between.
use native.Mathlib.Nat.{pow-suc}
use iceberg_cti.Base.{
  ltb→lt, ltb, inl, inr, nat_eq, string_eq, if◌then◌else◌, Bool-cases, ℕ, zero, suc, ◌+◌, ◌-◌, ◌*◌,
  ◌^◌, ◌≤◌, ◌<◌, ◌≡◌, refl, max, min, arith,
}
use iceberg_cti.Outbox.{Settings}
use iceberg_cti.Outbox.Finish.{retry_delay}

pow_pos : (n : ℕ) → 1 ≤ 2 ^ n
pow_pos zero = omega arith
pow_pos (suc n) = omega (arith, pow_pos n, pow-suc 2 n)

retry_delay_bounds : (s : Settings) (a : ℕ) → (1 ≤ retry_delay s a) × (retry_delay s a ≤ 3600)
unfolding retry_delay
retry_delay_bounds s a = grind (arith, pow_pos (min (a - 1) 16))

double : (m a : ℕ) → m * 2 ^ suc a ≡ 2 * (m * 2 ^ a)
double m a = rw pow-suc (omega arith)

cap_double : (x y : ℕ) → x ≡ 2 * y → min x 3600 ≡ min (2 * min y 3600) 3600
cap_double x y h = omega arith

retry_delay_doubles :
    (s : Settings) (a : ℕ) → a < 16 → retry_delay s (a + 2) ≡ min (2 * retry_delay s (a + 1)) 3600
unfolding retry_delay
retry_delay_doubles s a h =
    let next : min (a + 2 - 1) 16 ≡ suc a = omega arith in
    let this : min (a + 1 - 1) 16 ≡ a = omega arith in
    rw (next, this) (cap_double _ _ (double (max 1 s.jobs_retry_base_seconds) a))

retry_delay_steady : (s : Settings) (a : ℕ) → 16 ≤ a → retry_delay s (a + 2) ≡ retry_delay s (a + 1)
unfolding retry_delay
retry_delay_steady s a h =
    let next : min (a + 2 - 1) 16 ≡ 16 = omega arith in
    let this : min (a + 1 - 1) 16 ≡ 16 = omega arith in rw (next, this) refl

-- A retry waits between one second and one hour, whatever the settings and the attempts so far; each of the
-- first sixteen waits after the first attempt doubles the one before, up to the hour, and from then on the
-- delay stays as it is.
retry_delay_grows :
    (s : Settings) (a : ℕ)
    → (1 ≤ retry_delay s (a + 1))
      × (retry_delay s (a + 1) ≤ 3600)
      × (retry_delay s (a + 2)
          ≡ (if ltb a 16 then min (2 * retry_delay s (a + 1)) 3600 else retry_delay s (a + 1)))
retry_delay_grows s a =
    let bounds = retry_delay_bounds s (a + 1) in
    elim (Bool-cases (ltb a 16)) [
      | inl early ↦ (bounds.0, bounds.1, rw early (retry_delay_doubles s a (ltb→lt a 16 early)))
      | inr late ↦ (bounds.0, bounds.1, rw late (retry_delay_steady s a (ground arith)))
    ]
