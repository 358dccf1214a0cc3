-- ===== src/Retry/Bounds.antt =====
-- The delays are bounded, and without jitter they grow with the number of the attempt.
use roam_content_engine.Prelude.{
  ℕ, zero, suc, ◌+◌, ◌-◌, ◌*◌, ◌^◌, ◌≤◌, ◌<◌, ◌≡◌, some, ◌==◌, coalesce, arith, Bool-cases, inl,
  inr,
}
use native.Mathlib.Nat.{
  pow-le-pow_right, mul-div-le, le_of_mul-le-mul_left, mul-le-mul_left, mul-le-mul_right,
  mul-le-mul, le_trans,
}
use roam_content_engine.Retry.{RetryPolicyConfig, capped_delay, jittered, calculate_retry_delay_ms}

capped_mono :
    (n m : ℕ) (config : RetryPolicyConfig) → n ≤ m → capped_delay n config ≤ capped_delay m config
unfolding capped_delay
capped_mono n m config h =
    let more : 2 ^ (n - 1) ≤ 2 ^ (m - 1) = pow-le-pow_right (omega arith) (omega arith) in
    let product : config.base_delay_ms * 2 ^ (n - 1) ≤ config.base_delay_ms * 2 ^ (m - 1) =
      grind arith in
    omega arith

capped_le : (n : ℕ) (config : RetryPolicyConfig) → capped_delay n config ≤ config.max_delay_ms
unfolding capped_delay
capped_le n config = omega arith

plain_delay :
    (n : ℕ) (config : RetryPolicyConfig) (draw : ℕ)
    → coalesce config.jitter_ratio 0 ≡ 0
    → calculate_retry_delay_ms (suc n) config draw ≡ capped_delay (suc n) config
unfolding calculate_retry_delay_ms
plain_delay n config draw plain = rw plain

-- Without jitter, the delay of an attempt is at most that of a later one, and at most
-- `maxDelayMs`, whatever `random()` returns.
pub delay_mono :
    (n m : ℕ) (config : RetryPolicyConfig) (a b : ℕ)
    → coalesce config.jitter_ratio 0 ≡ 0
    → n ≤ m
    → (calculate_retry_delay_ms n config a ≤ calculate_retry_delay_ms m config b)
      × (calculate_retry_delay_ms m config b ≤ config.max_delay_ms)
unfolding calculate_retry_delay_ms
delay_mono zero zero config a b plain h = (omega arith, omega arith)
delay_mono (suc n) zero config a b plain h = absurd (omega arith)
delay_mono zero (suc m) config a b plain h =
    (omega arith, omega (arith, plain_delay m config b plain, capped_le (suc m) config))
delay_mono (suc n) (suc m) config a b plain h = (
  omega (
    arith,
    plain_delay n config a plain,
    plain_delay m config b plain,
    capped_mono (suc n) (suc m) config h,
  ),
  omega (arith, plain_delay m config b plain, capped_le (suc m) config),
)

-- from a product of the scale twice to one of it once
unscale : (c r s n j : ℕ) → 0 < s → s * s * j ≤ c * n → n ≤ s * (s + r) → s * j ≤ c * (s + r)
unscale c r s n j p quotient spread =
    le_of_mul-le-mul_left {k = s} (omega (arith, mul-le-mul_left c spread)) p

jittered_le : (c r s d : ℕ) → 0 < s → d ≤ s → s * jittered c r s d ≤ c * (s + r)
unfolding jittered
jittered_le c r s d p q =
    unscale c r s (s * s + 2 * d * r - s * r) _ p (mul-div-le _ _)
      (omega (arith, mul-le-mul_right r q))

-- With a jitter ratio of r/scale, the delay is at most maxDelayMs * (1 + r/scale), for any draw of
-- `random()` between 0 and 1.
pub delay_jittered :
    (n : ℕ) (config : RetryPolicyConfig) (draw r : ℕ)
    → config.jitter_ratio ≡ some r
    → 0 < config.scale
    → draw ≤ config.scale
    → config.scale * calculate_retry_delay_ms n config draw
      ≤ config.max_delay_ms * (config.scale + r)
unfolding calculate_retry_delay_ms
delay_jittered zero config draw r e p q = omega arith
delay_jittered (suc n) config draw r e p q = elim (Bool-cases (r == 0)) [
  | inl z ↦
      rw (e, z)
        (grind (
          arith,
          capped_le (suc n) config,
          mul-le-mul (capped_le (suc n) config)
              (let h : config.scale ≤ config.scale + r = omega arith in h),
        ))
  | inr z ↦
      rw (e, z)
        (le_trans (jittered_le (capped_delay (suc n) config) r config.scale draw p q)
          (mul-le-mul_right (config.scale + r) (capped_le (suc n) config)))
]
