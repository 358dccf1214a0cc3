-- ===== src/Retry.antt =====
-- src/application/workers/retry-policy.ts and the decisions of
-- src/infrastructure/publish-engine/publish-engine-retry-policy.ts.
-- Delays are whole milliseconds. The numbers `jitterRatio` and `random()` are fractions here, by
-- their numerators over one common `scale`, and the product is rounded down exactly; the rounding
-- of floating-point products is not modelled. `random()` is an argument of each call.
pub mod Bounds
mod Tests
use roam_content_engine.Prelude.{
  ℕ, zero, suc, ◌+◌, ◌-◌, ◌*◌, ◌/◌, ◌^◌, Bool, true, false, Option, none, some, ◌||◌, not, leb,
  ◌==◌, coalesce, if◌then◌else◌,
}
use Prim.Native.Nat.{min}

pub record RetryPolicyConfig : Type 0 where
  pub base_delay_ms : ℕ
  pub max_delay_ms : ℕ
  pub max_attempts : ℕ
  pub jitter_ratio : Option ℕ
  pub scale : ℕ

-- the delay before jitter: min(maxDelayMs, baseDelayMs * 2 ** (attemptNumber - 1))
unfoldable pub capped_delay : ℕ → RetryPolicyConfig → ℕ
capped_delay attempt config = min config.max_delay_ms (config.base_delay_ms * 2 ^ (attempt - 1))

-- Math.max(0, Math.floor(cappedDelay * (1 + (random() * 2 - 1) * jitterRatio)))
unfoldable pub jittered : (capped ratio scale draw : ℕ) → ℕ
jittered capped ratio scale draw =
    capped * (scale * scale + 2 * draw * ratio - scale * ratio) / (scale * scale)

unfoldable pub calculate_retry_delay_ms : ℕ → RetryPolicyConfig → ℕ → ℕ
unfolding capped_delay jittered
calculate_retry_delay_ms zero config draw = 0
calculate_retry_delay_ms (suc n) config draw =
    let ratio = coalesce config.jitter_ratio 0 in
    if ratio == 0
    then capped_delay (suc n) config
    else jittered (capped_delay (suc n) config) ratio config.scale draw

-- RetryDecision
pub data RetryDecision : Type 0 where
  give_up : RetryDecision
  retry_at : (delay_ms next_attempt_at : ℕ) → RetryDecision

unfoldable pub evaluate_retry : ℕ → ℕ → Bool → RetryPolicyConfig → ℕ → RetryDecision
evaluate_retry attempt_count now retryable config draw =
    let delay_ms = calculate_retry_delay_ms (attempt_count + 1) config draw in
    if not retryable || leb config.max_attempts attempt_count
    then give_up
    else retry_at delay_ms (now + delay_ms)

unfoldable pub is_retryable_status : ℕ → Bool
is_retryable_status status =
    status == 408 || status == 429 || status == 502 || status == 503 || status == 504

pub data RetryableOperationType : Type 0 where
  submission read : RetryableOperationType

unfoldable pub should_retry_operation : RetryableOperationType → Bool → Bool
should_retry_operation read has_idempotency_key = true
should_retry_operation submission has_idempotency_key = has_idempotency_key

unfoldable pub resolve_retry_delay_ms : ℕ → Option ℕ → RetryPolicyConfig → ℕ → ℕ → ℕ
resolve_retry_delay_ms attempt retry_after_ms config draw remaining_budget_ms =
    min (coalesce retry_after_ms (calculate_retry_delay_ms attempt config draw))
      (min config.max_delay_ms remaining_budget_ms)
