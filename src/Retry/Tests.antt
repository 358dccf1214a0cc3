-- ===== src/Retry/Tests.antt =====
-- The delays of concrete policies.
use roam_content_engine.Prelude.{◌+◌, ◌*◌, ◌≤◌, ◌≡◌, refl, none, some, arith}
use roam_content_engine.Retry.{RetryPolicyConfig, calculate_retry_delay_ms}
use roam_content_engine.Retry.Bounds.{delay_mono, delay_jittered}

abbrev steady : RetryPolicyConfig
steady = record {
  base_delay_ms = 500;
  max_delay_ms = 3000;
  max_attempts = 4;
  jitter_ratio = none;
  scale = 100;
}

-- a jitter of a fifth
abbrev spread : RetryPolicyConfig
spread = record steady { jitter_ratio = some 20 }

doubled : calculate_retry_delay_ms 3 steady 0 ≡ 2000
unfolding calculate_retry_delay_ms
doubled = refl

capped : calculate_retry_delay_ms 9 steady 0 ≡ 3000
unfolding calculate_retry_delay_ms
capped = refl

least : calculate_retry_delay_ms 2 spread 0 ≡ 800
unfolding calculate_retry_delay_ms
least = refl

greatest : calculate_retry_delay_ms 2 spread 100 ≡ 1200
unfolding calculate_retry_delay_ms
greatest = refl

delay_mono_example :
    (calculate_retry_delay_ms 2 steady 7 ≤ calculate_retry_delay_ms 3 steady 9)
    × (calculate_retry_delay_ms 3 steady 9 ≤ 3000)
delay_mono_example = delay_mono 2 3 steady 7 9 refl (omega arith)

delay_jittered_example : 100 * calculate_retry_delay_ms 3 spread 60 ≤ 3000 * (100 + 20)
delay_jittered_example = delay_jittered 3 spread 60 20 refl (omega arith) (omega arith)
