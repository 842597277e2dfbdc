-- ===== src/Reconnect/Decider/Bounds.antt =====
-- How long the built-in decider waits.

use native.Mathlib.Nat.{pow-suc}
use phoenix_channels_python.Base.{
  ℕ, zero, suc, ◌+◌, ◌-◌, ◌*◌, ◌/◌, ◌^◌, ◌≤◌, ◌<◌, max, ◌≡◌, arith, ok, err, ltb, le→leb,
  if◌then◌else◌, length, other_error, float_overflow,
}
use phoenix_channels_python.Reconnect.Policy.{ReconnectPolicy}
use phoenix_channels_python.Reconnect.Decider.{
  Decider, random_between, equal_jitter, exponential_delay, power_overflows, float_limit, backoff,
  jittered, rapid_floor,
}

scaled_le : (r k : ℕ) → r < 1000 → r * k / 1000 ≤ k
scaled_le r k h = grind arith

-- A draw lies in its range.
pub random_between_bounds :
    (r low high : ℕ)
    → r < 1000
    → low ≤ high
    → (low ≤ random_between r low high) × (random_between r low high ≤ high)
unfolding random_between
random_between_bounds r low high h le = ground (arith, scaled_le r (high - low))

power_lem : (k : ℕ) → float_limit * 1000 ^ (1024 + k) ≤ 2000 ^ (1024 + k)
power_lem zero = omega arith
power_lem (suc k) =
    let e : 1024 + suc k ≡ suc (1024 + k) = omega arith in
    rw (e, pow-suc 1000 (1024 + k), pow-suc 2000 (1024 + k)) (omega (arith, power_lem k))

-- With the default factor the backoff of an attempt from the 1024th on is an OverflowError.
pub exponential_delay_overflow :
    (p : ReconnectPolicy) (attempt : ℕ)
    → p.factor ≡ 2000
    → 1024 ≤ attempt
    → exponential_delay p attempt ≡ err (other_error float_overflow)
unfolding exponential_delay power_overflows
exponential_delay_overflow p attempt f h =
    let e : attempt ≡ 1024 + (attempt - 1024) = omega arith in
    rw (
      f,
      le→leb (float_limit * 1000 ^ attempt) (2000 ^ attempt) (rw e (power_lem (attempt - 1024))),
    )

-- The wait before a jitter, and the range that the jitter draws from.
abbrev pub wait_before_jitter : Decider → ℕ → ℕ
wait_before_jitter d exponential =
    max exponential (rapid_floor d.policy (length d.rapid_disconnects))

abbrev pub jitter_range : ReconnectPolicy → ℕ → ℕ → ℕ × ℕ
jitter_range p rapid_count wait = if ltb rapid_count 3 then (wait / 2, wait) else (
  wait * p.rapid_hold_down_jitter_low_ratio / 1000,
  wait * p.rapid_hold_down_jitter_high_ratio / 1000,
)

ratio_mono : (w a b : ℕ) → a ≤ b → w * a / 1000 ≤ w * b / 1000
ratio_mono w a b h = grind arith

-- For a draw below 1 and ordered ratios, a backoff that is computed lies in the range of its jitter:
-- from half the wait to the whole of it, or, once the cooldown has started, between the policy's
-- ratios of it.
pub backoff_bounds :
    (d : Decider) (r attempt exponential delay : ℕ)
    → r < 1000
    → d.policy.rapid_hold_down_jitter_low_ratio ≤ d.policy.rapid_hold_down_jitter_high_ratio
    → exponential_delay d.policy attempt ≡ ok exponential
    → backoff d r attempt ≡ ok delay
    → let wait = wait_before_jitter d exponential in
      let range = jitter_range d.policy (length d.rapid_disconnects) wait in
      (range.0 ≤ delay) × (delay ≤ range.1)
unfolding backoff jittered equal_jitter
backoff_bounds d r attempt exponential delay h o e b =
    let wait = wait_before_jitter d exponential in
    ground (
      arith,
      random_between_bounds r (wait / 2) wait,
      ratio_mono wait d.policy.rapid_hold_down_jitter_low_ratio
          d.policy.rapid_hold_down_jitter_high_ratio,
      random_between_bounds r (wait * d.policy.rapid_hold_down_jitter_low_ratio / 1000)
          (wait * d.policy.rapid_hold_down_jitter_high_ratio / 1000),
    )
