-- ===== src/Reconnect/Policy.antt =====
-- ReconnectPolicy, ReconnectDecision and the events of client_types.py. A float of seconds, or a
-- ratio, is modelled by its thousandths: a number `n` stands for n / 1000.
use phoenix_channels_python.Base.{
  is_some, ℕ, ◌≡◌, Bool, true, false, ◌&&◌, ◌||◌, not, arith, Option, none, List, [], ◌∷◌, ltb,
  ◌==◌, Result, ok, err, Exc, ◌>>◌, guard, value_error, bad_delay, stop_with_delay,
  error_with_reconnect, policy_order,
}
use phoenix_channels_python.Text.{Text}

pub record ReconnectPolicy : Type 0 where
  pub base_delay : ℕ
  pub factor : ℕ
  pub max_delay : ℕ
  pub stable_reset : ℕ
  pub reconnect_on_normal_close : Bool
  pub policy_violation_is_terminal : Bool
  pub service_restart_min_delay : ℕ
  pub service_restart_max_delay : ℕ
  pub try_again_later_min_delay : ℕ
  pub try_again_later_max_delay : ℕ
  pub rapid_disconnect_uptime : ℕ
  pub rapid_window : ℕ
  pub rapid_first_min_delay : ℕ
  pub rapid_second_min_delay : ℕ
  pub rapid_cooldown_base : ℕ
  pub rapid_cooldown_step : ℕ
  pub rapid_cooldown_max : ℕ
  pub rapid_suppress_disconnect_count : ℕ
  pub rapid_hold_down_jitter_low_ratio : ℕ
  pub rapid_hold_down_jitter_high_ratio : ℕ

-- The defaults of the fields.
abbrev pub default_policy : ReconnectPolicy
default_policy = record {
  base_delay = 500;
  factor = 2000;
  max_delay = 30000;
  stable_reset = 60000;
  reconnect_on_normal_close = true;
  policy_violation_is_terminal = true;
  service_restart_min_delay = 1000;
  service_restart_max_delay = 5000;
  try_again_later_min_delay = 30000;
  try_again_later_max_delay = 60000;
  rapid_disconnect_uptime = 5000;
  rapid_window = 60000;
  rapid_first_min_delay = 2000;
  rapid_second_min_delay = 10000;
  rapid_cooldown_base = 60000;
  rapid_cooldown_step = 30000;
  rapid_cooldown_max = 300000;
  rapid_suppress_disconnect_count = 10;
  rapid_hold_down_jitter_low_ratio = 250;
  rapid_hold_down_jitter_high_ratio = 1000;
}

-- The (low, high) pairs of ORDERED_POLICY_FIELDS.
unfoldable pub ordered_policy_fields : ReconnectPolicy → List (ℕ × ℕ)
ordered_policy_fields p =
    (p.service_restart_min_delay, p.service_restart_max_delay)
    ∷ (p.try_again_later_min_delay, p.try_again_later_max_delay)
    ∷ (p.rapid_cooldown_base, p.rapid_cooldown_max)
    ∷ (p.rapid_hold_down_jitter_low_ratio, p.rapid_hold_down_jitter_high_ratio)
    ∷ []

check_pairs : List (ℕ × ℕ) → Result (Unit {0})
check_pairs [] = ok tt
check_pairs ((low, high) ∷ pairs) = do
  guard (not (ltb high low)) (value_error policy_order)
  check_pairs pairs

-- ReconnectPolicy._check_ordering
unfoldable pub check_ordering : ReconnectPolicy → Result ReconnectPolicy
unfolding check_pairs ordered_policy_fields
check_ordering p = do check_pairs (ordered_policy_fields p); ok p

pub record ReconnectDecision : Type 0 where
  pub should_reconnect : Bool
  pub delay : ℕ
  pub terminal_error : Option Exc

-- A float that a caller gives as a delay; `invalid` is NaN, an infinity or a negative number.
pub data Delay : Type 0 where
  seconds : ℕ → Delay
  invalid : Delay

-- ReconnectDecision.__post_init__
unfoldable pub make_decision : Bool → Delay → Option Exc → Result ReconnectDecision
make_decision go invalid error = err (value_error bad_delay)
make_decision go (seconds d) error = do
  guard (go || d == 0) (value_error stop_with_delay)
  guard (not (go && is_some error)) (value_error error_with_reconnect)
  ok (record { should_reconnect = go; delay = d; terminal_error = error })

abbrev pub proceed : ReconnectDecision
proceed = record { should_reconnect = true; delay = 0; terminal_error = none }

-- What `__post_init__` lets through.
pub record IsValid (d : ReconnectDecision) : Type 0 where
  pub stop_has_no_delay : d.should_reconnect ≡ false → d.delay ≡ 0
  pub go_has_no_error : d.should_reconnect ≡ true → d.terminal_error ≡ none

pub make_decision-IsValid :
    (go : Bool) (d : Delay) (e : Option Exc) {r : ReconnectDecision}
    → make_decision go d e ≡ ok r
    → IsValid r
unfolding make_decision
make_decision-IsValid go invalid e h = cc
make_decision-IsValid go (seconds d) e h = ground arith

-- Why an attempt to connect failed: websockets' InvalidStatus with the response's status, or any
-- other exception.
pub data ConnectError : Type 0 where
  invalid_status : ℕ → ConnectError
  other_failure : ConnectError

pub data ReconnectEvent : Type 0 where
  at_connecting : ReconnectEvent
  at_connected : ℕ → ReconnectEvent
  at_disconnected : Option ℕ → Text → ReconnectEvent
  at_connect_failed : ConnectError → ReconnectEvent

-- `isinstance(event, GATE_EVENTS)`
abbrev pub is_gate : ReconnectEvent → Bool
is_gate at_connecting = true
is_gate (at_connected g) = true
is_gate _ = false
