-- ===== src/Reconnect/Decider.antt =====
-- DefaultReconnectDecider of default_decider.py. The clock and the random draws are arguments:
-- `now` is a time in thousandths of a second, and a draw `r` below 1000 is random.random() * 1000.
pub mod Decisions
pub mod Churn
pub mod Bounds
use phoenix_channels_python.Base.{
  ℕ, zero, suc, ◌+◌, ◌-◌, ◌*◌, ◌/◌, ◌^◌, min, max, Bool, true, false, ◌&&◌, ◌||◌, not, Option, none,
  some, List, [], ◌∷◌, ◌++◌, ltb, leb, ◌==◌, if◌then◌else◌, length, Result, ok, err, ◌>>=◌,
  socket_error, other_error, float_overflow, terminal_handshake, terminal_close, suppressed,
}
use phoenix_channels_python.Text.{Text}
use phoenix_channels_python.Reconnect.Policy.{
  ReconnectPolicy, ReconnectDecision, proceed, ConnectError, invalid_status, other_failure,
  ReconnectEvent, at_connecting, at_connected, at_disconnected, at_connect_failed,
}

abbrev pub terminal_handshake_status : ℕ
terminal_handshake_status = 403

-- Two draws of random.random(), for the two jitters that one decision may make.
pub record Draws : Type 0 where
  pub first : ℕ
  pub second : ℕ

unfoldable pub random_between : ℕ → ℕ → ℕ → ℕ
random_between r min_delay max_delay =
    let low = max 0 min_delay in
    let high = max low max_delay in if high == low then low else low + r * (high - low) / 1000

-- The power of two floats raises OverflowError when it leaves the range of a double.
abbrev pub float_limit : ℕ
float_limit = 2 ^ 1024

unfoldable pub power_overflows : ℕ → ℕ → Bool
power_overflows factor attempt = leb (float_limit * 1000 ^ attempt) (factor ^ attempt)

unfoldable pub exponential_delay : ReconnectPolicy → ℕ → Result ℕ
exponential_delay p attempt =
    if power_overflows p.factor attempt
    then err (other_error float_overflow)
    else ok (min p.max_delay (p.base_delay * p.factor ^ attempt / 1000 ^ attempt))

unfoldable pub equal_jitter : ℕ → ℕ → ℕ
unfolding random_between
equal_jitter r delay = random_between r (delay / 2) delay

pub record Decider : Type 0 where
  pub policy : ReconnectPolicy
  pub attempt : ℕ
  -- The times of the disconnects after short uptimes, oldest first.
  pub rapid_disconnects : List ℕ
  pub connected_at : ℕ

unfoldable pub new_decider : ReconnectPolicy → Decider
new_decider p = record { policy = p; attempt = 0; rapid_disconnects = []; connected_at = 0 }

abbrev pub terminal_decision : ReconnectDecision
terminal_decision = record {
  should_reconnect = false;
  delay = 0;
  terminal_error = some (socket_error terminal_close);
}

abbrev pub handshake_decision : ReconnectDecision
handshake_decision = record {
  should_reconnect = false;
  delay = 0;
  terminal_error = some (socket_error terminal_handshake);
}

abbrev pub suppression : ReconnectDecision
suppression = record {
  should_reconnect = false;
  delay = 0;
  terminal_error = some (socket_error suppressed);
}

abbrev pub stop : ReconnectDecision
stop = record { should_reconnect = false; delay = 0; terminal_error = none }

abbrev pub retry_after : ℕ → ReconnectDecision
retry_after d = record { should_reconnect = true; delay = d; terminal_error = none }

-- `close_code in {NORMAL_CLOSURE, GOING_AWAY}`
unfoldable pub is_normal_close : Option ℕ → Bool
is_normal_close none = false
is_normal_close (some code) = code == 1000 || code == 1001

-- `close_code == CloseCode.POLICY_VIOLATION`
unfoldable pub is_policy_violation : Option ℕ → Bool
is_policy_violation none = false
is_policy_violation (some code) = code == 1008

unfoldable pub stop_for_close : ReconnectPolicy → Option ℕ → Option ReconnectDecision
unfolding is_normal_close is_policy_violation
stop_for_close p close_code =
    if is_normal_close close_code && not p.reconnect_on_normal_close
    then some stop
    else if is_policy_violation close_code && p.policy_violation_is_terminal
    then some terminal_decision
    else none

unfoldable pub delay_range_for_close : ReconnectPolicy → Option ℕ → Option (ℕ × ℕ)
delay_range_for_close p none = none
delay_range_for_close p (some code) =
    if code == 1012
    then some (p.service_restart_min_delay, p.service_restart_max_delay)
    else if code == 1013
    then some (p.try_again_later_min_delay, p.try_again_later_max_delay)
    else none

-- The `while` of `_suppressed`: what has left the window is forgotten, oldest first.
unfoldable pub prune : ℕ → ℕ → List ℕ → List ℕ
prune window now [] = []
prune window now (t ∷ ts) =
    let rest = prune window now ts in if ltb window (now - t) then rest else t ∷ ts

-- What `_suppressed` leaves in `rapid_disconnects`.
unfoldable pub record_disconnect : Decider → ℕ → ℕ → List ℕ
record_disconnect d now uptime = prune d.policy.rapid_window now (
    if ltb uptime d.policy.rapid_disconnect_uptime
    then d.rapid_disconnects ++ now ∷ []
    else d.rapid_disconnects)

unfoldable pub is_suppressed : Decider → ℕ → ℕ → Bool × Decider
is_suppressed d now uptime =
    let recent = record_disconnect d now uptime in
    let threshold = d.policy.rapid_suppress_disconnect_count in
    (ltb 0 threshold && leb threshold (length recent), record d { rapid_disconnects = recent })

-- `_rapid_floors()[rapid_count]`, and from the third disconnect on the growing cooldown.
unfoldable pub rapid_floor : ReconnectPolicy → ℕ → ℕ
rapid_floor p zero = 0
rapid_floor p (suc zero) = p.rapid_first_min_delay
rapid_floor p (suc (suc zero)) = p.rapid_second_min_delay
rapid_floor p (suc (suc (suc steps))) =
    min (p.rapid_cooldown_base + p.rapid_cooldown_step * steps) p.rapid_cooldown_max

unfoldable pub jittered : ReconnectPolicy → ℕ → ℕ → ℕ → ℕ
jittered p r rapid_count delay =
    if ltb rapid_count 3
    then equal_jitter r delay
    else random_between r (delay * p.rapid_hold_down_jitter_low_ratio / 1000)
        (delay * p.rapid_hold_down_jitter_high_ratio / 1000)

unfoldable pub backoff : Decider → ℕ → ℕ → Result ℕ
backoff d r attempt = do
  exponential ← exponential_delay d.policy attempt
  let rapid_count = length d.rapid_disconnects
  let delay = max exponential (rapid_floor d.policy rapid_count)
  ok (if delay == 0 then 0 else jittered d.policy r rapid_count delay)

unfoldable pub raise_into : ℕ → Option (ℕ × ℕ) → ℕ → ℕ
raise_into r none delay = delay
raise_into r (some (low, high)) delay = max delay (random_between r low high)

unfoldable pub note_uptime : Decider → ℕ → Decider
note_uptime d uptime =
    if leb d.policy.stable_reset uptime
    then record d { attempt = 0; rapid_disconnects = [] }
    else record d { attempt = d.attempt + 1 }

unfoldable pub retry_after_close : Draws → Option ℕ → Decider → Result ReconnectDecision × Decider
retry_after_close r close_code d = (
  do
    delay ← backoff d r.first d.attempt
    ok (retry_after (raise_into r.second (delay_range_for_close d.policy close_code) delay)),
  d,
)

-- A decider that raises keeps what it has recorded until then.
unfoldable pub after_close : Decider → ℕ → Draws → Option ℕ → Result ReconnectDecision × Decider
after_close d now r close_code = elim (stop_for_close d.policy close_code) [
  | some stopped ↦ (ok stopped, d)
  | none ↦
      let uptime = now - d.connected_at in
      let (too_many, d') = is_suppressed d now uptime in
      if too_many
      then (ok suppression, d')
      else retry_after_close r close_code (note_uptime d' uptime)
]

-- `isinstance(error, InvalidStatus) and status_code == TERMINAL_HANDSHAKE_STATUS`
unfoldable pub is_terminal_handshake : ConnectError → Bool
is_terminal_handshake (invalid_status status) = status == terminal_handshake_status
is_terminal_handshake other_failure = false

-- `attempt` grows only when the delay was computed.
unfoldable pub retry_after_failure : Decider → Result ℕ → Result ReconnectDecision × Decider
retry_after_failure d (err e) = (err e, d)
retry_after_failure d (ok delay) = (ok (retry_after delay), record d { attempt = d.attempt + 1 })

unfoldable pub after_connect_failure :
    Decider → ℕ → Draws → ConnectError → Result ReconnectDecision × Decider
after_connect_failure d now r error =
    if is_terminal_handshake error
    then (ok handshake_decision, d)
    else let (too_many, d') = is_suppressed d now 0 in
      if too_many
      then (ok suppression, d')
      else retry_after_failure d' (backoff d' r.first d'.attempt)

-- DefaultReconnectDecider.__call__
unfoldable pub decide : Decider → ℕ → Draws → ReconnectEvent → Result ReconnectDecision × Decider
decide d now r (at_connected generation) = (ok proceed, record d { connected_at = now })
decide d now r (at_disconnected code reason) = after_close d now r code
decide d now r (at_connect_failed error) = after_connect_failure d now r error
decide d now r at_connecting = (ok proceed, d)
