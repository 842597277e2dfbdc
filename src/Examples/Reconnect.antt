-- ===== src/Examples/Reconnect.antt =====
-- Reconnection and the client's states at work.
use phoenix_channels_python.Base.{
  List, ℕ, ◌+◌, ◌≤◌, ◌<◌, ◌≡◌, refl, ◌⊎◌, true, none, some, [], ◌∷◌, arith, ok, err, Exc,
  other_error, socket_error, decider_failed, float_overflow,
}
use phoenix_channels_python.ClientState.{
  closed, connecting, transition_client_state, ◌⟶◌, transition_client_state-⟶,
}
use phoenix_channels_python.Reconnect.Policy.{
  invalid_status, default_policy, ReconnectDecision, IsValid, ReconnectEvent, at_disconnected,
  at_connect_failed, other_failure,
}
use phoenix_channels_python.Reconnect.Decider.{
  retry_after_failure, after_connect_failure, is_terminal_handshake, equal_jitter, jittered,
  rapid_floor, delay_range_for_close, raise_into, note_uptime, power_overflows, retry_after_close,
  prune, record_disconnect, is_suppressed, stop_for_close, after_close, Decider, Draws, decide,
  exponential_delay, backoff,
}
use phoenix_channels_python.Reconnect.Decider.Churn.{Failure, goes_on, goes_on-lt}
use phoenix_channels_python.Reconnect.Decider.Bounds.{exponential_delay_overflow, backoff_bounds}
use phoenix_channels_python.Reconnect.Controller.{
  decider_failure, accept, builtin_answer, accept-builtin_answer, accept-overflow,
}

abbrev draws : Draws
draws = record { first = 500; second = 250 }

abbrev fresh : Decider
fresh = record { policy = default_policy; attempt = 0; rapid_disconnects = []; connected_at = 0 }

abbrev tired : Decider
tired = record fresh { attempt = 1024 }

abbrev restarted : ReconnectEvent
restarted = at_disconnected (some 1012) []

abbrev retry_in : ℕ → ReconnectDecision
retry_in d = record { should_reconnect = true; delay = d; terminal_error = none }

restarted_answer : (decide fresh 1000 draws restarted).0 ≡ ok (retry_in 2000)
unfolding decide after_close stop_for_close is_suppressed record_disconnect prune retry_after_close
    backoff exponential_delay power_overflows note_uptime raise_into delay_range_for_close
    rapid_floor jittered equal_jitter
restarted_answer = refl

-- The server refuses the first handshake for the time being, and cannot be reached then.
abbrev failures : List Failure
failures =
    record { time = 1000; error = invalid_status 503; draws = draws }
    ∷ record { time = 4000; error = other_failure; draws = draws }
    ∷ []

two_failures : goes_on fresh failures ≡ true
unfolding goes_on after_connect_failure is_terminal_handshake is_suppressed record_disconnect prune
    retry_after_failure backoff exponential_delay power_overflows
two_failures = refl

goes_on-lt_example : 0 + 2 < 10
goes_on-lt_example =
    goes_on-lt fresh failures 4000 (omega arith) (omega arith) tt
      ((omega arith, omega arith), ((omega arith, omega arith), tt)) two_failures

exponential_delay_overflow_example :
    exponential_delay default_policy 1024 ≡ err (other_error float_overflow)
exponential_delay_overflow_example =
    exponential_delay_overflow default_policy 1024 refl (omega arith)

third_backoff : backoff fresh 500 3 ≡ ok 3000
unfolding backoff exponential_delay power_overflows rapid_floor jittered equal_jitter
third_backoff = refl

third_delay : exponential_delay default_policy 3 ≡ ok 4000
unfolding exponential_delay power_overflows
third_delay = refl

backoff_bounds_example : (2000 ≤ 3000) × (3000 ≤ 4000)
unfolding rapid_floor
backoff_bounds_example =
    backoff_bounds fresh 500 3 4000 3000 (omega arith) (omega arith) third_delay third_backoff

accept-builtin_answer_example :
    ((x : ReconnectDecision) × ((decide fresh 1000 draws restarted).0 ≡ ok x)
      × (accept restarted (builtin_answer (decide fresh 1000 draws restarted).0) ≡ x)
      × IsValid x)
    ⊎ ((e : Exc) × ((decide fresh 1000 draws restarted).0 ≡ err e)
        × (accept restarted (builtin_answer (decide fresh 1000 draws restarted).0)
            ≡ decider_failure (socket_error decider_failed)))
accept-builtin_answer_example = accept-builtin_answer fresh 1000 draws restarted

accept-overflow_example :
    accept
      (at_connect_failed other_failure)
      (builtin_answer (decide tired 1000 draws (at_connect_failed other_failure)).0)
    ≡ decider_failure (socket_error decider_failed)
unfolding is_terminal_handshake is_suppressed record_disconnect prune
accept-overflow_example =
    accept-overflow tired 1000 draws other_failure refl (omega arith) refl refl

transition_client_state-⟶_example :
    (connecting ≡ connecting) × ((closed ≡ connecting) ⊎ (closed ⟶ connecting))
unfolding transition_client_state
transition_client_state-⟶_example = transition_client_state-⟶ closed connecting connecting refl
