-- ===== src/Reconnect/Decider/Decisions.antt =====
-- What the built-in decider may answer.
use phoenix_channels_python.Base.{ℕ, ◌≡◌, true, arith, ok}
use phoenix_channels_python.Reconnect.Policy.{
  ReconnectDecision, IsValid, ReconnectEvent, is_gate, at_connecting, at_connected, at_disconnected,
  at_connect_failed,
}
use phoenix_channels_python.Reconnect.Decider.{
  Decider, Draws, decide, after_close, after_connect_failure, retry_after_close,
  retry_after_failure, stop_for_close,
}

-- Every decision of the built-in decider passes the checks of ReconnectDecision: a stop has no delay,
-- and a retry no error.
pub decide-IsValid :
    (d : Decider) (now : ℕ) (r : Draws) (e : ReconnectEvent) (x : ReconnectDecision)
    → (decide d now r e).0 ≡ ok x
    → IsValid x
unfolding decide after_close after_connect_failure retry_after_close retry_after_failure
    stop_for_close
decide-IsValid d now r at_connecting x h = ground arith
decide-IsValid d now r (at_connected g) x h = ground arith
decide-IsValid d now r (at_disconnected c t) x h = ground arith
decide-IsValid d now r (at_connect_failed e) x h = ground arith

-- A gate is never given a delay.
pub decide-gate :
    (d : Decider) (now : ℕ) (r : Draws) (e : ReconnectEvent) (x : ReconnectDecision)
    → is_gate e ≡ true
    → (decide d now r e).0 ≡ ok x
    → x.delay ≡ 0
unfolding decide
decide-gate d now r at_connecting x g h = ground arith
decide-gate d now r (at_connected n) x g h = ground arith
decide-gate d now r e x g h = absurd (ground arith)
