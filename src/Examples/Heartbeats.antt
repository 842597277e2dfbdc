-- ===== src/Examples/Heartbeats.antt =====
-- Heartbeats at work.
use phoenix_channels_python.Text.Decimal.{decimal}
use phoenix_channels_python.Base.{
  ◌+◌, ◌≡◌, refl, false, some, List, [], ◌∷◌, length, is_some, if◌then◌else◌,
}
use phoenix_channels_python.Text.{text_eq, codes}
use phoenix_channels_python.Supervisor.Heartbeat.{
  accept_response, is_late, within_deadline, send, is_answer, handle_heartbeat_response,
  send_heartbeat, step, Event, turn, response, run, started, last_answer, InTime, run-started,
}

-- Two turns and a response to the first, which came in time.
abbrev beats : List Event
beats = turn ∷ response (some (codes "1")) 50 ∷ turn ∷ []

answered_once : (run (started 0 100 0) beats).acknowledged ≡ 50 ∷ []
unfolding run step send_heartbeat handle_heartbeat_response is_answer send text_eq decimal
    within_deadline is_late accept_response
answered_once = refl

run-started_example :
    let h = run (started 0 100 0) beats in
    (h.timer ≡ some (record { when = some (last_answer 0 h.acknowledged + 100); expired = false }))
    × InTime 100 0 h.acknowledged
    × (length h.sent ≡ length h.acknowledged + (if is_some h.pending_ref then 1 else 0))
run-started_example = run-started 0 100 0 beats
