-- ===== src/Supervisor/Loop.antt =====
-- `_supervisor_loop` of supervisor.py, with `_retry_after_connect_failure`, `_start_session`,
-- `_await_routing` and `_end_session`, over what the network, the decider and the other tasks do.
pub mod Legal
pub mod Finality
pub mod Ends
use phoenix_channels_python.Base.{
  ℕ, ◌≡◌, refl, Bool, true, false, ◌&&◌, ◌||◌, not, Option, none, some, List, [], ◌∷◌, arith,
  is_some, if◌then◌else◌, Result, ok, err, Exc, socket_error, connect_failed, cancelled_error,
}
use phoenix_channels_python.ClientState.{ClientState, connected, reconnecting}
use phoenix_channels_python.Reconnect.Policy.{
  ConnectError, ReconnectDecision, ReconnectEvent, at_connecting, at_connected, at_connect_failed,
}
use phoenix_channels_python.Reconnect.Controller.{
  Answer, Closing, RoutingError, extract_close_details,
}
use phoenix_channels_python.Supervisor.Connection.{
  Supervision, is_stopping, transition_state, settle_initial_connection, proceeds, begin_cleanup,
  cleanup_connection, take_connection, next_generation, announce, CloseDetails, decide_reconnect,
  settle_supervisor_exit,
}

pub data Connecting : Type 0 where
  refused : ConnectError → Connecting
  opened : (connection : ℕ) → Connecting

-- Where the supervisor's task may be cancelled: in one of the waits, that of `cancel_and_wait` and that
-- of `_close_websocket` in a cleanup told apart.
pub data Wait : Type 0 where
  at_handshake at_rejoining at_session at_cleanup at_close at_callback at_delay : Wait

-- A round of the loop. `cancelled_at` is the wait that a cancellation ends, if any; `_stop_supervisor`
-- of client.py cancels the task so. The functions say what other tasks do during its waits: while the handshake
-- runs, while the topics are joined again, until the routing task ends, while the connection is cleaned
-- up, while `on_disconnect` runs, and during the delay before the next round.
pub record Round : Type 0 where
  pub cancelled_at : Option Wait
  pub decider : ReconnectEvent → Answer
  pub handshake : Supervision → Supervision
  pub outcome : Connecting
  pub rejoining : Supervision → Supervision
  pub session : Supervision → Supervision
  pub routing_error : Option RoutingError
  pub closing : Closing
  pub cleanup : Supervision → Supervision
  pub on_disconnect : Supervision → Supervision
  pub delay : Supervision → Supervision

-- What a part of the loop comes to: it goes on, breaks the loop, or raises.
pub data Progress : Type 0 where
  goes_on breaks : Supervision → Progress
  raises : Exc → Supervision → Progress

infixl 5 ◌and_then◌
abbrev pub ◌and_then◌ : Progress → (Supervision → Progress) → Progress
goes_on s and_then f = f s
breaks s and_then f = breaks s
raises e s and_then f = raises e s

-- A call that may raise.
abbrev pub from_result : Supervision → Result Supervision → Progress
from_result s (ok d) = goes_on d
from_result s (err e) = raises e s

-- `if ... is None: break`
abbrev pub from_decision : Option ReconnectDecision × Supervision → Progress
from_decision (none, s) = breaks s
from_decision (some d, s) = goes_on s

is_same : Wait → Wait → Bool
is_same at_handshake at_handshake = true
is_same at_rejoining at_rejoining = true
is_same at_session at_session = true
is_same at_cleanup at_cleanup = true
is_same at_close at_close = true
is_same at_callback at_callback = true
is_same at_delay at_delay = true
is_same _ _ = false

unfoldable pub is_cancelled : Option Wait → Wait → Bool
unfolding is_same
is_cancelled none w = false
is_cancelled (some v) w = is_same v w

-- The end of a wait: CancelledError, which no `except Exception` catches, or the next statement.
unfoldable pub awaited : Round → Wait → Supervision → Progress
awaited r w s = if is_cancelled r.cancelled_at w then raises cancelled_error s else goes_on s

-- `await self._cleanup_connection()`: its `finally` goes on after a cancellation of the first wait, but
-- not after one of the second.
unfoldable pub clean_up : Round → Supervision → Progress
clean_up r s =
    if is_cancelled r.cancelled_at at_close
    then raises cancelled_error (r.cleanup (begin_cleanup s))
    else awaited r at_cleanup (cleanup_connection s r.cleanup)

-- `if self.auto_reconnect and self._proceeds(event) is None`
unfoldable pub pass_gate : Round → ReconnectEvent → Supervision → Progress
pass_gate r event s =
    if s.auto_reconnect then from_decision (proceeds s event (r.decider event)) else goes_on s

-- `_retry_after_connect_failure`
unfoldable pub retry_after_connect_failure : Round → ConnectError → Supervision → Progress
retry_after_connect_failure r e s =
    if not s.auto_reconnect
    then breaks (settle_initial_connection s (some (socket_error connect_failed)))
    else if is_stopping s
    then breaks s
    else from_decision (proceeds s (at_connect_failed e) (r.decider (at_connect_failed e)))
      and_then λ d. from_result d (transition_state d reconnecting)

-- The gate of `_adopt_connection`: a connection that is refused is cleaned up.
abbrev pub settle_gate : Round → Progress → Progress
settle_gate r (goes_on s) = let d = announce s in from_result d (transition_state d connected)
settle_gate r (breaks s) = clean_up r s and_then breaks
settle_gate r (raises e s) = raises e s

-- `_adopt_connection`
unfoldable pub adopt_connection : Round → ℕ → Supervision → Progress
adopt_connection r connection s =
    let d = take_connection s connection in
    if is_stopping d
    then breaks d
    else let e = next_generation d in
      settle_gate r (pass_gate r (at_connected e.client.conn_generation) e)

-- `_start_session` and `_await_routing`.
unfoldable pub run_session : Round → Supervision → Progress
run_session r s = awaited r at_rejoining (r.rejoining s) and_then λ d.
    awaited r at_session (r.session (settle_initial_connection d none))

-- `_end_session`, and the end of the loop's body.
unfoldable pub end_session : Round → Supervision → Progress
end_session r s =
    let (code, reason) = extract_close_details r.closing r.routing_error in
    let details : CloseDetails = record {
      code = code;
      reason = reason;
      forced = s.forced_close_pending;
    } in
    clean_up r s and_then (λ d. awaited r at_callback (r.on_disconnect d)) and_then λ d.
    from_decision (decide_reconnect d details r.decider) and_then λ e.
    from_result e (transition_state e reconnecting)

unfoldable pub connect_and_serve : Round → Connecting → Supervision → Progress
connect_and_serve r (refused e) s = retry_after_connect_failure r e s
connect_and_serve r (opened connection) s =
    adopt_connection r connection s and_then (run_session r) and_then end_session r

-- The body of the loop, the wait for the decision's delay included.
unfoldable pub supervisor_round : Round → Supervision → Progress
supervisor_round r s =
    if is_stopping s
    then breaks s
    else pass_gate r at_connecting s
      and_then (λ d. awaited r at_handshake (r.handshake d))
      and_then connect_and_serve r r.outcome
      and_then λ d. awaited r at_delay (r.delay d)

-- What the loop comes to in the rounds that are given: it still runs, it has returned, or it has
-- raised.
pub data Run : Type 0 where
  runs returned : Supervision → Run
  raised : Exc → Supervision → Run

abbrev pub leave_by : (last : Supervision → Run) → Supervision → Result Supervision → Run
leave_by last s (ok d) = last d
leave_by last s (err e) = raised e s

-- The `finally` of the loop.
abbrev pub leaving : (last : Supervision → Run) → Supervision → Run
leaving last s = leave_by last s (settle_supervisor_exit s)

-- What follows a round.
abbrev pub after_progress : (rest : Supervision → Run) → Progress → Run
after_progress rest (goes_on s) = rest s
after_progress rest (breaks s) = leaving returned s
after_progress rest (raises e s) = leaving (raised e) s

-- `_supervisor_loop`
unfoldable pub supervisor_loop : List Round → Supervision → Run
supervisor_loop [] s = runs s
supervisor_loop (r ∷ rs) s = after_progress (supervisor_loop rs) (supervisor_round r s)
