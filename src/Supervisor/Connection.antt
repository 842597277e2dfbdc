-- ===== src/Supervisor/Connection.antt =====
-- The supervisor's state in supervisor.py, and what it does to a connection between its waits:
-- `_adopt_connection`, `_cleanup_connection`, `_force_close_connection`, `_proceeds` and the
-- `_settle_` functions. `transition_state` is `_transition_state` of client.py.
pub mod Keeping
use phoenix_channels_python.Base.{
  ℕ, ◌+◌, ◌≡◌, refl, Bool, true, false, ◌&&◌, ◌||◌, not, Option, none, some, List, [], ◌∷◌, arith,
  ◌==◌, is_some, if◌then◌else◌, Result, ok, err, ◌>>=◌, Exc, socket_error, connection_lost,
  supervisor_stopped, stopped_before_connecting, length,
}
use phoenix_channels_python.Text.{Text}
use phoenix_channels_python.ClientState.{
  ClientState, connected, reconnecting, shutting_down, closed, same_state, transition_client_state,
}
use phoenix_channels_python.Futures.{Future, result, exception, settled}
use phoenix_channels_python.Topic.{Topic, is_left, values}
use phoenix_channels_python.Reconnect.Policy.{
  ReconnectDecision, ReconnectEvent, at_connected, at_disconnected,
}
use phoenix_channels_python.Reconnect.Controller.{Answer, accept}
use phoenix_channels_python.Runtime.{Client, same_connection}
use phoenix_channels_python.Runtime.Tasks.{release_reservation}
use phoenix_channels_python.Runtime.Control.{set_terminal}
use phoenix_channels_python.Runtime.Losses.{fail_pending_joins, retire_channels}

-- `initial_connection` is what `__aenter__` waits for. The heartbeats have a state of their own.
pub record Supervision : Type 0 where
  pub client : Client
  pub auto_reconnect : Bool
  pub connected_event : Bool
  pub initial_connection : Future
  pub terminal_error : Option Exc
  pub forced_close_pending : Bool

-- `shutdown_event.is_set()`
abbrev pub is_stopping : Supervision → Bool
is_stopping s = s.client.shutdown_requested

-- `_transition_state`
unfoldable pub transition_state : Supervision → ClientState → Result Supervision
transition_state s new_state = do
  state ← transition_client_state s.client.state new_state
  ok (record s { client = record s.client { state = state } })

-- `_settle_initial_connection`
unfoldable pub settle_initial_connection : Supervision → Option Exc → Supervision
settle_initial_connection s none = record s {
  initial_connection = settled s.initial_connection (result none);
}
settle_initial_connection s (some e) = record s {
  initial_connection = settled s.initial_connection (exception e);
}

-- `_record_terminal_error`
unfoldable pub record_terminal_error : Supervision → Exc → Supervision
unfolding settle_initial_connection
record_terminal_error s e =
    settle_initial_connection (record s { terminal_error = some e }) (some e)

unfoldable pub stop_for : Supervision → Option Exc → Supervision
stop_for s none = s
stop_for s (some e) = record_terminal_error s e

-- `_proceeds`: the decision to go on after an event, or none.
unfoldable pub proceeds :
    Supervision → ReconnectEvent → Answer → Option ReconnectDecision × Supervision
unfolding stop_for
proceeds s event answer =
    let d = accept event answer in
    if d.should_reconnect then (some d, s) else (none, stop_for s d.terminal_error)

-- `_force_close_connection`, for a connection that is open or not.
unfoldable pub force_close : Supervision → Bool → Supervision
force_close s is_open = if is_open then record s { forced_close_pending = true } else s

-- `_fail_pending_joins_for_lost_connection`
unfoldable pub fail_joins_for_lost_connection : Client → Client
fail_joins_for_lost_connection c = fail_pending_joins c (socket_error connection_lost)

-- `_cleanup_connection` up to its waits.
unfoldable pub begin_cleanup : Supervision → Supervision
begin_cleanup s = record s {
  client = record (fail_joins_for_lost_connection s.client) { connection = none };
  connected_event = false;
  forced_close_pending = false;
}

end_topic : Client → Option ℕ → ℕ → Client
end_topic c connection k =
    if same_connection (c.topics k).connection connection
    then (let d = set_terminal c k in
        if is_left (d.topics k).state then release_reservation d k else d)
    else c

-- The loop at the end of `_cleanup_connection`, over the channels of the connection that was closed.
unfoldable pub end_topics : Client → Option ℕ → List ℕ → Client
unfolding end_topic
end_topics c connection [] = c
end_topics c connection (k ∷ ks) = end_topics (end_topic c connection k) connection ks

-- `_cleanup_connection`; `meanwhile` is what other tasks do while it waits.
unfoldable pub cleanup_connection :
    Supervision → (meanwhile : Supervision → Supervision) → Supervision
cleanup_connection s meanwhile =
    let d = meanwhile (begin_cleanup s) in
    record d {
      client = end_topics d.client s.client.connection (values d.client.topic_subscriptions);
    }

-- `_adopt_connection`, without its gate: the connection is the client's.
unfoldable pub take_connection : Supervision → ℕ → Supervision
take_connection s connection = record s {
  client = record s.client { connection = some connection };
}

unfoldable pub next_generation : Supervision → Supervision
next_generation s = record s {
  client = record s.client { conn_generation = s.client.conn_generation + 1 };
}

-- The end of `_adopt_connection`, up to its transition.
unfoldable pub announce : Supervision → Supervision
announce s = record s { connected_event = true }

-- `CloseDetails`
pub record CloseDetails : Type 0 where
  pub code : Option ℕ
  pub reason : Text
  pub forced : Bool

-- The event of `_decide_reconnect`: a forced close carries no code.
unfoldable pub close_event : CloseDetails → ReconnectEvent
close_event d = if d.forced then at_disconnected none [] else at_disconnected d.code d.reason

-- `_decide_reconnect`
unfoldable pub decide_reconnect :
    Supervision → CloseDetails → (ReconnectEvent → Answer) → Option ReconnectDecision × Supervision
decide_reconnect s details decider =
    if is_stopping s || not s.auto_reconnect
    then (none, s)
    else proceeds s (close_event details) (decider (close_event details))

-- `_settle_supervisor_exit` up to its transition.
unfoldable pub retire_if_running : Supervision → Supervision
retire_if_running s =
    if length s.client.topic_subscriptions == 0
    then s
    else record s { client = retire_channels s.client (socket_error supervisor_stopped) }

unfoldable pub settle_supervisor_exit : Supervision → Result Supervision
settle_supervisor_exit s =
    let d = record (settle_initial_connection s (some (socket_error stopped_before_connecting))) {
      connected_event = false;
    } in
    if same_state d.client.state shutting_down
    then ok d
    else transition_state (retire_if_running d) closed
