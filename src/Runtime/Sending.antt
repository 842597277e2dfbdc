-- ===== src/Runtime/Sending.antt =====
-- The send session of a connection, as topic_runtime.py keeps it: `_session_for`, what a session asks
-- its owner, `_fail_send_session` and `_close_send_session`.
use phoenix_channels_python.Base.{
  ℕ, ◌≡◌, refl, Bool, true, false, ◌&&◌, ◌||◌, not, Option, none, some, ◌==◌, if◌then◌else◌, Result,
  ok, ◌>>=◌, Exc, arith,
}
use phoenix_channels_python.ClientState.{
  ClientState, connected, reconnecting, same_state, transition_client_state,
}
use phoenix_channels_python.Runtime.{
  Client, same_connection, is_connected, is_connected_state, create_task, close_send_session,
}
use phoenix_channels_python.Runtime.Invariant.{From}
use phoenix_channels_python.Runtime.Tasks.Keeping.{From-same}
use phoenix_channels_python.Runtime.Losses.{fail_pending_joins}
use phoenix_channels_python.Runtime.Losses.Keeping.{fail_pending_joins-From}

-- A session: its number, its connection, and the generation that it was made in.
pub record Owned : Type 0 where
  pub session : ℕ
  pub connection : Option ℕ
  pub generation : ℕ

-- `_session_for`: the session of the connection, or a new one with the number `fresh`.
unfoldable pub session_for : Option Owned → Client → Option ℕ → (fresh : ℕ) → Owned
session_for none c connection fresh = record {
  session = fresh;
  connection = connection;
  generation = c.conn_generation;
}
session_for (some s) c connection fresh =
    if same_connection s.connection connection
    then s
    else record { session = fresh; connection = connection; generation = c.conn_generation }

abbrev pub is_session : Option Owned → Owned → Bool
is_session none s = false
is_session (some t) s = t.session == s.session

-- `is_current` of a session that `_session_for` made.
unfoldable pub is_current : Client → Option Owned → Owned → Bool
is_current c current s =
    same_connection c.connection s.connection
    && c.conn_generation == s.generation
    && is_session current s

lose_connected : ClientState → Result ClientState
lose_connected s = if same_state s connected then transition_client_state s reconnecting else ok s

-- `_fail_send_session`
unfoldable pub fail_send_session : Client → Option Owned → Owned → Exc → Result Client
unfolding lose_connected
fail_send_session c current s error =
    if not (same_connection c.connection s.connection) || not (is_session current s)
    then ok c
    else do
      let d = fail_pending_joins c error
      state ← lose_connected d.state
      ok ((create_task (record d { state = state }) close_send_session).1)

lost_connected :
    (s : ClientState)
    → (t : ClientState) × (lose_connected s ≡ ok t) × (is_connected_state t ≡ false)
unfolding lose_connected same_state transition_client_state is_connected_state
lost_connected connected = (reconnecting, refl, refl)
lost_connected s = (s, refl, refl)

-- A failure that a client's own session reports on its connection is never refused: the client is not
-- connected afterwards, and what holds of its channels is kept; no future that was done changes.
pub fail_send_session-From :
    {o : Client} (c : Client) (current : Option Owned) (s : Owned) (error : Exc)
    → From o c
    → same_connection c.connection s.connection ≡ true
    → is_session current s ≡ true
    → (d : Client) × (fail_send_session c current s error ≡ ok d)
      × From o d
      × (is_connected d ≡ false)
unfolding fail_send_session is_connected create_task
fail_send_session-From c current s error f here own =
    let (t, e, lost) = lost_connected (fail_pending_joins c error).state in
    let d : Client =
      (create_task (record (fail_pending_joins c error) { state = t }) close_send_session).1 in
    (
      d,
      rw (here, own, e) refl,
      From-same (fail_pending_joins-From c error f) refl refl refl (omega arith),
      rw lost refl,
    )
