-- ===== src/Examples/Supervision.antt =====
-- Runs of the supervisor's loop, and the entry and the stop of a client.
use phoenix_channels_python.Base.{
  ◌⊎◌, cancelled_error, Bool, All, ℕ, ◌<◌, ◌≡◌, refl, true, false, none, some, [], ◌∷◌, ◌++◌, ok,
  err, Exc, socket_error, connection_lost, timeout_error, arith,
}
use phoenix_channels_python.ClientState.{connecting, closed}
use phoenix_channels_python.Futures.{pending}
use phoenix_channels_python.Reconnect.Policy.{ReconnectEvent, other_failure}
use phoenix_channels_python.Reconnect.Controller.{Answer, decided}
use phoenix_channels_python.Runtime.{Client}
use phoenix_channels_python.Supervisor.Connection.{Supervision, cleanup_connection}
use phoenix_channels_python.Supervisor.Connection.Keeping.{Live}
use phoenix_channels_python.Text.Utf8
use phoenix_channels_python.Supervisor.{truncate_close_reason}
use phoenix_channels_python.Supervisor.Closing.{
  Link, forced_close_code, heartbeat_failed, force_close_connection, heartbeat_loop, GivesUp,
  heartbeat_loop-GivesUp,
}
use phoenix_channels_python.Supervisor.Loop.{
  Round, at_session, refused, opened, Progress, raises, run_session, awaited, is_cancelled,
  supervisor_loop,
}
use phoenix_channels_python.Supervisor.Loop.Legal.{Polite, Sound, supervisor_loop-Sound}
use phoenix_channels_python.Supervisor.Loop.Finality.{Steady}
use phoenix_channels_python.Supervisor.Loop.Ends.{
  in_session, is_still_running, ends_here, supervisor_loop-ends,
}
use phoenix_channels_python.Topic.{is_left, values}
use phoenix_channels_python.Lifecycle.{reset, request_stop, Waits, run_shutdown}
use phoenix_channels_python.Lifecycle.Closes.{Gentle, Leaves, run_shutdown-request_stop}
use phoenix_channels_python.Lifecycle.Options.{
  at_most, is_finite, validate_heartbeat_threshold, is_nonpositive, ClientOptions, finite,
  validate_options, validate_options-heartbeat,
}
use phoenix_channels_python.Examples.Runtime.{client, client-Inv}

abbrev with_client : Client → Supervision
with_client c = record {
  client = c;
  auto_reconnect = true;
  connected_event = false;
  initial_connection = pending;
  terminal_error = none;
  forced_close_pending = false;
}

abbrev fresh : Supervision
fresh = with_client (record client { state = closed; connection = none })

abbrev starting : Supervision
starting =
    with_client (record client { state = connecting; connection = none; conn_generation = 0 })

starting-Live : Live starting
starting-Live = record {
  inv = record { topic = client-Inv.topic; fresh = client-Inv.fresh; refs = client-Inv.refs };
  running = λ h. refl;
}

-- A decider that always retries at once.
abbrev eager : ReconnectEvent → Answer
eager event = decided (record { should_reconnect = true; delay = 0; terminal_error = none })

-- The server accepts the connection and closes it.
abbrev short : Round
short = record {
  cancelled_at = none;
  decider = eager;
  handshake = λ s. s;
  outcome = opened 4;
  rejoining = λ s. s;
  session = λ s. s;
  routing_error = none;
  closing = record { close_code = some 1001; close_reason = none };
  cleanup = λ s. s;
  on_disconnect = λ s. s;
  delay = λ s. s;
}

-- The server cannot be reached.
abbrev failing : Round
failing = record short { outcome = refused other_failure }

short-Polite : Polite short
short-Polite = record {
  handshake = λ s l. l;
  rejoining = λ s l. l;
  session = λ s l. l;
  cleanup = λ s l. l;
  on_disconnect = λ s l. l;
  delay = λ s l. l;
}

supervisor_loop-Sound_example : Sound (supervisor_loop (short ∷ short ∷ []) starting)
supervisor_loop-Sound_example =
    supervisor_loop-Sound (short ∷ short ∷ []) starting (short-Polite, (short-Polite, tt))
      starting-Live

-- A caller asks for a shutdown while the client is connected.
abbrev stopped_in_session : Round
stopped_in_session = record short {
  session = λ s. record s { client = record s.client { shutdown_requested = true } };
}

stopped-Steady : Steady stopped_in_session
stopped-Steady = record {
  handshake = λ s h. h;
  rejoining = λ s h. h;
  session = λ s h. refl;
  cleanup = λ s h. h;
  on_disconnect = λ s h. h;
  delay = λ s h. h;
}

supervisor_loop-ends_example :
    let run =
      supervisor_loop ((failing ∷ short ∷ []) ++ (stopped_in_session ∷ short ∷ [])) starting in
    let stopped = supervisor_loop ((failing ∷ short ∷ []) ++ (stopped_in_session ∷ [])) starting in
    (is_still_running run ≡ false)
    × (run ≡ ends_here stopped)
    × ((false ≡ true) ⊎ (is_still_running stopped ≡ false))
supervisor_loop-ends_example =
    supervisor_loop-ends stopped_in_session stopped-Steady (failing ∷ short ∷ []) short [] starting
      (in_session 4 refl (λ s. refl))

-- The supervisor's task is cancelled while it waits for the routing task.
abbrev cancelled_in_session : Round
cancelled_in_session = record short { cancelled_at = some at_session }

is_raised : Progress → Bool
is_raised (raises cancelled_error s) = true
is_raised _ = false

cancelled_session : is_raised (run_session cancelled_in_session starting) ≡ true
unfolding is_raised run_session awaited is_cancelled
cancelled_session = refl

-- An open connection whose heartbeats failed, and whose close is cut off.
abbrev linked : Link
linked = record {
  supervision = starting;
  socket = record { is_open = true; closes = []; is_aborted = false };
}

abbrev broken : Exc
broken = socket_error connection_lost

abbrev dropped : Link
dropped = record {
  supervision = record starting { forced_close_pending = true };
  socket = record {
    is_open = true;
    closes = some (forced_close_code, heartbeat_failed) ∷ [];
    is_aborted = true;
  };
}

heartbeat_loop-GivesUp_example : GivesUp linked (err broken) (ok tt) dropped
unfolding heartbeat_loop force_close_connection truncate_close_reason Utf8.encode Utf8.char_bytes
heartbeat_loop-GivesUp_example =
    heartbeat_loop-GivesUp linked 60000 timeout_error (err broken) (λ e. absurd (ground arith)) refl

abbrev entered : Supervision
entered = record (reset fresh) { client = record (reset fresh).client { state = connecting } }

-- Nothing else happens while the client shuts down.
abbrev quiet : Waits
quiet = record { stopping = λ s. s; cleaning = λ s. s; leaving = λ s. s; failed_cleanup = none }

quiet-Gentle : Gentle quiet
quiet-Gentle = record {
  stopping = λ s f. f;
  cleaning = λ s f. f;
  leaving = λ s f. f;
  cleaning_closed = λ s h. h;
  leaving_closed = λ s h. h;
  leaving_leaves = λ s k h. h;
}

run_shutdown-request_stop_example :
    let s = with_client client in
    (m : Supervision) × (request_stop s ≡ ok m)
    × (let (x, d) = run_shutdown quiet m in
        let z = cleanup_connection m (λ t. t) in
        ((x ≡ ok tt) × (d.client.state ≡ closed) × (d.connected_event ≡ false))
        × (d.client.connection ≡ none)
        × All (λ k. is_left (d.client.topics k).state ≡ true) (values s.client.topic_subscriptions)
        × All (Leaves d.client) (values z.client.topic_subscriptions))
run_shutdown-request_stop_example =
    run_shutdown-request_stop quiet (with_client client) quiet-Gentle client-Inv

abbrev usual : ClientOptions
usual = record {
  api_key = none;
  heartbeat_interval = some (finite 30000);
  heartbeat_dead_threshold = some (finite 45000);
  join_timeout = finite 10000;
  leave_timeout = finite 5000;
  max_topic_queue_size = 1000;
  callback_drain_timeout = finite 2000;
}

validate_options-heartbeat_example :
    (i : ℕ) × (t : ℕ) × (finite 30000 ≡ finite i) × (finite 45000 ≡ finite t) × (0 < i) × (i < t)
unfolding validate_options is_nonpositive validate_heartbeat_threshold is_finite at_most
validate_options-heartbeat_example =
    validate_options-heartbeat usual (finite 30000) (finite 45000) refl refl refl
