-- ===== src/Lifecycle.antt =====
-- The life of a client in client.py: the options of `Client`, its entry, and its shutdown.
pub mod Options
pub mod Entry
pub mod Stops
pub mod Closes
use phoenix_channels_python.Base.{
  ℕ, ◌≡◌, refl, Bool, true, false, ◌&&◌, ◌||◌, not, Option, none, some, List, [], ◌∷◌, arith, ◌==◌,
  is_some, if◌then◌else◌, Result, ok, err, ◌>>=◌, ◌>>◌, guard, Exc, socket_error, channel_error,
  already_running, shutting_down, cancelled_error, length,
}
use phoenix_channels_python.ClientState
use phoenix_channels_python.ClientState.{ClientState, connecting, closed, same_state}
use phoenix_channels_python.Futures.{Future, pending}
use phoenix_channels_python.Topic.{values}
use phoenix_channels_python.Runtime.{Client}
use phoenix_channels_python.Runtime.Losses.{retire_channels}
use phoenix_channels_python.Runtime.Leaving.{leave_channel}
use phoenix_channels_python.Supervisor.Connection.{
  Supervision, transition_state, cleanup_connection,
}

-- What `__aenter__` clears.
unfoldable pub reset : Supervision → Supervision
reset s = record s {
  client = record s.client { shutdown_requested = false; conn_generation = 0 };
  connected_event = false;
  terminal_error = none;
  initial_connection = pending;
}

-- `__aenter__` up to the start of the supervisor; `active_shutdown` says whether a shutdown runs.
unfoldable pub enter_client : Supervision → (active_shutdown : Bool) → Result Supervision
enter_client s active_shutdown = do
  guard (same_state s.client.state closed && not active_shutdown) (socket_error already_running)
  transition_state (reset s) connecting

-- `is_fully_closed`; `cleanups` says whether a cleanup task is left.
unfoldable pub is_fully_closed : Supervision → (cleanups : Bool) → Bool
is_fully_closed s cleanups =
    same_state s.client.state closed
    && length s.client.topic_subscriptions == 0
    && not (is_some s.client.connection)
    && not cleanups

-- The state change of `_request_stop`, unless the client stops already.
unfoldable pub mark_stopping : Supervision → Result Supervision
mark_stopping s =
    if same_state s.client.state ClientState.shutting_down || same_state s.client.state closed
    then ok s
    else transition_state s ClientState.shutting_down

abbrev stop_channels : Supervision → Supervision
stop_channels s = record s {
  client =
      retire_channels (record s.client { shutdown_requested = true }) (channel_error shutting_down);
}

-- `_request_stop`
unfoldable pub request_stop : Supervision → Result Supervision
request_stop s = do d ← mark_stopping s; ok (stop_channels d)

-- `shutdown` up to its wait: it joins a shutdown that runs, has nothing to do, or starts one.
pub data Shutdown : Type 0 where
  joins nothing : Shutdown
  starts : Supervision → Shutdown

unfoldable pub shutdown : Supervision → (active_shutdown cleanups : Bool) → Result Shutdown
shutdown s active_shutdown cleanups =
    if active_shutdown
    then ok joins
    else if is_fully_closed s cleanups
    then ok nothing
    else do d ← request_stop s; ok (starts d)

-- `_unsubscribe_all` up to its waits.
unfoldable pub leave_all : Client → List ℕ → Client
leave_all c [] = c
leave_all c (k ∷ ks) = leave_all (leave_channel c k) ks

unfoldable pub unsubscribe_all : Supervision → Supervision
unsubscribe_all s = record s { client = leave_all s.client (values s.client.topic_subscriptions) }

-- What other tasks do in the waits of `_shutdown`: while the supervisor is stopped, while the
-- connection is cleaned up, and while the channels leave and the tasks end. `failed_cleanup` is what
-- `asyncio.gather(*self.cleanup_tasks)` raises, when one of the cleanups that are left has failed.
pub record Waits : Type 0 where
  pub stopping : Supervision → Supervision
  pub cleaning : Supervision → Supervision
  pub leaving : Supervision → Supervision
  pub failed_cleanup : Option Exc

-- The last transition of `_shutdown`.
abbrev pub close_client : Supervision → Result Supervision → Result (Unit {0}) × Supervision
close_client s (ok d) = (ok tt, d)
close_client s (err e) = (err e, s)

-- `_shutdown`: what it raises, if anything, and the client afterwards.
unfoldable pub run_shutdown : Waits → Supervision → Result (Unit {0}) × Supervision
run_shutdown w s =
    let d = cleanup_connection (w.stopping s) w.cleaning in
    let e = w.leaving (unsubscribe_all d) in
    let silent = record e { connected_event = false } in
    elim w.failed_cleanup [
      | some x ↦ (err x, e)
      | none ↦ close_client silent (transition_state silent closed)
    ]

-- How the supervisor's task ended.
pub data TaskEnd : Type 0 where
  task_returned task_cancelled : TaskEnd
  task_raised : Exc → TaskEnd

-- `supervisor.result()`
unfoldable pub task_result : TaskEnd → Result (Unit {0})
task_result task_returned = ok tt
task_result task_cancelled = err cancelled_error
task_result (task_raised e) = err e

outcome_of : Supervision → TaskEnd → Result (Unit {0})
outcome_of s task_cancelled =
    if s.client.shutdown_requested then ok tt else task_result task_cancelled
outcome_of s end = task_result end

-- `run_forever`, after its waits.
unfoldable pub run_forever_end : Supervision → TaskEnd → Result (Unit {0})
unfolding outcome_of
run_forever_end s end = elim s.terminal_error [ some e ↦ err e | none ↦ outcome_of s end ]
