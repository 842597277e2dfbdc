-- ===== src/Runtime/Rejoining.antt =====
-- The rejoins of topic_runtime.py: `_rejoin_topic` before and after its wait, `_rejoin_topics`,
-- `_handle_rejoin_failure`, and the loop of `_recover_channel`.
pub mod Keeping
pub mod Attempts
use phoenix_channels_python.Base.{
  ℕ, ◌+◌, ◌≡◌, refl, Bool, true, false, ◌&&◌, ◌||◌, not, Option, none, some, List, [], ◌∷◌, arith,
  ◌==◌, is_some, keep, if◌then◌else◌, Result, Exc, channel_error, socket_error, timeout_error,
  connection_replaced, rejoin_failed,
}
use phoenix_channels_python.Text.{Text}
use phoenix_channels_python.ClientState.{same_state, shutting_down}
use phoenix_channels_python.Topic.{
  Topic, ChannelCause, rejected, configuration, transport, is_joined, values,
}
use phoenix_channels_python.Runtime.{
  Client, set_topic, should_rejoin, can_recover, is_current_join_ready, create_task,
  report_topic_lost,
}
use phoenix_channels_python.Runtime.Transition.{transition_channel}
use phoenix_channels_python.Runtime.Tasks.{start_channel_recovery, start_topic_loss}
use phoenix_channels_python.Runtime.Calls.{restart_topic}
use phoenix_channels_python.Runtime.Joining.{is_channel_error}
use phoenix_channels_python.Runtime.Leaving.{unregister_topic}

interrupt : Client → ℕ → Client
interrupt c k =
    if is_joined (c.topics k).state
    then transition_channel c k transport (some (socket_error connection_replaced))
    else c

-- `_rejoin_topic` up to its first wait: does it go on?
unfoldable pub begin_rejoin : Client → ℕ → Bool × Client
unfolding interrupt
begin_rejoin c k =
    if should_rejoin c k
    then (let c' = interrupt c k in
        (true, set_topic c' k (record (c'.topics k) { restart_requested = true })))
    else (false, c)

-- From there to the join.
unfoldable pub resume_rejoin : Client → ℕ → ℕ → Bool × Client
resume_rejoin c k generation =
    if should_rejoin c k then (true, restart_topic c k generation) else (false, c)

-- `cause in {REJECTED, CONFIGURATION}`
unfoldable pub is_refusal : Option ChannelCause → Bool
is_refusal (some rejected) = true
is_refusal (some configuration) = true
is_refusal _ = false

-- `_handle_rejoin_failure` up to its wait: the channel that is given up, if it is.
unfoldable pub handle_rejoin_failure : Client → ℕ → Option ℕ × Client
handle_rejoin_failure c k =
    if c.shutdown_requested || same_state c.state shutting_down
    then (none, c)
    else if is_refusal (c.topics k).cause
    then unregister_topic c (c.topics k).name (some (channel_error rejoin_failed)) (some k)
    else (none, start_channel_recovery c k none)

-- Its end, for a channel that was given up.
unfoldable pub report_rejoin_loss : Client → Option ℕ → Client
report_rejoin_loss c none = c
report_rejoin_loss c (some k) =
    (create_task c (report_topic_lost k (channel_error rejoin_failed))).1

-- The channels that `_rejoin_topics` joins itself, in their order, and the others.
unfoldable pub blocking : Client → List ℕ → List ℕ
blocking c ks = keep (λ k. (c.topics k).blocks_reconnect) ks

start_recovery_of : Client → ℕ → ℕ → Client
start_recovery_of c generation k =
    if (c.topics k).blocks_reconnect then c else start_channel_recovery c k (some generation)

-- The second loop of `_rejoin_topics`.
unfoldable pub start_recoveries : Client → ℕ → List ℕ → Client
unfolding start_recovery_of
start_recoveries c generation [] = c
start_recoveries c generation (k ∷ ks) =
    start_recoveries (start_recovery_of c generation k) generation ks

-- Where a recovery stands: it waits before its next attempt, it rejoins, or it is over.
pub data Stage : Type 0 where
  waits rejoins over : Stage

-- The head of the loop of `_recover_channel`.
unfoldable pub recovery_stage : Client → ℕ → ℕ → Bool → Stage
recovery_stage c k generation immediate =
    if can_recover c k generation then if immediate then rejoins else waits else over

-- After the wait.
unfoldable pub after_wait : Client → ℕ → ℕ → Stage
after_wait c k generation = if can_recover c k generation then rejoins else over

-- `except (ChannelError, TimeoutError, SocketError)`
unfoldable pub is_join_failure : Exc → Bool
is_join_failure timeout_error = true
is_join_failure (socket_error w) = true
is_join_failure e = is_channel_error e

failed_attempt : Client → ℕ → Bool × Client
failed_attempt c k =
    if is_refusal (c.topics k).cause
    then (true, start_topic_loss c k (channel_error rejoin_failed))
    else (false, c)

-- After an attempt, which returned or raised: is the recovery over? A failure that the loop does not
-- catch ends the task.
unfoldable pub after_attempt : Client → ℕ → Option Exc → Bool × Client
unfolding failed_attempt
after_attempt c k none = (is_current_join_ready c k, c)
after_attempt c k (some e) = if is_join_failure e then failed_attempt c k else (true, c)

-- What happens while a recovery waits, and while it rejoins: other tasks run, and the rejoin returns
-- or raises.
pub record Turn : Type 0 where
  pub meanwhile : Client → Client
  pub rejoin : Client → Option Exc × Client

-- What a recovery came to: the attempts whose delays it waited for, the clients in which it began to
-- rejoin, the client at last, and whether it is over.
pub record Recovery : Type 0 where
  pub delays : List ℕ
  pub begun : List Client
  pub client : Client
  pub is_over : Bool

unfoldable pub ended_at : Client → Recovery
ended_at c = record { delays = []; begun = []; client = c; is_over = true }

-- An attempt, and the rest of the loop unless it is the last one.
unfoldable pub attempt_rejoin : ℕ → (rest : Client → Recovery) → Turn → Client → Recovery
attempt_rejoin k rest turn c =
    let (raised, d) = turn.rejoin c in
    let (is_last, e) = after_attempt d k raised in
    let r = if is_last then ended_at e else rest e in record r { begun = c ∷ r.begun }

-- `_recover_channel` for the turns that are given, from the attempt of the number `attempt`.
unfoldable pub recovery_loop : ℕ → ℕ → Bool → ℕ → List Turn → Client → Recovery
recovery_loop k generation immediate attempt [] c = record {
  delays = [];
  begun = [];
  client = c;
  is_over = false;
}
recovery_loop k generation immediate attempt (turn ∷ turns) c =
    elim (recovery_stage c k generation immediate) [
      | over ↦ ended_at c
      | rejoins ↦ attempt_rejoin k (recovery_loop k generation false attempt turns) turn c
      | waits ↦
          let d = turn.meanwhile c in
          let r : Recovery = elim (after_wait d k generation) [
            | rejoins ↦
                attempt_rejoin k (recovery_loop k generation false (attempt + 1) turns) turn d
            | _ ↦ ended_at d
          ] in
          record r { delays = attempt ∷ r.delays }
    ]
