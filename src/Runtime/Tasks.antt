-- ===== src/Runtime/Tasks.antt =====
-- The tasks that the runtime starts, and the release of a topic's name.
pub mod Keeping
use phoenix_channels_python.Base.{
  is_some, ℕ, ◌≡◌, refl, Bool, true, false, ◌&&◌, ◌||◌, not, Option, none, some, List, [], ◌∷◌,
  arith, ◌==◌, if◌then◌else◌, Exc, channel_error, push_timeout_error, processor_failed, was_left,
  any,
}
use phoenix_channels_python.Futures.{update}
use phoenix_channels_python.Topic.{Topic, close, leave, is_left, remove}
use phoenix_channels_python.Runtime.{
  Client, Task, recover_channel, lose_topic, leave_and_cleanup, set_topic, same_connection,
  is_registered, is_recovering, can_recover, create_task,
}
use phoenix_channels_python.Runtime.Transition.{transition_channel}

-- May the name be released? The checks of `_release_reservation`, in its order.
unfoldable pub may_release : Client → ℕ → Bool
may_release c k =
    let t = c.topics k in
    is_registered c k
    && is_left t.state
    && (t.cleanup_done || (not (same_connection t.connection c.connection) && is_some t.leave_task))
    && (not t.join_submitted || t.terminal_received)
    && not (any c.sending t.send_outcomes)

-- `_release_reservation`
unfoldable pub release_reservation : Client → ℕ → Client
release_reservation c k =
    if may_release c k
    then record c { topic_subscriptions = remove (c.topics k).name c.topic_subscriptions }
    else c

-- The guard of `_start_channel_recovery`.
unfoldable pub recovery_refused : Client → ℕ → ℕ → Bool → Bool
recovery_refused c k generation immediate =
    is_recovering c k
    || not (can_recover c k generation)
    || (not immediate && not ((c.topics k).conn_generation == generation))

recover_at : Client → ℕ → ℕ → Bool → Client
recover_at c k generation immediate =
    if recovery_refused c k generation immediate
    then c
    else let (task, c') = create_task c (recover_channel k generation immediate) in
      set_topic c' k (record (c.topics k) { recovery_task = some task })

-- `_start_channel_recovery`: `none` is a crash, a generation that of a socket rejoin.
unfoldable pub start_channel_recovery : Client → ℕ → Option ℕ → Client
unfolding recover_at
start_channel_recovery c k none = recover_at c k c.conn_generation false
start_channel_recovery c k (some generation) = recover_at c k generation true

-- The part of `_start_leave_task` before the task.
unfoldable pub leave_first : Client → ℕ → Client
leave_first c k =
    if is_left (c.topics k).state
    then c
    else transition_channel c k leave (some (channel_error was_left))

-- `_start_leave_task`
unfoldable pub start_leave_task : Client → ℕ → Client
start_leave_task c k =
    if is_some (c.topics k).leave_task
    then c
    else let c' = leave_first c k in
      let (task, d) = create_task c' (leave_and_cleanup k) in
      set_topic d k (record (c'.topics k) { leave_task = some task })

-- `error if isinstance(error, ChannelError)`, else a ChannelError.
unfoldable pub as_channel_error : Exc → Exc
as_channel_error (channel_error w) = channel_error w
as_channel_error (push_timeout_error w) = push_timeout_error w
as_channel_error _ = channel_error processor_failed

-- The error that `_start_topic_loss` reports, and the transition that it makes first.
unfoldable pub loss_error : Client → ℕ → Exc → Exc
loss_error c k error = if is_left (c.topics k).state then error else as_channel_error error

unfoldable pub close_first : Client → ℕ → Exc → Client
close_first c k error =
    if is_left (c.topics k).state then c else transition_channel c k close (some error)

-- `_start_topic_loss`
unfoldable pub start_topic_loss : Client → ℕ → Exc → Client
start_topic_loss c k error =
    let error' = loss_error c k error in
    let c' = close_first c k error' in
    if (c'.topics k).established
    then (create_task c' (lose_topic k error')).1
    else start_leave_task c' k
