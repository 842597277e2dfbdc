-- ===== src/Runtime/Leaving.antt =====
-- The end of a channel in topic_runtime.py: `_leave_channel`, `_leave_and_cleanup` before and after
-- its waits, `_unregister_topic`, `_lose_topic` and `_report_topic_lost`.
pub mod Keeping
pub mod Ends
use phoenix_channels_python.Base.{
  ℕ, ◌≡◌, refl, Bool, true, false, ◌&&◌, ◌||◌, not, Option, none, some, List, [], ◌∷◌, arith, ◌==◌,
  is_some, if◌then◌else◌, Exc, channel_error, channel_retired,
}
use phoenix_channels_python.Text.{Text}
use phoenix_channels_python.Json.{end}
use phoenix_channels_python.Messages.{Message, dict, SystemEvent, leave, system}
use phoenix_channels_python.Topic.{Topic, close, is_left, is_created, lookup}
use phoenix_channels_python.Runtime.{Client, set_topic, same_connection, is_connected, generate_ref}
use phoenix_channels_python.Runtime.Transition.{transition_channel}
use phoenix_channels_python.Runtime.Tasks.{start_leave_task, release_reservation}
use phoenix_channels_python.Runtime.Control.{set_terminal}
use phoenix_channels_python.Runtime.Calls.{leave_created}

-- `_leave_channel` up to its wait.
unfoldable pub leave_channel : Client → ℕ → Client
leave_channel c k =
    if is_created (c.topics k).state then leave_created c k else start_leave_task c k

-- Does the server have to hear of the leave?
unfoldable pub must_send_leave : Client → ℕ → Bool
must_send_leave c k =
    let t = c.topics k in
    t.join_submitted
    && not t.terminal_received
    && same_connection t.connection c.connection
    && is_connected c

-- The client once it has taken a ref for the leave, and the message that it sends.
unfoldable pub take_leave_ref : Client → ℕ → Client
take_leave_ref c k =
    let (ref, c') = generate_ref c in set_topic c' k (record (c'.topics k) { leave_ref = some ref })

unfoldable pub leave_message : Topic → Message
leave_message t = record {
  topic = t.name;
  ref = t.leave_ref;
  payload = dict end;
  event = system leave;
  join_ref = some t.join_ref;
}

-- `_leave_and_cleanup` up to its send, which the message is for.
unfoldable pub begin_leave : Client → ℕ → Option Message × Client
begin_leave c k =
    if must_send_leave c k
    then (let c' = take_leave_ref c k in (some (leave_message (c'.topics k)), c'))
    else if not (same_connection (c.topics k).connection c.connection) || not (is_some c.connection)
    then (none, set_terminal c k)
    else (none, c)

-- The end of `_cleanup_subscription`, when the channel's tasks and sends are done.
unfoldable pub finish_cleanup : Client → ℕ → Client
finish_cleanup c k =
    release_reservation (set_topic c k (record (c.topics k) { cleanup_done = true })) k

abbrev or_retired : Option Exc → Exc
or_retired none = channel_error channel_retired
or_retired (some e) = e

is_only : Option ℕ → ℕ → Bool
is_only none k = true
is_only (some j) k = j == k

retire_topic : Client → ℕ → Option Exc → Client
retire_topic c k error =
    leave_channel
      (if is_left (c.topics k).state
        then c
        else transition_channel c k close (some (or_retired error)))
      k

-- `_unregister_topic` up to its wait: the channel that is retired, if there is one.
unfoldable pub unregister_topic : Client → Text → Option Exc → Option ℕ → Option ℕ × Client
unfolding retire_topic is_only
unregister_topic c name error only = elim (lookup name c.topic_subscriptions) [
  | none ↦ (none, c)
  | some k ↦ if is_only only k then (some k, retire_topic c k error) else (none, c)
]

-- `_report_topic_lost`: is `on_topic_lost` called?
unfoldable pub report_topic_lost : Client → ℕ → Bool × Client
report_topic_lost c k =
    if (c.topics k).loss_reported
    then (false, c)
    else (true, set_topic c k (record (c.topics k) { loss_reported = true }))

-- `_lose_topic` up to its wait: whether the loss will be reported.
unfoldable pub lose_topic_first : Client → ℕ → Exc → Bool × Client
lose_topic_first c k error =
    let (removed, c') = unregister_topic c (c.topics k).name (some error) (some k) in
    (is_some removed, c')
