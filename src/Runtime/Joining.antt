-- ===== src/Runtime/Joining.antt =====
-- The joins of topic_runtime.py: `channel`, `_resolve_join_params`, `_validate_join_hook`, `_join`,
-- and what `_join_channel` does when the join fails; `_send_channel_operation` up to its wait.
pub mod Keeping
pub mod Failed
use phoenix_channels_python.Base.{
  ℕ, ◌+◌, ◌≡◌, refl, Bool, true, false, ◌&&◌, ◌||◌, not, Option, none, some, List, [], ◌∷◌, arith,
  ◌==◌, is_some, any, keep, if◌then◌else◌, Result, ok, err, ◌>>=◌, ◌>>◌, guard, Exc, channel_error,
  socket_error, push_timeout_error, type_error, value_error, timeout_error, params_failed,
  params_shape, params_encoding, hook_async, join_deadline, join_timed_out, lost_before_send,
}
use phoenix_channels_python.Text.{Text}
use phoenix_channels_python.Json.{Fields, end, Library}
use phoenix_channels_python.Messages.{
  Message, Payload, dict, SystemEvent, join, leave, system, is_event, ProtocolVersion,
}
use phoenix_channels_python.Codec.{Frame, encode_message}
use phoenix_channels_python.Topic.{
  Topic, ChannelCause, created, accepted, configuration, timeout, is_left,
}
use phoenix_channels_python.Runtime.{
  Client, set_topic, same_connection, is_registered, channel_joined, create_future,
}
use phoenix_channels_python.Runtime.Transition.{transition_channel}
use phoenix_channels_python.Runtime.Control.{same_ref}
use phoenix_channels_python.Runtime.Leaving.{leave_channel}

-- The options of `channel`; a queue of size 0 has no bound.
pub record Options : Type 0 where
  pub blocks_reconnect : Bool
  pub max_queue : ℕ
  pub has_join_hook : Bool

new_topic : Text → Options → (ready completed : ℕ) → Topic
new_topic name o ready completed = record {
  name = name;
  join_ref = [];
  state = created;
  cause = none;
  connection = none;
  conn_generation = 0;
  current_join_ready = ready;
  unsubscribe_completed = completed;
  join_submitted = false;
  terminal_received = false;
  leave_requested = false;
  leave_ref = none;
  leave_task = none;
  recovery_task = none;
  process_topic_messages_task = none;
  pending_pushes = [];
  send_outcomes = [];
  cleanup_done = false;
  loss_reported = false;
  established = false;
  blocks_reconnect = o.blocks_reconnect;
  restart_requested = false;
  queue = [];
  max_queue = o.max_queue;
  dropped_message_count = 0;
  handlers = [];
  on_any = none;
  has_join_hook = o.has_join_hook;
}

-- `channel`: the new channel's number, and the client that has it. Its two futures, which the code
-- creates on their first use, are created at once.
unfoldable pub channel : Client → Text → Options → ℕ × Client
unfolding new_topic
channel c name o =
    let (ready, c') = create_future c in
    let (completed, d) = create_future c' in
    let k = c.next_topic in
    (k, record (set_topic d k (new_topic name o ready completed)) { next_topic = k + 1 })

-- What the `params` of a channel come to, when it has some: a dict, a value of another type, or an
-- exception of the provider.
pub data Provided : Type 0 where
  provided_dict : Fields → Provided
  provided_other provider_raised : Provided

-- `_resolve_join_params`
unfoldable pub resolve_join_params : Option Provided → Result Payload
resolve_join_params none = ok (dict end)
resolve_join_params (some (provided_dict fields)) = ok (dict fields)
resolve_join_params (some provided_other) = err (channel_error params_shape)
resolve_join_params (some provider_raised) = err (channel_error params_failed)

pub data JoinHook : Type 0 where
  no_hook synchronous_hook coroutine_hook : JoinHook

-- `_validate_join_hook`
unfoldable pub validate_join_hook : JoinHook → Result (Unit {0})
validate_join_hook coroutine_hook = err (channel_error hook_async)
validate_join_hook _ = ok tt

-- The message of `_join`.
unfoldable pub join_message : Topic → Option Provided → Result Message
join_message t params = do
  payload ← resolve_join_params params
  ok (record {
    topic = t.name;
    ref = some t.join_ref;
    payload = payload;
    event = system join;
    join_ref = some t.join_ref;
  })

add_outcome : ℕ → List ℕ → List ℕ
add_outcome f fs = if any (λ g. g == f) fs then fs else f ∷ fs

-- The sends of the channel that have not finished, and the new one.
unfoldable pub note_send : Client → ℕ → ℕ → Client
unfolding add_outcome
note_send c k outcome =
    let t = c.topics k in
    set_topic c k
      (record t { send_outcomes = add_outcome outcome (keep c.sending t.send_outcomes) })

-- `_send_channel_operation` up to its send: the frame, and the client that knows of the send.
unfoldable pub start_operation :
    Library → ProtocolVersion → Client → ℕ → Message → ℕ → Result (Frame × Client)
start_operation lib version c k m outcome = do
  let t = c.topics k
  guard (is_some t.connection && same_connection t.connection c.connection)
      (socket_error lost_before_send)
  frame ← encode_message lib m version
  ok (frame, note_send c k outcome)

-- `eligible` of `_send_channel_operation`, for a send that was started on `connection`.
unfoldable pub eligible : Client → ℕ → Message → Option ℕ → Bool
eligible c k m connection =
    let t = c.topics k in
    is_registered c k
    && same_connection c.connection connection
    && (is_event leave m.event
        || ((is_event join m.event || channel_joined c k)
            && not (is_left t.state)
            && not c.shutdown_requested))
    && same_ref m.join_ref (some t.join_ref)

-- `send` of `_send_channel_operation`, before the frame is written.
unfoldable pub begin_operation : Client → ℕ → Message → Client
begin_operation c k m =
    if is_event join m.event
    then set_topic c k (record (c.topics k) { join_submitted = true })
    else c

-- `except (ChannelError, TypeError, ValueError)`
unfoldable pub is_channel_error : Exc → Bool
is_channel_error (channel_error w) = true
is_channel_error (push_timeout_error w) = true
is_channel_error _ = false

unfoldable pub is_encoding_error : Exc → Bool
is_encoding_error (type_error w) = true
is_encoding_error (value_error w) = true
is_encoding_error _ = false

-- Is the cause one of those that `_join` leaves as they are?
unfoldable pub is_settled_cause : Option ChannelCause → Bool
is_settled_cause none = false
is_settled_cause (some accepted) = false
is_settled_cause (some timeout) = false
is_settled_cause (some _) = true

unfoldable pub configuration_error : Exc → Exc
configuration_error e = if is_channel_error e then e else channel_error params_encoding

-- The first `except` clause of `_join`, or another exception that passes it.
unfoldable pub join_refused : Client → ℕ → Exc → Exc × Client
join_refused c k e =
    let error = configuration_error e in
    if (is_channel_error e || is_encoding_error e) && not (is_settled_cause (c.topics k).cause)
    then (error, transition_channel c k configuration (some error))
    else (e, c)

-- The `except` clauses of `_join`: the exception that is raised, and the client.
unfoldable pub join_failed : Client → ℕ → Exc → Exc × Client
join_failed c k timeout_error =
    (timeout_error, transition_channel c k timeout (some (channel_error join_deadline)))
join_failed c k e = join_refused c k e

-- The `except` clauses of `_join_channel`, up to the wait of `_finish_failed_join`.
unfoldable pub finish_failed_join : Client → ℕ → Exc → Exc × Client
finish_failed_join c k timeout_error = (channel_error join_timed_out, leave_channel c k)
finish_failed_join c k e = (e, leave_channel c k)
