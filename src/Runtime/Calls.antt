-- ===== src/Runtime/Calls.antt =====
-- What a caller starts on a channel: `_join_channel` up to its first wait, the leave of a channel
-- that never joined, `_push_channel` before and after its wait, and `_restart_topic`.
pub mod Keeping
pub mod Push
pub mod Refused
use phoenix_channels_python.Base.{
  ℕ, ◌≡◌, refl, Bool, true, false, ◌&&◌, ◌||◌, not, Option, none, some, List, [], ◌∷◌, arith, ◌==◌,
  is_some, if◌then◌else◌, Result, ok, err, ◌>>=◌, ◌>>◌, guard, Exc, channel_error, value_error,
  already_joined, live_channel, bad_timeout, application_event, not_joined,
}
use phoenix_channels_python.Text.{Text, text_eq}
use phoenix_channels_python.Messages.{
  ChannelEvent, event_text, is_system, Payload, Value, require_payload, heartbeat_event,
  phoenix_topic, Message, parse_event,
}
use phoenix_channels_python.Topic.{
  Topic, joining, left, rejoining, leave, is_created, lookup, insert, remove,
}
use phoenix_channels_python.Runtime.{
  Client, process_topic_messages, set_topic, channel_joined, generate_ref, ensure_can_send,
  create_task, create_future,
}

-- The checks of `_join_channel`.
unfoldable pub may_join : Client → ℕ → Result (Unit {0})
may_join c k = do
  guard (is_created (c.topics k).state) (channel_error already_joined)
  ensure_can_send c
  guard (not (is_some (lookup (c.topics k).name c.topic_subscriptions)))
      (channel_error live_channel)

-- The channel takes its name and a new join ref on the current connection.
unfoldable pub reserve : Client → ℕ → Client
reserve c k =
    let (ref, c') = generate_ref c in
    let t = c.topics k in
    let joining_topic = record t {
      state = joining;
      conn_generation = c.conn_generation;
      connection = c.connection;
      join_ref = ref;
    } in
    let d = set_topic c' k joining_topic in
    record d { topic_subscriptions = insert t.name k d.topic_subscriptions }

-- The processor of the channel's messages is started.
unfoldable pub start_processor : Client → ℕ → Client
start_processor c k =
    let (task, c') = create_task c (process_topic_messages k) in
    set_topic c' k (record (c.topics k) { process_topic_messages_task = some task })

unfoldable pub start_join : Client → ℕ → Result Client
start_join c k = do may_join c k; ok (start_processor (reserve c k) k)

-- `_leave_channel` of a channel that never joined.
unfoldable pub leave_created : Client → ℕ → Client
leave_created c k =
    set_topic c k (record (c.topics k) { state = left; cause = some leave; leave_requested = true })

-- A timeout that a caller gives in thousandths of a second: `none` is an infinity, NaN or a negative
-- number.
unfoldable pub is_timeout : Option ℕ → Bool
is_timeout none = false
is_timeout (some t) = not (t == 0)

-- `event in {*SystemEvent} or (event == HEARTBEAT_EVENT and topic.name == PHOENIX_TOPIC)`
unfoldable pub is_reserved : Topic → ChannelEvent → Bool
is_reserved t event =
    is_system event || (text_eq (event_text event) heartbeat_event && text_eq t.name phoenix_topic)

-- The checks of `_push_channel`.
unfoldable pub may_push : Client → ℕ → ChannelEvent → Value → Option ℕ → Result Payload
may_push c k event value timeout = do
  guard (channel_joined c k) (channel_error not_joined)
  guard (is_timeout timeout) (value_error bad_timeout)
  payload ← require_payload value
  guard (not (is_reserved (c.topics k) event)) (value_error application_event)
  ok payload

-- A push that waits: its message, its future, and the client that knows of it.
pub record Pushed : Type 0 where
  pub message : Message
  pub outcome : ℕ
  pub client : Client

unfoldable pub register_push : Client → ℕ → ChannelEvent → Payload → Pushed
register_push c k event payload =
    let t = c.topics k in
    let (ref, c') = generate_ref c in
    let (outcome, d) = create_future c' in
    record {
      message = record {
        topic = t.name;
        ref = some ref;
        payload = payload;
        event = parse_event (event_text event);
        join_ref = some t.join_ref;
      };
      outcome = outcome;
      client = set_topic d k (record t { pending_pushes = insert ref outcome t.pending_pushes });
    }

-- `_push_channel` up to its wait.
unfoldable pub start_push : Client → ℕ → ChannelEvent → Value → Option ℕ → Result Pushed
start_push c k event value timeout = do
  payload ← may_push c k event value timeout
  ok (register_push c k event payload)

pub is_outcome : Option ℕ → ℕ → Bool
is_outcome none f = false
is_outcome (some g) f = g == f

-- The `finally` of `_push_channel`: the push is forgotten, unless another one has its ref.
unfoldable pub finish_push : Client → ℕ → Text → ℕ → Client
unfolding is_outcome
finish_push c k ref outcome =
    let t = c.topics k in
    if is_outcome (lookup ref t.pending_pushes) outcome
    then set_topic c k (record t { pending_pushes = remove ref t.pending_pushes })
    else c

-- `_restart_topic`
unfoldable pub restart_topic : Client → ℕ → ℕ → Client
restart_topic c k generation =
    let t = c.topics k in
    let (ref, c') = generate_ref c in
    let (ready, d) = create_future c' in
    start_processor
      (set_topic d k (record t {
        conn_generation = generation;
        connection = c.connection;
        state = rejoining;
        cause = none;
        join_submitted = false;
        terminal_received = false;
        restart_requested = false;
        join_ref = ref;
        current_join_ready = ready;
        queue = [];
      }))
      k
