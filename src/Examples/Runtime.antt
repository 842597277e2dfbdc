-- ===== src/Examples/Runtime.antt =====
-- A client with one channel, and what the theorems say of it.
use phoenix_channels_python.Base.{
  List, ◌-◌, ◌⊎◌, keep, ◌+◌, ◌≡◌, refl, true, false, none, some, [], ◌∷◌, ◌++◌, arith, ◌==◌,
  if◌then◌else◌, Exc, socket_error, not_connected, All,
}
use phoenix_channels_python.Text.{codes, text_eq}
use phoenix_channels_python.Json.{end}
use phoenix_channels_python.Messages.{
  system_text, Message, dict, user, event_text, is_lifecycle, v2,
}
use phoenix_channels_python.ClientState.{connected}
use phoenix_channels_python.Futures.{pending, result, is_done, has_result}
use phoenix_channels_python.Text.Decimal.{decimal}
use phoenix_channels_python.Runtime.Pushes.{KnownRefs-nil, KnownRefs-insert}
use phoenix_channels_python.Topic.{insert, lookup, Topic, joined, transport, values}
use phoenix_channels_python.Codec.{text_frame}
use phoenix_channels_python.Runtime.{
  set_topic, same_connection, is_connected, is_on_current_connection, is_registered, Client,
}
use phoenix_channels_python.Runtime.Invariant.{Inv}
use phoenix_channels_python.Runtime.Transition.{lose_channel}
use phoenix_channels_python.Runtime.Transition.Life.{lose_channel-done}
use phoenix_channels_python.Runtime.Control.{same_ref, returned_none}
use phoenix_channels_python.Handler.{is_stale_join, route_to, Session, process_websocket_messages}
use phoenix_channels_python.Handler.Queue.{newest, enqueue_messages, enqueue_messages-newest}
use phoenix_channels_python.Codec.{Frame}
use phoenix_channels_python.Runtime.Control.{HookResult, handle_channel_control}
use phoenix_channels_python.Handler.Delivery.{is_for_user, route_to-is_for_user}
use phoenix_channels_python.Handler.Loop.{
  or_else, readable, is_heartbeat, process_websocket_messages-heartbeats,
}
use phoenix_channels_python.Examples.Services.{services}

-- A joined channel with a push that waits for its reply.
abbrev pub room : Topic
room = record {
  name = codes "room";
  join_ref = codes "1";
  state = joined;
  cause = none;
  connection = some 0;
  conn_generation = 1;
  current_join_ready = 0;
  unsubscribe_completed = 1;
  join_submitted = true;
  terminal_received = false;
  leave_requested = false;
  leave_ref = none;
  leave_task = none;
  recovery_task = none;
  process_topic_messages_task = none;
  pending_pushes = (codes "2", 2) ∷ [];
  send_outcomes = [];
  cleanup_done = false;
  loss_reported = false;
  established = true;
  blocks_reconnect = false;
  restart_requested = false;
  queue = [];
  max_queue = 2;
  dropped_message_count = 0;
  handlers = [];
  on_any = none;
  has_join_hook = false;
}

abbrev pub client : Client
client = record {
  state = connected;
  connection = some 0;
  conn_generation = 1;
  shutdown_requested = false;
  ref_counter = 2;
  topic_subscriptions = (codes "room", 0) ∷ [];
  topics = λ k. room;
  next_topic = 1;
  futures = λ f. if f == 0 then result none else pending;
  next_future = 3;
  tasks = [];
  finished = λ t. false;
  sending = λ f. false;
}

pub client-Inv : Inv client
unfolding values decimal
client-Inv = record {
  topic = λ k. record {
    requested = refl;
    lived = λ h. refl;
    ready = λ h. refl;
    no_pushes = λ h. absurd (ground arith);
    known_join = omega arith;
    known_leave = omega arith;
    known_pushes = (omega arith, tt);
  };
  fresh = record { at = λ j le. ground arith };
  refs = λ k. unfold insert in KnownRefs-insert 1 [] 2 (KnownRefs-nil 1);
}

abbrev lost : Exc
lost = socket_error not_connected

lose_channel-done_example :
    let c = lose_channel client 0 transport lost in
    (is_done (c.futures 0) ≡ true)
    × All (λ f. is_done (c.futures f) ≡ true) (values room.pending_pushes)
    × (has_result (c.futures (c.topics 0).current_join_ready) ≡ false)
    × ((c.topics 0).pending_pushes ≡ [])
lose_channel-done_example = lose_channel-done client 0 transport lost client-Inv

abbrev pub news : Message
news = record {
  topic = codes "room";
  ref = none;
  payload = dict end;
  event = user (codes "news");
  join_ref = none;
}

enqueue_messages-newest_example :
    ((enqueue_messages room (news ∷ news ∷ news ∷ [])).queue
      ≡ newest 2 ([] ++ (news ∷ news ∷ news ∷ [])))
    × ((enqueue_messages room (news ∷ news ∷ news ∷ [])).dropped_message_count ≡ 0 + 1)
enqueue_messages-newest_example =
    enqueue_messages-newest room (news ∷ news ∷ news ∷ []) (omega arith) (omega arith)

abbrev session : Session
session = record { client = client; heartbeats = []; failure = none }

-- A message of the user's channel, the answer to a heartbeat, and a frame that cannot be read.
abbrev arrived : List (Frame × HookResult)
arrived =
    (text_frame (4 ∷ codes "roomnews"), returned_none)
    ∷ (text_frame (7 ∷ codes "phoenixphx_reply"), returned_none)
    ∷ []

process_websocket_messages-heartbeats_example :
    let d = process_websocket_messages services v2 1 session arrived in
    let (ms, failure) = readable services v2 arrived in
    (d.heartbeats ≡ [] ++ keep is_heartbeat ms) × (d.failure ≡ or_else failure none)
process_websocket_messages-heartbeats_example =
    process_websocket_messages-heartbeats services v2 1 session arrived

route_to-is_for_user_example :
    let d = route_to v2 1 client 0 news none returned_none in
    let control = handle_channel_control client 0 news none returned_none in
    ((is_for_user v2 1 client 0 news ≡ true)
      × ((d.topics 0).queue ≡ newest 2 ([] ++ (news ∷ [])))
      × ((d.topics 0).dropped_message_count ≡ 0 + (1 - 2))
      × (d ≡ set_topic client 0 (d.topics 0)))
    ⊎ ((is_for_user v2 1 client 0 news ≡ false)
        × ((d ≡ client) ⊎ ((control.0 ≡ true) × (d ≡ control.1))))
route_to-is_for_user_example =
    route_to-is_for_user v2 1 client 0 news none returned_none (omega arith) (omega arith)

-- This message is for the user.
news_for_user : is_for_user v2 1 client 0 news ≡ true
unfolding is_registered lookup text_eq is_on_current_connection is_connected same_connection
    is_stale_join same_ref is_lifecycle event_text system_text
news_for_user = refl
