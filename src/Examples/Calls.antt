-- ===== src/Examples/Calls.antt =====
-- Joins and pushes at work.
use phoenix_channels_python.Base.{◌+◌, ◌≡◌, refl, true, false, none, some, [], arith, ok}
use phoenix_channels_python.Text.{codes, text_eq}
use phoenix_channels_python.Text.Decimal.{decimal}
use phoenix_channels_python.Json.{object, end, text, field}
use phoenix_channels_python.Messages.{
  system_text, event_text, is_system, require_payload, Message, json, dict, user, system, reply,
  ChannelEvent,
}
use phoenix_channels_python.Topic.{values, Topic, created, rejoining, lookup}
use phoenix_channels_python.Futures.{pending}
use phoenix_channels_python.Runtime.{
  generate_ref, create_future, is_current_join_ready, same_connection, is_on_current_connection,
  is_registered, channel_joined, is_connected, ensure_can_send, Client,
}
use phoenix_channels_python.Runtime.Invariant.{Inv}
use phoenix_channels_python.Runtime.Control.{resolve_push_reply}
use phoenix_channels_python.Runtime.Pushes.{KnownRefs-nil}
use phoenix_channels_python.Runtime.Calls.{
  is_reserved, is_timeout, may_push, may_join, start_join, start_processor, reserve, Pushed,
  register_push, start_push, finish_push,
}
use phoenix_channels_python.Runtime.Calls.Refused.{start_push-finish_push}
use phoenix_channels_python.EventLoop.{start, later, receives}
use phoenix_channels_python.EventLoop.Replies.{Outcome, Reach-handle_channel_control}
use phoenix_channels_python.Handler.{enqueue_message, route_to, deliver, is_stale_join}
use phoenix_channels_python.Runtime.Control.{
  same_ref, returned_none, handle_channel_control, resolve_push_reply,
}
use phoenix_channels_python.Messages.{v2, is_lifecycle}
use phoenix_channels_python.Examples.Services.{services}
use phoenix_channels_python.Examples.Runtime.{client, client-Inv, room, news}

-- A second channel, which has not joined.
abbrev lobby : Topic
lobby = record room {
  name = codes "lobby";
  join_ref = [];
  state = created;
  current_join_ready = 1;
  pending_pushes = [];
  established = false;
}

abbrev waiting : Client
waiting = record client { topics = λ k. lobby; futures = λ f. pending }

waiting-Inv : Inv waiting
unfolding values
waiting-Inv = record {
  topic = λ k. record {
    requested = refl;
    lived = λ h. absurd (ground arith);
    ready = λ h. absurd (ground arith);
    no_pushes = λ h. refl;
    known_join = omega arith;
    known_leave = omega arith;
    known_pushes = tt;
  };
  fresh = record { at = λ j le. refl };
  refs = λ k. KnownRefs-nil 2;
}

abbrev joining_client : Client
joining_client = start_processor (reserve waiting 1) 1

joins : start_join waiting 1 ≡ ok joining_client
unfolding start_join may_join ensure_can_send is_connected lookup text_eq
joins = refl

abbrev pub shout : ChannelEvent
shout = user (codes "shout")

abbrev pub first_push : Pushed
first_push = register_push client 0 shout (dict end)

pub first_push_starts : start_push client 0 shout (json (object end)) (some 1000) ≡ ok first_push
unfolding start_push may_push channel_joined is_registered lookup text_eq is_on_current_connection
    is_connected same_connection is_current_join_ready is_timeout require_payload is_reserved
    is_system event_text system_text
first_push_starts = refl

-- The connection is lost before the frame is sent.
start_push-finish_push_example :
    finish_push first_push.client 0 (decimal 3) first_push.outcome
    ≡ (create_future (generate_ref client).1).1
start_push-finish_push_example =
    start_push-finish_push client 0 shout (json (object end)) (some 1000) client-Inv
      first_push_starts

abbrev reply_to_first : Message
reply_to_first = record {
  topic = codes "room";
  ref = some (codes "3");
  payload =
      dict (field (codes "status") (text (codes "ok")) (field (codes "response") (object end) end));
  event = system reply;
  join_ref = some (codes "1");
}

third_ref : some (codes "3") ≡ some (decimal (2 + 1))
unfolding decimal
third_ref = refl

-- The push waits while another message of the server is routed.
abbrev busy : Client
busy = route_to v2 1 first_push.client 0 news none returned_none

Reach-handle_channel_control_example :
    let (own, e) = handle_channel_control busy 0 reply_to_first none returned_none in
    (own ≡ true)
    × Outcome none reply_to_first.payload (e.futures first_push.outcome)
    × (lookup (decimal (2 + 1)) (e.topics 0).pending_pushes ≡ none)
unfolding route_to deliver handle_channel_control resolve_push_reply is_registered lookup text_eq
    is_on_current_connection is_connected same_connection is_stale_join same_ref is_lifecycle
    event_text system_text register_push create_future generate_ref enqueue_message
Reach-handle_channel_control_example =
    Reach-handle_channel_control {lib = services} {version = v2} client busy 0 shout
      (json (object end)) (some 1000) reply_to_first none returned_none client-Inv first_push_starts
      (later start (receives 1 0 news none returned_none)) refl third_ref refl refl refl refl refl

abbrev interrupted : Client
interrupted = record client { topics = λ k. record room { state = rejoining; pending_pushes = [] } }

interrupted-Inv : Inv interrupted
unfolding values
interrupted-Inv = record {
  topic = λ k. record {
    requested = refl;
    lived = λ h. refl;
    ready = λ h. absurd (ground arith);
    no_pushes = λ h. refl;
    known_join = omega arith;
    known_leave = omega arith;
    known_pushes = tt;
  };
  fresh = record { at = λ j le. ground arith };
  refs = λ k. KnownRefs-nil 2;
}
