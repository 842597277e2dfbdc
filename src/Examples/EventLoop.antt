-- ===== src/Examples/EventLoop.antt =====
-- Runs of the event loop, the topic processor and the channels' calls on the client of
-- Examples/Runtime.
use phoenix_channels_python.Text.Decimal.{decimal}
use phoenix_channels_python.Base.{
  map, keep, ◌⊎◌, ◌≡◌, refl, true, false, none, some, [], ◌∷◌, arith, ◌≢◌, Exc, socket_error,
  not_connected, timeout_error, All,
}
use phoenix_channels_python.Text.{codes, text_eq}
use phoenix_channels_python.Json.{object, end, field, text}
use phoenix_channels_python.Messages.{
  json, Message, dict, user, system, reply, v2, event_text, system_text, is_lifecycle,
}
use phoenix_channels_python.Futures.{is_done}
use phoenix_channels_python.Topic.{is_joined, left, is_left, lookup, values, get_event_handler}
use phoenix_channels_python.Runtime.{Client, set_topic, is_registered}
use phoenix_channels_python.Runtime.Invariant.{From}
use phoenix_channels_python.Runtime.Losses.{retire_channels}
use phoenix_channels_python.Runtime.Control.{returned_none}
use phoenix_channels_python.Runtime.Leaving.{leave_channel, finish_cleanup}
use phoenix_channels_python.Runtime.Leaving.Ends.{lookup-finish_cleanup}
use phoenix_channels_python.Runtime.Joining.{join_failed, finish_failed_join}
use phoenix_channels_python.Runtime.Joining.Failed.{finish_failed_join-left}
use phoenix_channels_python.Runtime.Rejoining.{Turn, recovery_loop}
use phoenix_channels_python.Runtime.Rejoining.Attempts.{
  CountsFrom, Recoverable, recovery_loop-Sound,
}
use phoenix_channels_python.Handler.{route_to}
use phoenix_channels_python.Processor.{snapshot_handlers, process_topic_messages}
use phoenix_channels_python.Processor.Order.{call_at, is_due, process_topic_messages-order}
use phoenix_channels_python.Processor.Handlers.{
  on, off, on_any, last_any, last_handler, register_all, snapshot_handlers-register_all,
}
use phoenix_channels_python.EventLoop.{Reach, start, later, receives, leaves}
use phoenix_channels_python.EventLoop.Safety.{Reach-From, Reach-push, Reach-retired}
use phoenix_channels_python.Examples.Calls.{shout, first_push, first_push_starts}
use phoenix_channels_python.Examples.Services.{services}
use phoenix_channels_python.Examples.Runtime.{room, client, client-Inv, news}

-- The server sends a message, the processor takes it, and the channel leaves.
abbrev received : Client
received = route_to v2 1 client 0 news none returned_none

busy : Reach services v2 client (leave_channel received 0)
busy = later (later start (receives 1 0 news none returned_none)) (leaves 0)

Reach-From_example : From client (leave_channel received 0)
Reach-From_example = Reach-From client-Inv busy

-- A push starts, and the channel leaves.
Reach-push_example :
    let d = leave_channel first_push.client 0 in
    ((is_done (d.futures first_push.outcome) ≡ true)
      ⊎ (lookup (decimal 3) (d.topics 0).pending_pushes ≡ some first_push.outcome))
    × (is_joined (d.topics 0).state ≡ false → is_done (d.futures first_push.outcome) ≡ true)
Reach-push_example =
    Reach-push {lib = services} {version = v2} client (leave_channel first_push.client 0) 0 shout
      (json (object end)) (some 1000) client-Inv first_push_starts (later start (leaves 0))

abbrev error : Exc
error = socket_error not_connected

abbrev stopped : Client
stopped = retire_channels client error

Reach-retired_example :
    All
      (λ k. is_left ((route_to v2 1 stopped 0 news none returned_none).topics k).state ≡ true)
      (values client.topic_subscriptions)
Reach-retired_example =
    Reach-retired {lib = services} client (route_to v2 1 stopped 0 news none returned_none) error
      client-Inv (later start (receives 1 0 news none returned_none))

-- Two messages wait for a handler of the event, the second one for none.
abbrev other_news : Message
other_news = record news { event = user (codes "else") }

abbrev waiting : Client
waiting =
    set_topic client 0
      (record room { queue = news ∷ other_news ∷ []; handlers = (codes "news", 5) ∷ [] })

process_topic_messages-order_example :
    let (calls, d) = process_topic_messages 3 v2 (λ call c. c) waiting 0 in
    (calls ≡ map (call_at (waiting.topics 0)) (keep (is_due v2 waiting 0) (news ∷ other_news ∷ [])))
    × ((d.topics 0).queue ≡ [])
process_topic_messages-order_example =
    process_topic_messages-order v2 (λ call c. c) 0 (λ call c. refl) (λ call c. refl) 3 waiting
      (news ∷ other_news ∷ []) refl refl refl (omega arith)

snapshot_handlers-register_all_example :
    snapshot_handlers
      (register_all room (on news.event 5 ∷ on_any 6 ∷ on news.event 7 ∷ off other_news.event ∷ []))
      news
    ≡ record {
      message = news;
      message_handler =
          last_any none (on news.event 5 ∷ on_any 6 ∷ on news.event 7 ∷ off other_news.event ∷ []);
      event_handler =
          last_handler news.event
            (get_event_handler room news.event)
            (on news.event 5 ∷ on_any 6 ∷ on news.event 7 ∷ off other_news.event ∷ []);
    }
snapshot_handlers-register_all_example =
    snapshot_handlers-register_all room news
      (on news.event 5 ∷ on_any 6 ∷ on news.event 7 ∷ off other_news.event ∷ [])

-- The last handler that was set is the one that runs.
last_handler_runs :
    last_handler news.event none (on news.event 5 ∷ on_any 6 ∷ on news.event 7 ∷ []) ≡ some 7
unfolding last_handler is_lifecycle text_eq event_text system_text
last_handler_runs = refl

-- The channel has left, and the server has ended it.
abbrev gone : Client
gone =
    set_topic client 0
      (record room { state = left; leave_requested = true; terminal_received = true })

lookup-finish_cleanup_example :
    lookup (codes "room") (finish_cleanup gone 0).topic_subscriptions ≡ none
unfolding is_registered lookup text_eq
lookup-finish_cleanup_example = lookup-finish_cleanup gone 0 refl refl refl refl

abbrev leave_answer : Message
leave_answer = record {
  topic = codes "room";
  ref = some (codes "3");
  payload = dict (field (codes "status") (text (codes "ok")) end);
  event = system reply;
  join_ref = some (codes "1");
}

finish_failed_join-left_example :
    let (raised, d) = join_failed client 0 timeout_error in
    let (seen, last) = finish_failed_join d 0 raised in
    (is_left (last.topics 0).state ≡ true)
    × ((last.topics 0).leave_requested ≡ true)
    × (seen ≢ timeout_error)
finish_failed_join-left_example = finish_failed_join-left client 0 timeout_error client-Inv refl

-- A recovery whose first attempt times out.
abbrev failing : Turn
failing = record { meanwhile = λ c. c; rejoin = λ c. (some timeout_error, c) }

recovery_loop-Sound_example :
    let r = recovery_loop 0 1 false 0 (failing ∷ failing ∷ []) client in
    CountsFrom 0 r.delays × All (Recoverable 0 1) r.begun
recovery_loop-Sound_example = recovery_loop-Sound 0 1 false 0 (failing ∷ failing ∷ []) client
