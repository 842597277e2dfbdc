-- ===== src/Handler.antt =====
-- PHXProtocolHandler of protocol_handler.py: the loop that reads the socket.
pub mod Queue
pub mod Loop
pub mod Delivery
use phoenix_channels_python.Base.{
  ℕ, ◌+◌, ◌≡◌, refl, Bool, true, false, ◌&&◌, ◌||◌, not, Option, none, some, List, [], ◌∷◌, arith,
  ◌==◌, ltb, leb, if◌then◌else◌, Result, ok, err, Exc, length, ◌++◌, drop,
}
use phoenix_channels_python.Text.{Text, text_eq}
use phoenix_channels_python.Json.{Library}
use phoenix_channels_python.Messages.{Message, ProtocolVersion, is_v2, phoenix_topic}
use phoenix_channels_python.Codec.{Frame, DecodedMessage, decode_message}
use phoenix_channels_python.Topic.{Topic, lookup}
use phoenix_channels_python.Runtime.{Client, set_topic}
use phoenix_channels_python.Runtime.Control.{same_ref, HookResult, handle_channel_control}

-- `is_stale_join`
unfoldable pub is_stale_join : ProtocolVersion → Message → Text → Bool
is_stale_join version m current =
    is_v2 version && not (same_ref m.join_ref none) && not (same_ref m.join_ref (some current))

-- `queue.full()`; a queue of no size is never full.
unfoldable pub is_full : Topic → Bool
is_full t = ltb 0 t.max_queue && leb t.max_queue (length t.queue)

-- `_enqueue_message`: a full queue loses its oldest message.
unfoldable pub enqueue_message : Topic → Message → Topic
unfolding is_full
enqueue_message t m =
    if is_full t
    then record t {
      queue = drop 1 t.queue ++ (m ∷ []);
      dropped_message_count = t.dropped_message_count + 1;
    }
    else record t { queue = t.queue ++ (m ∷ []) }

-- The message is the channel's own business, or it is queued for the user.
unfoldable pub deliver : Client → ℕ → Message → Option Text → HookResult → Client
deliver c k m status hook =
    let (own, c') = handle_channel_control c k m status hook in
    if own then c' else set_topic c' k (enqueue_message (c'.topics k) m)

-- A message for a channel, of the loop for one generation of the connection.
unfoldable pub route_to :
    ProtocolVersion → ℕ → Client → ℕ → Message → Option Text → HookResult → Client
route_to version generation c k m status hook =
    if not ((c.topics k).conn_generation == generation)
    then c
    else if is_stale_join version m (c.topics k).join_ref
    then c
    else deliver c k m status hook

-- The heartbeat responses are handed to the supervisor in the order of `heartbeats`.
pub record Session : Type 0 where
  pub client : Client
  pub heartbeats : List Message
  pub failure : Option Exc

unfoldable pub route_message : ProtocolVersion → ℕ → Session → DecodedMessage → HookResult → Session
route_message version generation s decoded hook =
    let m = decoded.message in
    if text_eq m.topic phoenix_topic
    then record s { heartbeats = s.heartbeats ++ (m ∷ []) }
    else elim (lookup m.topic s.client.topic_subscriptions) [
      | none ↦ s
      | some k ↦ record s {
        client = route_to version generation s.client k m decoded.binary_reply_status hook;
      }
    ]

-- `process_websocket_messages` on the frames that arrive while no other task runs, each with what a
-- join hook that it makes run comes to. A frame that cannot be read ends the loop.
unfoldable pub process_websocket_messages :
    Library → ProtocolVersion → ℕ → Session → List (Frame × HookResult) → Session
process_websocket_messages lib version generation s [] = s
process_websocket_messages lib version generation s ((frame, hook) ∷ frames) =
    elim (decode_message lib frame version) [
      | err e ↦ record s { failure = some e }
      | ok decoded ↦
          process_websocket_messages lib version generation
            (route_message version generation s decoded hook) frames
    ]
