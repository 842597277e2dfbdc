-- ===== src/Messages.antt =====
-- messages.py, protocol.py, and `parse_event` and `make_message` of utils.py.
pub mod Events
use phoenix_channels_python.Base.{
  ℕ, ◌≡◌, refl, Bool, true, false, ◌&&◌, ◌||◌, Option, none, some, List, [], ◌∷◌, arith, ◌==◌,
  if◌then◌else◌, Result, ok, err, ◌>>=◌, type_error, bad_payload,
}
use phoenix_channels_python.Text.{Text, Bytes, codes, text_eq}
use phoenix_channels_python.Json.{Json, object, Fields, Library, optional}

pub data ProtocolVersion : Type 0 where
  v1 v2 : ProtocolVersion

abbrev pub is_v2 : ProtocolVersion → Bool
is_v2 v1 = false
is_v2 v2 = true

-- ProtocolVersion.vsn
unfoldable pub vsn : ProtocolVersion → Text
vsn v1 = codes "1.0.0"
vsn v2 = codes "2.0.0"

abbrev pub phoenix_topic : Text
phoenix_topic = codes "phoenix"

abbrev pub heartbeat_event : Text
heartbeat_event = codes "heartbeat"

pub data SystemEvent : Type 0 where
  close error join reply leave : SystemEvent

unfoldable pub system_text : SystemEvent → Text
system_text close = codes "phx_close"
system_text error = codes "phx_error"
system_text join = codes "phx_join"
system_text reply = codes "phx_reply"
system_text leave = codes "phx_leave"

-- ChannelEvent = str | SystemEvent; a SystemEvent is the text that it equals.
pub data ChannelEvent : Type 0 where
  system : SystemEvent → ChannelEvent
  user : Text → ChannelEvent

-- `str(event)`
unfoldable pub event_text : ChannelEvent → Text
event_text (system e) = system_text e
event_text (user t) = t

-- `event == SystemEvent.e`
unfoldable pub is_event : SystemEvent → ChannelEvent → Bool
is_event e event = text_eq (event_text event) (system_text e)

-- `event in CLIENT_LIFECYCLE_EVENTS`
unfoldable pub is_lifecycle : ChannelEvent → Bool
unfolding is_event
is_lifecycle event = is_event error event || is_event close event

-- `event in {*SystemEvent}`
unfoldable pub is_system : ChannelEvent → Bool
unfolding is_event
is_system event =
    is_event close event
    || is_event error event
    || is_event join event
    || is_event reply event
    || is_event leave event

unfoldable pub parse_event : Text → ChannelEvent
parse_event t =
    if text_eq t (system_text close)
    then system close
    else if text_eq t (system_text error)
    then system error
    else if text_eq t (system_text join)
    then system join
    else if text_eq t (system_text reply)
    then system reply
    else if text_eq t (system_text leave)
    then system leave
    else user t

pub data Payload : Type 0 where
  dict : Fields → Payload
  bytes : Bytes → Payload

-- What a caller may hand over as a payload; `other` is any value of another type, such as a
-- bytearray.
pub data Value : Type 0 where
  json : Json → Value
  raw : Bytes → Value
  other : Value

unfoldable pub require_payload : Value → Result Payload
require_payload (json (object fields)) = ok (dict fields)
require_payload (raw b) = ok (bytes b)
require_payload _ = err (type_error bad_payload)

-- UserMessage | SystemMessage: the event tells them apart.
pub record Message : Type 0 where
  pub topic : Text
  pub ref : Option Text
  pub payload : Payload
  pub event : ChannelEvent
  pub join_ref : Option Text

unfoldable pub make_message : Library → Text → Text → Json → Payload → Json → Result Message
make_message lib event topic ref payload join_ref = do
  r ← lib.coerce_ref ref
  j ← lib.coerce_ref join_ref
  ok (record { topic = topic; ref = r; payload = payload; event = parse_event event; join_ref = j })

-- BaseMessage.subtopic: what stands behind the first colon.
unfoldable pub subtopic : Text → Option Text
subtopic [] = none
subtopic (c ∷ s) = let rest = subtopic s in if c == b':' then some s else rest
