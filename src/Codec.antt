-- ===== src/Codec.antt =====
-- codec.py: frames of protocol V1 (JSON objects) and V2 (JSON arrays, and binary frames).
pub mod Binary
pub mod Server
pub mod TextFrames
use phoenix_channels_python.Base.{
  ℕ, zero, suc, ◌+◌, ◌≡◌, refl, Bool, true, false, ◌&&◌, ◌||◌, Option, none, some, List, [], ◌∷◌,
  ◌++◌, map, ltb, ◌==◌, if◌then◌else◌, Result, ok, err, ◌>>=◌, ◌>>◌, guard, length, take, drop, any,
  type_error, value_error, not, v1_expects_object, v2_expects_five, v2_expects_array, empty_text,
  truncated_header, truncated_fields, empty_frame, bad_kind, binary_requires_v2,
  control_requires_object, field_too_long, not_serializable, bad_json,
}
use phoenix_channels_python.Text.{Text, Bytes, codes, text_eq, is_empty}
use phoenix_channels_python.Text.Utf8
use phoenix_channels_python.Json.{
  Json, null, text, array, object, Items, nil, cons, Fields, end, field, get, Library, optional,
}
use phoenix_channels_python.Messages.{
  ProtocolVersion, v1, v2, is_v2, phoenix_topic, heartbeat_event, SystemEvent, join, reply, leave,
  system_text, ChannelEvent, event_text, is_event, Payload, dict, bytes, Message, make_message,
}

abbrev pub max_header_field_bytes : ℕ
max_header_field_bytes = 255

pub data BinaryKind : Type 0 where
  push_kind reply_kind broadcast_kind : BinaryKind

-- SERVER_HEADER_FIELDS
unfoldable pub server_header_fields : BinaryKind → ℕ
server_header_fields push_kind = 3
server_header_fields reply_kind = 4
server_header_fields broadcast_kind = 2

pub record DecodedMessage : Type 0 where
  pub message : Message
  pub binary_reply_status : Option Text

pub record RawFrame : Type 0 where
  pub join_ref : Json
  pub ref : Json
  pub topic : Json
  pub event : Json
  pub payload : Json

unfoldable pub decode_v1 : Json → Result RawFrame
decode_v1 (object d) = ok (record {
  join_ref = get (codes "join_ref") d;
  ref = get (codes "ref") d;
  topic = get (codes "topic") d;
  event = get (codes "event") d;
  payload = get (codes "payload") d;
})
decode_v1 _ = err (type_error v1_expects_object)

unfoldable pub decode_v2 : Json → Result RawFrame
decode_v2 (array (cons j (cons r (cons t (cons e (cons p nil)))))) =
    ok (record { join_ref = j; ref = r; topic = t; event = e; payload = p })
decode_v2 (array _) = err (value_error v2_expects_five)
decode_v2 _ = err (type_error v2_expects_array)

-- `_require_text`, of a JSON value.
unfoldable pub require_text : Json → Result Text
require_text (text t) = if is_empty t then err (type_error empty_text) else ok t
require_text _ = err (type_error empty_text)

-- `payload if isinstance(payload, dict) else {}`
unfoldable pub dict_or_empty : Json → Payload
dict_or_empty (object d) = dict d
dict_or_empty _ = dict end

-- json.JSONDecodeError is a ValueError.
unfoldable pub or_bad_json : Option Json → Result Json
or_bad_json none = err (value_error bad_json)
or_bad_json (some j) = ok j

unfoldable pub decode_text : Library → Text → ProtocolVersion → Result DecodedMessage
unfolding or_bad_json decode_v1 decode_v2 require_text dict_or_empty
decode_text lib frame version = do
  parsed ← or_bad_json (lib.loads frame)
  f ← if is_v2 version then decode_v2 parsed else decode_v1 parsed
  topic ← require_text f.topic
  event ← require_text f.event
  message ← make_message lib event topic f.ref (dict_or_empty f.payload) f.join_ref
  ok (record { message = message; binary_reply_status = none })

unfoldable pub sum : List ℕ → ℕ
sum [] = 0
sum (n ∷ ns) = n + sum ns

-- The loop of `_binary_fields`: one text for each size, then what is left.
unfoldable pub split_fields : List ℕ → Bytes → Result (List Text × Bytes)
split_fields [] body = ok ([], body)
split_fields (size ∷ sizes) body = do
  t ← Utf8.decode (take size body)
  rest ← split_fields sizes (drop size body)
  ok (t ∷ rest.0, rest.1)

unfoldable pub binary_fields : Bytes → ℕ → Result (List Text × Bytes)
unfolding split_fields sum
binary_fields frame count = do
  let header_end = 1 + count
  guard (not (ltb (length frame) header_end)) (value_error truncated_header)
  let sizes = take count (drop 1 frame)
  guard (not (ltb (length frame) (header_end + sum sizes))) (value_error truncated_fields)
  split_fields sizes (drop header_end frame)

-- `BinaryKind(b)`
unfoldable pub binary_kind : ℕ → Result BinaryKind
binary_kind b =
    if b == 0
    then ok push_kind
    else if b == 1
    then ok reply_kind
    else if b == 2
    then ok broadcast_kind
    else err (value_error bad_kind)

-- `t or None`, as a JSON value.
unfoldable pub text_or_null : Text → Json
text_or_null t = if is_empty t then null else text t

unfoldable pub binary_message :
    Library → Text → Text → Json → Json → Bytes → Option Text → Result DecodedMessage
unfolding require_text
binary_message lib topic event join_ref ref payload status = do
  t ← require_text (text topic)
  e ← require_text (text event)
  message ← make_message lib e t ref (bytes payload) join_ref
  ok (record { message = message; binary_reply_status = status })

-- The `match kind` of `_decode_binary`; the last clause is the unpacking error of another number of
-- fields.
unfoldable pub decode_kind : Library → BinaryKind → List Text → Bytes → Result DecodedMessage
unfolding text_or_null binary_message
decode_kind lib push_kind (j ∷ t ∷ e ∷ []) payload =
    binary_message lib t e (text_or_null j) null payload none
decode_kind lib reply_kind (j ∷ r ∷ t ∷ s ∷ []) payload =
    binary_message lib t (system_text reply) (text_or_null j) (text_or_null r) payload (some s)
decode_kind lib broadcast_kind (t ∷ e ∷ []) payload = binary_message lib t e null null payload none
decode_kind lib _ _ payload = err (value_error bad_kind)

unfoldable pub decode_binary : Library → Bytes → Result DecodedMessage
decode_binary lib [] = err (value_error empty_frame)
decode_binary lib (b ∷ rest) = do
  kind ← binary_kind b
  fields ← binary_fields (b ∷ rest) (server_header_fields kind)
  decode_kind lib kind fields.0 fields.1

pub data Frame : Type 0 where
  text_frame : Text → Frame
  binary_frame : Bytes → Frame

unfoldable pub decode_message : Library → Frame → ProtocolVersion → Result DecodedMessage
unfolding decode_binary decode_text
decode_message lib (binary_frame b) v1 = err (type_error binary_requires_v2)
decode_message lib (binary_frame b) v2 = decode_binary lib b
decode_message lib (text_frame t) version = decode_text lib t version

-- `t or ""`
unfoldable pub or_empty : Option Text → Text
or_empty none = []
or_empty (some t) = t

-- The header's texts, encoded in order.
unfoldable pub encode_fields : List Text → Result (List Bytes)
encode_fields [] = ok []
encode_fields (t ∷ ts) = do b ← Utf8.encode t; bs ← encode_fields ts; ok (b ∷ bs)

unfoldable pub concat : List Bytes → Bytes
concat [] = []
concat (b ∷ bs) = b ++ concat bs

unfoldable pub header_texts : Message → List Text
unfolding or_empty
header_texts m = or_empty m.join_ref ∷ or_empty m.ref ∷ m.topic ∷ event_text m.event ∷ []

unfoldable pub is_control : Message → Bool
is_control m =
    is_event join m.event
    || is_event leave m.event
    || (text_eq m.topic phoenix_topic && text_eq (event_text m.event) heartbeat_event)

unfoldable pub encode_binary : Message → Bytes → Result Bytes
encode_binary m payload = do
  guard (not (is_control m)) (type_error control_requires_object)
  fields ← encode_fields (header_texts m)
  guard (not (any (λ f. ltb max_header_field_bytes (length f)) fields)) (value_error field_too_long)
  ok (0 ∷ (map length fields ++ (concat fields ++ payload)))

unfoldable pub json_frame : Message → Fields → ProtocolVersion → Json
json_frame m payload v2 = array (
    cons (optional m.join_ref) (
      cons (optional m.ref)
        (cons (text m.topic) (cons (text (event_text m.event)) (cons (object payload) nil)))))
json_frame m payload v1 = object (
    field (codes "topic") (text m.topic) (
      field (codes "event") (text (event_text m.event))
        (field (codes "ref") (optional m.ref) (field (codes "payload") (object payload) end))))

unfoldable pub or_not_serializable : Option Text → Result Frame
or_not_serializable none = err (type_error not_serializable)
or_not_serializable (some t) = ok (text_frame t)

encode_payload : Library → Message → Payload → ProtocolVersion → Result Frame
unfolding encode_binary json_frame or_not_serializable
encode_payload lib m (bytes b) v1 = err (type_error binary_requires_v2)
encode_payload lib m (bytes b) v2 = do f ← encode_binary m b; ok (binary_frame f)
encode_payload lib m (dict d) version = or_not_serializable (lib.dumps (json_frame m d version))

unfoldable pub encode_message : Library → Message → ProtocolVersion → Result Frame
unfolding encode_payload
encode_message lib m version = encode_payload lib m m.payload version
