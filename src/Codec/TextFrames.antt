-- ===== src/Codec/TextFrames.antt =====
-- Text frames: what `encode_message` writes, `decode_message` reads back.
use phoenix_channels_python.Base.{◌≡◌, false, Option, none, some, arith, ok, inl, inr, Option-cases}
use phoenix_channels_python.Text.{Text, is_empty, text_eq}
use phoenix_channels_python.Json.{Fields, Library, get, coerce_ref-optional}
use phoenix_channels_python.Messages.{
  ProtocolVersion, v1, v2, Message, dict, event_text, parse_event, make_message,
}
use phoenix_channels_python.Codec.{
  DecodedMessage, Frame, text_frame, decode_text, decode_message, json_frame, or_not_serializable,
  encode_message,
}

-- V1 frames carry no join ref.
abbrev pub kept_join_ref : ProtocolVersion → Option Text → Option Text
kept_join_ref v1 r = none
kept_join_ref v2 r = r

abbrev pub received : ProtocolVersion → Message → Fields → DecodedMessage
received version m d = record {
  message = record m {
    payload = dict d;
    event = parse_event (event_text m.event);
    join_ref = kept_join_ref version m.join_ref;
  };
  binary_reply_status = none;
}

module _ (lib : Library) (m : Message) (d : Fields) where
  decode_text-json_frame :
      (version : ProtocolVersion) (t : Text)
      → is_empty m.topic ≡ false
      → is_empty (event_text m.event) ≡ false
      → lib.dumps (json_frame m d version) ≡ some t
      → decode_text lib t version ≡ ok (received version m d)
  unfolding decode_text json_frame get text_eq make_message
  decode_text-json_frame v1 t ht he e =
      rw (lib.loads-dumps _ t e, ht, he, coerce_ref-optional lib m.ref, lib.coerce_ref-null)
  decode_text-json_frame v2 t ht he e = rw (
    lib.loads-dumps _ t e,
    ht,
    he,
    coerce_ref-optional lib m.ref,
    coerce_ref-optional lib m.join_ref,
  )

  -- A message with a JSON payload, a topic and an event that are not empty, which is encoded in either
  -- version, is decoded to what was sent, but for the form of its event and, in V1, its join ref.
  pub decode_message-encode_message :
      (version : ProtocolVersion) (f : Frame)
      → m.payload ≡ dict d
      → is_empty m.topic ≡ false
      → is_empty (event_text m.event) ≡ false
      → encode_message lib m version ≡ ok f
      → decode_message lib f version ≡ ok (received version m d)
  unfolding encode_message or_not_serializable decode_message
  decode_message-encode_message version f p ht he h =
      elim (Option-cases (lib.dumps (json_frame m d version))) [
        | inl e ↦ absurd (ground arith)
        | inr (t, e) ↦
            let ef : f ≡ text_frame t = ground arith in
            rw ef (decode_text-json_frame version t ht he e)
      ]
