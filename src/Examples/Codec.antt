-- ===== src/Examples/Codec.antt =====
-- The codec at work.
use phoenix_channels_python.Base.{
  ◌≡◌, refl, none, some, List, [], ◌∷◌, ◌++◌, take, ok, err, Why, value_error, arith,
}
use phoenix_channels_python.Text.{Bytes, codes, text_eq}
use phoenix_channels_python.Text.Utf8
use phoenix_channels_python.Json.{end}
use phoenix_channels_python.Messages.{
  v2, Message, dict, bytes, user, event_text, is_event, system_text,
}
use phoenix_channels_python.Codec.{
  text_frame, binary_frame, decode_message, encode_message, encode_fields, concat, binary_fields,
  encode_binary, header_texts, is_control,
}
use phoenix_channels_python.Codec.Binary.{frame_of, binary_fields-encode_binary}
use phoenix_channels_python.Codec.Server.{
  ServerFrame, server_reply, texts_of, meaning, decode_message-ServerFrame, decode_message-cut,
}
use phoenix_channels_python.Codec.TextFrames.{received, decode_message-encode_message}
use phoenix_channels_python.Examples.Services.{services}

abbrev hello : Message
hello = record {
  topic = codes "room";
  ref = none;
  payload = dict end;
  event = user (codes "hello");
  join_ref = none;
}

decode_message-encode_message_example :
    decode_message services (text_frame (4 ∷ codes "roomhello")) v2 ≡ ok (received v2 hello end)
unfolding event_text encode_message
decode_message-encode_message_example =
    decode_message-encode_message services hello end v2 (text_frame (4 ∷ codes "roomhello")) refl
      refl refl refl

abbrev voice : Message
voice = record {
  topic = codes "room";
  ref = some (codes "7");
  payload = bytes (1 ∷ 2 ∷ []);
  event = user (codes "voice");
  join_ref = some (codes "3");
}

abbrev voice_frame : Bytes
voice_frame = (0 ∷ 1 ∷ 1 ∷ 4 ∷ 5 ∷ []) ++ codes "37roomvoice" ++ (1 ∷ 2 ∷ [])

voice_encoded : encode_binary voice (1 ∷ 2 ∷ []) ≡ ok voice_frame
unfolding encode_binary is_control is_event text_eq event_text system_text encode_fields
    header_texts Utf8.encode Utf8.char_bytes concat
voice_encoded = refl

binary_fields-encode_binary_example :
    binary_fields voice_frame 4 ≡ ok (header_texts voice, 1 ∷ 2 ∷ [])
binary_fields-encode_binary_example =
    binary_fields-encode_binary voice (1 ∷ 2 ∷ []) voice_frame voice_encoded

abbrev answer : ServerFrame
answer = server_reply (codes "3") (codes "7") (codes "room") (codes "ok")

abbrev answer_fields : List Bytes
answer_fields = codes "3" ∷ codes "7" ∷ codes "room" ∷ codes "ok" ∷ []

answer_encoded : encode_fields (texts_of answer) ≡ ok answer_fields
unfolding encode_fields Utf8.encode Utf8.char_bytes
answer_encoded = refl

decode_message-ServerFrame_example :
    decode_message services (binary_frame (frame_of 1 answer_fields (9 ∷ []))) v2
    ≡ ok (meaning answer (9 ∷ []))
decode_message-ServerFrame_example =
    decode_message-ServerFrame services answer answer_fields answer_encoded (9 ∷ []) refl

decode_message-cut_example :
    (w : Why) × (decode_message services
        (binary_frame (take 9 (frame_of 1 answer_fields (9 ∷ []))))
        v2
      ≡ err (value_error w))
unfolding concat
decode_message-cut_example =
    decode_message-cut services answer answer_fields answer_encoded (9 ∷ []) 9 (omega arith)
