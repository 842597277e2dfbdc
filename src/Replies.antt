-- ===== src/Replies.antt =====
-- replies.py
pub mod Meaning
use phoenix_channels_python.Base.{
  Option, none, some, Result, ok, err, type_error, binary_reply_payload, text_reply_payload,
  reply_shape,
}
use phoenix_channels_python.Text.{Text, codes}
use phoenix_channels_python.Json.{Json, text, object, get}
use phoenix_channels_python.Messages.{Payload, dict, bytes, Message}

pub record Reply : Type 0 where
  pub status : Text
  pub response : Payload

-- `isinstance(status, str) and isinstance(response, dict)`
unfoldable pub reply_of : Json → Json → Result Reply
reply_of (text status) (object response) = ok (record { status = status; response = dict response })
reply_of _ _ = err (type_error reply_shape)

pub reply_of_payload : Option Text → Payload → Result Reply
unfolding reply_of
reply_of_payload (some status) (bytes b) = ok (record { status = status; response = bytes b })
reply_of_payload (some status) (dict d) = err (type_error binary_reply_payload)
reply_of_payload none (bytes b) = err (type_error text_reply_payload)
reply_of_payload none (dict d) = reply_of (get (codes "status") d) (get (codes "response") d)

unfoldable pub reply_from_message : Option Text → Message → Result Reply
unfolding reply_of_payload
reply_from_message binary_status m = reply_of_payload binary_status m.payload
