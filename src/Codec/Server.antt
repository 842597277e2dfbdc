-- ===== src/Codec/Server.antt =====
-- The binary frames that a Phoenix server sends, and what they decode to.
use phoenix_channels_python.Base.{
  ℕ, zero, suc, ◌+◌, ◌-◌, ◌≤◌, ◌<◌, ◌≡◌, refl, false, inl, inr, Bool-cases, Option, none, some,
  List, [], ◌∷◌, ◌++◌, map, arith, ltb, ltb→lt, ok, err, length, length-take-le, take,
  take-append_le, Why, value_error, empty_frame, truncated_header, truncated_fields, sym,
}
use phoenix_channels_python.Text.{Text, Bytes, is_empty, text_eq}
use phoenix_channels_python.Json.{Library}
use phoenix_channels_python.Messages.{
  v2, bytes, system, reply, system_text, parse_event, make_message,
}
use phoenix_channels_python.Codec.{
  DecodedMessage, encode_fields, concat, sum, decode_message, decode_binary, decode_kind,
  text_or_null, BinaryKind, push_kind, reply_kind, broadcast_kind, binary_kind,
  server_header_fields, binary_frame,
}
use phoenix_channels_python.Codec.Binary.{
  frame_of, binary_fields-frame_of, binary_fields-cut, binary_fields-short, sum-map-length,
  length-encode_fields,
}

pub data ServerFrame : Type 0 where
  server_push : (join_ref topic event : Text) → ServerFrame
  server_reply : (join_ref ref topic status : Text) → ServerFrame
  server_broadcast : (topic event : Text) → ServerFrame

abbrev pub kind_of : ServerFrame → ℕ
kind_of (server_push _ _ _) = 0
kind_of (server_reply _ _ _ _) = 1
kind_of (server_broadcast _ _) = 2

abbrev pub texts_of : ServerFrame → List Text
texts_of (server_push j t e) = j ∷ t ∷ e ∷ []
texts_of (server_reply j r t s) = j ∷ r ∷ t ∷ s ∷ []
texts_of (server_broadcast t e) = t ∷ e ∷ []

-- An empty ref stands for a missing one.
abbrev pub optional_text : Text → Option Text
optional_text [] = none
optional_text (c ∷ s) = some (c ∷ s)

abbrev pub meaning : ServerFrame → Bytes → DecodedMessage
meaning (server_push j t e) p = record {
  message = record {
    topic = t;
    ref = none;
    payload = bytes p;
    event = parse_event e;
    join_ref = optional_text j;
  };
  binary_reply_status = none;
}
meaning (server_reply j r t s) p = record {
  message = record {
    topic = t;
    ref = optional_text r;
    payload = bytes p;
    event = system reply;
    join_ref = optional_text j;
  };
  binary_reply_status = some s;
}
meaning (server_broadcast t e) p = record {
  message = record {
    topic = t;
    ref = none;
    payload = bytes p;
    event = parse_event e;
    join_ref = none;
  };
  binary_reply_status = none;
}

-- The topic, and the event that a push or a broadcast names, are not empty.
abbrev pub IsNamed : ServerFrame → Type 0
IsNamed (server_push j t e) = (is_empty t ≡ false) × (is_empty e ≡ false)
IsNamed (server_reply j r t s) = is_empty t ≡ false
IsNamed (server_broadcast t e) = (is_empty t ≡ false) × (is_empty e ≡ false)

coerce_ref-text_or_null :
    (lib : Library) (t : Text) → lib.coerce_ref (text_or_null t) ≡ ok (optional_text t)
unfolding text_or_null
coerce_ref-text_or_null lib [] = lib.coerce_ref-null
coerce_ref-text_or_null lib (c ∷ t) = lib.coerce_ref-text (c ∷ t)

abbrev pub kind_name : ServerFrame → BinaryKind
kind_name (server_push _ _ _) = push_kind
kind_name (server_reply _ _ _ _) = reply_kind
kind_name (server_broadcast _ _) = broadcast_kind

binary_kind-kind_of : (f : ServerFrame) → binary_kind (kind_of f) ≡ ok (kind_name f)
unfolding binary_kind
binary_kind-kind_of (server_push j t e) = refl
binary_kind-kind_of (server_reply j r t s) = refl
binary_kind-kind_of (server_broadcast t e) = refl

server_header_fields-kind_name :
    (f : ServerFrame) → server_header_fields (kind_name f) ≡ length (texts_of f)
unfolding server_header_fields
server_header_fields-kind_name (server_push j t e) = refl
server_header_fields-kind_name (server_reply j r t s) = refl
server_header_fields-kind_name (server_broadcast t e) = refl

module _ (lib : Library) where
  decode_kind-meaning :
      (f : ServerFrame) (p : Bytes)
      → IsNamed f
      → decode_kind lib (kind_name f) (texts_of f) p ≡ ok (meaning f p)
  unfolding decode_kind make_message system_text parse_event text_eq
  decode_kind-meaning (server_push j t e) p h =
      rw (h.0, h.1, lib.coerce_ref-null, coerce_ref-text_or_null lib j)
  decode_kind-meaning (server_reply j r t s) p h =
      rw (h, coerce_ref-text_or_null lib r, coerce_ref-text_or_null lib j)
  decode_kind-meaning (server_broadcast t e) p h = rw (h.0, h.1, lib.coerce_ref-null)

  module _ (f : ServerFrame) (fs : List Bytes) (e : encode_fields (texts_of f) ≡ ok fs) where
    -- A V2 binary frame of the server, a push, a reply or a broadcast whose header texts can be
    -- encoded and whose topic and event are not empty, decodes to what it means, whatever its payload.
    pub decode_message-ServerFrame :
        (p : Bytes)
        → IsNamed f
        → decode_message lib (binary_frame (frame_of (kind_of f) fs p)) v2 ≡ ok (meaning f p)
    unfolding decode_message decode_binary
    decode_message-ServerFrame p h = rw (
      binary_kind-kind_of f,
      server_header_fields-kind_name f,
      binary_fields-frame_of (kind_of f) (texts_of f) fs p e,
      decode_kind-meaning f p h,
    )

    count_fields : length (texts_of f) ≡ length (map length fs)
    count_fields = sym (length-encode_fields (texts_of f) fs e)

    -- A binary frame of the server that is cut before its payload raises a ValueError.
    pub decode_message-cut :
        (p : Bytes) (n : ℕ)
        → n ≤ length (texts_of f) + length (concat fs)
        → (w : Why) × (decode_message lib (binary_frame (take n (frame_of (kind_of f) fs p))) v2
            ≡ err (value_error w))
    unfolding decode_message decode_binary
    decode_message-cut p zero h = (empty_frame, refl)
    decode_message-cut p (suc n) h =
        let sizes = map length fs in
        elim (Bool-cases (ltb n (length sizes))) [
          | inl lt ↦
              let cut : suc (length (take n (sizes ++ (concat fs ++ p))))
                  < 1 + length (texts_of f) =
                omega (
                  arith,
                  ltb→lt n (length sizes) lt,
                  length-take-le n (sizes ++ (concat fs ++ p)),
                  count_fields,
                ) in
              (
                truncated_header,
                rw (
                  binary_kind-kind_of f,
                  server_header_fields-kind_name f,
                  binary_fields-cut (kind_of f ∷ take n (sizes ++ (concat fs ++ p)))
                      (length (texts_of f)) cut,
                ),
              )
          | inr ge ↦
              let le : length sizes ≤ n = ground arith in
              let short : length (take (n - length sizes) (concat fs ++ p)) < sum sizes = omega (
                arith,
                length-take-le (n - length sizes) (concat fs ++ p),
                count_fields,
                sum-map-length fs,
              ) in
              (
                truncated_fields,
                rw (
                  binary_kind-kind_of f,
                  server_header_fields-kind_name f,
                  count_fields,
                  take-append_le sizes (concat fs ++ p) n le,
                  binary_fields-short (kind_of f) sizes (take (n - length sizes) (concat fs ++ p))
                      short,
                ),
              )
        ]
