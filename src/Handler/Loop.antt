-- ===== src/Handler/Loop.antt =====
-- A routed message keeps the invariant of the runtime; what the loop hands to the supervisor.
use phoenix_channels_python.Base.{
  ℕ, ◌≡◌, refl, sym, ap, ◌∙◌, inl, inr, Bool, Option, none, some, List, [], ◌∷◌, ◌++◌, append-nil,
  append_assoc, keep, Exc, err, ok, Bool-cases, Option-cases, Result-cases,
}
use phoenix_channels_python.Text.{Text, text_eq}
use phoenix_channels_python.Json.{Library}
use phoenix_channels_python.Messages.{Message, ProtocolVersion, phoenix_topic}
use phoenix_channels_python.Codec.{Frame, DecodedMessage, decode_message}
use phoenix_channels_python.Topic.{Topic, lookup}
use phoenix_channels_python.Runtime.{Client}
use phoenix_channels_python.Runtime.Invariant.{From, core}
use phoenix_channels_python.Runtime.Tasks.Keeping.{From-if, set_core-From}
use phoenix_channels_python.Runtime.Control.{HookResult, handle_channel_control}
use phoenix_channels_python.Runtime.Control.Branches.{handle_channel_control-From}
use phoenix_channels_python.Handler.{
  is_full, enqueue_message, deliver, route_to, Session, route_message, process_websocket_messages,
}

core-enqueue : (t : Topic) (m : Message) → core (enqueue_message t m) ≡ core t
unfolding enqueue_message
core-enqueue t m = elim (Bool-cases (is_full t)) [ inl e ↦ rw e refl | inr e ↦ rw e refl ]

deliver-From :
    {o : Client} (c : Client) (k : ℕ) (m : Message) (status : Option Text) (h : HookResult)
    → From o c
    → From o (deliver c k m status h)
unfolding deliver
deliver-From c k m status h f =
    let c' = (handle_channel_control c k m status h).1 in
    let g = handle_channel_control-From c k m status h f in
    From-if _ (λ _. g)
      (λ _. set_core-From c' k (enqueue_message (c'.topics k) m) (core-enqueue (c'.topics k) m) g)

pub route_to-From :
    {o : Client} (version : ProtocolVersion) (generation : ℕ) (c : Client) (k : ℕ) (m : Message)
    (status : Option Text) (h : HookResult)
    → From o c
    → From o (route_to version generation c k m status h)
unfolding route_to
route_to-From version generation c k m status h f = search (From-if, deliver-From)

abbrev pub or_else : Option Exc → Option Exc → Option Exc
or_else none e = e
or_else (some e) _ = some e

-- The messages of the frames up to the first one that cannot be read, and what that one raises.
pub readable : Library → ProtocolVersion → List (Frame × HookResult) → List Message × Option Exc
readable lib version [] = ([], none)
readable lib version ((frame, hook) ∷ frames) =
    let (ms, failure) = readable lib version frames in
    elim (decode_message lib frame version) [
      | err e ↦ ([], some e)
      | ok decoded ↦ (decoded.message ∷ ms, failure)
    ]

pub is_heartbeat : Message → Bool
is_heartbeat m = text_eq m.topic phoenix_topic

route_message-heartbeats :
    (version : ProtocolVersion) (generation : ℕ) (s : Session) (d : DecodedMessage) (h : HookResult)
    → ((route_message version generation s d h).heartbeats
        ≡ s.heartbeats ++ keep is_heartbeat (d.message ∷ []))
      × ((route_message version generation s d h).failure ≡ s.failure)
unfolding route_message is_heartbeat
route_message-heartbeats version generation s d h =
    elim (Bool-cases (text_eq d.message.topic phoenix_topic)) [
      | inl e ↦ rw e (refl, refl)
      | inr e ↦ elim (Option-cases (lookup d.message.topic s.client.topic_subscriptions)) [
        | inl n ↦ rw (e, n) (sym (append-nil s.heartbeats), refl)
        | inr (k, y) ↦ rw (e, y) (sym (append-nil s.heartbeats), refl)
      ]
    ]

keep-cons :
    (m : Message) (ms : List Message)
    → keep is_heartbeat (m ∷ []) ++ keep is_heartbeat ms ≡ keep is_heartbeat (m ∷ ms)
keep-cons m ms = elim (Bool-cases (is_heartbeat m)) [ inl e ↦ rw e refl | inr e ↦ rw e refl ]

-- The loop reads the frames in their order up to the first one that it cannot read, whose error it
-- ends with. The messages of the topic "phoenix" before it, in their order and each one once, are
-- handed to the supervisor.
pub process_websocket_messages-heartbeats :
    (lib : Library) (version : ProtocolVersion) (generation : ℕ) (s : Session)
    (frames : List (Frame × HookResult))
    → let d = process_websocket_messages lib version generation s frames in
      let (ms, failure) = readable lib version frames in
      (d.heartbeats ≡ s.heartbeats ++ keep is_heartbeat ms)
      × (d.failure ≡ or_else failure s.failure)
unfolding process_websocket_messages readable
process_websocket_messages-heartbeats lib version generation s [] =
    (sym (append-nil s.heartbeats), refl)
process_websocket_messages-heartbeats lib version generation s ((frame, h) ∷ frames) =
    elim (Result-cases (decode_message lib frame version)) [
      | inl (e, r) ↦
          rw (r, process_websocket_messages, readable) (sym (append-nil s.heartbeats), refl)
      | inr (d, r) ↦
          let t = route_message version generation s d h in
          let (beats, failure) = route_message-heartbeats version generation s d h in
          let ih = process_websocket_messages-heartbeats lib version generation t frames in
          let ms = (readable lib version frames).0 in
          let all =
            ih.0
            ∙ ap (λ b. b ++ keep is_heartbeat ms) beats
            ∙ append_assoc s.heartbeats (keep is_heartbeat (d.message ∷ [])) (keep is_heartbeat ms)
            ∙ ap (λ b. s.heartbeats ++ b) (keep-cons d.message ms) in
          rw (r, process_websocket_messages, readable)
            (all, ih.1 ∙ ap (or_else (readable lib version frames).1) failure)
    ]
