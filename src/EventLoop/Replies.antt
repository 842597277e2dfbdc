-- ===== src/EventLoop/Replies.antt =====
-- The reply to a push, whatever happened since the push started.
use phoenix_channels_python.Base.{
  ℕ, ◌+◌, ◌≡◌, refl, ap, ◌⊎◌, inl, inr, true, false, Option, none, some, arith, Result, ok, err,
  channel_error, malformed_reply,
}
use phoenix_channels_python.Text.{Text, text_eq}
use phoenix_channels_python.Text.Decimal.{decimal, decimal-ne-nil}
use phoenix_channels_python.Json.{Library}
use phoenix_channels_python.Messages.{
  Payload, ChannelEvent, Value, Message, system, reply, is_event, is_lifecycle, event_text,
  system_text, ProtocolVersion,
}
use phoenix_channels_python.Replies.{Reply}
use phoenix_channels_python.Replies.Meaning.{Answers, reply_from_message-Means}
use phoenix_channels_python.Futures.{Future, pending, result, exception}
use phoenix_channels_python.Topic.{lookup}
use phoenix_channels_python.Runtime.{Client, is_registered, is_on_current_connection}
use phoenix_channels_python.Runtime.Invariant.{Inv}
use phoenix_channels_python.Runtime.Control.{
  HookResult, same_ref, push_outcome, resolve_push_reply, handle_channel_control,
}
use phoenix_channels_python.Runtime.Calls.{Pushed, start_push}
use phoenix_channels_python.Runtime.Calls.Push.{Waiting, answered, is_empty-ne}
use phoenix_channels_python.EventLoop.{Reach}
use phoenix_channels_python.EventLoop.Safety.{Reach-push}

-- The outcome of a push whose reply is well formed, and of one whose reply is not.
abbrev pub Outcome : Option Text → Payload → Future → Type 0
Outcome status payload f =
    ((r : Reply) × Answers status payload r × (f ≡ result (some r)))
    ⊎ (((r : Reply) → Answers status payload r → ⊥)
        × (f ≡ exception (channel_error malformed_reply)))

push_outcome-Outcome :
    (status : Option Text) (m : Message) → Outcome status m.payload (push_outcome status m)
unfolding push_outcome
push_outcome-Outcome status m =
    let outcome : Result Reply → Future =
      λ x. elim x [ ok r ↦ result (some r) | err e ↦ exception (channel_error malformed_reply) ] in
    elim (reply_from_message-Means status m) [
      | inl (r, own, e) ↦ inl (r, own, ap outcome e)
      | inr (none_fits, (e, x)) ↦ inr (none_fits, ap outcome x)
    ]

is_reply : is_event reply (system reply) ≡ true
unfolding is_event text_eq event_text system_text
is_reply = refl

no_lifecycle : is_lifecycle (system reply) ≡ false
unfolding is_lifecycle text_eq event_text system_text
no_lifecycle = refl

-- The control of a channel hands a reply that is none to a leave or to the join to the pushes.
pushes_reply :
    (c : Client) (k : ℕ) (m : Message) (status : Option Text) (h : HookResult)
    → is_registered c k ≡ true
    → is_on_current_connection c k ≡ true
    → m.event ≡ system reply
    → same_ref m.ref (c.topics k).leave_ref ≡ false
    → same_ref m.ref (some (c.topics k).join_ref) ≡ false
    → (resolve_push_reply c k m status).0 ≡ true
    → handle_channel_control c k m status h ≡ (true, (resolve_push_reply c k m status).1)
unfolding handle_channel_control
pushes_reply c k m status h here current event leave join own =
    let live : is_lifecycle m.event ≡ false = rw event no_lifecycle in
    let answer : is_event reply m.event ≡ true = rw event is_reply in ground arith

-- A push that started on a client that holds the invariant, and whose future is not done, whatever
-- happened meanwhile. The first reply of the server with its ref that the registered channel gets on the
-- current connection, and that is none to its leave or its join, settles that future and no message
-- reaches the user: with the reply that the message states, if it states one, and else with the error of
-- a malformed reply. The push waits no longer.
pub Reach-handle_channel_control :
    {lib : Library} {version : ProtocolVersion} (c d : Client) (k : ℕ) (event : ChannelEvent)
    (value : Value) (timeout : Option ℕ) {p : Pushed} (m : Message) (status : Option Text)
    (h : HookResult)
    → Inv c
    → start_push c k event value timeout ≡ ok p
    → Reach lib version p.client d
    → d.futures p.outcome ≡ pending
    → m.ref ≡ some (decimal (c.ref_counter + 1))
    → m.event ≡ system reply
    → is_registered d k ≡ true
    → is_on_current_connection d k ≡ true
    → same_ref m.ref (d.topics k).leave_ref ≡ false
    → same_ref m.ref (some (d.topics k).join_ref) ≡ false
    → let (own, e) = handle_channel_control d k m status h in
      (own ≡ true)
      × Outcome status m.payload (e.futures p.outcome)
      × (lookup (decimal (c.ref_counter + 1)) (e.topics k).pending_pushes ≡ none)
Reach-handle_channel_control c d k event value timeout {p} m status h inv started r open_ ref kind
      here current leave join =
    let (waits, lost) = Reach-push c d k event value timeout inv started r in
    let listed : lookup (decimal (c.ref_counter + 1)) (d.topics k).pending_pushes ≡ some p.outcome =
      elim waits [ inl done ↦ absurd (ground arith) | inr listed ↦ listed ] in
    let w : Waiting d k p.outcome (decimal (c.ref_counter + 1)) = record {
      named = is_empty-ne _ (decimal-ne-nil (c.ref_counter + 1));
      listed = listed;
      open_ = open_;
    } in
    let (own, outcome, gone) = answered d k p.outcome _ m status w ref in
    rw (pushes_reply d k m status h here current kind leave join own)
      (refl, rw outcome (push_outcome-Outcome status m), gone)
