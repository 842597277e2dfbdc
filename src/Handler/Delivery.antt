-- ===== src/Handler/Delivery.antt =====
-- Which messages are queued for the user.
use phoenix_channels_python.Base.{
  ℕ, ◌+◌, ◌-◌, ◌<◌, ◌≤◌, [], ◌∷◌, ◌++◌, length, Bool-cases, ◌≡◌, refl, true, false, Bool, Option,
  none, some, ◌==◌, ==-self, ◌&&◌, ◌||◌, not, is_some, ◌⊎◌, inl, inr, arith,
}
use phoenix_channels_python.Text.{Text}
use phoenix_channels_python.Messages.{Message, ProtocolVersion, is_event, is_lifecycle, reply}
use phoenix_channels_python.Topic.{is_joined}
use phoenix_channels_python.Runtime.{Client, set_topic, is_registered, is_on_current_connection}
use phoenix_channels_python.Runtime.Control.{
  HookResult, handle_channel_control, same_ref, pending_push, resolve_push_reply,
}
use phoenix_channels_python.Handler.Queue.{newest, enqueue_messages-newest}
use phoenix_channels_python.Handler.{is_stale_join, enqueue_message, deliver, route_to}

-- Is a message for the user? It has come on the channel's own connection, in its own generation and not
-- of an earlier join; the channel is registered and joined; and the message is no lifecycle event and
-- no answer to a leave, to the join, or to a push that waits.
abbrev pub is_for_user : ProtocolVersion → ℕ → Client → ℕ → Message → Bool
is_for_user version generation c k m =
    let t = c.topics k in
    t.conn_generation == generation
    && not (is_stale_join version m t.join_ref)
    && is_registered c k
    && is_on_current_connection c k
    && is_joined t.state
    && not (is_lifecycle m.event)
    && not (
        is_event reply m.event
        && ((same_ref m.ref t.leave_ref && not (same_ref t.leave_ref none))
            || same_ref m.ref (some t.join_ref)
            || is_some (pending_push t m.ref)))

queued :
    (version : ProtocolVersion) (generation : ℕ) (c : Client) (k : ℕ) (m : Message)
    (status : Option Text) (h : HookResult)
    → is_for_user version generation c k m ≡ true
    → route_to version generation c k m status h ≡ set_topic c k (enqueue_message (c.topics k) m)
unfolding route_to deliver handle_channel_control resolve_push_reply
queued version generation c k m status h e = ground arith

kept_back :
    (version : ProtocolVersion) (generation : ℕ) (c : Client) (k : ℕ) (m : Message)
    (status : Option Text) (h : HookResult)
    → is_for_user version generation c k m ≡ false
    → (route_to version generation c k m status h ≡ c)
      ⊎ (((handle_channel_control c k m status h).0 ≡ true)
          × (route_to version generation c k m status h
              ≡ (handle_channel_control c k m status h).1))
unfolding route_to deliver handle_channel_control resolve_push_reply
kept_back version generation c k m status h e = ground arith

-- What becomes of a message on a channel whose queue is bounded and within its bound. If it is for the
-- user, the queue holds the newest of its messages and this one, the count of dropped messages is that of
-- the others, and nothing of another channel changes. If it is not, either nothing changes at all, or the
-- channel control has taken it for its own, and the client is what that makes of it.
pub route_to-is_for_user :
    (version : ProtocolVersion) (generation : ℕ) (c : Client) (k : ℕ) (m : Message)
    (status : Option Text) (h : HookResult)
    → 0 < (c.topics k).max_queue
    → length (c.topics k).queue ≤ (c.topics k).max_queue
    → let t = c.topics k in
      let d = route_to version generation c k m status h in
      let control = handle_channel_control c k m status h in
      ((is_for_user version generation c k m ≡ true)
        × ((d.topics k).queue ≡ newest t.max_queue (t.queue ++ (m ∷ [])))
        × ((d.topics k).dropped_message_count
            ≡ t.dropped_message_count + (length (t.queue ++ (m ∷ [])) - t.max_queue))
        × (d ≡ set_topic c k (d.topics k)))
      ⊎ ((is_for_user version generation c k m ≡ false)
          × ((d ≡ c) ⊎ ((control.0 ≡ true) × (d ≡ control.1))))
route_to-is_for_user version generation c k m status h bounded fits =
    elim (Bool-cases (is_for_user version generation c k m)) [
      | inl e ↦
          let (q, n) = enqueue_messages-newest (c.topics k) (m ∷ []) bounded fits in
          rw (queued version generation c k m status h e, ==-self k) (inl (e, q, n, refl))
      | inr e ↦ inr (e, kept_back version generation c k m status h e)
    ]
