-- ===== src/Runtime/Control.antt =====
-- What the routing task does with a message for a channel before it reaches the user:
-- `_handle_channel_control` and its branches.
pub mod Pushes
pub mod Branches
use phoenix_channels_python.Base.{
  ℕ, ◌≡◌, refl, Bool, true, false, ◌&&◌, ◌||◌, not, Option, none, some, List, [], ◌∷◌, arith, ◌==◌,
  if◌then◌else◌, Exc, Result, ok, err, channel_error, crashed, closed_by_server, leave_rejected,
  join_ack_shape, join_install, join_rejected, malformed_reply,
}
use phoenix_channels_python.Text.{Text, codes, text_eq, is_empty}
use phoenix_channels_python.Json.{Json, text, get}
use phoenix_channels_python.Messages.{
  Message, Payload, dict, bytes, ChannelEvent, SystemEvent, error, reply, is_event, is_lifecycle,
}
use phoenix_channels_python.Replies.{Reply, reply_from_message}
use phoenix_channels_python.Futures.{Future, result, exception, is_done, settle}
use phoenix_channels_python.Topic.{
  Topic, ChannelCause, accepted, rejected, configuration, crash, close, is_left, is_joined, lookup,
  remove,
}
use phoenix_channels_python.Runtime.{Client, set_topic, is_registered, is_on_current_connection}
use phoenix_channels_python.Runtime.Transition.{transition_channel}
use phoenix_channels_python.Runtime.Tasks.{
  release_reservation, start_channel_recovery, start_topic_loss,
}

-- `a == b` of two refs that may be None.
unfoldable pub same_ref : Option Text → Option Text → Bool
same_ref none none = true
same_ref (some a) (some b) = text_eq a b
same_ref _ _ = false

unfoldable pub is_text : Json → Text → Bool
is_text (text a) b = text_eq a b
is_text _ b = false

-- `isinstance(payload, dict) and payload.get("status") == status`
unfoldable pub has_status : Payload → Text → Bool
unfolding is_text
has_status (dict d) status = is_text (get (codes "status") d) status
has_status (bytes b) status = false

abbrev pub is_dict : Payload → Bool
is_dict (dict d) = true
is_dict (bytes b) = false

unfoldable pub set_terminal : Client → ℕ → Client
set_terminal c k = set_topic c k (record (c.topics k) { terminal_received = true })

-- What is done about a lifecycle event of a channel that was joined.
unfoldable pub after_lifecycle : Client → ℕ → Bool → Exc → Client
after_lifecycle c k is_crash failure =
    if (c.topics k).established
    then if is_crash then start_channel_recovery c k none else start_topic_loss c k failure
    else c

unfoldable pub lifecycle_of_live : Client → ℕ → Message → Client
lifecycle_of_live c k m =
    let is_crash = is_event error m.event in
    let failure = channel_error (if is_crash then crashed else closed_by_server) in
    let c' = transition_channel c k (if is_crash then crash else close) (some failure) in
    after_lifecycle c' k is_crash failure

-- `_handle_channel_lifecycle`
unfoldable pub handle_channel_lifecycle : Client → ℕ → Message → Client
handle_channel_lifecycle c k m =
    let t = c.topics k in
    let c' = set_terminal c k in
    if not (same_ref m.ref none) && not (same_ref m.ref (some t.join_ref))
    then c
    else if is_left t.state
    then release_reservation c' k
    else lifecycle_of_live c' k m

-- What a call of `on_join_response` comes to.
pub data HookResult : Type 0 where
  returned_none returned_value hook_raised : HookResult

-- `_install_join_response`: without a hook there is nothing to install.
unfoldable pub installs : Bool → HookResult → Bool
installs false r = true
installs true returned_none = true
installs true _ = false

-- A reply to a join that nobody waits for any more.
unfoldable pub late_join_reply : Client → ℕ → Message → Client
late_join_reply c k m =
    if is_left (c.topics k).state && has_status m.payload (codes "error")
    then release_reservation (set_terminal c k) k
    else c

unfoldable pub join_reply : Client → ℕ → Message → HookResult → Client
join_reply c k m hook =
    if not (is_dict m.payload)
    then transition_channel c k rejected (some (channel_error join_ack_shape))
    else if has_status m.payload (codes "ok")
    then if installs (c.topics k).has_join_hook hook
      then transition_channel c k accepted none
      else transition_channel c k configuration (some (channel_error join_install))
    else transition_channel (set_terminal c k) k rejected (some (channel_error join_rejected))

-- `_handle_join_response_mode`
unfoldable pub handle_join_response : Client → ℕ → Message → HookResult → Client
handle_join_response c k m hook =
    let t = c.topics k in
    if is_lifecycle m.event
    then handle_channel_lifecycle c k m
    else if not (is_event reply m.event)
        || not (same_ref m.ref (some t.join_ref))
        || not (is_registered c k)
        || not (is_on_current_connection c k)
    then c
    else if is_done (c.futures t.current_join_ready) || t.leave_requested || c.shutdown_requested
    then late_join_reply c k m
    else join_reply c k m hook

-- `_handle_leave_response`: a future that is done stays as it is.
unfoldable pub handle_leave_response : Client → ℕ → Message → Client
handle_leave_response c k m =
    let t = c.topics k in
    if not (is_event reply m.event) || not (same_ref m.ref t.leave_ref) then c else record c {
      futures = settle c.futures t.unsubscribe_completed (
          if has_status m.payload (codes "ok")
          then result none
          else exception (channel_error leave_rejected));
    }

-- The outcome of a push that is answered.
unfoldable pub push_outcome : Option Text → Message → Future
push_outcome status m = elim (reply_from_message status m) [
  | ok r ↦ result (some r)
  | err e ↦ exception (channel_error malformed_reply)
]

-- `topic.pending_pushes.pop(message.ref, None) if message.ref else None`
unfoldable pub pending_push : Topic → Option Text → Option ℕ
pending_push t none = none
pending_push t (some r) = if is_empty r then none else lookup r t.pending_pushes

abbrev pub ref_or_empty : Option Text → Text
ref_or_empty none = []
ref_or_empty (some r) = r

-- `_resolve_push_reply`
unfoldable pub resolve_push_reply : Client → ℕ → Message → Option Text → Bool × Client
resolve_push_reply c k m status =
    let t = c.topics k in
    elim (pending_push t m.ref) [
      | none ↦ (false, c)
      | some f ↦ (
        true,
        record c {
          topics =
              (set_topic c k (record t {
                pending_pushes = remove (ref_or_empty m.ref) t.pending_pushes;
              })).topics;
          futures = settle c.futures f (push_outcome status m);
        },
      )
    ]

-- `_handle_channel_control`: whether the message is the client's own, and the client afterwards.
unfoldable pub handle_channel_control :
    Client → ℕ → Message → Option Text → HookResult → Bool × Client
handle_channel_control c k m status hook =
    let t = c.topics k in
    let (resolved, c') = resolve_push_reply c k m status in
    if not (is_registered c k) || not (is_on_current_connection c k)
    then (true, c)
    else if is_lifecycle m.event
    then (true, handle_channel_lifecycle c k m)
    else if not (is_event reply m.event)
    then (not (is_joined t.state), c)
    else if same_ref m.ref t.leave_ref && not (same_ref t.leave_ref none)
    then (true, handle_leave_response c k m)
    else if same_ref m.ref (some t.join_ref)
    then (true, handle_join_response c k m hook)
    else (resolved || not (is_joined t.state), c')
