-- ===== src/Runtime/Control/Branches.antt =====
-- The branches of `_handle_channel_control` keep the invariant.
use phoenix_channels_python.Base.{ℕ, ◌≡◌, refl, Bool, false, ◌||◌, not, Option, some, arith, Exc}
use phoenix_channels_python.Text.{Text, codes}
use phoenix_channels_python.Messages.{Message, is_event, is_lifecycle, error, reply}
use phoenix_channels_python.Futures.{is_done, is_done}
use phoenix_channels_python.Runtime.{Client, is_registered, is_on_current_connection}
use phoenix_channels_python.Runtime.Invariant.{From}
use phoenix_channels_python.Runtime.Transition.Accept.{MayAccept, transition_channel-From}
use phoenix_channels_python.Runtime.Tasks.Keeping.{
  From-if-pair, From-if, set_core-From, release_reservation-From, start_channel_recovery-From,
  start_topic_loss-From,
}
use phoenix_channels_python.Runtime.Control.{
  same_ref, has_status, is_dict, set_terminal, after_lifecycle, lifecycle_of_live,
  handle_channel_lifecycle, HookResult, installs, late_join_reply, join_reply, handle_join_response,
  handle_leave_response, handle_channel_control,
}
use phoenix_channels_python.Runtime.Control.Pushes.{settle-From, resolve_push_reply-From}

pub set_terminal-From : {o : Client} (c : Client) (k : ℕ) → From o c → From o (set_terminal c k)
unfolding set_terminal
set_terminal-From c k inv = set_core-From c k _ refl inv

ruleset steps = (
  From-if, set_terminal-From, release_reservation-From, start_channel_recovery-From,
  start_topic_loss-From,
)

after_lifecycle-From :
    {o : Client} (c : Client) (k : ℕ) (b : Bool) (e : Exc)
    → From o c
    → From o (after_lifecycle c k b e)
unfolding after_lifecycle
after_lifecycle-From c k b e inv = search steps

-- A loss by a crash or a close, which accepts nothing.
lifecycle_of_live-From :
    {o : Client} (c : Client) (k : ℕ) (m : Message) → From o c → From o (lifecycle_of_live c k m)
unfolding lifecycle_of_live
lifecycle_of_live-From c k m inv =
    after_lifecycle-From _ k (is_event error m.event) _
      (transition_channel-From c k inv _ _ (λ h. absurd (ground arith)))

pub handle_channel_lifecycle-From :
    {o : Client} (c : Client) (k : ℕ) (m : Message)
    → From o c
    → From o (handle_channel_lifecycle c k m)
unfolding handle_channel_lifecycle
handle_channel_lifecycle-From c k m inv = search (steps, lifecycle_of_live-From)

late_join_reply-From :
    {o : Client} (c : Client) (k : ℕ) (m : Message) → From o c → From o (late_join_reply c k m)
unfolding late_join_reply
late_join_reply-From c k m inv = search steps

MayAccept-pending :
    (c : Client) (k : ℕ)
    → is_done (c.futures (c.topics k).current_join_ready) ≡ false
    → MayAccept c k
MayAccept-pending c k h = ground arith

join_reply-From :
    {o : Client} (c : Client) (k : ℕ) (m : Message) (h : HookResult)
    → is_done (c.futures (c.topics k).current_join_ready) ≡ false
    → From o c
    → From o (join_reply c k m h)
unfolding join_reply
join_reply-From c k m h p inv =
    From-if (not (is_dict m.payload))
      (λ _. transition_channel-From c k inv _ _ (λ e. absurd (ground arith)))
      (λ _.
        From-if (has_status m.payload (codes "ok"))
          (λ _.
            From-if (installs (c.topics k).has_join_hook h)
              (λ _. transition_channel-From c k inv _ _ (λ _. MayAccept-pending c k p))
              (λ _. transition_channel-From c k inv _ _ (λ e. absurd (ground arith))))
          (λ _.
            transition_channel-From _ k (set_terminal-From c k inv) _ _
              (λ e. absurd (ground arith))))

pub handle_join_response-From :
    {o : Client} (c : Client) (k : ℕ) (m : Message) (h : HookResult)
    → From o c
    → From o (handle_join_response c k m h)
unfolding handle_join_response
handle_join_response-From c k m h inv =
    let t = c.topics k in
    let settled_join = is_done (c.futures t.current_join_ready) in
    From-if (is_lifecycle m.event) (λ _. handle_channel_lifecycle-From c k m inv)
      (λ _.
        From-if
          (not (is_event reply m.event)
            || not (same_ref m.ref (some t.join_ref))
            || not (is_registered c k)
            || not (is_on_current_connection c k))
          (λ _. inv)
          (λ _.
            From-if (settled_join || t.leave_requested || c.shutdown_requested)
              (λ _. late_join_reply-From c k m inv)
              (λ e. join_reply-From c k m h (ground arith) inv)))

pub handle_leave_response-From :
    {o : Client} (c : Client) (k : ℕ) (m : Message)
    → From o c
    → From o (handle_leave_response c k m)
unfolding handle_leave_response
handle_leave_response-From c k m inv =
    From-if (not (is_event reply m.event) || not (same_ref m.ref (c.topics k).leave_ref)) (λ _. inv)
      (λ _. settle-From c (c.topics k).unsubscribe_completed _ (inv.topic k).known_leave inv)

-- A message for a channel, whatever it is, keeps the invariant.
pub handle_channel_control-From :
    {o : Client} (c : Client) (k : ℕ) (m : Message) (status : Option Text) (h : HookResult)
    → From o c
    → From o (handle_channel_control c k m status h).1
unfolding handle_channel_control
handle_channel_control-From c k m status h inv =
    search
      (
        From-if-pair, handle_channel_lifecycle-From, handle_leave_response-From,
        handle_join_response-From, resolve_push_reply-From,
      )
      depth 8
