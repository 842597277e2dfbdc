-- ===== src/Runtime/Leaving/Keeping.antt =====
-- The end of a channel keeps the invariant.
use phoenix_channels_python.Base.{
  ℕ, refl, inl, inr, Option, some, arith, if◌then◌else◌, Option-cases, Exc,
}
use phoenix_channels_python.Text.{Text}
use phoenix_channels_python.Topic.{close, is_left, is_created, lookup}
use phoenix_channels_python.Runtime.{Client}
use phoenix_channels_python.Runtime.Invariant.{From}
use phoenix_channels_python.Runtime.Transition.{transition_channel}
use phoenix_channels_python.Runtime.Transition.Accept.{transition_channel-From}
use phoenix_channels_python.Runtime.Tasks.Keeping.{
  From-if, From-if-pair, set_core-From, start_leave_task-From, release_reservation-From,
}
use phoenix_channels_python.Runtime.Control.Branches.{set_terminal-From}
use phoenix_channels_python.Runtime.Calls.Keeping.{leave_created-From, generate_ref-From}
use phoenix_channels_python.Runtime.Leaving.{
  leave_channel, take_leave_ref, begin_leave, finish_cleanup, or_retired, is_only, retire_topic,
  unregister_topic, report_topic_lost, must_send_leave, lose_topic_first,
}

module _ {o : Client} (c : Client) (k : ℕ) (f : From o c) where
  pub leave_channel-From : From o (leave_channel c k)
  unfolding leave_channel
  leave_channel-From =
      From-if (is_created (c.topics k).state) (λ new. leave_created-From c k f new)
        (λ _. start_leave_task-From c k f)

  take_leave_ref-From : From o (take_leave_ref c k)
  unfolding take_leave_ref
  take_leave_ref-From = set_core-From _ k _ refl (generate_ref-From c f)

  pub begin_leave-From : From o (begin_leave c k).1
  unfolding begin_leave
  begin_leave-From =
      From-if-pair (must_send_leave c k) _ _ (λ _. take_leave_ref-From)
        (λ _. From-if-pair _ _ _ (λ _. set_terminal-From c k f) (λ _. f))

  pub finish_cleanup-From : From o (finish_cleanup c k)
  unfolding finish_cleanup
  finish_cleanup-From = release_reservation-From _ k (set_core-From c k _ refl f)

  pub report_topic_lost-From : From o (report_topic_lost c k).1
  unfolding report_topic_lost
  report_topic_lost-From =
      From-if-pair (c.topics k).loss_reported _ _ (λ _. f) (λ _. set_core-From c k _ refl f)

  closed-From :
      (e : Exc)
      → From o (if is_left (c.topics k).state then c else transition_channel c k close (some e))
  closed-From e =
      From-if (is_left (c.topics k).state) (λ _. f)
        (λ _. transition_channel-From c k f close (some e) (λ h. absurd (ground arith)))

retire_topic-From :
    {o : Client} (c : Client) (k : ℕ) (e : Option Exc) → From o c → From o (retire_topic c k e)
unfolding retire_topic
retire_topic-From c k e f = leave_channel-From _ k (closed-From c k f (or_retired e))

pub unregister_topic-From :
    {o : Client} (c : Client) (name : Text) (e : Option Exc) (only : Option ℕ)
    → From o c
    → From o (unregister_topic c name e only).1
unfolding unregister_topic
unregister_topic-From c name e only f = elim (Option-cases (lookup name c.topic_subscriptions)) [
  | inl n ↦ rw (n, unregister_topic) f
  | inr (k, y) ↦
      rw (y, unregister_topic)
        (From-if-pair (is_only only k) _ _ (λ _. retire_topic-From c k e f) (λ _. f))
]

pub lose_topic_first-From :
    {o : Client} (c : Client) (k : ℕ) (e : Exc) → From o c → From o (lose_topic_first c k e).1
unfolding lose_topic_first
lose_topic_first-From c k e f = unregister_topic-From c (c.topics k).name (some e) (some k) f
