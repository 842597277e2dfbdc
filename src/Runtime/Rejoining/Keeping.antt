-- ===== src/Runtime/Rejoining/Keeping.antt =====
-- The rejoins keep the invariant.
use phoenix_channels_python.Base.{
  ℕ, ◌≡◌, refl, false, Option, none, some, List, [], ◌∷◌, arith, Exc, ◌||◌,
}
use phoenix_channels_python.ClientState.{same_state, shutting_down}
use phoenix_channels_python.Topic.{is_joined, transport}
use phoenix_channels_python.Runtime.{Client, should_rejoin}
use phoenix_channels_python.Runtime.Invariant.{From}
use phoenix_channels_python.Runtime.Transition.Accept.{transition_channel-From}
use phoenix_channels_python.Runtime.Tasks.Keeping.{
  From-if, From-if-pair, set_core-From, create_task-From, start_channel_recovery-From,
  start_topic_loss-From,
}
use phoenix_channels_python.Runtime.Calls.Keeping.{restart_topic-From}
use phoenix_channels_python.Runtime.Leaving.Keeping.{unregister_topic-From}
use phoenix_channels_python.Runtime.Rejoining.{
  interrupt, begin_rejoin, resume_rejoin, is_refusal, handle_rejoin_failure, report_rejoin_loss,
  start_recovery_of, start_recoveries, is_join_failure, failed_attempt, after_attempt,
}

module _ {o : Client} (c : Client) (k : ℕ) (f : From o c) where
  interrupt-From : From o (interrupt c k)
  unfolding interrupt
  interrupt-From =
      From-if (is_joined (c.topics k).state)
        (λ _. transition_channel-From c k f transport _ (λ h. absurd (ground arith))) (λ _. f)

  pub begin_rejoin-From : From o (begin_rejoin c k).1
  unfolding begin_rejoin
  begin_rejoin-From =
      From-if-pair (should_rejoin c k) _ _ (λ _. set_core-From _ k _ refl interrupt-From) (λ _. f)

  pub resume_rejoin-From :
      (generation : ℕ)
      → is_joined (c.topics k).state ≡ false
      → From o (resume_rejoin c k generation).1
  unfolding resume_rejoin
  resume_rejoin-From generation lost =
      From-if-pair (should_rejoin c k) _ _ (λ go. restart_topic-From c k f generation go lost)
        (λ _. f)

  pub handle_rejoin_failure-From : From o (handle_rejoin_failure c k).1
  unfolding handle_rejoin_failure
  handle_rejoin_failure-From =
      From-if-pair (c.shutdown_requested || same_state c.state shutting_down) _ _ (λ _. f)
        (λ _.
          From-if-pair (is_refusal (c.topics k).cause) _ _
            (λ _. unregister_topic-From c (c.topics k).name _ (some k) f)
            (λ _. start_channel_recovery-From c k none f))

  failed_attempt-From : From o (failed_attempt c k).1
  unfolding failed_attempt
  failed_attempt-From =
      From-if-pair (is_refusal (c.topics k).cause) _ _ (λ _. start_topic_loss-From c k _ f) (λ _. f)

  pub after_attempt-From : (e : Option Exc) → From o (after_attempt c k e).1
  unfolding after_attempt
  after_attempt-From none = f
  after_attempt-From (some e) =
      From-if-pair (is_join_failure e) _ _ (λ _. failed_attempt-From) (λ _. f)

pub report_rejoin_loss-From :
    {o : Client} (c : Client) (k : Option ℕ) → From o c → From o (report_rejoin_loss c k)
unfolding report_rejoin_loss
report_rejoin_loss-From c none f = f
report_rejoin_loss-From c (some k) f = create_task-From c _ f

pub start_recoveries-From :
    {o : Client} (c : Client) (generation : ℕ) (ks : List ℕ)
    → From o c
    → From o (start_recoveries c generation ks)
unfolding start_recoveries start_recovery_of
start_recoveries-From c generation [] f = f
start_recoveries-From c generation (k ∷ ks) f =
    start_recoveries-From (start_recovery_of c generation k) generation ks (
      From-if (c.topics k).blocks_reconnect (λ _. f)
        (λ _. start_channel_recovery-From c k (some generation) f))
