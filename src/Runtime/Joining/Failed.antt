-- ===== src/Runtime/Joining/Failed.antt =====
-- What a caller sees of a join that fails.
use phoenix_channels_python.Base.{
  ℕ, ◌≡◌, refl, inl, inr, true, none, arith, ==-self, Bool-cases, Exc, timeout_error, channel_error,
  join_deadline, was_left, ◌∙◌, ◌≢◌, ◌||◌, ◌&&◌, not,
}
use phoenix_channels_python.Topic.{ChannelCause, configuration, timeout, leave, is_left, is_created}
use phoenix_channels_python.Runtime.{Client, create_task}
use phoenix_channels_python.Runtime.Invariant.{From-refl, Inv}
use phoenix_channels_python.Runtime.Transition.{
  transition_channel, lose_channel, mark_lost, lost_state, is_recoverable,
}
use phoenix_channels_python.Runtime.Transition.Life.{topic-lose_channel}
use phoenix_channels_python.Runtime.Tasks.{leave_first, start_leave_task}
use phoenix_channels_python.Runtime.Calls.{leave_created}
use phoenix_channels_python.Runtime.Leaving.{leave_channel}
use phoenix_channels_python.Runtime.Joining.{
  is_channel_error, is_encoding_error, is_settled_cause, configuration_error, join_refused,
  join_failed, finish_failed_join,
}
use phoenix_channels_python.Runtime.Joining.Keeping.{join_failed-From, finish_failed_join-From}

module _ (c : Client) (k : ℕ) (inv : Inv c) where
  left_first : is_left ((leave_first c k).topics k).state ≡ true
  unfolding leave_first transition_channel
  left_first = elim (Bool-cases (is_left (c.topics k).state)) [
    | inl e ↦ rw e e
    | inr e ↦
        rw (e, topic-lose_channel c k leave (channel_error was_left) inv)
          (unfold mark_lost lost_state is_recoverable in ground arith)
  ]

  -- A leave that is asked for leaves the channel at once, before the server hears of it.
  pub leave_channel-left :
      (c.topics k).leave_task ≡ none → is_left ((leave_channel c k).topics k).state ≡ true
  unfolding leave_channel leave_created start_leave_task create_task
  leave_channel-left idle = elim (Bool-cases (is_created (c.topics k).state)) [
    | inl new ↦ rw (new, ==-self k) refl
    | inr old ↦ rw (old, idle, ==-self k) left_first
  ]

  lost_idle :
      (cause : ChannelCause) (e : Exc)
      → ((lose_channel c k cause e).topics k).leave_task ≡ (c.topics k).leave_task
  lost_idle cause e =
      rw (topic-lose_channel c k cause e inv) (unfold mark_lost in rw (==-self k) refl)

  refused_idle : (e : Exc) → ((join_refused c k e).1.topics k).leave_task ≡ (c.topics k).leave_task
  unfolding join_refused transition_channel
  refused_idle e =
      elim (Bool-cases (
        (is_channel_error e || is_encoding_error e) && not (is_settled_cause (c.topics k).cause))) [
          | inl t ↦ rw t (lost_idle configuration (configuration_error e))
          | inr t ↦ rw t refl
        ]

  failed_idle : (e : Exc) → ((join_failed c k e).1.topics k).leave_task ≡ (c.topics k).leave_task
  unfolding join_failed transition_channel
  failed_idle timeout_error = lost_idle timeout (channel_error join_deadline)
  failed_idle e = refused_idle e

raised_no_timeout : (c : Client) (k : ℕ) (e : Exc) → (finish_failed_join c k e).0 ≢ timeout_error
unfolding finish_failed_join
raised_no_timeout c k timeout_error p = cc
raised_no_timeout c k e p = cc

finished-leave_channel :
    (c : Client) (k : ℕ) (e : Exc) → (finish_failed_join c k e).1 ≡ leave_channel c k
unfolding finish_failed_join
finished-leave_channel c k timeout_error = refl
finished-leave_channel c k e = refl

-- When the join that a caller has started raises, by `_join` itself or in the wait for it, in a client
-- that holds the invariant and on a channel that no leave task works for, the channel is left when the
-- caller hears of it, its leave has been requested, and what the caller gets is no bare TimeoutError.
-- Joins that the checks before the start refuse are not meant.
pub finish_failed_join-left :
    (c : Client) (k : ℕ) (e : Exc)
    → Inv c
    → (c.topics k).leave_task ≡ none
    → let (raised, d) = join_failed c k e in
      let (seen, last) = finish_failed_join d k raised in
      (is_left (last.topics k).state ≡ true)
      × ((last.topics k).leave_requested ≡ true)
      × (seen ≢ timeout_error)
finish_failed_join-left c k e inv idle =
    let (raised, d) = join_failed c k e in
    let f = join_failed-From c k (From-refl c inv) e in
    let g = finish_failed_join-From d k f raised in
    let gone : is_left ((finish_failed_join d k raised).1.topics k).state ≡ true =
      rw (finished-leave_channel d k raised)
        (leave_channel-left d k f.inv (failed_idle c k inv e ∙ idle)) in
    (gone, (g.topic k).requested ∙ gone, raised_no_timeout d k raised)
