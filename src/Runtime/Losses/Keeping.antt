-- ===== src/Runtime/Losses/Keeping.antt =====
-- Losing the connection and stopping keep the invariant, and stopping leaves every channel.
use phoenix_channels_python.Base.{
  is_some, ℕ, ◌≡◌, true, ◌&&◌, not, some, List, [], ◌∷◌, arith, if◌then◌else◌, Exc, All,
}
use phoenix_channels_python.Futures.{exception}
use phoenix_channels_python.Topic.{transport, stop, is_left, values}
use phoenix_channels_python.Runtime.{Client, same_connection}
use phoenix_channels_python.Runtime.Invariant.{From, From-refl}
use phoenix_channels_python.Runtime.Transition.{
  transition_channel, mark_lost, lost_state, is_recoverable,
}
use phoenix_channels_python.Runtime.Transition.Life.{topic-lose_channel}
use phoenix_channels_python.Runtime.Transition.Accept.{transition_channel-From}
use phoenix_channels_python.Runtime.Tasks.{start_leave_task, release_reservation}
use phoenix_channels_python.Runtime.Tasks.Keeping.{
  From-if, start_leave_task-From, release_reservation-From,
}
use phoenix_channels_python.Runtime.Control.{set_terminal}
use phoenix_channels_python.Runtime.Control.Branches.{set_terminal-From}
use phoenix_channels_python.Runtime.Control.Pushes.{settle-From}
use phoenix_channels_python.Runtime.Losses.{
  fail_leave, after_loss, fail_pending_join, fail_joins_of, fail_pending_joins, retire_channel,
  retire_all, retire_channels,
}

fail_leave-From : {o : Client} (c : Client) (k : ℕ) (e : Exc) → From o c → From o (fail_leave c k e)
unfolding fail_leave
fail_leave-From c k e f =
    settle-From c (c.topics k).unsubscribe_completed (exception e) (f.topic k).known_leave f

after_loss-From : {o : Client} (c : Client) (k : ℕ) (e : Exc) → From o c → From o (after_loss c k e)
unfolding after_loss
after_loss-From c k e f =
    let i = From-if (c.topics k).leave_requested (λ _. fail_leave-From c k e f) (λ _. f) in
    From-if _ (λ _. start_leave_task-From _ k i) (λ _. i)

fail_pending_join-From :
    {o : Client} (c : Client) (k : ℕ) (e : Exc) → From o c → From o (fail_pending_join c k e)
unfolding fail_pending_join
fail_pending_join-From c k e f =
    From-if
      (is_some (c.topics k).connection
        && not (same_connection (c.topics k).connection c.connection))
      (λ _. f)
      (λ _.
        From-if (is_left (c.topics k).state) (λ _. fail_leave-From c k e f)
          (λ _.
            after_loss-From (transition_channel c k transport (some e)) k e
              (transition_channel-From c k f transport (some e) (λ h. absurd (ground arith)))))

fail_joins_of-From :
    {o : Client} (c : Client) (ks : List ℕ) (e : Exc) → From o c → From o (fail_joins_of c ks e)
unfolding fail_joins_of
fail_joins_of-From c [] e f = f
fail_joins_of-From c (k ∷ ks) e f =
    fail_joins_of-From (fail_pending_join c k e) ks e (fail_pending_join-From c k e f)

-- From a client that holds the invariant, `_fail_pending_joins` ends in one that holds it; no future
-- that was done changes, and no channel that was left comes back.
pub fail_pending_joins-From :
    {o : Client} (c : Client) (e : Exc) → From o c → From o (fail_pending_joins c e)
unfolding fail_pending_joins
fail_pending_joins-From c e f = fail_joins_of-From c (values c.topic_subscriptions) e f

retired-From :
    {o : Client} (c : Client) (k : ℕ)
    → From o c
    → From o (
        if same_connection (c.topics k).connection c.connection
        then c
        else release_reservation (start_leave_task (set_terminal c k) k) k)
retired-From c k f =
    From-if _ (λ _. f)
      (λ _. release_reservation-From _ k (start_leave_task-From _ k (set_terminal-From c k f)))

module _ {o : Client} (c : Client) (k : ℕ) (e : Exc) (f : From o c) where
  retire_channel-From : From o (retire_channel c k e)
  unfolding retire_channel
  retire_channel-From =
      retired-From _ k (transition_channel-From c k f stop (some e) (λ h. absurd (ground arith)))

  stopped-left : is_left ((transition_channel c k stop (some e)).topics k).state ≡ true
  unfolding transition_channel
  stopped-left =
      rw (topic-lose_channel c k stop e f.inv)
        (unfold mark_lost lost_state is_recoverable in ground arith)

  retire_channel-left : is_left ((retire_channel c k e).topics k).state ≡ true
  unfolding retire_channel
  retire_channel-left =
      let i = transition_channel-From c k f stop (some e) (λ h. absurd (ground arith)) in
      (retired-From _ k (From-refl _ i.inv)).left_stays k stopped-left

retire_all-From :
    {o : Client} (c : Client) (ks : List ℕ) (e : Exc) → From o c → From o (retire_all c ks e)
unfolding retire_all
retire_all-From c [] e f = f
retire_all-From c (k ∷ ks) e f =
    retire_all-From (retire_channel c k e) ks e (retire_channel-From c k e f)

retire_all-left :
    (c : Client) (ks : List ℕ) (e : Exc)
    → From c c
    → All (λ k. is_left ((retire_all c ks e).topics k).state ≡ true) ks
unfolding retire_all
retire_all-left c [] e f = tt
retire_all-left c (k ∷ ks) e f =
    let i = From-refl _ (retire_channel-From c k e f).inv in
    (
      (retire_all-From (retire_channel c k e) ks e i).left_stays k (retire_channel-left c k e f),
      retire_all-left (retire_channel c k e) ks e i,
    )

pub retire_channels-From :
    {o : Client} (c : Client) (e : Exc) → From o c → From o (retire_channels c e)
unfolding retire_channels
retire_channels-From c e f = retire_all-From c (values c.topic_subscriptions) e f

-- From a client that holds the invariant, `_retire_channels` ends in one that holds it, with every
-- future that was done unchanged, and every channel that was registered is left.
pub retire_channels-left :
    (c : Client) (e : Exc)
    → From c c
    → From c (retire_channels c e)
      × All
          (λ k. is_left ((retire_channels c e).topics k).state ≡ true)
          (values c.topic_subscriptions)
unfolding retire_channels
retire_channels-left c e f = (
  retire_all-From c (values c.topic_subscriptions) e f,
  retire_all-left c (values c.topic_subscriptions) e f,
)
