-- ===== src/Runtime/Losses/Life.antt =====
-- What becomes of the channels leaves the client's own state, its shutdown and its connection alone.
use phoenix_channels_python.Base.{
  ℕ, ◌≡◌, refl, ◌∙◌, Bool, true, false, ◌&&◌, not, is_some, Option, some, List, [], ◌∷◌,
  if◌then◌else◌, Exc,
}
use phoenix_channels_python.Topic.{ChannelCause, accepted, transport, is_left, values}
use phoenix_channels_python.Runtime.{Client, same_connection, create_task, create_future}
use phoenix_channels_python.Runtime.Transition.{
  fail_current_join, accept_channel, mark_lost, fail_pushes, lose_channel, transition_channel,
}
use phoenix_channels_python.Runtime.Tasks.{release_reservation, leave_first, start_leave_task}
use phoenix_channels_python.Runtime.Control.{set_terminal}
use phoenix_channels_python.Runtime.Losses.{
  fail_leave, after_loss, fail_pending_join, fail_joins_of, fail_pending_joins, retire_channel,
  retire_all, retire_channels,
}

pub record Life (c d : Client) : Type 0 where
  pub state : d.state ≡ c.state
  pub stopping : d.shutdown_requested ≡ c.shutdown_requested
  pub connection : d.connection ≡ c.connection

pub Life-refl : (c : Client) → Life c c
Life-refl c = record { state = refl; stopping = refl; connection = refl }

pub Life-trans : {c d e : Client} → Life c d → Life d e → Life c e
Life-trans a b = record {
  state = b.state ∙ a.state;
  stopping = b.stopping ∙ a.stopping;
  connection = b.connection ∙ a.connection;
}

pub Life-if :
    {c : Client} (b : Bool) (x y : Client) → Life c x → Life c y → Life c (if b then x else y)
Life-if true x y h i = h
Life-if false x y h i = i

abbrev same :
    {c d : Client}
    → d.state ≡ c.state
    → d.shutdown_requested ≡ c.shutdown_requested
    → d.connection ≡ c.connection
    → Life c d
same p q r = record { state = p; stopping = q; connection = r }

fail_current_join-Life : (c : Client) (k : ℕ) (e : Exc) → Life c (fail_current_join c k e)
unfolding fail_current_join create_future
fail_current_join-Life c k e = Life-if _ _ _ (same refl refl refl) (same refl refl refl)

accept_channel-Life : (c : Client) (k : ℕ) → Life c (accept_channel c k)
unfolding accept_channel
accept_channel-Life c k = Life-if _ _ _ (same refl refl refl) (same refl refl refl)

lose_channel-Life :
    (c : Client) (k : ℕ) (cause : ChannelCause) (e : Exc) → Life c (lose_channel c k cause e)
unfolding lose_channel mark_lost fail_pushes
lose_channel-Life c k cause e =
    let marked : Life c (mark_lost c k cause) = same refl refl refl in
    let failed = Life-trans marked (fail_current_join-Life (mark_lost c k cause) k e) in
    Life-trans failed (same refl refl refl)

pub transition_channel-Life :
    (c : Client) (k : ℕ) (cause : ChannelCause) (e : Option Exc)
    → Life c (transition_channel c k cause e)
unfolding transition_channel
transition_channel-Life c k accepted e = accept_channel-Life c k
transition_channel-Life c k cause e = lose_channel-Life c k cause _

pub release_reservation-Life : (c : Client) (k : ℕ) → Life c (release_reservation c k)
unfolding release_reservation
release_reservation-Life c k = Life-if _ _ _ (same refl refl refl) (Life-refl c)

leave_first-Life : (c : Client) (k : ℕ) → Life c (leave_first c k)
unfolding leave_first
leave_first-Life c k = Life-if _ _ _ (Life-refl c) (transition_channel-Life c k _ _)

pub start_leave_task-Life : (c : Client) (k : ℕ) → Life c (start_leave_task c k)
unfolding start_leave_task create_task
start_leave_task-Life c k =
    Life-if _ _ _ (Life-refl c) (Life-trans (leave_first-Life c k) (same refl refl refl))

pub set_terminal-Life : (c : Client) (k : ℕ) → Life c (set_terminal c k)
unfolding set_terminal
set_terminal-Life c k = same refl refl refl

after_loss-Life : (c : Client) (k : ℕ) (e : Exc) → Life c (after_loss c k e)
unfolding after_loss fail_leave
after_loss-Life c k e =
    let told =
      Life-if (c.topics k).leave_requested (fail_leave c k e) c (same refl refl refl)
        (Life-refl c) in
    Life-if _ _ _ (Life-trans told (start_leave_task-Life _ k)) told

fail_pending_join-Life : (c : Client) (k : ℕ) (e : Exc) → Life c (fail_pending_join c k e)
unfolding fail_pending_join fail_leave
fail_pending_join-Life c k e =
    let t = c.topics k in
    Life-if (is_some t.connection && not (same_connection t.connection c.connection)) c _
      (Life-refl c)
      (Life-if (is_left t.state) (fail_leave c k e) _ (same refl refl refl)
        (Life-trans (transition_channel-Life c k transport (some e)) (after_loss-Life _ k e)))

fail_joins_of-Life : (c : Client) (ks : List ℕ) (e : Exc) → Life c (fail_joins_of c ks e)
unfolding fail_joins_of
fail_joins_of-Life c [] e = Life-refl c
fail_joins_of-Life c (k ∷ ks) e =
    Life-trans (fail_pending_join-Life c k e) (fail_joins_of-Life (fail_pending_join c k e) ks e)

pub fail_pending_joins-Life : (c : Client) (e : Exc) → Life c (fail_pending_joins c e)
unfolding fail_pending_joins
fail_pending_joins-Life c e = fail_joins_of-Life c (values c.topic_subscriptions) e

retire_channel-Life : (c : Client) (k : ℕ) (e : Exc) → Life c (retire_channel c k e)
unfolding retire_channel
retire_channel-Life c k e =
    let stopped = transition_channel-Life c k _ (some e) in
    Life-if _ _ _ stopped (
      Life-trans stopped (
        Life-trans (set_terminal-Life _ k)
          (Life-trans (start_leave_task-Life _ k) (release_reservation-Life _ k))))

retire_all-Life : (c : Client) (ks : List ℕ) (e : Exc) → Life c (retire_all c ks e)
unfolding retire_all
retire_all-Life c [] e = Life-refl c
retire_all-Life c (k ∷ ks) e =
    Life-trans (retire_channel-Life c k e) (retire_all-Life (retire_channel c k e) ks e)

pub retire_channels-Life : (c : Client) (e : Exc) → Life c (retire_channels c e)
unfolding retire_channels
retire_channels-Life c e = retire_all-Life c (values c.topic_subscriptions) e
