-- ===== src/Runtime/Losses.antt =====
-- `_fail_pending_joins` and `_retire_channels`: what becomes of every channel when the connection is
-- lost or the client stops.
pub mod Keeping
pub mod Life
use phoenix_channels_python.Base.{
  is_some, ℕ, ◌≡◌, refl, Bool, true, false, ◌&&◌, ◌||◌, not, Option, none, some, List, [], ◌∷◌,
  arith, ◌==◌, if◌then◌else◌, Exc,
}
use phoenix_channels_python.Futures.{exception, settle}
use phoenix_channels_python.Topic.{Topic, transport, stop, is_left, values}
use phoenix_channels_python.Runtime.{Client, same_connection}
use phoenix_channels_python.Runtime.Transition.{transition_channel}
use phoenix_channels_python.Runtime.Tasks.{start_leave_task, release_reservation}
use phoenix_channels_python.Runtime.Control.{set_terminal}

-- `_set_future_exception` of a channel's leave.
unfoldable pub fail_leave : Client → ℕ → Exc → Client
fail_leave c k error = record c {
  futures = settle c.futures (c.topics k).unsubscribe_completed (exception error);
}

-- The end of the loop's body, for a channel that had not left.
unfoldable pub after_loss : Client → ℕ → Exc → Client
after_loss c k error =
    let c' = if (c.topics k).leave_requested then fail_leave c k error else c in
    if is_left (c'.topics k).state && not (is_some (c'.topics k).leave_task)
    then start_leave_task c' k
    else c'

-- The body of the loop of `_fail_pending_joins`.
unfoldable pub fail_pending_join : Client → ℕ → Exc → Client
fail_pending_join c k error =
    let t = c.topics k in
    if is_some t.connection && not (same_connection t.connection c.connection)
    then c
    else if is_left t.state
    then fail_leave c k error
    else after_loss (transition_channel c k transport (some error)) k error

unfoldable pub fail_joins_of : Client → List ℕ → Exc → Client
fail_joins_of c [] error = c
fail_joins_of c (k ∷ ks) error = fail_joins_of (fail_pending_join c k error) ks error

-- `_fail_pending_joins`
unfoldable pub fail_pending_joins : Client → Exc → Client
unfolding fail_joins_of
fail_pending_joins c error = fail_joins_of c (values c.topic_subscriptions) error

-- The body of the loop of `_retire_channels`.
unfoldable pub retire_channel : Client → ℕ → Exc → Client
retire_channel c k error =
    let c' = transition_channel c k stop (some error) in
    if same_connection (c'.topics k).connection c'.connection
    then c'
    else release_reservation (start_leave_task (set_terminal c' k) k) k

unfoldable pub retire_all : Client → List ℕ → Exc → Client
retire_all c [] error = c
retire_all c (k ∷ ks) error = retire_all (retire_channel c k error) ks error

-- `_retire_channels`
unfoldable pub retire_channels : Client → Exc → Client
unfolding retire_all
retire_channels c error = retire_all c (values c.topic_subscriptions) error
