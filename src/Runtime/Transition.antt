-- ===== src/Runtime/Transition.antt =====
-- `_transition_channel` and `_fail_current_join`.
pub mod Parts
pub mod Life
pub mod Accept
use phoenix_channels_python.Base.{
  ℕ, ◌≡◌, refl, Bool, true, false, ◌&&◌, ◌||◌, not, Option, none, some, List, [], ◌∷◌, arith, ◌==◌,
  if◌then◌else◌, Exc, channel_error, Why, not_joined,
}
use phoenix_channels_python.Text.{Text}
use phoenix_channels_python.Futures.{
  Future, Store, pending, result, exception, is_done, settle, fail_all, update,
}
use phoenix_channels_python.Topic.{
  Topic, ChannelState, ChannelCause, created, joining, joined, rejoining, left, accepted, rejected,
  configuration, crash, close, transport, timeout, leave, stop, values, is_left,
}
use phoenix_channels_python.Runtime.{Client, set_topic, create_future}

-- `_fail_current_join`: a join that is done gets a new future, which has failed.
unfoldable pub fail_current_join : Client → ℕ → Exc → Client
unfolding create_future
fail_current_join c k error =
    let t = c.topics k in
    let (fresh, c') = create_future c in
    if is_done (c.futures t.current_join_ready)
    then record c' {
      topics = update c'.topics k (record t { current_join_ready = fresh });
      futures = settle c'.futures fresh (exception error);
    }
    else record c { futures = settle c.futures t.current_join_ready (exception error) }

-- `cause in {CRASH, TRANSPORT, TIMEOUT}`
unfoldable pub is_recoverable : ChannelCause → Bool
is_recoverable crash = true
is_recoverable transport = true
is_recoverable timeout = true
is_recoverable _ = false

-- Where a channel goes that is not accepted.
unfoldable pub lost_state : Client → Topic → ChannelCause → ChannelState
unfolding is_recoverable
lost_state c t cause =
    if t.established && is_recoverable cause && not t.leave_requested && not c.shutdown_requested
    then rejoining
    else left

abbrev or_not_joined : Option Exc → Exc
or_not_joined none = channel_error not_joined
or_not_joined (some e) = e

-- The `ACCEPTED` branch.
unfoldable pub accept_channel : Client → ℕ → Client
accept_channel c k =
    let t = record (c.topics k) { cause = some accepted } in
    if is_left t.state || t.leave_requested then set_topic c k t else record c {
      topics = update c.topics k (record t { state = joined; established = true });
      futures = settle c.futures t.current_join_ready (result none);
    }

-- The other branches: the channel is marked, its join fails, and so do its pushes.
unfoldable pub mark_lost : Client → ℕ → ChannelCause → Client
unfolding lost_state
mark_lost c k cause =
    let t = c.topics k in
    let state = lost_state c t cause in
    set_topic c k (record t {
      cause = some cause;
      state = state;
      leave_requested = t.leave_requested || is_left state;
    })

unfoldable pub fail_pushes : Client → ℕ → Exc → Client
fail_pushes c k failure =
    let t = c.topics k in
    record c {
      futures = fail_all c.futures (values t.pending_pushes) failure;
      topics = update c.topics k (record t { pending_pushes = [] });
    }

unfoldable pub lose_channel : Client → ℕ → ChannelCause → Exc → Client
lose_channel c k cause failure =
    fail_pushes (fail_current_join (mark_lost c k cause) k failure) k failure

unfoldable pub transition_channel : Client → ℕ → ChannelCause → Option Exc → Client
transition_channel c k accepted error = accept_channel c k
transition_channel c k cause error = lose_channel c k cause (or_not_joined error)
