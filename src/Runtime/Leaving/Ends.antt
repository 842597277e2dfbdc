-- ===== src/Runtime/Leaving/Ends.antt =====
-- How a leave ends: the server's answer reaches its future, and the name becomes free.
use phoenix_channels_python.Base.{ℕ, false, ◌≡◌, true, false, none, arith, any, not, ◌||◌, ==-self}
use phoenix_channels_python.Text.{Text, codes, text_eq_iff}
use phoenix_channels_python.Json.{Json, text, get}
use phoenix_channels_python.Messages.{Payload, dict, bytes}
use phoenix_channels_python.Topic.{Topic, lookup, lookup-remove, is_left}
use phoenix_channels_python.Runtime.{Client, is_registered}
use phoenix_channels_python.Runtime.Tasks.{may_release, release_reservation}
use phoenix_channels_python.Runtime.Leaving.{finish_cleanup}

-- When the cleanup of a channel that left is done, its name is free again, if the channel has it, the
-- server knows no join of the channel or has ended it, and none of its sends is still under way.
pub lookup-finish_cleanup :
    (c : Client) (k : ℕ)
    → is_registered c k ≡ true
    → is_left (c.topics k).state ≡ true
    → (not (c.topics k).join_submitted || (c.topics k).terminal_received) ≡ true
    → any c.sending (c.topics k).send_outcomes ≡ false
    → lookup (c.topics k).name (finish_cleanup c k).topic_subscriptions ≡ none
unfolding finish_cleanup release_reservation may_release is_registered
lookup-finish_cleanup c k registered gone ended idle = ground (
  arith,
  ==-self k,
  text_eq_iff (c.topics k).name (c.topics k).name,
  lookup-remove (c.topics k).name (c.topics k).name c.topic_subscriptions,
)

-- The server's answer to a leave that succeeds.
abbrev pub IsOk : Payload → Type 0
IsOk (dict d) = get (codes "status") d ≡ text (codes "ok")
IsOk (bytes b) = ⊥
