-- ===== src/Processor.antt =====
-- The task that hands a channel's queued messages to the user's handlers: `_process_topic_messages`,
-- `_snapshot_handlers`, `_handle_normal_message_mode` and `_run_handlers` of topic_runtime.py.
pub mod Order
pub mod Keeping
pub mod Handlers
use phoenix_channels_python.Base.{
  ℕ, zero, suc, ◌≡◌, refl, Bool, true, false, ◌&&◌, ◌||◌, not, Option, none, some, List, [], ◌∷◌,
  arith, is_some, if◌then◌else◌, Exc,
}
use phoenix_channels_python.Messages.{Message, ProtocolVersion}
use phoenix_channels_python.Topic.{Topic, is_left, get_event_handler}
use phoenix_channels_python.Runtime.{Client, set_topic, channel_joined}
use phoenix_channels_python.Runtime.Tasks.{start_topic_loss}
use phoenix_channels_python.Handler.{is_stale_join}

-- One run of `_run_handlers`: first the channel's handler of all messages, then that of the event.
pub record Call : Type 0 where
  pub message : Message
  pub message_handler : Option ℕ
  pub event_handler : Option ℕ

-- `_snapshot_handlers`
unfoldable pub snapshot_handlers : Topic → Message → Call
snapshot_handlers t m = record {
  message = m;
  message_handler = t.on_any;
  event_handler = get_event_handler t m.event;
}

-- `_handle_normal_message_mode`: the handlers that run, if there is one. What a handler raises is
-- logged, and the task goes on.
unfoldable pub handle_normal_message : Topic → Message → Option Call
handle_normal_message t m =
    let call = snapshot_handlers t m in
    if not (is_some call.message_handler) && not (is_some call.event_handler)
    then none
    else some call

-- What the loop does with a message that it took.
unfoldable pub process_message : ProtocolVersion → Client → ℕ → Message → Option Call
process_message version c k m =
    let t = c.topics k in
    if is_stale_join version m t.join_ref
    then none
    else if channel_joined c k
    then handle_normal_message t m
    else none

-- A round of the loop: it ends, it waits for a message, or it took one.
pub data Round : Type 0 where
  ended waits : Round
  took : Option Call → Round

-- The round's rest, when `queue.get()` has returned.
unfoldable pub take_message : ProtocolVersion → Client → ℕ → Message → Round
take_message version c k m =
    if (c.topics k).restart_requested then ended else took (process_message version c k m)

abbrev set_queue : Client → ℕ → List Message → Client
set_queue c k q = set_topic c k (record (c.topics k) { queue = q })

take_first : ProtocolVersion → Client → ℕ → List Message → Round × Client
take_first version c k [] = (waits, c)
take_first version c k (m ∷ q) = (take_message version c k m, set_queue c k q)

unfoldable pub process_round : ProtocolVersion → Client → ℕ → Round × Client
unfolding take_first
process_round version c k =
    if is_left (c.topics k).state then (ended, c) else take_first version c k (c.topics k).queue

-- `except Exception`: the channel is lost.
unfoldable pub processor_failed : Client → ℕ → Exc → Client
processor_failed c k e = start_topic_loss c k e

-- What handlers do to the client while they run.
abbrev pub Callbacks : Type 0
Callbacks = Call → Client → Client

-- What follows a round.
abbrev pub after_round :
    Callbacks → (rest : Client → List Call × Client) → Round × Client → List Call × Client
after_round callbacks rest (ended, c) = ([], c)
after_round callbacks rest (waits, c) = ([], c)
after_round callbacks rest (took none, c) = rest c
after_round callbacks rest (took (some call), c) =
    let (calls, d) = rest (callbacks call c) in (call ∷ calls, d)

-- `_process_topic_messages` for a number of rounds: the calls, in their order, and the client.
unfoldable pub process_topic_messages :
    ℕ → ProtocolVersion → Callbacks → Client → ℕ → List Call × Client
process_topic_messages zero version callbacks c k = ([], c)
process_topic_messages (suc rounds) version callbacks c k =
    after_round callbacks (λ d. process_topic_messages rounds version callbacks d k)
      (process_round version c k)
