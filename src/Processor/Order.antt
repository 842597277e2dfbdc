-- ===== src/Processor/Order.antt =====
-- The order in which the user's handlers are given the messages of a queue.
use phoenix_channels_python.Base.{
  ℕ, zero, suc, ◌<◌, ◌≡◌, refl, sym, ap, ◌∙◌, Bool, false, Option, none, some, List, [], ◌∷◌, arith,
  ==-self, length, not, ◌&&◌, is_some, if◌then◌else◌, inl, inr, Option-cases, Bool-cases, map, keep,
  ◌||◌,
}
use phoenix_channels_python.Text.{Text}
use phoenix_channels_python.Messages.{event_text, Message, ProtocolVersion}
use phoenix_channels_python.Topic.{Topic, ChannelState, is_left, lookup, get_event_handler}
use phoenix_channels_python.Runtime.{
  Client, channel_joined, is_registered, is_on_current_connection, is_connected,
  is_current_join_ready,
}
use phoenix_channels_python.Handler.{is_stale_join}
use phoenix_channels_python.Processor.{
  Call, snapshot_handlers, handle_normal_message, process_message, Round, waits, took, take_message,
  take_first, process_round, set_queue, Callbacks, after_round, process_topic_messages,
}

abbrev prepend : Option Call → List Call → List Call
prepend none calls = calls
prepend (some call) calls = call ∷ calls

-- What the loop does with the messages of a queue, one after another.
handled : ProtocolVersion → Client → ℕ → List Message → List Call
handled version c k [] = []
handled version c k (m ∷ q) = prepend (process_message version c k m) (handled version c k q)

-- The handlers that a channel has for a message.
abbrev pub call_at : Topic → Message → Call
call_at t m = record {
  message = m;
  message_handler = t.on_any;
  event_handler = lookup (event_text m.event) t.handlers;
}

-- Is a message for the handlers?
abbrev pub is_due : ProtocolVersion → Client → ℕ → Message → Bool
is_due version c k m =
    let call = call_at (c.topics k) m in
    channel_joined c k
    && not (is_stale_join version m (c.topics k).join_ref)
    && (is_some call.message_handler || is_some call.event_handler)

process_message-due :
    (version : ProtocolVersion) (c : Client) (k : ℕ) (m : Message)
    → process_message version c k m
      ≡ (if is_due version c k m then some (call_at (c.topics k) m) else none)
unfolding process_message handle_normal_message snapshot_handlers get_event_handler
process_message-due version c k m = ground arith

handled-due :
    (version : ProtocolVersion) (c : Client) (k : ℕ) (q : List Message)
    → handled version c k q ≡ map (call_at (c.topics k)) (keep (is_due version c k) q)
unfolding handled
handled-due version c k [] = refl
handled-due version c k (m ∷ q) = elim (Bool-cases (is_due version c k m)) [
  | inl due ↦ rw (process_message-due version c k m, due, handled-due version c k q) refl
  | inr idle ↦ rw (process_message-due version c k m, idle, handled-due version c k q) refl
]

-- What the loop reads of a client, its queue aside.
pub record Reads : Type 0 where
  state : ChannelState
  restart_requested : Bool
  join_ref : Text
  handlers : List (Text × ℕ)
  on_any : Option ℕ
  joined : Bool

abbrev pub reads : Client → ℕ → Reads
reads c k =
    let t = c.topics k in
    record {
      state = t.state;
      restart_requested = t.restart_requested;
      join_ref = t.join_ref;
      handlers = t.handlers;
      on_any = t.on_any;
      joined = channel_joined c k;
    }

call_from : Reads → Message → Option Call
call_from r m =
    let handler = lookup (event_text m.event) r.handlers in
    if not (is_some r.on_any) && not (is_some handler)
    then none
    else some (record { message = m; message_handler = r.on_any; event_handler = handler })

call_for : ProtocolVersion → Reads → Message → Option Call
call_for version r m =
    if is_stale_join version m r.join_ref then none else if r.joined then call_from r m else none

process_message-reads :
    (version : ProtocolVersion) (c : Client) (k : ℕ) (m : Message)
    → process_message version c k m ≡ call_for version (reads c k) m
unfolding process_message handle_normal_message snapshot_handlers get_event_handler call_for
    call_from
process_message-reads version c k m = refl

handled-reads :
    (version : ProtocolVersion) (c d : Client) (k : ℕ) (q : List Message)
    → reads d k ≡ reads c k
    → handled version d k q ≡ handled version c k q
unfolding handled
handled-reads version c d k [] e = refl
handled-reads version c d k (m ∷ q) e =
    let one : process_message version d k m ≡ process_message version c k m =
      process_message-reads version d k m
      ∙ ap (λ r. call_for version r m) e
      ∙ sym (process_message-reads version c k m) in
    rw (one, handled-reads version c d k q e) refl

reads-set_queue : (c : Client) (k : ℕ) (q : List Message) → reads (set_queue c k q) k ≡ reads c k
unfolding channel_joined is_registered is_on_current_connection is_connected is_current_join_ready
reads-set_queue c k q = rw (==-self k) refl

queue-set_queue : (c : Client) (k : ℕ) (q : List Message) → ((set_queue c k q).topics k).queue ≡ q
queue-set_queue c k q = rw (==-self k) refl

process_round-empty :
    (version : ProtocolVersion) (c : Client) (k : ℕ)
    → (c.topics k).queue ≡ []
    → is_left (c.topics k).state ≡ false
    → process_round version c k ≡ (waits, c)
unfolding process_round
process_round-empty version c k e live = rw (live, e, take_first) refl

process_round-take :
    (version : ProtocolVersion) (c : Client) (k : ℕ) (m : Message) (q : List Message)
    → (c.topics k).queue ≡ m ∷ q
    → is_left (c.topics k).state ≡ false
    → (c.topics k).restart_requested ≡ false
    → process_round version c k ≡ (took (process_message version c k m), set_queue c k q)
unfolding process_round take_message
process_round-take version c k m q e live going = rw (live, e, take_first, going) refl

-- The loop, while handlers leave alone what it reads of the client and the queue.
module _ (version : ProtocolVersion) (callbacks : Callbacks) (k : ℕ)
    (same : (call : Call) (c : Client) → reads (callbacks call c) k ≡ reads c k)
    (same_queue : (call : Call) (c : Client)
      → ((callbacks call c).topics k).queue ≡ (c.topics k).queue) where
  after :
      (rounds : ℕ) (c : Client) (x : Round × Client)
      → process_round version c k ≡ x
      → process_topic_messages (suc rounds) version callbacks c k
        ≡ after_round callbacks (λ d. process_topic_messages rounds version callbacks d k) x
  unfolding process_topic_messages
  after rounds c x e =
      ap (after_round callbacks (λ d. process_topic_messages rounds version callbacks d k)) e

  process_topic_messages-handled :
      (rounds : ℕ) (c : Client) (q : List Message)
      → (c.topics k).queue ≡ q
      → is_left (c.topics k).state ≡ false
      → (c.topics k).restart_requested ≡ false
      → length q < rounds
      → let (calls, d) = process_topic_messages rounds version callbacks c k in
        (calls ≡ handled version c k q) × ((d.topics k).queue ≡ [])
  unfolding process_topic_messages handled
  process_topic_messages-handled zero c q e live going h = absurd (omega arith)
  process_topic_messages-handled (suc rounds) c [] e live going h =
      rw (after rounds c _ (process_round-empty version c k e live)) (refl, e)
  process_topic_messages-handled (suc rounds) c (m ∷ q) e live going h =
      let d = set_queue c k q in
      let still = reads-set_queue c k q in
      let step = after rounds c _ (process_round-take version c k m q e live going) in
      elim (Option-cases (process_message version c k m)) [
        | inl p ↦
            let ih =
              process_topic_messages-handled rounds d q (queue-set_queue c k q)
                (rw (==-self k) live) (rw (==-self k) going) (omega arith) in
            rw (step, p) (ih.0 ∙ handled-reads version c d k q still, ih.1)
        | inr (call, p) ↦
            let d' = callbacks call d in
            let st = same call d ∙ still in
            let ih =
              process_topic_messages-handled rounds d' q (same_queue call d ∙ queue-set_queue c k q)
                (rw (ap (λ (r : Reads). r.state) st) live)
                (rw (ap (λ (r : Reads). r.restart_requested) st) going) (omega arith) in
            rw (step, p)
              (ap (λ calls. call ∷ calls) (ih.0 ∙ handled-reads version c d' k q st), ih.1)
      ]

  -- While the channel has not left and no rejoin stops the loop, and the handlers leave alone the
  -- channel's queue and what the loop reads of the client, enough rounds hand the handlers those messages
  -- of the queue that are due, in the order of their arrival and each one once; the queue is empty then.
  -- A message is due when it is not of an old join, the channel is joined, and there is a handler of all
  -- messages or one of its event; the others are dropped.
  pub process_topic_messages-order :
      (rounds : ℕ) (c : Client) (q : List Message)
      → (c.topics k).queue ≡ q
      → is_left (c.topics k).state ≡ false
      → (c.topics k).restart_requested ≡ false
      → length q < rounds
      → let (calls, d) = process_topic_messages rounds version callbacks c k in
        (calls ≡ map (call_at (c.topics k)) (keep (is_due version c k) q))
        × ((d.topics k).queue ≡ [])
  process_topic_messages-order rounds c q e live going h =
      let (calls, empty) = process_topic_messages-handled rounds c q e live going h in
      (calls ∙ handled-due version c k q, empty)
