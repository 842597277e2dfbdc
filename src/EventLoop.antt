-- ===== src/EventLoop.antt =====
-- The client's event loop: what its tasks, the callers and the server may do between two waits, in
-- any order. A step is what runs from one `await` to the next.
pub mod Safety
pub mod Replies
use phoenix_channels_python.Base.{
  ℕ, ◌+◌, ◌<◌, ◌≡◌, Bool, true, false, Option, none, some, List, ok, Exc,
}
use phoenix_channels_python.Text.{Text}
use phoenix_channels_python.Text.Decimal.{decimal}
use phoenix_channels_python.Json.{Library}
use phoenix_channels_python.Messages.{Message, ChannelEvent, Value, ProtocolVersion}
use phoenix_channels_python.Codec.{Frame}
use phoenix_channels_python.ClientState.{ClientState}
use phoenix_channels_python.Futures.{Future, is_done, settle}
use phoenix_channels_python.Topic.{is_joined, is_left, is_created}
use phoenix_channels_python.Runtime.{Client, same_connection}
use phoenix_channels_python.Runtime.Control.{HookResult}
use phoenix_channels_python.Runtime.Tasks.{start_channel_recovery, start_topic_loss}
use phoenix_channels_python.Runtime.Losses.{fail_pending_joins, retire_channels}
use phoenix_channels_python.Runtime.Calls.{start_join, Pushed, start_push, finish_push}
use phoenix_channels_python.Runtime.Leaving.{
  leave_channel, begin_leave, finish_cleanup, report_topic_lost, lose_topic_first,
}
use phoenix_channels_python.Runtime.Joining.{
  Options, channel, start_operation, begin_operation, join_failed, finish_failed_join,
}
use phoenix_channels_python.Runtime.Rejoining.{
  begin_rejoin, resume_rejoin, handle_rejoin_failure, report_rejoin_loss, start_recoveries,
  after_attempt,
}
use phoenix_channels_python.Runtime.Sending.{Owned, is_session, fail_send_session}
use phoenix_channels_python.Supervisor.Connection.{end_topics}
use phoenix_channels_python.Handler.{route_to}
use phoenix_channels_python.Processor.{process_round, processor_failed}

-- `version` and `lib` are fixed for a client's life. A task may run only where its code lets it: the
-- premises say what the code has checked before, or what the waits before guarantee.
pub data Step (lib : Library) (version : ProtocolVersion) (c : Client) : Client → Type 0 where
  -- A caller makes a channel; its number has not been used.
  opens :
      (name : Text) (options : Options)
      → is_created (c.topics c.next_topic).state ≡ true
      → (c.topics c.next_topic).established ≡ false
      → Step lib version c (channel c name options).1
  -- A caller joins, and the join's task fails.
  joins : (k : ℕ) {d : Client} → start_join c k ≡ ok d → Step lib version c d
  join_fails : (k : ℕ) (e : Exc) → Step lib version c (join_failed c k e).1
  join_ends : (k : ℕ) (e : Exc) → Step lib version c (finish_failed_join c k e).1
  -- A send of a join, leave or push is started, and its frame is about to be written.
  sends :
      (k : ℕ) (m : Message) (outcome : ℕ) {x : Frame × Client}
      → start_operation lib version c k m outcome ≡ ok x
      → Step lib version c x.1
  writes : (k : ℕ) (m : Message) → Step lib version c (begin_operation c k m)
  -- A caller pushes, and its wait ends, when its outcome is done. A push whose send is refused has no
  -- wait: it is forgotten in the same step.
  pushes :
      (k : ℕ) (event : ChannelEvent) (value : Value) (timeout : Option ℕ) {p : Pushed}
      → start_push c k event value timeout ≡ ok p
      → Step lib version c p.client
  refuses_push :
      (k : ℕ) (event : ChannelEvent) (value : Value) (timeout : Option ℕ) {p : Pushed}
      → start_push c k event value timeout ≡ ok p
      → Step lib version c (finish_push p.client k (decimal (c.ref_counter + 1)) p.outcome)
  push_ends :
      (k : ℕ) (ref : Text) (outcome : ℕ)
      → is_done (c.futures outcome) ≡ true
      → Step lib version c (finish_push c k ref outcome)
  -- A send session settles a future of a send, or a caller is cancelled.
  settles :
      (f : ℕ) (v : Future)
      → f < c.next_future
      → Step lib version c (record c { futures = settle c.futures f v })
  -- A message of the server is routed.
  receives :
      (generation k : ℕ) (m : Message) (status : Option Text) (h : HookResult)
      → Step lib version c (route_to version generation c k m status h)
  -- A processor takes a message, or fails.
  processes : (k : ℕ) → Step lib version c (process_round version c k).1
  processor_fails : (k : ℕ) (e : Exc) → Step lib version c (processor_failed c k e)
  -- A channel leaves, and its cleanup goes on.
  leaves : (k : ℕ) → Step lib version c (leave_channel c k)
  begins_leave : (k : ℕ) → Step lib version c (begin_leave c k).1
  cleans_up : (k : ℕ) → Step lib version c (finish_cleanup c k)
  loses : (k : ℕ) (e : Exc) → Step lib version c (lose_topic_first c k e).1
  reports : (k : ℕ) → Step lib version c (report_topic_lost c k).1
  -- A recovery or a rejoin goes on. No join is accepted between the two parts of a rejoin, since the
  -- first one has ended the channel's join.
  begins_rejoin : (k : ℕ) → Step lib version c (begin_rejoin c k).1
  resumes_rejoin :
      (k generation : ℕ)
      → is_joined (c.topics k).state ≡ false
      → Step lib version c (resume_rejoin c k generation).1
  rejoin_fails : (k : ℕ) → Step lib version c (handle_rejoin_failure c k).1
  reports_rejoin : (k : Option ℕ) → Step lib version c (report_rejoin_loss c k)
  recovers : (generation : ℕ) (ks : List ℕ) → Step lib version c (start_recoveries c generation ks)
  attempted : (k : ℕ) (e : Option Exc) → Step lib version c (after_attempt c k e).1
  -- The supervisor adopts a connection, gives it up, or stops the client.
  connects :
      (connection : ℕ) (state : ClientState)
      → Step lib version c (record c {
        connection = some connection;
        conn_generation = c.conn_generation + 1;
        state = state;
      })
  disconnects :
      (e : Exc) (state : ClientState)
      → Step lib version c (record (fail_pending_joins c e) { connection = none; state = state })
  retires :
      (e : Exc) (state : ClientState)
      → Step lib version c
          (retire_channels (record c { shutdown_requested = true; state = state }) e)
  -- A send session that is the client's own reports a failure on its connection.
  send_fails :
      (current : Option Owned) (s : Owned) (e : Exc) {d : Client}
      → same_connection c.connection s.connection ≡ true
      → is_session current s ≡ true
      → fail_send_session c current s e ≡ ok d
      → Step lib version c d
  -- The end of a connection reaches channels that used it.
  closes : (connection : Option ℕ) (ks : List ℕ) → Step lib version c (end_topics c connection ks)
  -- A task ends, or a send does.
  ends :
      (finished sending : ℕ → Bool)
      → Step lib version c (record c { finished = finished; sending = sending })

-- Clients that steps lead to.
pub data Reach (lib : Library) (version : ProtocolVersion) (c : Client) : Client → Type 0 where
  start : Reach lib version c c
  later : {d e : Client} → Reach lib version c d → Step lib version d e → Reach lib version c e
