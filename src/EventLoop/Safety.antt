-- ===== src/EventLoop/Safety.antt =====
-- What no step of the event loop breaks.
use phoenix_channels_python.Base.{
  ℕ, ◌+◌, ◌⊎◌, inl, inr, ok, some, Option, false, ◌≡◌, refl, true, List, [], ◌∷◌, arith, Exc, All,
}
use phoenix_channels_python.Text.Decimal.{decimal}
use phoenix_channels_python.Futures.{is_done}
use phoenix_channels_python.Json.{Library}
use phoenix_channels_python.Messages.{ChannelEvent, Value, ProtocolVersion}
use phoenix_channels_python.Topic.{is_left, is_joined, lookup, values}
use phoenix_channels_python.Runtime.{Client}
use phoenix_channels_python.Runtime.Losses.{retire_channels}
use phoenix_channels_python.Runtime.Invariant.{Inv, From, From-refl}
use phoenix_channels_python.Runtime.Tasks.Keeping.{From-same, start_topic_loss-From}
use phoenix_channels_python.Runtime.Control.Pushes.{settle-From}
use phoenix_channels_python.Runtime.Losses.Keeping.{
  fail_pending_joins-From, retire_channels-From, retire_channels-left,
}
use phoenix_channels_python.Runtime.Calls.Keeping.{
  start_join-From, start_push-From, finish_push-From,
}
use phoenix_channels_python.Runtime.Calls.{Pushed, start_push}
use phoenix_channels_python.Runtime.Calls.Push.{start_push-lookup}
use phoenix_channels_python.Runtime.Calls.Refused.{refused_push-From}
use phoenix_channels_python.Runtime.Leaving.Keeping.{
  leave_channel-From, begin_leave-From, finish_cleanup-From, report_topic_lost-From,
  lose_topic_first-From,
}
use phoenix_channels_python.Runtime.Joining.Keeping.{
  channel-From, start_operation-From, begin_operation-From, join_failed-From,
  finish_failed_join-From,
}
use phoenix_channels_python.Runtime.Rejoining.Keeping.{
  begin_rejoin-From, resume_rejoin-From, handle_rejoin_failure-From, report_rejoin_loss-From,
  start_recoveries-From, after_attempt-From,
}
use phoenix_channels_python.Runtime.Sending.{fail_send_session-From}
use phoenix_channels_python.Supervisor.Connection.Keeping.{end_topics-From}
use phoenix_channels_python.Handler.Loop.{route_to-From}
use phoenix_channels_python.Processor.Keeping.{process_round-From}
use phoenix_channels_python.Processor.{processor_failed}
use phoenix_channels_python.EventLoop.{
  Step, Reach, start, later, opens, joins, join_fails, join_ends, sends, writes, pushes,
  refuses_push, push_ends, settles, receives, processes, processor_fails, leaves, begins_leave,
  cleans_up, loses, reports, begins_rejoin, resumes_rejoin, rejoin_fails, reports_rejoin, recovers,
  attempted, connects, disconnects, retires, send_fails, closes, ends,
}

module _ {lib : Library} {version : ProtocolVersion} where
  Step-From : {o c d : Client} → Step lib version c d → From o c → From o d
  Step-From {c = c} (opens name options new fresh) f = channel-From c name options f new fresh
  Step-From {c = c} (joins k h) f = start_join-From c k f h
  Step-From {c = c} (join_fails k e) f = join_failed-From c k f e
  Step-From {c = c} (join_ends k e) f = finish_failed_join-From c k f e
  Step-From {c = c} (sends k m outcome h) f = start_operation-From c k f lib version m outcome h
  Step-From {c = c} (writes k m) f = begin_operation-From c k f m
  Step-From {c = c} (pushes k event value timeout h) f = start_push-From c k event value timeout f h
  Step-From {c = c} (refuses_push k event value timeout h) f =
      refused_push-From c k event value timeout f h
  Step-From {c = c} (push_ends k ref outcome done) f = finish_push-From c k f ref outcome done
  Step-From {c = c} (settles j v h) f = settle-From c j v h f
  Step-From {c = c} (receives generation k m status h) f =
      route_to-From version generation c k m status h f
  Step-From {c = c} (processes k) f = process_round-From version c k f
  Step-From {c = c} (processor_fails k e) f =
      unfold processor_failed in start_topic_loss-From c k e f
  Step-From {c = c} (leaves k) f = leave_channel-From c k f
  Step-From {c = c} (begins_leave k) f = begin_leave-From c k f
  Step-From {c = c} (cleans_up k) f = finish_cleanup-From c k f
  Step-From {c = c} (loses k e) f = lose_topic_first-From c k e f
  Step-From {c = c} (reports k) f = report_topic_lost-From c k f
  Step-From {c = c} (begins_rejoin k) f = begin_rejoin-From c k f
  Step-From {c = c} (resumes_rejoin k generation lost) f = resume_rejoin-From c k f generation lost
  Step-From {c = c} (rejoin_fails k) f = handle_rejoin_failure-From c k f
  Step-From {c = c} (reports_rejoin k) f = report_rejoin_loss-From c k f
  Step-From {c = c} (recovers generation ks) f = start_recoveries-From c generation ks f
  Step-From {c = c} (attempted k e) f = after_attempt-From c k f e
  Step-From {c = c} (connects connection state) f = From-same f refl refl refl (omega arith)
  Step-From {c = c} (disconnects e state) f =
      From-same (fail_pending_joins-From c e f) refl refl refl (omega arith)
  Step-From {c = c} (retires e state) f =
      retire_channels-From _ e (From-same f refl refl refl (omega arith))
  Step-From {c = c} (send_fails current s e {d = d} here own h) f =
      let (d', e', g, _) = fail_send_session-From c current s e f here own in
      let same : d' ≡ d = ground arith in rw (← same) g
  Step-From {c = c} (closes connection ks) f = end_topics-From c connection ks f
  Step-From {c = c} (ends finished sending) f = From-same f refl refl refl (omega arith)

  -- Whatever the callers, the tasks and the server do, in any order, a client that holds the invariant
  -- goes on holding it: each channel is left exactly when its leave was requested, a joined channel's
  -- join has succeeded, and only a joined channel has pushes that wait. No future that was done changes,
  -- no channel that was left comes back, and one that was joined once remains so marked. A push that
  -- waits goes on waiting, unless its future is done.
  pub Reach-From : {o c : Client} → Inv o → Reach lib version o c → From o c
  Reach-From {o} inv start = From-refl o inv
  Reach-From inv (later r s) = Step-From s (Reach-From inv r)

pub All-map : {P Q : ℕ → Type 0} (ks : List ℕ) → ((k : ℕ) → P k → Q k) → All P ks → All Q ks
All-map [] h p = tt
All-map (k ∷ ks) h p = (h k p.0, All-map ks h p.1)

-- Once the channels of a client that holds the invariant were retired, every channel that was
-- registered then is left for good, whatever happens afterwards.
pub Reach-retired :
    {lib : Library} {version : ProtocolVersion} (c d : Client) (e : Exc)
    → Inv c
    → Reach lib version (retire_channels c e) d
    → All (λ k. is_left (d.topics k).state ≡ true) (values c.topic_subscriptions)
Reach-retired c d e inv r =
    let retired = retire_channels-left c e (From-refl c inv) in
    let kept = Reach-From retired.0.inv r in
    All-map (values c.topic_subscriptions) (λ k h. kept.left_stays k h) retired.1

-- A push that started on a client that holds the invariant is not forgotten, whatever happens
-- afterwards: as long as its future is not done, it waits for its reply under its ref. So once its
-- channel is not joined, as after the loss of its connection, its future is done.
pub Reach-push :
    {lib : Library} {version : ProtocolVersion} (c d : Client) (k : ℕ) (event : ChannelEvent)
    (value : Value) (timeout : Option ℕ) {p : Pushed}
    → Inv c
    → start_push c k event value timeout ≡ ok p
    → Reach lib version p.client d
    → ((is_done (d.futures p.outcome) ≡ true)
        ⊎ (lookup (decimal (c.ref_counter + 1)) (d.topics k).pending_pushes ≡ some p.outcome))
      × (is_joined (d.topics k).state ≡ false → is_done (d.futures p.outcome) ≡ true)
Reach-push c d k event value timeout {p} inv h r =
    let begun = start_push-From c k event value timeout (From-refl c inv) h in
    let end = Reach-From begun.inv r in
    let waits = (end.waits k).at _ _ (start_push-lookup c k event value timeout h) in
    (
      waits,
      λ lost. elim waits [
        | inl done ↦ done
        | inr here ↦
            let gone = (end.inv.topic k).no_pushes lost in absurd (unfold lookup in ground arith)
      ],
    )
