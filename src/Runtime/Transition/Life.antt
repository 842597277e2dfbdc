-- ===== src/Runtime/Transition/Life.antt =====
-- What a transition that is not accepted does to its channel, to the others and to the futures.
use phoenix_channels_python.Base.{ℕ, ◌<◌, ◌≡◌, refl, true, false, [], arith, ==-self, Exc, All}
use phoenix_channels_python.Futures.{
  is_done, has_result, fail_all, Keeps, fail_all-Keeps, Keeps-done, fail_all-done,
}
use phoenix_channels_python.Topic.{ChannelCause, values, is_left, is_joined}
use phoenix_channels_python.Runtime.{Client}
use phoenix_channels_python.Runtime.Invariant.{
  was_joined, TopicOk, Inv, Touches, Touches-trans, All-mono,
}
use phoenix_channels_python.Runtime.Transition.{
  fail_current_join, mark_lost, fail_pushes, lose_channel,
}
use phoenix_channels_python.Runtime.Transition.Parts.{
  FailedJoin, fail_current_join-Touches, fail_current_join-FailedJoin, mark_lost-Touches,
  mark_lost-TopicOk, fail_pushes-Touches,
}

module _ (c : Client) (k : ℕ) (cause : ChannelCause) (e : Exc) (inv : Inv c) where
  abbrev pub marked : Client
  marked = mark_lost c k cause

  abbrev pub failed : Client
  failed = fail_current_join marked k e

  kept-marked :
      ((marked.topics k).pending_pushes ≡ (c.topics k).pending_pushes)
      × ((marked.topics k).current_join_ready ≡ (c.topics k).current_join_ready)
      × ((marked.topics k).unsubscribe_completed ≡ (c.topics k).unsubscribe_completed)
      × (marked.next_future ≡ c.next_future)
  unfolding mark_lost
  kept-marked = ground arith

  marked-Touches : Touches c k marked
  marked-Touches = mark_lost-Touches c k cause inv.fresh

  known-marked : (marked.topics k).current_join_ready < marked.next_future
  known-marked = omega (arith, kept-marked, (inv.topic k).known_join)

  failed-Touches : Touches c k failed
  failed-Touches =
      Touches-trans marked-Touches
        (fail_current_join-Touches marked k e known-marked marked-Touches.still_fresh)

  pub failed-FailedJoin : FailedJoin marked failed k
  failed-FailedJoin = fail_current_join-FailedJoin marked k e known-marked

  failed-pushes : (failed.topics k).pending_pushes ≡ (c.topics k).pending_pushes
  failed-pushes = rw failed-FailedJoin.topic kept-marked.0

  pub lose_channel-Touches : Touches c k (lose_channel c k cause e)
  unfolding lose_channel
  lose_channel-Touches = Touches-trans failed-Touches (
      fail_pushes-Touches failed k e failed-Touches.still_fresh (
        rw failed-pushes (
          All-mono c.next_future failed.next_future _ failed-Touches.grows
            (inv.topic k).known_pushes)))

  pub topic-lose_channel : (lose_channel c k cause e).topics k ≡ record (marked.topics k) {
    current_join_ready = failed-FailedJoin.future;
    pending_pushes = [];
  }
  unfolding lose_channel fail_pushes
  topic-lose_channel = rw (==-self k, failed-FailedJoin.topic)

  marked-ok :
      ((marked.topics k).leave_requested ≡ is_left (marked.topics k).state)
      × (was_joined (marked.topics k).state ≡ true → (marked.topics k).established ≡ true)
      × (is_joined (marked.topics k).state ≡ false)
  marked-ok = mark_lost-TopicOk c k cause (inv.topic k)

  next-lose_channel : (lose_channel c k cause e).next_future ≡ failed.next_future
  unfolding lose_channel fail_pushes
  next-lose_channel = refl

  pub lose_channel-TopicOk :
      let c' = lose_channel c k cause e in TopicOk c'.futures c'.next_future (c'.topics k)
  lose_channel-TopicOk = rw topic-lose_channel (record {
    requested = marked-ok.0;
    lived = marked-ok.1;
    ready = λ j. absurd (ground (arith, marked-ok.2));
    no_pushes = λ j. refl;
    known_join = rw next-lose_channel failed-FailedJoin.known;
    known_leave = omega (arith, kept-marked, (inv.topic k).known_leave, lose_channel-Touches.grows);
    known_pushes = unfold values in tt;
  })

  futures-lose_channel :
      (lose_channel c k cause e).futures
      ≡ fail_all failed.futures (values (c.topics k).pending_pushes) e
  unfolding lose_channel fail_pushes
  futures-lose_channel = rw failed-pushes

  rest-Keeps : Keeps failed.futures (lose_channel c k cause e).futures
  rest-Keeps = rw futures-lose_channel (fail_all-Keeps failed.futures _ e)

  old_join : is_done (failed.futures (c.topics k).current_join_ready) ≡ true
  old_join = rw (← kept-marked.1) failed-FailedJoin.old_done

  no_result-lose_channel :
      has_result ((lose_channel c k cause e).futures failed-FailedJoin.future) ≡ false
  no_result-lose_channel =
      rw (rest-Keeps.at failed-FailedJoin.future failed-FailedJoin.done) failed-FailedJoin.no_result

  -- A loss, of a client that holds the invariant, tells every caller that waits on the channel: the
  -- future of its join and those of its pushes are done, its new join future has no result, and no
  -- push waits any more.
  pub lose_channel-done :
      let c' = lose_channel c k cause e in
      (is_done (c'.futures (c.topics k).current_join_ready) ≡ true)
      × All (λ f. is_done (c'.futures f) ≡ true) (values (c.topics k).pending_pushes)
      × (has_result (c'.futures (c'.topics k).current_join_ready) ≡ false)
      × ((c'.topics k).pending_pushes ≡ [])
  lose_channel-done = (
    Keeps-done (c.topics k).current_join_ready rest-Keeps old_join,
    rw futures-lose_channel (fail_all-done failed.futures (values (c.topics k).pending_pushes) e),
    rw topic-lose_channel no_result-lose_channel,
    rw topic-lose_channel refl,
  )
