-- ===== src/Runtime/Calls/Keeping.antt =====
-- The calls keep the invariant.
use phoenix_channels_python.Base.{
  ℕ, ◌+◌, ◌<◌, ◌≡◌, refl, inl, inr, true, false, Option, none, some, List, [], ◌∷◌, arith,
  Bool-cases, ok, >>=-eq-ok, All,
}
use phoenix_channels_python.Text.{Text, text_eq}
use phoenix_channels_python.Text.Decimal.{decimal}
use phoenix_channels_python.Messages.{ChannelEvent, Payload, Value}
use phoenix_channels_python.Futures.{Store, is_done, Keeps-trans}
use phoenix_channels_python.Topic.{Topic, is_left, is_joined, is_created, values, insert}
use phoenix_channels_python.Runtime.{
  Client, set_topic, channel_joined, should_rejoin, generate_ref, create_task, create_future,
}
use phoenix_channels_python.Runtime.Pushes.{
  KeepsPushes-same, KeepsPushes-trans, KeepsPushes-remove, KnownRefs-remove, KnownRefs-insert,
  KeepsPushes-insert,
}
use phoenix_channels_python.Runtime.Invariant.{TopicOk, TopicOk-Keeps, From, was_joined}
use phoenix_channels_python.Runtime.Transition.Parts.{create-Keeps, create-Fresh}
use phoenix_channels_python.Runtime.Tasks.Keeping.{
  From-same, From-if, set_topic-From, set_core-From, create_task-From,
}
use phoenix_channels_python.Runtime.Control.Pushes.{remove_push}
use phoenix_channels_python.Runtime.Calls.{
  may_join, reserve, start_processor, start_join, leave_created, may_push, Pushed, register_push,
  start_push, is_outcome, finish_push, restart_topic,
}

pub generate_ref-From : {o : Client} (c : Client) → From o c → From o (generate_ref c).1
unfolding generate_ref
generate_ref-From c f = From-same f refl refl refl (omega arith)

start_processor-From : {o : Client} (c : Client) (k : ℕ) → From o c → From o (start_processor c k)
unfolding start_processor create_task
start_processor-From c k f = set_core-From _ k _ refl (create_task-From c _ f)

pub create_future-From : {o : Client} (c : Client) → From o c → From o (create_future c).1
unfolding create_future
create_future-From c f = record {
  inv = record {
    topic = λ j.
        TopicOk-Keeps {n = c.next_future} (create-Keeps c.futures c.next_future f.fresh)
          (omega arith) (f.topic j);
    fresh = create-Fresh c.futures c.next_future f.fresh;
    refs = f.refs;
  };
  keeps = Keeps-trans f.keeps (create-Keeps c.futures c.next_future f.fresh);
  waits = λ j.
      KeepsPushes-trans (create-Keeps c.futures c.next_future f.fresh) (f.waits j)
        (KeepsPushes-same (create_future c).1.futures refl);
  left_stays = f.left_stays;
  established_stays = f.established_stays;
}

-- A channel that is neither joined nor left, and that waits for no reply, is as the invariant wants it.
waiting-TopicOk :
    {s : Store} {n : ℕ} (t : Topic)
    → t.leave_requested ≡ false
    → is_left t.state ≡ false
    → is_joined t.state ≡ false
    → (was_joined t.state ≡ true → t.established ≡ true)
    → t.pending_pushes ≡ []
    → t.current_join_ready < n
    → t.unsubscribe_completed < n
    → TopicOk s n t
waiting-TopicOk t asked state joined lived pushes join leave = record {
  requested = ground arith;
  lived = lived;
  ready = λ h. absurd (ground arith);
  no_pushes = λ h. pushes;
  known_join = join;
  known_leave = leave;
  known_pushes = rw pushes (unfold values in tt);
}

is_outcome-some : (p : Option ℕ) (f : ℕ) → is_outcome p f ≡ true → p ≡ some f
unfolding is_outcome
is_outcome-some none f h = absurd (ground arith)
is_outcome-some (some g) f h = ground arith

module _ {o : Client} (c : Client) (k : ℕ) (f : From o c) where
  reserve-From : is_created (c.topics k).state ≡ true → From o (reserve c k)
  unfolding reserve generate_ref
  reserve-From new =
      let t = f.topic k in
      let no_push = t.no_pushes (ground arith) in
      From-same
        (set_topic-From c k _ f
          (waiting-TopicOk _ (ground (arith, t.requested)) refl refl (λ h. absurd (ground arith))
            no_push t.known_join t.known_leave)
          (f.refs k) (KeepsPushes-same c.futures refl) (λ h. absurd (ground arith)) (λ h. h))
        refl refl refl (omega arith)

  -- From a client that holds the invariant, a join that starts leads to one that holds it; no future
  -- that was done changes, and no channel that was left comes back.
  pub start_join-From : {c' : Client} → start_join c k ≡ ok c' → From o c'
  unfolding start_join may_join
  start_join-From {c'} h =
      let new : is_created (c.topics k).state ≡ true = ground arith in
      let e : c' ≡ start_processor (reserve c k) k = ground arith in
      rw e (start_processor-From (reserve c k) k (reserve-From new))

  -- So does the leave of a channel that never joined.
  pub leave_created-From : is_created (c.topics k).state ≡ true → From o (leave_created c k)
  unfolding leave_created
  leave_created-From new =
      let t = f.topic k in
      set_topic-From c k _ f
        (record {
          requested = refl;
          lived = λ h. absurd (ground arith);
          ready = λ h. absurd (ground arith);
          no_pushes = λ h. t.no_pushes (ground arith);
          known_join = t.known_join;
          known_leave = t.known_leave;
          known_pushes = t.known_pushes;
        })
        (f.refs k) (KeepsPushes-same c.futures refl) (λ h. refl) (λ h. h)

  -- The end of a push whose future is done keeps the invariant.
  pub finish_push-From :
      (ref : Text) (outcome : ℕ)
      → is_done (c.futures outcome) ≡ true
      → From o (finish_push c k ref outcome)
  unfolding finish_push
  finish_push-From ref outcome done =
      let pushes = (c.topics k).pending_pushes in
      From-if _
        (λ own.
          set_topic-From c k _ f (remove_push c k ref f)
            (KnownRefs-remove c.ref_counter pushes ref (f.refs k))
            (KeepsPushes-remove c.futures pushes ref outcome (is_outcome-some _ outcome own) done)
            (λ h. h) (λ h. h))
        (λ _. f)

  restarted-From :
      (d : Client) (t : Topic)
      → From o d
      → TopicOk d.futures d.next_future t
      → is_left (d.topics k).state ≡ false
      → ((d.topics k).established ≡ true → t.established ≡ true)
      → t.pending_pushes ≡ (d.topics k).pending_pushes
      → From o (start_processor (set_topic d k t) k)
  restarted-From d t g good live lived same = start_processor-From (set_topic d k t) k (
      set_topic-From d k t g good (rw same (g.refs k)) (KeepsPushes-same d.futures same)
        (λ h. absurd (ground arith)) lived)

  -- The restart of a channel that should be joined again and is not joined keeps the invariant; no
  -- future that was done changes, and no channel that was left comes back.
  pub restart_topic-From :
      (generation : ℕ)
      → should_rejoin c k ≡ true
      → is_joined (c.topics k).state ≡ false
      → From o (restart_topic c k generation)
  unfolding restart_topic should_rejoin generate_ref create_future
  restart_topic-From generation go lost =
      let t = f.topic k in
      restarted-From _ _ (create_future-From _ (generate_ref-From c f))
        (waiting-TopicOk _ (ground arith) refl refl (λ h. ground arith) (t.no_pushes lost)
          (omega arith) (omega (arith, t.known_leave)))
        (ground arith) (λ h. h) refl

insert-All :
    (n f : ℕ) (r : Text) (d : List (Text × ℕ))
    → All (λ g. g < n) (values d)
    → f < n
    → All (λ g. g < n) (values (insert r f d))
unfolding insert values
insert-All n f r [] h lt = (lt, tt)
insert-All n f r ((j, v) ∷ d) h lt = elim (Bool-cases (text_eq j r)) [
  | inl t ↦ rw t (lt, h.1)
  | inr t ↦ rw t (h.0, insert-All n f r d h.1 lt)
]

register_push-From :
    {o : Client} (c : Client) (k : ℕ) (event : ChannelEvent) (payload : Payload)
    → From o c
    → is_joined (c.topics k).state ≡ true
    → From o (register_push c k event payload).client
unfolding register_push generate_ref create_future
register_push-From c k event payload f alive =
    let d = (create_future (generate_ref c).1).1 in
    let g = create_future-From _ (generate_ref-From c f) in
    let t = g.topic k in
    set_topic-From d k _ g
      (record {
        requested = t.requested;
        lived = t.lived;
        ready = t.ready;
        no_pushes = λ h. absurd (ground arith);
        known_join = t.known_join;
        known_leave = t.known_leave;
        known_pushes =
            insert-All (c.next_future + 1) c.next_future (decimal (c.ref_counter + 1))
              (c.topics k).pending_pushes t.known_pushes (omega arith);
      })
      (KnownRefs-insert c.ref_counter (c.topics k).pending_pushes c.next_future (f.refs k))
      (KeepsPushes-insert c.ref_counter (c.topics k).pending_pushes c.next_future (f.refs k)
        d.futures)
      (λ h. h) (λ h. h)

-- From a client that holds the invariant, a push that starts leads to one that holds it; no future
-- that was done changes, and no channel that was left comes back.
pub start_push-From :
    {o : Client} (c : Client) (k : ℕ) (event : ChannelEvent) (value : Value) (timeout : Option ℕ)
    {p : Pushed}
    → From o c
    → start_push c k event value timeout ≡ ok p
    → From o p.client
unfolding start_push
start_push-From c k event value timeout {p} f h =
    let (payload, m, r) =
      >>=-eq-ok (may_push c k event value timeout) (λ x. ok (register_push c k event x)) {b = p}
        h in
    let e : p ≡ register_push c k event payload = ground arith in
    let alive : is_joined (c.topics k).state ≡ true =
      unfold may_push channel_joined in ground arith in
    rw e (register_push-From c k event payload f alive)
