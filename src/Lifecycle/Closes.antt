-- ===== src/Lifecycle/Closes.antt =====
-- `_request_stop` and `_shutdown` of client.py, one after the other.
use phoenix_channels_python.Base.{
  ℕ, ◌≡◌, refl, sym, subst, ◌∙◌, ◌⊎◌, inl, inr, true, false, Option, none, some, List, [], ◌∷◌,
  arith, Result, ok, err, Exc, All, ◌==◌, ==-self, is_some, Bool-cases, Option-cases,
}
use phoenix_channels_python.ClientState.{ClientState, closed, same_state, transition_client_state}
use phoenix_channels_python.Topic.{is_left, is_created, leave, values}
use phoenix_channels_python.Runtime.{Client, create_task}
use phoenix_channels_python.Runtime.Invariant.{Inv, From, From-refl}
use phoenix_channels_python.Runtime.Transition.{transition_channel}
use phoenix_channels_python.Runtime.Transition.Life.{lose_channel-Touches}
use phoenix_channels_python.Runtime.Tasks.{leave_first, start_leave_task}
use phoenix_channels_python.Runtime.Tasks.Keeping.{From-same}
use phoenix_channels_python.Runtime.Calls.{leave_created}
use phoenix_channels_python.Runtime.Losses.Keeping.{fail_pending_joins-From}
use phoenix_channels_python.Runtime.Losses.Life.{
  Life, Life-refl, Life-trans, Life-if, start_leave_task-Life,
}
use phoenix_channels_python.Runtime.Leaving.{leave_channel}
use phoenix_channels_python.Runtime.Leaving.Keeping.{leave_channel-From}
use phoenix_channels_python.Supervisor.Connection.{
  Supervision, transition_state, begin_cleanup, fail_joins_for_lost_connection, cleanup_connection,
}
use phoenix_channels_python.Supervisor.Connection.Keeping.{end_topics-From, end_topics-Life}
use phoenix_channels_python.EventLoop.Safety.{All-map}
use phoenix_channels_python.Lifecycle.{
  leave_all, unsubscribe_all, Waits, run_shutdown, request_stop,
}
use phoenix_channels_python.Lifecycle.Stops.{request_stop-Stopped}

-- A channel has left, or its leave was started.
abbrev pub Leaves : Client → ℕ → Type 0
Leaves c k = (is_left (c.topics k).state ≡ true) ⊎ (is_some (c.topics k).leave_task ≡ true)

-- The other tasks keep the invariant of the channels in each wait, no one opens a connection after the
-- supervisor was stopped, and in the last wait no one takes back a leave that was started.
pub record Gentle (w : Waits) : Type 0 where
  pub stopping : {o : Client} (s : Supervision) → From o s.client → From o (w.stopping s).client
  pub cleaning : {o : Client} (s : Supervision) → From o s.client → From o (w.cleaning s).client
  pub leaving : {o : Client} (s : Supervision) → From o s.client → From o (w.leaving s).client
  pub cleaning_closed :
      (s : Supervision) → s.client.connection ≡ none → (w.cleaning s).client.connection ≡ none
  pub leaving_closed :
      (s : Supervision) → s.client.connection ≡ none → (w.leaving s).client.connection ≡ none
  pub leaving_leaves : (s : Supervision) (k : ℕ) → Leaves s.client k → Leaves (w.leaving s).client k

leave_first-others :
    (c : Client) (k j : ℕ) → Inv c → (j == k) ≡ false → (leave_first c k).topics j ≡ c.topics j
unfolding leave_first transition_channel
leave_first-others c k j inv apart = elim (Bool-cases (is_left (c.topics k).state)) [
  | inl e ↦ rw e refl
  | inr e ↦ rw e ((lose_channel-Touches c k leave _ inv).others j apart)
]

leave_channel-others :
    (c : Client) (k j : ℕ) → Inv c → (j == k) ≡ false → (leave_channel c k).topics j ≡ c.topics j
unfolding leave_channel leave_created start_leave_task create_task
leave_channel-others c k j inv apart = elim (Bool-cases (is_created (c.topics k).state)) [
  | inl e ↦ rw (e, apart) refl
  | inr e ↦ elim (Bool-cases (is_some (c.topics k).leave_task)) [
    | inl f ↦ rw (e, f) refl
    | inr f ↦ rw (e, f, apart) (leave_first-others c k j inv apart)
  ]
]

leave_channel-Leaves : (c : Client) (k : ℕ) → Leaves (leave_channel c k) k
unfolding leave_channel leave_created start_leave_task create_task
leave_channel-Leaves c k = elim (Bool-cases (is_created (c.topics k).state)) [
  | inl e ↦ rw (e, ==-self k) (inl refl)
  | inr e ↦ elim (Bool-cases (is_some (c.topics k).leave_task)) [
    | inl f ↦ rw (e, f) (inr f)
    | inr f ↦ rw (e, f, ==-self k) (inr refl)
  ]
]

keeps-Leaves : (c : Client) (k j : ℕ) → Inv c → Leaves c j → Leaves (leave_channel c k) j
keeps-Leaves c k j inv h = elim (Bool-cases (j == k)) [
  | inl e ↦ let p : j ≡ k = ground arith in rw p (leave_channel-Leaves c k)
  | inr e ↦ rw (leave_channel-others c k j inv e) h
]

leave_all-From : {o : Client} (c : Client) (ks : List ℕ) → From o c → From o (leave_all c ks)
unfolding leave_all
leave_all-From c [] f = f
leave_all-From c (k ∷ ks) f = leave_all-From (leave_channel c k) ks (leave_channel-From c k f)

leave_all-keeps :
    (c : Client) (ks : List ℕ) (j : ℕ) → Inv c → Leaves c j → Leaves (leave_all c ks) j
unfolding leave_all
leave_all-keeps c [] j inv h = h
leave_all-keeps c (k ∷ ks) j inv h =
    leave_all-keeps (leave_channel c k) ks j (leave_channel-From c k (From-refl c inv)).inv
      (keeps-Leaves c k j inv h)

leave_all-Leaves : (c : Client) (ks : List ℕ) → Inv c → All (Leaves (leave_all c ks)) ks
unfolding leave_all
leave_all-Leaves c [] inv = tt
leave_all-Leaves c (k ∷ ks) inv =
    let inv' = (leave_channel-From c k (From-refl c inv)).inv in
    (
      leave_all-keeps (leave_channel c k) ks k inv' (leave_channel-Leaves c k),
      leave_all-Leaves (leave_channel c k) ks inv',
    )

leave_all-Life : (c : Client) (ks : List ℕ) → Life c (leave_all c ks)
unfolding leave_all leave_channel leave_created
leave_all-Life c [] = Life-refl c
leave_all-Life c (k ∷ ks) =
    Life-trans
      (Life-if (is_created (c.topics k).state) _ _
        (record { state = refl; stopping = refl; connection = refl }) (start_leave_task-Life c k))
      (leave_all-Life (leave_channel c k) ks)

cleanup_connection-From :
    {o : Client} (s : Supervision) (meanwhile : Supervision → Supervision)
    → ((d : Supervision) → From o d.client → From o (meanwhile d).client)
    → From o s.client
    → From o (cleanup_connection s meanwhile).client
unfolding cleanup_connection begin_cleanup fail_joins_for_lost_connection
cleanup_connection-From s meanwhile gentle f =
    end_topics-From (meanwhile (begin_cleanup s)).client s.client.connection _ (
      gentle (begin_cleanup s)
        (From-same (fail_pending_joins-From s.client _ f) refl refl refl (omega arith)))

cleanup_connection-closed :
    (s : Supervision) (meanwhile : Supervision → Supervision)
    → ((d : Supervision) → d.client.connection ≡ none → (meanwhile d).client.connection ≡ none)
    → (cleanup_connection s meanwhile).client.connection ≡ none
unfolding cleanup_connection begin_cleanup
cleanup_connection-closed s meanwhile keeps =
    (end_topics-Life (meanwhile (begin_cleanup s)).client s.client.connection _).connection
    ∙ keeps (begin_cleanup s) refl

closed-transition : (u : ClientState) → transition_client_state u closed ≡ ok closed
unfolding transition_client_state same_state
closed-transition closed = refl
closed-transition u = refl

-- How a shutdown ends: it raises what a cleanup has raised, or the client is closed, and not announced as
-- connected.
abbrev pub Ending : Option Exc → Result (Unit {0}) → Supervision → Type 0
Ending none x d = (x ≡ ok tt) × (d.client.state ≡ closed) × (d.connected_event ≡ false)
Ending (some e) x d = x ≡ err e

-- What holds after a shutdown, of the client `z` whose channels it made leave.
record Ended (o z : Client) (d : Supervision) : Type 0 where
  kept : From o d.client
  disconnected : d.client.connection ≡ none
  gone : All (Leaves d.client) (values z.topic_subscriptions)

module _ {o : Client} (w : Waits) (s : Supervision) (gentle : Gentle w) (f : From o s.client) where
  abbrev cleaned : Supervision
  cleaned = cleanup_connection (w.stopping s) w.cleaning

  abbrev last : Supervision
  last = w.leaving (unsubscribe_all cleaned)

  cleaned-From : From o cleaned.client
  cleaned-From =
      cleanup_connection-From (w.stopping s) w.cleaning gentle.cleaning (gentle.stopping s f)

  last-Ended : Ended o cleaned.client last
  unfolding unsubscribe_all
  last-Ended =
      let u = unsubscribe_all cleaned in
      let ks = values cleaned.client.topic_subscriptions in
      let g = leave_all-From cleaned.client ks cleaned-From in
      record {
        kept = gentle.leaving u g;
        disconnected = gentle.leaving_closed u (
            (leave_all-Life cleaned.client ks).connection
            ∙ cleanup_connection-closed (w.stopping s) w.cleaning gentle.cleaning_closed);
        gone =
            All-map ks (gentle.leaving_leaves u)
              (leave_all-Leaves cleaned.client ks cleaned-From.inv);
      }

  closed_last : Supervision
  closed_last = record last {
    connected_event = false;
    client = record last.client { state = closed };
  }

  run_shutdown-fails : (e : Exc) → w.failed_cleanup ≡ some e → run_shutdown w s ≡ (err e, last)
  unfolding run_shutdown
  run_shutdown-fails e h = rw h refl

  run_shutdown-closes : w.failed_cleanup ≡ none → run_shutdown w s ≡ (ok tt, closed_last)
  unfolding run_shutdown transition_state closed_last
  run_shutdown-closes h = rw (h, closed-transition last.client.state) refl

  abbrev Promise : Result (Unit {0}) × Supervision → Type 0
  Promise (x, d) = Ending w.failed_cleanup x d × Ended o cleaned.client d

  run_shutdown-Ending : Promise (run_shutdown w s)
  unfolding closed_last
  run_shutdown-Ending = elim (Option-cases w.failed_cleanup) [
    | inl h ↦
        let ended = last-Ended in
        subst Promise (sym (run_shutdown-closes h)) (
          subst (λ q. Ending q (ok tt) closed_last) (sym h) (refl, refl, refl),
          record {
            kept = From-same ended.kept refl refl refl (omega arith);
            disconnected = ended.disconnected;
            gone = ended.gone;
          },
        )
    | inr (e, h) ↦
        subst Promise (sym (run_shutdown-fails e h))
          (subst (λ q. Ending q (err e) last) (sym h) refl, last-Ended)
  ]

-- A stop is requested of a client that holds the invariant, and its shutdown runs to the end of its waits,
-- in which the other tasks keep the invariant, nobody opens a connection after the supervisor has
-- stopped, and nobody takes back a leave that was started. Then the client has no connection; every
-- channel that was registered at the request is left; and every one that was registered when the channels
-- were made to leave is left, or its leave was started. The client is closed and not announced as connected, unless a cleanup that was
-- still under way has failed: then the shutdown raises what it raised.
pub run_shutdown-request_stop :
    (w : Waits) (s : Supervision)
    → Gentle w
    → Inv s.client
    → (m : Supervision) × (request_stop s ≡ ok m)
      × (let (x, d) = run_shutdown w m in
          let z = cleanup_connection (w.stopping m) w.cleaning in
          Ending w.failed_cleanup x d
          × (d.client.connection ≡ none)
          × All
              (λ k. is_left (d.client.topics k).state ≡ true)
              (values s.client.topic_subscriptions)
          × All (Leaves d.client) (values z.client.topic_subscriptions))
run_shutdown-request_stop w s gentle inv =
    let (m, e, stopped) = request_stop-Stopped s inv in
    let (ending, ended) = run_shutdown-Ending w m gentle (From-refl m.client stopped.live.inv) in
    (
      m,
      e,
      (
        ending,
        ended.disconnected,
        All-map (values s.client.topic_subscriptions) (λ k h. ended.kept.left_stays k h)
            stopped.left,
        ended.gone,
      ),
    )
