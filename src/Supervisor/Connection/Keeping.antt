-- ===== src/Supervisor/Connection/Keeping.antt =====
-- What the supervisor's operations keep: the channels' invariant, and that a client that is not asked
-- to stop connects, is connected, or reconnects.
use phoenix_channels_python.Base.{
  ℕ, ◌≡◌, ◌⊎◌, refl, Bool, true, false, Option, List, [], ◌∷◌, arith, ◌==◌, ok, socket_error,
  connection_lost, stopped_before_connecting, supervisor_stopped, Bool-cases, inl, inr, length,
}
use phoenix_channels_python.ClientState.{
  ClientState, connecting, connected, reconnecting, shutting_down, closed, same_state,
  transition_client_state,
}
use phoenix_channels_python.Futures.{Future, pending, exception, settled, is_done}
use phoenix_channels_python.Topic.{is_left}
use phoenix_channels_python.Runtime.{Client, same_connection}
use phoenix_channels_python.Runtime.Invariant.{Inv, From, From-refl}
use phoenix_channels_python.Runtime.Tasks.{release_reservation}
use phoenix_channels_python.Runtime.Tasks.Keeping.{From-if, From-same, release_reservation-From}
use phoenix_channels_python.Runtime.Control.{set_terminal}
use phoenix_channels_python.Runtime.Control.Branches.{set_terminal-From}
use phoenix_channels_python.Runtime.Losses.Keeping.{fail_pending_joins-From, retire_channels-From}
use phoenix_channels_python.Runtime.Losses.Life.{
  Life, Life-refl, Life-trans, Life-if, set_terminal-Life, release_reservation-Life,
  fail_pending_joins-Life, retire_channels-Life,
}
use phoenix_channels_python.Supervisor.Connection.{
  Supervision, is_stopping, transition_state, settle_initial_connection, begin_cleanup, end_topic,
  end_topics, cleanup_connection, fail_joins_for_lost_connection, retire_if_running,
  settle_supervisor_exit,
}

abbrev pub is_running : ClientState → Bool
is_running connecting = true
is_running connected = true
is_running reconnecting = true
is_running _ = false

pub record Live (s : Supervision) : Type 0 where
  pub inv : Inv s.client
  pub running : is_stopping s ≡ false → is_running s.client.state ≡ true

-- Between its waits the supervisor changes the parts that `Live` reads only as follows.
pub Live-Life : {s d : Supervision} → Live s → Life s.client d.client → Inv d.client → Live d
Live-Life {s} {d} live life inv = record {
  inv = inv;
  running = λ h. rw life.state (live.running (rw life.stopping at h));
}

pub running-transition :
    (u : ClientState)
    → is_running u ≡ true
    → (transition_client_state u connected ≡ ok connected)
      × (transition_client_state u reconnecting ≡ ok reconnecting)
unfolding transition_client_state
running-transition connecting h = (refl, refl)
running-transition connected h = (refl, refl)
running-transition reconnecting h = (refl, refl)
running-transition shutting_down h = absurd (ground arith)
running-transition closed h = absurd (ground arith)

closing-transition :
    (u : ClientState)
    → same_state u shutting_down ≡ false
    → transition_client_state u closed ≡ ok closed
unfolding transition_client_state same_state
closing-transition connecting h = refl
closing-transition connected h = refl
closing-transition reconnecting h = refl
closing-transition shutting_down h = absurd (ground arith)
closing-transition closed h = refl

end_topic-From :
    {o : Client} (c : Client) (connection : Option ℕ) (k : ℕ)
    → From o c
    → From o (end_topic c connection k)
unfolding end_topic
end_topic-From c connection k f =
    let d = set_terminal c k in
    From-if (same_connection (c.topics k).connection connection)
      (λ _.
        From-if (is_left (d.topics k).state)
          (λ _. release_reservation-From d k (set_terminal-From c k f))
          (λ _. set_terminal-From c k f))
      (λ _. f)

end_topic-Life : (c : Client) (connection : Option ℕ) (k : ℕ) → Life c (end_topic c connection k)
unfolding end_topic
end_topic-Life c connection k =
    let d = set_terminal c k in
    Life-if (same_connection (c.topics k).connection connection) _ c
      (Life-if (is_left (d.topics k).state) (release_reservation d k) d
        (Life-trans (set_terminal-Life c k) (release_reservation-Life d k)) (set_terminal-Life c k))
      (Life-refl c)

pub end_topics-From :
    {o : Client} (c : Client) (connection : Option ℕ) (ks : List ℕ)
    → From o c
    → From o (end_topics c connection ks)
unfolding end_topics
end_topics-From c connection [] f = f
end_topics-From c connection (k ∷ ks) f =
    end_topics-From (end_topic c connection k) connection ks (end_topic-From c connection k f)

pub end_topics-Life :
    (c : Client) (connection : Option ℕ) (ks : List ℕ) → Life c (end_topics c connection ks)
unfolding end_topics
end_topics-Life c connection [] = Life-refl c
end_topics-Life c connection (k ∷ ks) =
    Life-trans (end_topic-Life c connection k)
      (end_topics-Life (end_topic c connection k) connection ks)

pub begin_cleanup-Live : (s : Supervision) → Live s → Live (begin_cleanup s)
unfolding begin_cleanup fail_joins_for_lost_connection
begin_cleanup-Live s live =
    let life = fail_pending_joins-Life s.client (socket_error connection_lost) in
    record {
      inv =
          (From-same (fail_pending_joins-From s.client _ (From-refl s.client live.inv)) refl refl
            refl (omega arith)).inv;
      running = λ h. rw life.state (live.running (rw life.stopping at h));
    }

-- A cleanup keeps it, if what the other tasks do meanwhile keeps it.
pub cleanup_connection-Live :
    (s : Supervision) (meanwhile : Supervision → Supervision)
    → Live s
    → ((d : Supervision) → Live d → Live (meanwhile d))
    → Live (cleanup_connection s meanwhile)
unfolding cleanup_connection
cleanup_connection-Live s meanwhile live polite =
    let d = meanwhile (begin_cleanup s) in
    let i = polite (begin_cleanup s) (begin_cleanup-Live s live) in
    Live-Life {s = d} i (end_topics-Life d.client s.client.connection _)
      (end_topics-From d.client s.client.connection _ (From-refl d.client i.inv)).inv

-- How a supervisor ends: nobody waits for the first connection any more, the client is not announced
-- as connected, and it is closed or is being shut down.
pub record Exited (s : Supervision) : Type 0 where
  pub inv : Inv s.client
  pub told : is_done s.initial_connection ≡ true
  pub silent : s.connected_event ≡ false
  pub over : (s.client.state ≡ closed) ⊎ (s.client.state ≡ shutting_down)

retire_if_running-Life :
    (s : Supervision)
    → Inv s.client
    → let d = retire_if_running s in
      Life s.client d.client
      × Inv d.client
      × (d.initial_connection ≡ s.initial_connection)
      × (d.connected_event ≡ s.connected_event)
unfolding retire_if_running
retire_if_running-Life s inv = elim (Bool-cases (length s.client.topic_subscriptions == 0)) [
  | inl e ↦ rw e (Life-refl s.client, inv, refl, refl)
  | inr e ↦ rw e (
    retire_channels-Life s.client (socket_error supervisor_stopped),
    (retire_channels-From s.client (socket_error supervisor_stopped) (From-refl s.client inv)).inv,
    refl,
    refl,
  )
]

shutting_down-same : (u : ClientState) → same_state u shutting_down ≡ true → u ≡ shutting_down
unfolding same_state
shutting_down-same shutting_down h = refl
shutting_down-same u h = absurd (ground arith)

settled-done : (f v : Future) → is_done v ≡ true → is_done (settled f v) ≡ true
settled-done pending v h = h
settled-done f v h = refl

-- The `finally` of the supervisor's loop never raises, and leaves the supervisor ended.
pub settle_supervisor_exit-Exited :
    (s : Supervision)
    → Inv s.client
    → (d : Supervision) × (settle_supervisor_exit s ≡ ok d) × Exited d
unfolding settle_supervisor_exit settle_initial_connection transition_state
settle_supervisor_exit-Exited s inv =
    let told =
      settled-done s.initial_connection (exception (socket_error stopped_before_connecting)) refl in
    let d : Supervision = record s {
      connected_event = false;
      initial_connection =
          settled s.initial_connection (exception (socket_error stopped_before_connecting));
    } in
    elim (Bool-cases (same_state s.client.state shutting_down)) [
      | inl e ↦ (
        d,
        rw e refl,
        record {
          inv = inv;
          told = told;
          silent = refl;
          over = inr (shutting_down-same s.client.state e);
        },
      )
      | inr e ↦
          let (life, inv', told', silent') = retire_if_running-Life d inv in
          let r = retire_if_running d in
          let ends : transition_client_state r.client.state closed ≡ ok closed =
            rw life.state (closing-transition s.client.state e) in
          (
            record r { client = record r.client { state = closed } },
            rw (e, ends) refl,
            record {
              inv = record { topic = inv'.topic; fresh = inv'.fresh; refs = inv'.refs };
              told = rw told' told;
              silent = silent';
              over = inl refl;
            },
          )
    ]
