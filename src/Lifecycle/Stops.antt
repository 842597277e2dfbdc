-- ===== src/Lifecycle/Stops.antt =====
-- What a client promises when it is asked to stop.
use phoenix_channels_python.Base.{
  ◌≡◌, refl, ◌⊎◌, inl, inr, true, false, ◌||◌, arith, ok, channel_error, shutting_down, All,
  Bool-cases,
}
use phoenix_channels_python.ClientState.{ClientState, closed, same_state, transition_client_state}
use phoenix_channels_python.Topic.{is_left, values}
use phoenix_channels_python.Runtime.{Client}
use phoenix_channels_python.Runtime.Invariant.{Inv, From-refl}
use phoenix_channels_python.Runtime.Losses.Life.{retire_channels-Life}
use phoenix_channels_python.Runtime.Losses.Keeping.{retire_channels-left}
use phoenix_channels_python.Supervisor.Connection.{Supervision, is_stopping, transition_state}
use phoenix_channels_python.Supervisor.Connection.Keeping.{Live}
use phoenix_channels_python.Lifecycle.{mark_stopping, stop_channels, request_stop}

stopping-same :
    (u : ClientState)
    → (same_state u ClientState.shutting_down || same_state u closed) ≡ true
    → (u ≡ ClientState.shutting_down) ⊎ (u ≡ closed)
unfolding same_state
stopping-same ClientState.shutting_down h = inl refl
stopping-same closed h = inr refl
stopping-same u h = absurd (ground arith)

stopping-transition :
    (u : ClientState)
    → (same_state u ClientState.shutting_down || same_state u closed) ≡ false
    → transition_client_state u ClientState.shutting_down ≡ ok ClientState.shutting_down
unfolding same_state transition_client_state
stopping-transition ClientState.shutting_down h = refl
stopping-transition closed h = absurd (ground arith)
stopping-transition u h = refl

-- What a client is that was asked to stop.
pub record Stopped (s d : Supervision) : Type 0 where
  pub live : Live d
  pub stopping : is_stopping d ≡ true
  pub state : (d.client.state ≡ ClientState.shutting_down) ⊎ (d.client.state ≡ closed)
  pub left :
      All (λ k. is_left (d.client.topics k).state ≡ true) (values s.client.topic_subscriptions)

mark_stopping-ok :
    (s : Supervision)
    → (u : ClientState) × (mark_stopping s
        ≡ ok (record s { client = record s.client { state = u } }))
      × ((u ≡ ClientState.shutting_down) ⊎ (u ≡ closed))
unfolding mark_stopping transition_state
mark_stopping-ok s =
    elim (Bool-cases
      (same_state s.client.state ClientState.shutting_down || same_state s.client.state closed)) [
        | inl e ↦ (s.client.state, rw e refl, stopping-same s.client.state e)
        | inr e ↦
            (ClientState.shutting_down, rw (e, stopping-transition s.client.state e) refl, inl refl)
      ]

-- A request to stop is never refused: the client shuts down or is closed, its supervisor's loop will
-- not go on, and every channel that was registered is left.
pub request_stop-Stopped :
    (s : Supervision) → Inv s.client → (d : Supervision) × (request_stop s ≡ ok d) × Stopped s d
unfolding request_stop
request_stop-Stopped s inv =
    let (u, e, over) = mark_stopping-ok s in
    let m : Supervision = record s { client = record s.client { state = u } } in
    let c : Client = record m.client { shutdown_requested = true } in
    let i : Inv c = record { topic = inv.topic; fresh = inv.fresh; refs = inv.refs } in
    let life = retire_channels-Life c (channel_error shutting_down) in
    let (f, gone) = retire_channels-left c (channel_error shutting_down) (From-refl c i) in
    (
      stop_channels m,
      rw e refl,
      record {
        live = record { inv = f.inv; running = λ h. absurd (ground (arith, life.stopping)) };
        stopping = life.stopping;
        state = rw life.state over;
        left = gone;
      },
    )
