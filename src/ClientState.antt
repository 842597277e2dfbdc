-- ===== src/ClientState.antt =====
-- ClientState of client_types.py and client_state_machine.py.
use phoenix_channels_python.Base.{
  ◌≡◌, refl, ◌≢◌, ◌⊎◌, Bool, true, false, List, [], ◌∷◌, arith, if◌then◌else◌, Result, ok, err,
  ◌>>=◌, runtime_error, invalid_transition, any,
}

pub data ClientState : Type 0 where
  connecting connected reconnecting shutting_down closed : ClientState

-- `current == new_state`
unfoldable pub same_state : ClientState → ClientState → Bool
same_state connecting connecting = true
same_state connected connected = true
same_state reconnecting reconnecting = true
same_state shutting_down shutting_down = true
same_state closed closed = true
same_state _ _ = false

unfoldable pub allowed_transitions : ClientState → List ClientState
allowed_transitions closed = connecting ∷ []
allowed_transitions connecting = connected ∷ reconnecting ∷ shutting_down ∷ closed ∷ []
allowed_transitions connected = reconnecting ∷ shutting_down ∷ closed ∷ []
allowed_transitions reconnecting = connected ∷ shutting_down ∷ closed ∷ []
allowed_transitions shutting_down = closed ∷ []

unfoldable pub transition_client_state : ClientState → ClientState → Result ClientState
unfolding same_state allowed_transitions
transition_client_state current new_state =
    if same_state current new_state
    then ok current
    else if any (same_state new_state) (allowed_transitions current)
    then ok new_state
    else err (runtime_error invalid_transition)

-- The transitions that the client asks for, one after another.
unfoldable pub transitions : ClientState → List ClientState → Result ClientState
transitions s [] = ok s
transitions s (t ∷ ts) = do u ← transition_client_state s t; transitions u ts

infix 40 ◌⟶◌
-- The life of a client: it connects, it may lose and regain its connection, it stops.
pub data ◌⟶◌ : ClientState → ClientState → Type 0 where
  enter : closed ⟶ connecting
  connects : connecting ⟶ connected
  retries : connecting ⟶ reconnecting
  loses : connected ⟶ reconnecting
  regains : reconnecting ⟶ connected
  stops : {s : ClientState} → s ≢ closed → s ≢ shutting_down → s ⟶ shutting_down
  ends : {s : ClientState} → s ≢ closed → s ⟶ closed

ruleset edges = (enter, connects, retries, loses, regains, stops, ends)

-- A transition that is accepted ends in the state asked for, and it stays there or follows an edge of
-- the client's life.
pub transition_client_state-⟶ :
    (s t u : ClientState) → transition_client_state s t ≡ ok u → (u ≡ t) × ((s ≡ t) ⊎ (s ⟶ t))
unfolding transition_client_state
transition_client_state-⟶ closed t u h = (ground arith, grind (arith, edges))
transition_client_state-⟶ s t u h = (ground arith, grind (arith, edges))

pub ⟶-transition_client_state : {s t : ClientState} → s ⟶ t → transition_client_state s t ≡ ok t
unfolding transition_client_state
⟶-transition_client_state enter = refl
⟶-transition_client_state connects = refl
⟶-transition_client_state retries = refl
⟶-transition_client_state loses = refl
⟶-transition_client_state regains = refl
⟶-transition_client_state (stops {s = s} h k) = ground arith
⟶-transition_client_state (ends {s = s} h) = ground arith

-- Has the list a state?
unfoldable pub visits : ClientState → List ClientState → Bool
unfolding same_state
visits s ts = any (same_state s) ts

-- A client that is shutting down gets nowhere without being closed.
pub transitions-shutting_down :
    (ts : List ClientState) (u : ClientState)
    → transitions shutting_down ts ≡ ok u
    → visits closed ts ≡ false
    → u ≡ shutting_down
unfolding transitions visits transition_client_state
transitions-shutting_down [] u h v = ground arith
transitions-shutting_down (shutting_down ∷ ts) u h v = transitions-shutting_down ts u h v
transitions-shutting_down (t ∷ ts) u h v = ground arith
