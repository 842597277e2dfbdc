-- ===== src/Supervisor/Loop/Finality.antt =====
-- A loop of the supervisor once a shutdown was requested: every part of a round keeps it so, and the
-- round ends the loop.
use phoenix_channels_python.Base.{
  ℕ, ◌≡◌, refl, Bool, true, false, not, Option, none, arith, if◌then◌else◌, inl, inr, Result-cases,
}
use phoenix_channels_python.ClientState.{ClientState, connected, transition_client_state}
use phoenix_channels_python.Reconnect.Policy.{
  ConnectError, ReconnectDecision, ReconnectEvent, at_connected,
}
use phoenix_channels_python.Reconnect.Controller.{Answer, accept}
use phoenix_channels_python.Runtime.Losses.Life.{Life, fail_pending_joins-Life}
use phoenix_channels_python.Supervisor.Connection.{
  Supervision, is_stopping, transition_state, settle_initial_connection, proceeds, begin_cleanup,
  fail_joins_for_lost_connection, cleanup_connection, take_connection, next_generation, announce,
  decide_reconnect,
}
use phoenix_channels_python.Supervisor.Connection.Keeping.{end_topics-Life}
use phoenix_channels_python.Supervisor.Loop.{
  Round, Wait, at_rejoining, at_session, at_cleanup, at_close, at_callback, is_cancelled, awaited,
  clean_up, Connecting, refused, opened, Progress, goes_on, breaks, raises, ◌and_then◌, from_result,
  from_decision, pass_gate, retry_after_connect_failure, settle_gate, adopt_connection, run_session,
  end_session, connect_and_serve,
}

abbrev pub Finishes : (Supervision → Supervision) → Type 0
Finishes wait = (s : Supervision) → is_stopping (wait s) ≡ true

abbrev pub KeepsFinal : (Supervision → Supervision) → Type 0
KeepsFinal wait = (s : Supervision) → is_stopping s ≡ true → is_stopping (wait s) ≡ true

-- No wait takes a request back.
pub record Steady (r : Round) : Type 0 where
  pub handshake : KeepsFinal r.handshake
  pub rejoining : KeepsFinal r.rejoining
  pub session : KeepsFinal r.session
  pub cleanup : KeepsFinal r.cleanup
  pub on_disconnect : KeepsFinal r.on_disconnect
  pub delay : KeepsFinal r.delay

abbrev pub Holds : (Supervision → Type 0) → Progress → Type 0
Holds P (goes_on s) = P s
Holds P (breaks s) = Unit
Holds P (raises e s) = Unit

abbrev pub Never : Progress → Type 0
Never p = Holds (λ _. ⊥) p

abbrev pub Final : Progress → Type 0
Final p = Holds (λ s. is_stopping s ≡ true) p

pub Holds-and_then :
    (P Q : Supervision → Type 0) (p : Progress) (f : Supervision → Progress)
    → Holds P p
    → ((s : Supervision) → P s → Holds Q (f s))
    → Holds Q (p and_then f)
Holds-and_then P Q (goes_on s) f h k = k s h
Holds-and_then P Q (breaks s) f h k = tt
Holds-and_then P Q (raises e s) f h k = tt

pub Holds-any : (p : Progress) → Holds (λ _. Unit {0}) p
Holds-any (goes_on s) = tt
Holds-any (breaks s) = tt
Holds-any (raises e s) = tt

-- What follows a part that never goes on.
pub Never-and_then :
    (Q : Supervision → Type 0) (p : Progress) (f : Supervision → Progress)
    → Never p
    → Holds Q (p and_then f)
Never-and_then Q p f h = Holds-and_then (λ _. ⊥) Q p f h (λ s e. absurd e)

pub Never-Final : (p : Progress) → Never p → Final p
Never-Final (goes_on s) h = absurd h
Never-Final (breaks s) h = tt
Never-Final (raises e s) h = tt

pub Holds-if :
    (P : Supervision → Type 0) (b : Bool) (x y : Progress)
    → (b ≡ true → Holds P x)
    → (b ≡ false → Holds P y)
    → Holds P (if b then x else y)
Holds-if P true x y h k = h refl
Holds-if P false x y h k = k refl

Holds-decision :
    (P : Supervision → Type 0) (b : Bool) (x y : Option ReconnectDecision × Supervision)
    → (b ≡ true → Holds P (from_decision x))
    → (b ≡ false → Holds P (from_decision y))
    → Holds P (from_decision (if b then x else y))
Holds-decision P true x y h k = h refl
Holds-decision P false x y h k = k refl

stopping-Life :
    (s d : Supervision) → Life s.client d.client → is_stopping s ≡ true → is_stopping d ≡ true
stopping-Life s d life h = rw life.stopping h

pub begin_cleanup-stopping :
    (s : Supervision) → is_stopping s ≡ true → is_stopping (begin_cleanup s) ≡ true
unfolding begin_cleanup fail_joins_for_lost_connection
begin_cleanup-stopping s h = rw (fail_pending_joins-Life s.client _).stopping h

proceeds-Final :
    (s : Supervision) (event : ReconnectEvent) (answer : Answer)
    → is_stopping s ≡ true
    → Final (from_decision (proceeds s event answer))
unfolding proceeds
proceeds-Final s event answer h =
    Holds-decision _ (accept event answer).should_reconnect _ _ (λ _. h) (λ _. tt)

pass_gate-Final :
    (r : Round) (event : ReconnectEvent) (s : Supervision)
    → is_stopping s ≡ true
    → Final (pass_gate r event s)
unfolding pass_gate
pass_gate-Final r event s h =
    Holds-if _ s.auto_reconnect _ _ (λ _. proceeds-Final s event (r.decider event) h) (λ _. h)

transition-Final :
    (s : Supervision) (u : ClientState)
    → is_stopping s ≡ true
    → Final (from_result s (transition_state s u))
unfolding transition_state
transition-Final s u h = elim (Result-cases (transition_client_state s.client.state u)) [
  | inl (e, x) ↦ rw x tt
  | inr (v, x) ↦ rw x h
]

announce-Final :
    (s : Supervision)
    → is_stopping s ≡ true
    → Final (from_result (announce s) (transition_state (announce s) connected))
unfolding announce
announce-Final s h = transition-Final (announce s) connected h

settle_gate-Final : (r : Round) (p : Progress) → Final p → Final (settle_gate r p)
settle_gate-Final r (goes_on s) h = announce-Final s h
settle_gate-Final r (breaks s) h =
    Holds-and_then (λ _. Unit {0}) (λ d. is_stopping d ≡ true) (clean_up r s) breaks
      (Holds-any (clean_up r s)) (λ d _. tt)
settle_gate-Final r (raises e s) h = tt

adopt-Final :
    (r : Round) (n : ℕ) (s : Supervision) → is_stopping s ≡ true → Final (adopt_connection r n s)
unfolding adopt_connection take_connection next_generation
adopt-Final r n s h =
    let e = next_generation (take_connection s n) in
    Holds-if _ (is_stopping s) _ _ (λ _. tt)
      (λ _. settle_gate-Final r _ (pass_gate-Final r (at_connected e.client.conn_generation) e h))

retry-Never :
    (r : Round) (e : ConnectError) (s : Supervision)
    → is_stopping s ≡ true
    → Never (retry_after_connect_failure r e s)
unfolding retry_after_connect_failure
retry-Never r e s h =
    Holds-if _ (not s.auto_reconnect) _ _ (λ _. tt)
      (λ on. Holds-if _ (is_stopping s) _ _ (λ _. tt) (λ going. absurd (ground arith)))

pub awaited-Final :
    (r : Round) (w : Wait) (s : Supervision) → is_stopping s ≡ true → Final (awaited r w s)
unfolding awaited
awaited-Final r w s h = Holds-if _ (is_cancelled r.cancelled_at w) _ _ (λ _. tt) (λ _. h)

-- A session whose last waits end after the request ends the loop.
pub end_session-Never :
    (r : Round)
    → ((s : Supervision)
        → Final (clean_up r s and_then λ d. awaited r at_callback (r.on_disconnect d)))
    → (s : Supervision) → Never (end_session r s)
unfolding end_session decide_reconnect
end_session-Never r closed s =
    Holds-and_then (λ d. is_stopping d ≡ true) (λ _. ⊥) _ _ (closed s) (λ d h. rw h tt)

pub settled-stopping :
    (s : Supervision) → is_stopping s ≡ true → is_stopping (settle_initial_connection s none) ≡ true
unfolding settle_initial_connection
settled-stopping s h = h

pub cleaned-stopping :
    (s : Supervision) (meanwhile : Supervision → Supervision)
    → is_stopping (meanwhile (begin_cleanup s)) ≡ true
    → is_stopping (cleanup_connection s meanwhile) ≡ true
unfolding cleanup_connection
cleaned-stopping s meanwhile h =
    let d = meanwhile (begin_cleanup s) in
    stopping-Life d (cleanup_connection s meanwhile)
      (end_topics-Life d.client s.client.connection _) h

pub clean_up-Final :
    (r : Round) (s : Supervision)
    → is_stopping (r.cleanup (begin_cleanup s)) ≡ true
    → Final (clean_up r s)
unfolding clean_up
clean_up-Final r s h =
    Holds-if _ (is_cancelled r.cancelled_at at_close) _ _ (λ _. tt)
      (λ _. awaited-Final r at_cleanup _ (cleaned-stopping s r.cleanup h))

module _ (r : Round) (steady : Steady r) where
  -- The end of a session after the request.
  pub closed-Final :
      (s : Supervision)
      → Final (clean_up r s)
      → Final (clean_up r s and_then λ d. awaited r at_callback (r.on_disconnect d))
  closed-Final s h =
      Holds-and_then (λ d. is_stopping d ≡ true) (λ d. is_stopping d ≡ true) _ _ h
        (λ d f. awaited-Final r at_callback _ (steady.on_disconnect d f))

  pub end_session-stopping : (s : Supervision) → is_stopping s ≡ true → Never (end_session r s)
  unfolding end_session decide_reconnect
  end_session-stopping s h =
      Holds-and_then (λ d. is_stopping d ≡ true) (λ _. ⊥) _ _
        (closed-Final s (clean_up-Final r s (steady.cleanup _ (begin_cleanup-stopping s h))))
        (λ d f. rw f tt)

  pub run_session-Final :
      (s : Supervision) → is_stopping (r.rejoining s) ≡ true → Final (run_session r s)
  unfolding run_session
  run_session-Final s h =
      Holds-and_then (λ d. is_stopping d ≡ true) (λ d. is_stopping d ≡ true) _ _
        (awaited-Final r at_rejoining _ h)
        (λ d f. awaited-Final r at_session _ (steady.session _ (settled-stopping d f)))

  pub serve-Never :
      (x : Connecting) (s : Supervision) → is_stopping s ≡ true → Never (connect_and_serve r x s)
  unfolding connect_and_serve
  serve-Never (refused e) s h = retry-Never r e s h
  serve-Never (opened n) s h =
      Holds-and_then (λ d. is_stopping d ≡ true) (λ _. ⊥) _ _
        (Holds-and_then (λ d. is_stopping d ≡ true) (λ d. is_stopping d ≡ true) _ _
          (adopt-Final r n s h) (λ d f. run_session-Final d (steady.rejoining d f)))
        (λ d f. end_session-stopping d f)
