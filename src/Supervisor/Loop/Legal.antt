-- ===== src/Supervisor/Loop/Legal.antt =====
-- What the supervisor's loop raises, and how it ends.
use phoenix_channels_python.Base.{
  ℕ, ◌≡◌, refl, sym, subst, ap, Bool, true, false, ◌||◌, not, Option, none, some, List, [], ◌∷◌,
  arith, if◌then◌else◌, Exc, socket_error, connect_failed, cancelled_error, All,
}
use phoenix_channels_python.ClientState.{connected, reconnecting}
use phoenix_channels_python.Reconnect.Policy.{
  ConnectError, ReconnectDecision, ReconnectEvent, at_connecting, at_connected, at_connect_failed,
}
use phoenix_channels_python.Reconnect.Controller.{Answer, accept}
use phoenix_channels_python.Runtime.Invariant.{Inv}
use phoenix_channels_python.Supervisor.Connection.{
  Supervision, is_stopping, transition_state, settle_initial_connection, record_terminal_error,
  stop_for, proceeds, take_connection, next_generation, announce, decide_reconnect,
}
use phoenix_channels_python.Supervisor.Connection.Keeping.{
  Live, begin_cleanup-Live, running-transition, cleanup_connection-Live, Exited,
  settle_supervisor_exit-Exited,
}
use phoenix_channels_python.Supervisor.Loop.{
  Round, Wait, at_handshake, at_rejoining, at_session, at_cleanup, at_close, at_callback, at_delay,
  is_cancelled, awaited, clean_up, Connecting, refused, opened, Progress, goes_on, breaks, raises,
  ◌and_then◌, from_result, from_decision, pass_gate, retry_after_connect_failure, settle_gate,
  adopt_connection, run_session, end_session, connect_and_serve, supervisor_round, Run, runs,
  returned, raised, leave_by, leaving, after_progress, supervisor_loop,
}

-- What other tasks do in a round's waits keeps the channels' invariant, and moves the client out of
-- its running states only when a shutdown is requested.
pub record Polite (r : Round) : Type 0 where
  pub handshake : (s : Supervision) → Live s → Live (r.handshake s)
  pub rejoining : (s : Supervision) → Live s → Live (r.rejoining s)
  pub session : (s : Supervision) → Live s → Live (r.session s)
  pub cleanup : (s : Supervision) → Live s → Live (r.cleanup s)
  pub on_disconnect : (s : Supervision) → Live s → Live (r.on_disconnect s)
  pub delay : (s : Supervision) → Live s → Live (r.delay s)

-- A part of the loop that raises nothing but a cancellation, with what holds where it ends.
abbrev Fine : (Supervision → Type 0) → Progress → Type 0
Fine P (goes_on s) = P s
Fine P (breaks s) = Live s
Fine P (raises e s) = (e ≡ cancelled_error) × Live s

Fine-and_then :
    (P Q : Supervision → Type 0) (p : Progress) (f : Supervision → Progress)
    → Fine P p
    → ((s : Supervision) → P s → Fine Q (f s))
    → Fine Q (p and_then f)
Fine-and_then P Q (goes_on s) f h k = k s h
Fine-and_then P Q (breaks s) f h k = h
Fine-and_then P Q (raises e s) f h k = h

Fine-if :
    (P : Supervision → Type 0) (b : Bool) (x y : Progress)
    → (b ≡ true → Fine P x)
    → (b ≡ false → Fine P y)
    → Fine P (if b then x else y)
Fine-if P true x y h k = h refl
Fine-if P false x y h k = k refl

Fine-decision :
    (P : Supervision → Type 0) (b : Bool) (x y : Option ReconnectDecision × Supervision)
    → (b ≡ true → Fine P (from_decision x))
    → (b ≡ false → Fine P (from_decision y))
    → Fine P (from_decision (if b then x else y))
Fine-decision P true x y h k = h refl
Fine-decision P false x y h k = k refl

-- A client that is not asked to stop.
record Going (s : Supervision) : Type 0 where
  live : Live s
  going : is_stopping s ≡ false

settle-Live : (s : Supervision) (e : Option Exc) → Live s → Live (settle_initial_connection s e)
unfolding settle_initial_connection
settle-Live s none live = record { inv = live.inv; running = live.running }
settle-Live s (some e) live = record { inv = live.inv; running = live.running }

stop_for-Live : (s : Supervision) (e : Option Exc) → Live s → Live (stop_for s e)
unfolding stop_for record_terminal_error settle_initial_connection
stop_for-Live s none live = live
stop_for-Live s (some e) live = record { inv = live.inv; running = live.running }

proceeds-Fine :
    (P : Supervision → Type 0) (s : Supervision) (event : ReconnectEvent) (answer : Answer)
    → P s
    → Live s
    → Fine P (from_decision (proceeds s event answer))
unfolding proceeds
proceeds-Fine P s event answer p live =
    Fine-decision P (accept event answer).should_reconnect _ _ (λ _. p)
      (λ _. stop_for-Live s (accept event answer).terminal_error live)

pass_gate-Fine :
    (P : Supervision → Type 0) (r : Round) (event : ReconnectEvent) (s : Supervision)
    → P s
    → Live s
    → Fine P (pass_gate r event s)
unfolding pass_gate
pass_gate-Fine P r event s p live =
    Fine-if P s.auto_reconnect _ _ (λ _. proceeds-Fine P s event (r.decider event) p live) (λ _. p)

reconnecting-Fine :
    (s : Supervision) → Going s → Fine Live (from_result s (transition_state s reconnecting))
unfolding transition_state
reconnecting-Fine s g =
    let (_, e) = running-transition s.client.state (g.live.running g.going) in
    rw e (record {
      inv = record { topic = g.live.inv.topic; fresh = g.live.inv.fresh; refs = g.live.inv.refs };
      running = λ h. refl;
    })

announce-Fine :
    (s : Supervision)
    → Going s
    → Fine Live (from_result (announce s) (transition_state (announce s) connected))
unfolding announce transition_state
announce-Fine s g =
    let (e, _) = running-transition s.client.state (g.live.running g.going) in
    rw e (record {
      inv = record { topic = g.live.inv.topic; fresh = g.live.inv.fresh; refs = g.live.inv.refs };
      running = λ h. refl;
    })

awaited-Fine :
    (P : Supervision → Type 0) (r : Round) (w : Wait) (s : Supervision)
    → P s
    → Live s
    → Fine P (awaited r w s)
unfolding awaited
awaited-Fine P r w s p live =
    Fine-if P (is_cancelled r.cancelled_at w) _ _ (λ _. (refl, live)) (λ _. p)

module _ (r : Round) (polite : Polite r) where
  clean_up-Fine : (s : Supervision) → Live s → Fine Live (clean_up r s)
  unfolding clean_up
  clean_up-Fine s live =
      let cleaned = cleanup_connection-Live s r.cleanup live polite.cleanup in
      Fine-if Live (is_cancelled r.cancelled_at at_close) _ _
        (λ _. (refl, polite.cleanup _ (begin_cleanup-Live s live)))
        (λ _. awaited-Fine Live r at_cleanup _ cleaned cleaned)

  retry-Fine :
      (e : ConnectError) (s : Supervision) → Live s → Fine Live (retry_after_connect_failure r e s)
  unfolding retry_after_connect_failure
  retry-Fine e s live =
      Fine-if Live (not s.auto_reconnect) _ _
        (λ _. settle-Live s (some (socket_error connect_failed)) live)
        (λ _.
          Fine-if Live (is_stopping s) _ _ (λ _. live)
            (λ go.
              Fine-and_then Going Live _ _
                (proceeds-Fine Going s (at_connect_failed e) (r.decider (at_connect_failed e))
                  (record { live = live; going = go }) live)
                (λ d g. reconnecting-Fine d g)))

  settle_gate-Fine : (p : Progress) → Fine Going p → Fine Live (settle_gate r p)
  settle_gate-Fine (goes_on s) g = announce-Fine s g
  settle_gate-Fine (breaks s) live =
      Fine-and_then Live Live (clean_up r s) breaks (clean_up-Fine s live) (λ d l. l)
  settle_gate-Fine (raises e s) h = h

  adopt-Fine : (n : ℕ) (s : Supervision) → Live s → Fine Live (adopt_connection r n s)
  unfolding adopt_connection take_connection next_generation
  adopt-Fine n s live =
      let d = take_connection s n in
      let inv : Inv d.client = record {
        topic = live.inv.topic;
        fresh = live.inv.fresh;
        refs = live.inv.refs;
      } in
      let l : Live d = record { inv = inv; running = live.running } in
      let e = next_generation d in
      let inv' : Inv e.client = record {
        topic = live.inv.topic;
        fresh = live.inv.fresh;
        refs = live.inv.refs;
      } in
      let l' : Live e = record { inv = inv'; running = live.running } in
      Fine-if Live (is_stopping d) _ _ (λ _. l)
        (λ go. settle_gate-Fine _ (
          pass_gate-Fine Going r (at_connected e.client.conn_generation) e
            (record { live = l'; going = go }) l'))

  end_session-Fine : (s : Supervision) → Live s → Fine Live (end_session r s)
  unfolding end_session decide_reconnect
  end_session-Fine s live =
      Fine-and_then Live Live _ _
        (Fine-and_then Live Live _ _ (clean_up-Fine s live)
          (λ d l. let m = polite.on_disconnect d l in awaited-Fine Live r at_callback _ m m))
        (λ d l.
          Fine-and_then Going Live _ _
            (Fine-decision Going (is_stopping d || not d.auto_reconnect) _ _ (λ _. l)
              (λ go. proceeds-Fine Going d _ _ (record { live = l; going = ground arith }) l))
            (λ e g. reconnecting-Fine e g))

  run_session-Fine : (s : Supervision) → Live s → Fine Live (run_session r s)
  unfolding run_session
  run_session-Fine s live =
      let joined = polite.rejoining s live in
      Fine-and_then Live Live _ _ (awaited-Fine Live r at_rejoining _ joined joined) (λ d l.
        let ended = polite.session _ (settle-Live d none l) in
        awaited-Fine Live r at_session _ ended ended)

  serve-Fine : (x : Connecting) (s : Supervision) → Live s → Fine Live (connect_and_serve r x s)
  unfolding connect_and_serve
  serve-Fine (refused e) s live = retry-Fine e s live
  serve-Fine (opened n) s live =
      Fine-and_then Live Live _ _
        (Fine-and_then Live Live _ _ (adopt-Fine n s live) (λ d l. run_session-Fine d l))
        (λ d l. end_session-Fine d l)

  round-Fine : (s : Supervision) → Live s → Fine Live (supervisor_round r s)
  unfolding supervisor_round
  round-Fine s live =
      Fine-if Live (is_stopping s) _ _ (λ _. live)
        (λ _.
          Fine-and_then Live Live _ _
            (Fine-and_then Live Live _ _
              (Fine-and_then Live Live _ _ (pass_gate-Fine Live r at_connecting s live live)
                (λ d l. let m = polite.handshake d l in awaited-Fine Live r at_handshake _ m m))
              (λ d l. serve-Fine r.outcome d l))
            (λ d l. let m = polite.delay d l in awaited-Fine Live r at_delay _ m m))

-- A run of the loop that raised nothing but a cancellation, with what holds where it still runs and
-- where it ended.
abbrev pub Sound : Run → Type 0
Sound (runs s) = Live s
Sound (returned s) = Exited s
Sound (raised e s) = (e ≡ cancelled_error) × Exited s

leaving-Sound : (s : Supervision) → Live s → Sound (leaving returned s)
leaving-Sound s live =
    let (d, e, x) = settle_supervisor_exit-Exited s live.inv in
    subst Sound (sym (ap (leave_by returned s) e)) x

after_progress-Sound :
    (rest : Supervision → Run)
    → ((s : Supervision) → Live s → Sound (rest s))
    → (p : Progress) → Fine Live p
    → Sound (after_progress rest p)
after_progress-Sound rest h (goes_on s) l = h s l
after_progress-Sound rest h (breaks s) l = leaving-Sound s l
after_progress-Sound rest h (raises e s) (own, l) =
    let (d, p, x) = settle_supervisor_exit-Exited s l.inv in
    subst Sound (sym (ap (leave_by (raised e) s) p)) (own, x)

-- Whatever the network and the decider do, and whatever the other tasks do while the supervisor waits,
-- as long as they keep the channels' invariant and leave the running states only for a shutdown, its
-- loop raises nothing but the CancelledError of its own task, which may come in any wait; a refused
-- transition of the client's state is never raised. When the loop ends, by a return or a cancellation,
-- the wait for the first connection has ended, the client is not announced as connected, it is closed
-- or is being shut down, and the invariant holds.
pub supervisor_loop-Sound :
    (rs : List Round) (s : Supervision) → All Polite rs → Live s → Sound (supervisor_loop rs s)
unfolding supervisor_loop
supervisor_loop-Sound [] s polite live = live
supervisor_loop-Sound (r ∷ rs) s polite live =
    after_progress-Sound (supervisor_loop rs) (λ d l. supervisor_loop-Sound rs d polite.1 l)
      (supervisor_round r s) (round-Fine r polite.0 s live)
