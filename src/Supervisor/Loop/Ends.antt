-- ===== src/Supervisor/Loop/Ends.antt =====
-- The supervisor's loop ends once a shutdown was requested.
use phoenix_channels_python.Base.{
  ℕ, ◌≡◌, refl, Bool, Bool-cases, true, false, none, inl, inr, ◌⊎◌, arith, List, [], ◌∷◌, ◌++◌,
  Result, ok, err, Exc,
}
use phoenix_channels_python.Reconnect.Policy.{at_connecting}
use phoenix_channels_python.Supervisor.Connection.{
  Supervision, is_stopping, settle_initial_connection, begin_cleanup, settle_supervisor_exit,
}
use phoenix_channels_python.Supervisor.Loop.{
  Round, opened, at_handshake, at_rejoining, at_session, at_callback, at_delay, awaited, clean_up,
  Progress, goes_on, breaks, raises, ◌and_then◌, pass_gate, adopt_connection, run_session,
  end_session, connect_and_serve, supervisor_round, Run, runs, returned, raised, leave_by, leaving,
  after_progress, supervisor_loop,
}
use phoenix_channels_python.Supervisor.Loop.Finality.{
  Finishes, Steady, Holds, Never, Final, Holds-and_then, Holds-any, Never-and_then, Never-Final,
  Holds-if, awaited-Final, clean_up-Final, closed-Final, run_session-Final, end_session-Never,
  end_session-stopping, serve-Never,
}

-- A shutdown is requested during one of the round's waits; some waits need a connection.
pub data Finishing (r : Round) : Type 0 where
  in_handshake : Finishes r.handshake → Finishing r
  in_rejoining : (n : ℕ) → r.outcome ≡ opened n → Finishes r.rejoining → Finishing r
  in_session : (n : ℕ) → r.outcome ≡ opened n → Finishes r.session → Finishing r
  in_cleanup : (n : ℕ) → r.outcome ≡ opened n → Finishes r.cleanup → Finishing r
  in_on_disconnect : (n : ℕ) → r.outcome ≡ opened n → Finishes r.on_disconnect → Finishing r
  in_delay : Finishes r.delay → Finishing r

-- Is it during the delay, the round's last wait?
abbrev pub is_late : {r : Round} → Finishing r → Bool
is_late (in_delay w) = true
is_late _ = false

-- A session that ends the loop, whatever client it starts with, ends the round.
opened-Never :
    (r : Round) (n : ℕ) (P : Supervision → Type 0)
    → r.outcome ≡ opened n
    → ((s : Supervision) → Holds P (run_session r s))
    → ((s : Supervision) → P s → Never (end_session r s))
    → (s : Supervision) → Never (connect_and_serve r r.outcome s)
unfolding connect_and_serve
opened-Never r n P e run h s =
    rw (e, connect_and_serve)
      (Holds-and_then P (λ _. ⊥) _ _
        (Holds-and_then (λ _. Unit {0}) P _ _ (Holds-any (adopt_connection r n s)) (λ d _. run d))
        h)

-- The round up to its delay.
abbrev served : Round → Supervision → Progress
served r s =
    pass_gate r at_connecting s
    and_then (λ d. awaited r at_handshake (r.handshake d))
    and_then connect_and_serve r r.outcome

module _ (r : Round) (steady : Steady r) where
  -- A connection that ends the loop, whatever client it starts with, ends the round.
  ended_by :
      ((s : Supervision) → Never (connect_and_serve r r.outcome s))
      → (s : Supervision) → Never (served r s)
  ended_by never s =
      Holds-and_then (λ _. Unit {0}) (λ _. ⊥) _ (connect_and_serve r r.outcome) (Holds-any _)
        (λ d _. never d)

  session_ends : Finishes r.session → (s : Supervision) → Final (run_session r s)
  unfolding run_session
  session_ends w s =
      let joined = awaited r at_rejoining (r.rejoining s) in
      let rest : Supervision → Supervision = λ d. r.session (settle_initial_connection d none) in
      Holds-and_then (λ _. Unit {0}) (λ d. is_stopping d ≡ true) joined
        (λ d. awaited r at_session (rest d)) (Holds-any joined)
        (λ d _. awaited-Final r at_session (rest d) (w (settle_initial_connection d none)))

  callback_ends :
      Finishes r.on_disconnect
      → (s : Supervision)
      → Final (clean_up r s and_then λ d. awaited r at_callback (r.on_disconnect d))
  callback_ends w s =
      Holds-and_then (λ _. Unit {0}) (λ d. is_stopping d ≡ true) _ _ (Holds-any (clean_up r s))
        (λ d _. awaited-Final r at_callback _ (w d))

  served-Never : (w : Finishing r) → is_late w ≡ false → (s : Supervision) → Never (served r s)
  served-Never (in_handshake w) e s =
      Holds-and_then (λ d. is_stopping d ≡ true) (λ _. ⊥) _ _
        (Holds-and_then (λ _. Unit {0}) (λ d. is_stopping d ≡ true) _ _
          (Holds-any (pass_gate r at_connecting s)) (λ d _. awaited-Final r at_handshake _ (w d)))
        (λ d f. serve-Never r steady r.outcome d f)
  served-Never (in_rejoining n o w) e s =
      ended_by
        (opened-Never r n (λ d. is_stopping d ≡ true) o (λ d. run_session-Final r steady d (w d))
          (end_session-stopping r steady))
        s
  served-Never (in_session n o w) e s =
      ended_by
        (opened-Never r n (λ d. is_stopping d ≡ true) o (session_ends w)
          (end_session-stopping r steady))
        s
  served-Never (in_cleanup n o w) e s =
      ended_by
        (opened-Never r n (λ _. Unit {0}) o (λ d. Holds-any (run_session r d))
          (λ d _.
            end_session-Never r
              (λ x. closed-Final r steady x (clean_up-Final r x (w (begin_cleanup x)))) d))
        s
  served-Never (in_on_disconnect n o w) e s =
      ended_by
        (opened-Never r n (λ _. Unit {0}) o (λ d. Holds-any (run_session r d))
          (λ d _. end_session-Never r (callback_ends w) d))
        s
  served-Never (in_delay w) e s = absurd (ground arith)

  -- A round in which a shutdown is requested before its delay ends the loop.
  round-Never :
      (w : Finishing r) → is_late w ≡ false → (s : Supervision) → Never (supervisor_round r s)
  unfolding supervisor_round
  round-Never w e s =
      Holds-if _ (is_stopping s) _ _ (λ _. tt)
        (λ _. Never-and_then (λ _. ⊥) (served r s) _ (served-Never w e s))

  -- One in which it is requested at all ends the loop, or goes on with the request.
  round-Final : Finishing r → (s : Supervision) → Final (supervisor_round r s)
  unfolding supervisor_round
  round-Final (in_delay w) s =
      Holds-if _ (is_stopping s) _ _ (λ _. tt)
        (λ _.
          Holds-and_then (λ _. Unit {0}) (λ d. is_stopping d ≡ true) (served r s) _
            (Holds-any (served r s)) (λ d _. awaited-Final r at_delay _ (w d)))
  round-Final w s = Never-Final _ (round-Never w refl s)

-- Does the loop still run when the rounds that are given are over?
abbrev pub is_still_running : Run → Bool
is_still_running (runs s) = true
is_still_running _ = false

-- The loop's head finds the request, and nothing of a further round happens.
abbrev pub ends_here : Run → Run
ends_here (runs s) = leaving returned s
ends_here x = x

left_ends :
    (last : Supervision → Run)
    → ((s : Supervision) → is_still_running (last s) ≡ false)
    → (s : Supervision) (x : Result Supervision) → is_still_running (leave_by last s x) ≡ false
left_ends last h s (ok d) = h d
left_ends last h s (err e) = refl

-- What does not run has ended.
ends_here-ended : (x : Run) → is_still_running x ≡ false → x ≡ ends_here x
ends_here-ended (runs s) h = absurd (ground arith)
ends_here-ended (returned s) h = refl
ends_here-ended (raised e s) h = refl

ends_here-still_running : (x : Run) → is_still_running (ends_here x) ≡ false
ends_here-still_running (runs s) = left_ends returned (λ d. refl) s (settle_supervisor_exit s)
ends_here-still_running (returned s) = refl
ends_here-still_running (raised e s) = refl

breaks_ends : (s : Supervision) → is_still_running (leaving returned s) ≡ false
breaks_ends s = left_ends returned (λ d. refl) s (settle_supervisor_exit s)

raises_ends : (e : Exc) (s : Supervision) → is_still_running (leaving (raised e) s) ≡ false
raises_ends e s = left_ends (raised e) (λ d. refl) s (settle_supervisor_exit s)

ended :
    (P : Supervision → Type 0) (rest : Supervision → Run) (p : Progress)
    → Holds P p
    → ((s : Supervision) → P s → is_still_running (rest s) ≡ false)
    → is_still_running (after_progress rest p) ≡ false
ended P rest (goes_on s) h k = k s h
ended P rest (breaks s) h k = breaks_ends s
ended P rest (raises e s) h k = raises_ends e s

cut_short :
    (P : Supervision → Type 0) (f g : Supervision → Run) (p : Progress)
    → Holds P p
    → ((s : Supervision) → P s → f s ≡ ends_here (g s))
    → after_progress f p ≡ ends_here (after_progress g p)
cut_short P f g (goes_on s) h k = k s h
cut_short P f g (breaks s) h k = ends_here-ended _ (breaks_ends s)
cut_short P f g (raises e s) h k = ends_here-ended _ (raises_ends e s)

stopped_head :
    (next : Round) (after : List Round) (s : Supervision)
    → is_stopping s ≡ true
    → supervisor_loop (next ∷ after) s ≡ leaving returned s
unfolding supervisor_loop supervisor_round
stopped_head next after s h = rw h refl

module _ (r : Round) (steady : Steady r) where
  supervisor_loop-cut :
      (before : List Round) (next : Round) (after : List Round) (s : Supervision)
      → Finishing r
      → supervisor_loop (before ++ (r ∷ next ∷ after)) s
        ≡ ends_here (supervisor_loop (before ++ (r ∷ [])) s)
  unfolding supervisor_loop
  supervisor_loop-cut [] next after s w =
      cut_short (λ d. is_stopping d ≡ true) (supervisor_loop (next ∷ after)) runs _
        (round-Final r steady w s) (λ d f. stopped_head next after d f)
  supervisor_loop-cut (b ∷ before) next after s w =
      cut_short (λ _. Unit {0}) (supervisor_loop (before ++ (r ∷ next ∷ after)))
        (supervisor_loop (before ++ (r ∷ []))) _ (Holds-any (supervisor_round b s))
        (λ d _. supervisor_loop-cut before next after d w)

  supervisor_loop-early :
      (before : List Round) (s : Supervision) (w : Finishing r)
      → is_late w ≡ false
      → is_still_running (supervisor_loop (before ++ (r ∷ [])) s) ≡ false
  unfolding supervisor_loop
  supervisor_loop-early [] s w e =
      ended (λ _. ⊥) (supervisor_loop []) _ (round-Never r steady w e s) (λ d x. absurd x)
  supervisor_loop-early (b ∷ before) s w e =
      ended (λ _. Unit {0}) (supervisor_loop (before ++ (r ∷ []))) _
        (Holds-any (supervisor_round b s)) (λ d _. supervisor_loop-early before d w e)

  -- Whatever happened in the rounds before, a shutdown that is requested in one of the waits of a round
  -- ends the loop, if no later wait of that round takes it back: in that round, when it is requested
  -- before the round's delay; else at the head of the loop, so that nothing of the next round happens,
  -- no decision and no attempt to connect.
  pub supervisor_loop-ends :
      (before : List Round) (next : Round) (after : List Round) (s : Supervision) (w : Finishing r)
      → (is_still_running (supervisor_loop (before ++ (r ∷ next ∷ after)) s) ≡ false)
        × (supervisor_loop (before ++ (r ∷ next ∷ after)) s
            ≡ ends_here (supervisor_loop (before ++ (r ∷ [])) s))
        × ((is_late w ≡ true) ⊎ (is_still_running (supervisor_loop (before ++ (r ∷ [])) s) ≡ false))
  supervisor_loop-ends before next after s w =
      let e = supervisor_loop-cut before next after s w in
      (
        rw e (ends_here-still_running (supervisor_loop (before ++ (r ∷ [])) s)),
        e,
        elim (Bool-cases (is_late w)) [
          | inl late ↦ inl late
          | inr early ↦ inr (supervisor_loop-early before s w early)
        ],
      )
