-- ===== src/Reconnect/Controller.antt =====
-- ReconnectControllerMixin of reconnect_controller.py: how the client takes a decider's answer.
use phoenix_channels_python.Base.{
  ℕ, ◌≤◌, ◌≡◌, refl, ◌⊎◌, true, false, ◌&&◌, not, Option, none, some, arith, ◌==◌, if◌then◌else◌,
  Result, ok, err, ◌>>=◌, Exc, socket_error, decider_failed, decider_async, decider_no_decision,
  decider_gate_delay, inl, inr, Bool-cases, [],
}
use phoenix_channels_python.Text.{Text}
use phoenix_channels_python.Reconnect.Policy.{
  ReconnectPolicy, ReconnectDecision, IsValid, ConnectError, ReconnectEvent, is_gate,
  at_connect_failed,
}
use phoenix_channels_python.Reconnect.Decider.{
  Decider, Draws, decide, exponential_delay, equal_jitter, after_connect_failure, backoff,
  is_terminal_handshake, is_suppressed, retry_after_failure,
}
use phoenix_channels_python.Reconnect.Decider.Decisions.{decide-IsValid, decide-gate}
use phoenix_channels_python.Reconnect.Decider.Bounds.{exponential_delay_overflow}

-- What a call of a decider comes to: an exception, a coroutine, a value of another type, or a
-- decision.
pub data Answer : Type 0 where
  raised : Exc → Answer
  coroutine : Answer
  no_decision : Answer
  decided : ReconnectDecision → Answer

-- `_decider_failure`
abbrev pub decider_failure : Exc → ReconnectDecision
decider_failure e = record { should_reconnect = false; delay = 0; terminal_error = some e }

-- `_decide`
unfoldable pub accept : ReconnectEvent → Answer → ReconnectDecision
accept event (raised e) = decider_failure (socket_error decider_failed)
accept event coroutine = decider_failure (socket_error decider_async)
accept event no_decision = decider_failure (socket_error decider_no_decision)
accept event (decided d) =
    if not (d.delay == 0) && is_gate event
    then decider_failure (socket_error decider_gate_delay)
    else d

-- The answer of the built-in decider.
unfoldable pub builtin_answer : Result ReconnectDecision → Answer
builtin_answer (ok d) = decided d
builtin_answer (err e) = raised e

-- `_channel_rejoin_delay`
unfoldable pub channel_rejoin_delay : ReconnectPolicy → ℕ → ℕ → Result ℕ
channel_rejoin_delay p r attempt = do delay ← exponential_delay p attempt; ok (equal_jitter r delay)

-- A close frame that was received or sent.
pub record CloseFrame : Type 0 where
  pub code : ℕ
  pub reason : Text

pub data RoutingError : Type 0 where
  connection_closed : (rcvd sent : Option CloseFrame) → RoutingError
  other_routing_error : RoutingError

-- What the connection says of its own close.
pub record Closing : Type 0 where
  pub close_code : Option ℕ
  pub close_reason : Option Text

abbrev reason_or_empty : Option Text → Text
reason_or_empty none = []
reason_or_empty (some t) = t

-- `_extract_close_details`: the frame that was received, then the one that was sent.
unfoldable pub extract_close_details : Closing → Option RoutingError → Option ℕ × Text
extract_close_details c (some (connection_closed (some f) sent)) = (some f.code, f.reason)
extract_close_details c (some (connection_closed none (some f))) = (some f.code, f.reason)
extract_close_details c _ = (c.close_code, reason_or_empty c.close_reason)

-- A sound answer is taken as it is; any other one stops the client with an error.
abbrev pub Sound : ReconnectEvent → Answer → Type 0
Sound event (decided d) = is_gate event ≡ true → d.delay ≡ 0
Sound event _ = ⊥

pub accept-decided :
    (event : ReconnectEvent) (d : ReconnectDecision)
    → Sound event (decided d)
    → accept event (decided d) ≡ d
unfolding accept
accept-decided event d h = ground arith

-- Whatever a decider does, the client reconnects only on a decision to reconnect, and stops without
-- an error only on a decision that says so.
pub accept_lem :
    (event : ReconnectEvent) (a : Answer)
    → (a ≡ decided (accept event a))
      ⊎ ((accept event a).should_reconnect ≡ false)
        × ((e : Exc) × ((accept event a).terminal_error ≡ some e))
unfolding accept
accept_lem event (raised e) = inr (refl, (socket_error decider_failed, refl))
accept_lem event coroutine = inr (refl, (socket_error decider_async, refl))
accept_lem event no_decision = inr (refl, (socket_error decider_no_decision, refl))
accept_lem event (decided d) = elim (Bool-cases (not (d.delay == 0) && is_gate event)) [
  | inl e ↦ rw e (inr (refl, (socket_error decider_gate_delay, refl)))
  | inr e ↦ rw e (inl refl)
]

-- The built-in decider's decisions are taken as they are; when it raises, the client stops.
pub accept-builtin_answer :
    (d : Decider) (now : ℕ) (r : Draws) (event : ReconnectEvent)
    → ((x : ReconnectDecision) × ((decide d now r event).0 ≡ ok x)
        × (accept event (builtin_answer (decide d now r event).0) ≡ x)
        × IsValid x)
      ⊎ ((e : Exc) × ((decide d now r event).0 ≡ err e)
          × (accept event (builtin_answer (decide d now r event).0)
              ≡ decider_failure (socket_error decider_failed)))
unfolding builtin_answer
accept-builtin_answer d now r event = cases (decide d now r event).0 refl
  where
    cases :
        (y : Result ReconnectDecision)
        → (decide d now r event).0 ≡ y
        → ((x : ReconnectDecision) × ((decide d now r event).0 ≡ ok x)
            × (accept event (builtin_answer (decide d now r event).0) ≡ x)
            × IsValid x)
          ⊎ ((e : Exc) × ((decide d now r event).0 ≡ err e)
              × (accept event (builtin_answer (decide d now r event).0)
                  ≡ decider_failure (socket_error decider_failed)))
    cases (ok x) e =
        let valid = decide-IsValid d now r event x e in
        inl (x, e, rw e (accept-decided event x (λ g. decide-gate d now r event x g e)), valid)
    cases (err x) e = inr (x, e, rw e (unfold accept in refl))

-- From the 1024th attempt on, under the default factor, a failed attempt to connect that is no
-- refused handshake and no churn stops the client with an error.
pub accept-overflow :
    (d : Decider) (now : ℕ) (r : Draws) (error : ConnectError)
    → d.policy.factor ≡ 2000
    → 1024 ≤ d.attempt
    → is_terminal_handshake error ≡ false
    → (is_suppressed d now 0).0 ≡ false
    → accept (at_connect_failed error) (builtin_answer (decide d now r (at_connect_failed error)).0)
      ≡ decider_failure (socket_error decider_failed)
unfolding accept builtin_answer decide after_connect_failure is_suppressed retry_after_failure
    backoff
accept-overflow d now r error f h t z =
    ground (arith, exponential_delay_overflow d.policy d.attempt f h)
