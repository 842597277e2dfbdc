-- ===== src/SendSession/Runs.antt =====
-- What holds of a session whatever happens to it.
use phoenix_channels_python.Base.{
  ℕ, ◌≤◌, ◌≡◌, refl, Bool, true, false, ◌||◌, not, Option, none, some, List, [], ◌∷◌, arith,
  if◌then◌else◌, Result, ok, err, Exc, socket_error, send_lost, send_cancelled, length,
}
use phoenix_channels_python.Futures.{Future, exception, is_done, settle, settle-done}
use phoenix_channels_python.SendSession.{
  SessionSends, notify_failure, discard, admit, change, finish_task, begin_send, Sent, sent, lost,
  cancelled, raised, is_submitted, end_send, expire_operation, expire_if_there, expire, send_done,
  outcome_done, cancel_caller, stop_operation, start_finish, end_finish,
}

-- What may happen to a session: its own steps, an outcome that is settled from without, as by a
-- reply, and a new connection.
pub data Event : Type 0 where
  admitted : (outcome : ℕ) → (timeout : Option ℕ) → Event
  began : (outcome : ℕ) → (eligible : Bool) → (ineligible_error : Exc) → Event
  ended : (outcome : ℕ) → Sent → Event
  expired : (outcome : ℕ) → (error : Exc) → Event
  task_ended outcome_ended caller_cancelled : (outcome : ℕ) → Event
  outcome_settled : (outcome : ℕ) → Future → Event
  replaced finishing finished : Event

abbrev admitted_session : SessionSends → Result (Bool × SessionSends) → SessionSends
admitted_session s (ok r) = r.1
admitted_session s (err e) = s

unfoldable pub step : SessionSends → Event → SessionSends
step s (admitted f timeout) = admitted_session s (admit s f timeout)
step s (began f eligible e) = begin_send s f eligible e
step s (ended f r) = end_send s f r
step s (expired f e) = expire s f e
step s (task_ended f) = send_done s f
step s (outcome_ended f) = outcome_done s f
step s (caller_cancelled f) = cancel_caller s f
step s (outcome_settled f v) = record s { futures = settle s.futures f v }
step s replaced = record s { is_current = false }
step s finishing = start_finish s
step s finished = end_finish s

unfoldable pub run : SessionSends → List Event → SessionSends
run s [] = s
run s (e ∷ es) = run (step s e) es

-- The owner has been told of a failure exactly when the session has failed.
abbrev Told : SessionSends → Type 0
Told s = length s.notified ≡ (if s.failed then 1 else 0)

step-Told : (s : SessionSends) (e : Event) → Told s → Told (step s e)
unfolding step admit notify_failure discard finish_task begin_send end_send expire expire_if_there
    expire_operation send_done outcome_done cancel_caller start_finish end_finish
step-Told s (admitted f none) t = t
step-Told s (admitted f (some timeout)) t = ground arith
step-Told s (began f eligible e) t = ground arith
step-Told s (ended f sent) t = ground arith
step-Told s (ended f lost) t = ground arith
step-Told s (ended f cancelled) t = ground arith
step-Told s (ended f (raised e)) t = ground arith
step-Told s (expired f e) t = ground arith
step-Told s (task_ended f) t = ground arith
step-Told s (outcome_ended f) t = ground arith
step-Told s (caller_cancelled f) t = t
step-Told s (outcome_settled f v) t = t
step-Told s replaced t = t
step-Told s finishing t = t
step-Told s finished t = t

run-Told : (s : SessionSends) (es : List Event) → Told s → Told (run s es)
unfolding run
run-Told s [] t = t
run-Told s (e ∷ es) t = run-Told (step s e) es (step-Told s e t)

-- Whatever happens, the owner of a session that has not failed is told of a failure at most once.
pub run-notified :
    (s : SessionSends) (es : List Event)
    → s.failed ≡ false
    → s.notified ≡ []
    → length (run s es).notified ≤ 1
run-notified s es f n = ground (arith, run-Told s es (rw (f, n) refl))

abbrev pub is_sent : Sent → Bool
is_sent sent = true
is_sent _ = false

-- A caller is told of a send that fails: its outcome is done.
pub end_send-done :
    (s : SessionSends) (f : ℕ) (r : Sent)
    → is_sent r ≡ false
    → is_done ((end_send s f r).futures f) ≡ true
unfolding end_send finish_task notify_failure
end_send-done s f sent h = absurd (ground arith)
end_send-done s f lost h =
    ground (arith, settle-done s.futures f (exception (socket_error send_lost)) refl)
end_send-done s f cancelled h =
    ground (arith, settle-done s.futures f (exception (socket_error send_cancelled)) refl)
end_send-done s f (raised e) h = settle-done s.futures f (exception e) refl

-- On a current session that is not retired, a caller is told when its deadline passes.
pub expire-done :
    (s : SessionSends) (f : ℕ) (error : Exc)
    → s.retired ≡ false
    → s.is_current ≡ true
    → is_done ((expire s f error).futures f) ≡ true
unfolding expire expire_if_there expire_operation notify_failure discard
expire-done s f error r c = ground (arith, settle-done s.futures f (exception error) refl)

-- A session that sends no more.
abbrev is_over : SessionSends → Bool
is_over s = s.retired || s.failed || not s.is_current

-- Over, and with an operation that has sent nothing.
record Unsent (s : SessionSends) (f : ℕ) : Type 0 where
  over : is_over s ≡ true
  unsent : is_submitted (s.operations f) ≡ false

step-Unsent : (s : SessionSends) (g : ℕ) (e : Event) → Unsent s g → Unsent (step s e) g
unfolding step admit notify_failure discard finish_task begin_send end_send expire expire_if_there
    expire_operation send_done outcome_done cancel_caller start_finish end_finish change
    stop_operation
step-Unsent s g (admitted f none) u = u
step-Unsent s g (admitted f (some timeout)) u = record {
  over = ground (arith, u.over);
  unsent = ground (arith, u.unsent);
}
step-Unsent s g (began f eligible e) u = record {
  over = ground (arith, u.over);
  unsent = ground (arith, u.unsent, u.over);
}
step-Unsent s g (ended f sent) u = record {
  over = ground (arith, u.over);
  unsent = ground (arith, u.unsent);
}
step-Unsent s g (ended f lost) u = record {
  over = ground (arith, u.over);
  unsent = ground (arith, u.unsent);
}
step-Unsent s g (ended f cancelled) u = record {
  over = ground (arith, u.over);
  unsent = ground (arith, u.unsent);
}
step-Unsent s g (ended f (raised e)) u = record {
  over = ground (arith, u.over);
  unsent = ground (arith, u.unsent);
}
step-Unsent s g (expired f e) u = record {
  over = ground (arith, u.over);
  unsent = ground (arith, u.unsent);
}
step-Unsent s g (task_ended f) u = record {
  over = ground (arith, u.over);
  unsent = ground (arith, u.unsent);
}
step-Unsent s g (outcome_ended f) u = record {
  over = ground (arith, u.over);
  unsent = ground (arith, u.unsent);
}
step-Unsent s g (caller_cancelled f) u = record { over = u.over; unsent = ground (arith, u.unsent) }
step-Unsent s g (outcome_settled f v) u = record { over = u.over; unsent = u.unsent }
step-Unsent s g replaced u = record { over = ground (arith, u.over); unsent = u.unsent }
step-Unsent s g finishing u = record {
  over = ground (arith, u.over);
  unsent = ground (arith, u.unsent);
}
step-Unsent s g finished u = record { over = u.over; unsent = refl }

run-Unsent : (s : SessionSends) (g : ℕ) (es : List Event) → Unsent s g → Unsent (run s es) g
unfolding run
run-Unsent s g [] u = u
run-Unsent s g (e ∷ es) u = run-Unsent (step s e) g es (step-Unsent s g e u)

-- A session that is retired, has failed or is no longer the current one sends nothing more, whatever
-- happens: what has not been sent by then never is.
pub run-is_submitted :
    (s : SessionSends) (f : ℕ) (es : List Event)
    → (s.retired || s.failed || not s.is_current) ≡ true
    → is_submitted (s.operations f) ≡ false
    → is_submitted ((run s es).operations f) ≡ false
run-is_submitted s f es over unsent =
    (run-Unsent s f es (record { over = over; unsent = unsent })).unsent
