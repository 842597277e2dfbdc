-- ===== src/Supervisor/Heartbeat.antt =====
-- The heartbeats of supervisor.py: `_send_heartbeats` and `_handle_heartbeat_response`, with the
-- deadline of `_heartbeat_loop`.
use phoenix_channels_python.Base.{
  ℕ, ◌+◌, ◌<◌, ◌≡◌, refl, Bool, true, false, ◌&&◌, ◌||◌, Option, none, some, List, [], ◌∷◌, arith,
  leb, is_some, if◌then◌else◌, length, Bool-cases, inl, inr,
}
use phoenix_channels_python.Text.{Text, text_eq}
use phoenix_channels_python.Text.Decimal.{decimal}

-- asyncio.Timeout: when it ends, if ever, and whether it has.
pub record Timer : Type 0 where
  pub when : Option ℕ
  pub expired : Bool

-- `timer` is `heartbeat_timeout`; times are in thousandths of a second. `sent` are the refs of the
-- heartbeats that were sent, the last one first, and `acknowledged` the times of the responses that
-- were accepted.
pub record Heartbeats : Type 0 where
  pub threshold : Option ℕ
  pub timer : Option Timer
  pub pending_ref : Option Text
  pub ref_counter : ℕ
  pub sent : List Text
  pub acknowledged : List ℕ

-- `message.ref is not None and message.ref == self.pending_heartbeat_ref`
unfoldable pub is_answer : Option Text → Option Text → Bool
is_answer none pending = false
is_answer (some ref) none = false
is_answer (some ref) (some pending) = text_eq ref pending

-- Is the response too late, or is there nothing that waits for it?
unfoldable pub is_late : Option Timer → ℕ → Bool
is_late none now = true
is_late (some timer) now = timer.expired || ended timer.when
  where
    ended : Option ℕ → Bool
    ended none = true
    ended (some deadline) = leb deadline now

unfoldable pub accept_response : Heartbeats → ℕ → Heartbeats
accept_response h now = record h { pending_ref = none; acknowledged = now ∷ h.acknowledged }

unfoldable pub reschedule : Option Timer → ℕ → Option Timer
reschedule none deadline = none
reschedule (some timer) deadline = some (record timer { when = some deadline })

unfoldable pub within_deadline : Heartbeats → Option ℕ → ℕ → Heartbeats
within_deadline h none now = accept_response h now
within_deadline h (some threshold) now =
    if is_late h.timer now
    then h
    else accept_response (record h { timer = reschedule h.timer (now + threshold) }) now

-- `_handle_heartbeat_response`, up to the callback.
unfoldable pub handle_heartbeat_response : Heartbeats → Option Text → ℕ → Heartbeats
handle_heartbeat_response h ref now =
    if is_answer ref h.pending_ref then within_deadline h h.threshold now else h

unfoldable pub send : Heartbeats → Heartbeats
send h =
    let ref = decimal (h.ref_counter + 1) in
    record h { pending_ref = some ref; ref_counter = h.ref_counter + 1; sent = ref ∷ h.sent }

-- One turn of `_send_heartbeats`, after its wait, while the client is not shut down.
unfoldable pub send_heartbeat : Heartbeats → Heartbeats
send_heartbeat h = if is_some h.pending_ref && is_some h.threshold then h else send h

-- What happens on a connection: a turn of the loop, or a response, at a time; and other uses of the
-- client's counter of refs.
pub data Event : Type 0 where
  turn : Event
  response : (ref : Option Text) → (now : ℕ) → Event
  other_ref : Event

unfoldable pub step : Heartbeats → Event → Heartbeats
step h turn = send_heartbeat h
step h (response ref now) = handle_heartbeat_response h ref now
step h other_ref = record h { ref_counter = h.ref_counter + 1 }

unfoldable pub run : Heartbeats → List Event → Heartbeats
run h [] = h
run h (e ∷ es) = run (step h e) es

-- The time of the last response that was accepted, or that of the start.
abbrev pub last_answer : ℕ → List ℕ → ℕ
last_answer start [] = start
last_answer start (t ∷ ts) = t

-- Each response came before the deadline that the one before it set.
abbrev pub InTime : ℕ → ℕ → List ℕ → Type 0
InTime threshold start [] = Unit
InTime threshold start (t ∷ ts) = (t < last_answer start ts + threshold) × InTime threshold start ts

-- A connection whose heartbeats are watched from `start` on.
record Watched (start threshold : ℕ) (h : Heartbeats) : Type 0 where
  limit : h.threshold ≡ some threshold
  deadline :
      h.timer
      ≡ some
          (record { when = some (last_answer start h.acknowledged + threshold); expired = false })
  in_flight : length h.sent ≡ length h.acknowledged + (if is_some h.pending_ref then 1 else 0)
  in_time : InTime threshold start h.acknowledged

accepted-Watched :
    (start threshold : ℕ) (h : Heartbeats) (now : ℕ)
    → Watched start threshold h
    → is_some h.pending_ref ≡ true
    → is_late h.timer now ≡ false
    → Watched start threshold
        (accept_response (record h { timer = reschedule h.timer (now + threshold) }) now)
unfolding accept_response reschedule is_late
accepted-Watched start threshold h now w pending early = record {
  limit = w.limit;
  deadline = rw w.deadline refl;
  in_flight = ground (arith, w.in_flight);
  in_time = (ground (arith, rw w.deadline at early), w.in_time);
}

is_answer-pending :
    (ref pending : Option Text) → is_answer ref pending ≡ true → is_some pending ≡ true
unfolding is_answer
is_answer-pending none pending e = absurd (ground arith)
is_answer-pending (some ref) none e = absurd (ground arith)
is_answer-pending (some ref) (some pending) e = refl

response-Watched :
    (start threshold : ℕ) (h : Heartbeats) (ref : Option Text) (now : ℕ)
    → Watched start threshold h
    → Watched start threshold (handle_heartbeat_response h ref now)
unfolding handle_heartbeat_response within_deadline
response-Watched start threshold h ref now w = elim (Bool-cases (is_answer ref h.pending_ref)) [
  | inr e ↦ rw e w
  | inl e ↦ elim (Bool-cases (is_late h.timer now)) [
    | inl late ↦ rw (e, w.limit, within_deadline) (rw late w)
    | inr early ↦
        rw (e, w.limit, within_deadline)
          (rw early (
            accepted-Watched start threshold h now w (is_answer-pending ref h.pending_ref e) early))
  ]
]

turn-Watched :
    (start threshold : ℕ) (h : Heartbeats)
    → Watched start threshold h
    → Watched start threshold (send_heartbeat h)
unfolding send_heartbeat send
turn-Watched start threshold h w =
    elim (Bool-cases (is_some h.pending_ref && is_some h.threshold)) [
      | inl e ↦ rw e w
      | inr e ↦
          let free : is_some h.pending_ref ≡ false = ground (arith, rw w.limit at e) in
          rw e (record {
            limit = w.limit;
            deadline = w.deadline;
            in_flight = ground (arith, w.in_flight);
            in_time = w.in_time;
          })
    ]

step-Watched :
    (start threshold : ℕ) (h : Heartbeats) (e : Event)
    → Watched start threshold h
    → Watched start threshold (step h e)
unfolding step
step-Watched start threshold h turn w = turn-Watched start threshold h w
step-Watched start threshold h (response ref now) w = response-Watched start threshold h ref now w
step-Watched start threshold h other_ref w = record {
  limit = w.limit;
  deadline = w.deadline;
  in_flight = w.in_flight;
  in_time = w.in_time;
}

run-Watched :
    (start threshold : ℕ) (h : Heartbeats) (es : List Event)
    → Watched start threshold h
    → Watched start threshold (run h es)
unfolding run
run-Watched start threshold h [] w = w
run-Watched start threshold h (e ∷ es) w =
    run-Watched start threshold (step h e) es (step-Watched start threshold h e w)

-- The heartbeats of a new connection.
abbrev pub started : (start threshold ref_counter : ℕ) → Heartbeats
started start threshold ref_counter = record {
  threshold = some threshold;
  timer = some (record { when = some (start + threshold); expired = false });
  pending_ref = none;
  ref_counter = ref_counter;
  sent = [];
  acknowledged = [];
}

-- On a connection with a threshold, whatever happens before the deadline ends it: the deadline lies
-- one threshold after the last response that was accepted, or after the start; every response that
-- was accepted came before its deadline; and at most one heartbeat is without an accepted response.
pub run-started :
    (start threshold counter : ℕ) (es : List Event)
    → let h = run (started start threshold counter) es in
      (h.timer
        ≡ some (record {
          when = some (last_answer start h.acknowledged + threshold);
          expired = false;
        }))
      × InTime threshold start h.acknowledged
      × (length h.sent ≡ length h.acknowledged + (if is_some h.pending_ref then 1 else 0))
run-started start threshold counter es =
    let w =
      run-Watched start threshold (started start threshold counter) es
        (record { limit = refl; deadline = refl; in_flight = omega arith; in_time = tt }) in
    (w.deadline, w.in_time, w.in_flight)
