-- ===== src/Supervisor/Closing.antt =====
-- How supervisor.py closes a connection: `_force_close_connection`, `close_connection`,
-- `_close_websocket`, and the end of `_heartbeat_loop`.
use phoenix_channels_python.Base.{
  ℕ, ◌≡◌, ◌≢◌, ◌⊎◌, refl, inl, inr, Bool, true, not, Option, none, some, List, [], ◌∷◌,
  if◌then◌else◌, Result, ok, err, Exc, cancelled_error,
}
use phoenix_channels_python.Text.{Text, codes}
use phoenix_channels_python.Text.Utf8
use phoenix_channels_python.Reconnect.Policy.{at_disconnected}
use phoenix_channels_python.Supervisor.{truncate_close_reason}
use phoenix_channels_python.Supervisor.Connection.{Supervision, close_event, force_close}

-- `FORCED_CLOSE_CODE`
abbrev pub forced_close_code : ℕ
forced_close_code = 4000

-- A connection of the websocket library: whether its state is OPEN, the calls of `close` that were
-- made, the last one first (`none` is one without a code and a reason), and whether `transport.abort`
-- was called.
pub record Socket : Type 0 where
  pub is_open : Bool
  pub closes : List (Option (ℕ × Text))
  pub is_aborted : Bool

-- The supervisor and the connection that it serves. What a wait comes to is a `Result`: a return, or
-- what it raises, which is `cancelled_error` for a cancellation of the task that waits.
pub record Link : Type 0 where
  pub supervision : Supervision
  pub socket : Socket

abbrev pub call_close : Socket → Option (ℕ × Text) → Socket
call_close c arguments = record c { closes = arguments ∷ c.closes }

abbrev pub abort : Link → Link
abort w = record w { socket = record w.socket { is_aborted = true } }

-- `except (Exception, asyncio.CancelledError)` of `_force_close_connection`
abort_on_error : Link → Result (Unit {0}) → Result (Unit {0}) × Link
abort_on_error w (ok x) = (ok x, w)
abort_on_error w (err e) = (err e, abort w)

-- `_force_close_connection`; `ending` is what the library's `close` comes to.
unfoldable pub force_close_connection :
    Link → Text → (ending : Result (Unit {0})) → Result (Unit {0}) × Link
unfolding abort_on_error force_close
force_close_connection w reason ending =
    if not w.socket.is_open then (ok tt, w) else elim (truncate_close_reason reason) [
      | err e ↦ (err e, w)
      | ok sent ↦
          abort_on_error
            (record {
              supervision = force_close w.supervision w.socket.is_open;
              socket = call_close w.socket (some (forced_close_code, sent));
            })
            ending
    ]

close_current : Option ℕ → Link → Text → (ending : Result (Unit {0})) → Result (Unit {0}) × Link
unfolding force_close_connection
close_current none w reason ending = (ok tt, w)
close_current (some connection) w reason ending = force_close_connection w reason ending

-- `close_connection`
unfoldable pub close_connection :
    Link → Text → (ending : Result (Unit {0})) → Result (Unit {0}) × Link
unfolding close_current
close_connection w reason ending = close_current w.supervision.client.connection w reason ending

-- `_close_websocket`
unfoldable pub close_websocket : Link → (ending : Result (Unit {0})) → Result (Unit {0}) × Link
close_websocket w ending = ended (record w { socket = call_close w.socket none }) ending
  where
    ended : Link → Result (Unit {0}) → Result (Unit {0}) × Link
    ended w (err cancelled_error) = (err cancelled_error, abort w)
    ended w _ = (ok tt, w)

-- `"Heartbeat failed"`
abbrev pub heartbeat_failed : Text
heartbeat_failed = codes "Heartbeat failed"

-- `except Exception`, which no cancellation is.
swallow : Result (Unit {0}) × Link → Result (Unit {0}) × Link
swallow (err cancelled_error, w) = (err cancelled_error, w)
swallow (_, w) = (ok tt, w)

-- The end of `_heartbeat_loop` once its heartbeats have failed.
fail_heartbeats : Link → Option ℕ → (ending : Result (Unit {0})) → Result (Unit {0}) × Link
unfolding swallow
fail_heartbeats w none ending = (ok tt, w)
fail_heartbeats w (some threshold) ending =
    swallow (force_close_connection w heartbeat_failed ending)

-- `_heartbeat_loop`, of the client's `heartbeat_dead_threshold_s`; `sending` is what
-- `_send_heartbeats` comes to under its deadline.
unfoldable pub heartbeat_loop :
    Link → Option ℕ → (sending ending : Result (Unit {0})) → Result (Unit {0}) × Link
unfolding fail_heartbeats
heartbeat_loop w threshold (ok x) ending = (ok x, w)
heartbeat_loop w threshold (err cancelled_error) ending = (err cancelled_error, w)
heartbeat_loop w threshold (err e) ending = fail_heartbeats w threshold ending

reason_fits : truncate_close_reason heartbeat_failed ≡ ok heartbeat_failed
unfolding truncate_close_reason Utf8.encode Utf8.char_bytes
reason_fits = refl

-- A connection whose heartbeats failed: a close with the forced code was asked for, the disconnect
-- that the decider hears of carries no code, and a close that failed has ended in an abort. The task
-- raises nothing but its own cancellation.
pub record GivesUp (w : Link) (ending : Result (Unit {0})) (o : Result (Unit {0})) (d : Link)
    : Type 0 where
  asked : d.socket.closes ≡ some (forced_close_code, heartbeat_failed) ∷ w.socket.closes
  forced :
      (code : Option ℕ) (reason : Text)
      → close_event
          (record { code = code; reason = reason; forced = d.supervision.forced_close_pending })
        ≡ at_disconnected none []
  gone : (ending ≡ ok tt) ⊎ (d.socket.is_aborted ≡ true)
  quiet : (o ≡ ok tt) ⊎ (o ≡ err cancelled_error)

given_up :
    (w : Link) (ending o : Result (Unit {0})) (is_aborted : Bool)
    → w.socket.is_open ≡ true
    → (ending ≡ ok tt) ⊎ (is_aborted ≡ true)
    → (o ≡ ok tt) ⊎ (o ≡ err cancelled_error)
    → GivesUp w ending o (record {
      supervision = force_close w.supervision w.socket.is_open;
      socket = record (call_close w.socket (some (forced_close_code, heartbeat_failed))) {
        is_aborted = is_aborted;
      };
    })
unfolding close_event force_close
given_up w ending o is_aborted here gone quiet = record {
  asked = refl;
  forced = λ code reason. rw here refl;
  gone = gone;
  quiet = quiet;
}

force_closed :
    (w : Link) (ending : Result (Unit {0}))
    → w.socket.is_open ≡ true
    → force_close_connection w heartbeat_failed ending
      ≡ abort_on_error
          (record {
            supervision = force_close w.supervision w.socket.is_open;
            socket = call_close w.socket (some (forced_close_code, heartbeat_failed));
          })
          ending
unfolding force_close_connection
force_closed w ending here = simp (here, reason_fits)

fail_heartbeats-GivesUp :
    (w : Link) (threshold : ℕ) (ending : Result (Unit {0}))
    → w.socket.is_open ≡ true
    → let (o, d) = fail_heartbeats w (some threshold) ending in GivesUp w ending o d
unfolding fail_heartbeats swallow abort_on_error
fail_heartbeats-GivesUp w threshold (ok x) here =
    rw (force_closed w (ok x) here)
      (given_up w (ok x) (ok tt) w.socket.is_aborted here (inl refl) (inl refl))
fail_heartbeats-GivesUp w threshold (err cancelled_error) here =
    rw (force_closed w (err cancelled_error) here)
      (given_up w (err cancelled_error) (err cancelled_error) true here (inr refl) (inr refl))
fail_heartbeats-GivesUp w threshold (err e) here =
    rw (force_closed w (err e) here) (given_up w (err e) (ok tt) true here (inr refl) (inl refl))

-- With a threshold, heartbeats that fail or miss their deadline on an open connection end it: a close
-- with the forced code is asked for, and if it fails the transport is aborted; the decider will hear
-- of a disconnect without a code. The task raises nothing, unless it is cancelled meanwhile.
pub heartbeat_loop-GivesUp :
    (w : Link) (threshold : ℕ) (e : Exc) (ending : Result (Unit {0}))
    → e ≢ cancelled_error
    → w.socket.is_open ≡ true
    → let (o, d) = heartbeat_loop w (some threshold) (err e) ending in GivesUp w ending o d
unfolding heartbeat_loop
heartbeat_loop-GivesUp w threshold cancelled_error ending h here = absurd (h refl)
heartbeat_loop-GivesUp w threshold e ending h here = fail_heartbeats-GivesUp w threshold ending here
