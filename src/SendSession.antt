-- ===== src/SendSession.antt =====
-- SessionSends of send_session.py: the sends of one connection, which go on after their caller has
-- gone.
pub mod Runs
use phoenix_channels_python.Base.{
  ℕ, ◌≡◌, refl, Bool, true, false, ◌&&◌, ◌||◌, not, Option, none, some, List, [], ◌∷◌, arith, ◌==◌,
  is_some, if◌then◌else◌, Result, ok, err, ◌>>=◌, ◌>>◌, guard, Exc, socket_error, value_error,
  bad_timeout, duplicate_send, send_lost, send_cancelled, write_deadline,
}
use phoenix_channels_python.Futures.{
  Future, Store, cancelled_future, exception, is_done, settle, update,
}

-- SendOperation, known by its outcome: whether its task is done or asked to stop, and whether its
-- timer runs.
pub record SendOperation : Type 0 where
  pub submitted : Bool
  pub task_done : Bool
  pub task_cancelled : Bool
  pub timer : Bool

-- `is_current` is what the owner's `is_current()` says, `notified` are the calls of `on_failure`,
-- the last one first.
pub record SessionSends : Type 0 where
  pub operations : ℕ → Option SendOperation
  pub retired : Bool
  pub failed : Bool
  pub is_current : Bool
  pub notified : List Exc
  pub futures : Store

abbrev pub set_operation : SessionSends → ℕ → Option SendOperation → SessionSends
set_operation s f op = record s { operations = update s.operations f op }

-- `_fail`
abbrev pub fail : SessionSends → ℕ → Exc → SessionSends
fail s f e = record s { futures = settle s.futures f (exception e) }

-- `_notify_failure`
unfoldable pub notify_failure : SessionSends → Exc → SessionSends
notify_failure s e =
    if s.retired || s.failed || not s.is_current
    then s
    else record s { failed = true; notified = e ∷ s.notified }

unfoldable pub discard : SessionSends → ℕ → SessionSends
discard s f = set_operation s f none

-- `send_and_wait` up to its wait: does a send start? A timeout of `none` is an infinity, NaN or negative.
unfoldable pub admit : SessionSends → ℕ → Option ℕ → Result (Bool × SessionSends)
admit s f none = err (value_error bad_timeout)
admit s f (some timeout) = do
  guard (not (timeout == 0)) (value_error bad_timeout)
  guard (not (is_some (s.operations f))) (value_error duplicate_send)
  ok (
      if is_done (s.futures f) then (false, s) else (
        true,
        set_operation s f (
            some (record {
              submitted = false;
              task_done = false;
              task_cancelled = false;
              timer = true;
            })),
      ))

-- A change of an operation that may be gone.
unfoldable pub change :
    (SendOperation → SendOperation) → Option SendOperation → Option SendOperation
change g none = none
change g (some op) = some (g op)

unfoldable pub finish_task : SessionSends → ℕ → SessionSends
finish_task s f = set_operation s f (change (λ op. record op { task_done = true }) (s.operations f))

-- `_send` up to the send itself.
unfoldable pub begin_send : SessionSends → ℕ → Bool → Exc → SessionSends
begin_send s f eligible ineligible_error =
    if is_done (s.futures f)
    then finish_task s f
    else if s.retired || s.failed || not s.is_current || not eligible
    then finish_task (fail s f ineligible_error) f
    else set_operation s f (change (λ op. record op { submitted = true }) (s.operations f))

-- The end of `send_and_wait` when its caller is cancelled.
unfoldable pub cancel_caller : SessionSends → ℕ → SessionSends
cancel_caller s f =
    let s' = record s { futures = settle s.futures f cancelled_future } in
    set_operation s' f (
      change (λ op. record op { task_cancelled = op.task_cancelled || not op.submitted })
        (s.operations f))

-- What the send comes to: it is done, the connection is lost (ConnectionClosed or SocketError), its
-- task is cancelled, or it raises something else.
pub data Sent : Type 0 where
  sent lost cancelled : Sent
  raised : Exc → Sent

abbrev pub is_submitted : Option SendOperation → Bool
is_submitted none = false
is_submitted (some op) = op.submitted

-- The rest of `_send`.
unfoldable pub end_send : SessionSends → ℕ → Sent → SessionSends
end_send s f sent = finish_task s f
end_send s f lost =
    finish_task (notify_failure (fail s f (socket_error send_lost)) (socket_error send_lost)) f
end_send s f cancelled =
    let s' = fail s f (socket_error send_cancelled) in
    finish_task
      (if is_submitted (s.operations f)
        then notify_failure s' (socket_error send_cancelled)
        else s')
      f
end_send s f (raised e) = finish_task (fail s f e) f

-- The end of `_expire`, for an operation that is still there.
unfoldable pub expire_operation : SessionSends → ℕ → SendOperation → SessionSends
expire_operation s f op =
    if op.task_done
    then discard s f
    else if not op.submitted
    then set_operation s f (some (record op { task_cancelled = true }))
    else notify_failure s (socket_error write_deadline)

unfoldable pub expire_if_there : SessionSends → ℕ → Option SendOperation → SessionSends
expire_if_there s f none = s
expire_if_there s f (some op) = expire_operation s f op

-- `_expire`
unfoldable pub expire : SessionSends → ℕ → Exc → SessionSends
expire s f error =
    if s.retired || not s.is_current then s else expire_if_there (fail s f error) f (s.operations f)

-- `_send_done`
unfoldable pub send_done : SessionSends → ℕ → SessionSends
send_done s f = if is_done (s.futures f) then discard s f else s

abbrev pub is_task_done : Option SendOperation → Bool
is_task_done none = false
is_task_done (some op) = op.task_done

-- `_outcome_done`
unfoldable pub outcome_done : SessionSends → ℕ → SessionSends
outcome_done s f = if is_task_done (s.operations f) then discard s f else s

-- `has_pending`
unfoldable pub has_pending : SessionSends → ℕ → Bool
has_pending s f = is_some (s.operations f) && not (is_task_done (s.operations f))

-- `finish` up to its wait: every timer stops, and every task that has sent nothing.
unfoldable pub stop_operation : SendOperation → SendOperation
stop_operation op = record op {
  timer = false;
  task_cancelled = op.task_cancelled || not op.submitted;
}

unfoldable pub start_finish : SessionSends → SessionSends
start_finish s = record s {
  retired = true;
  operations = λ f. change stop_operation (s.operations f);
}

-- The rest of `finish`.
unfoldable pub end_finish : SessionSends → SessionSends
end_finish s = record s { operations = λ f. none }
