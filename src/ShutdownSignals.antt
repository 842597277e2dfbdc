-- ===== src/ShutdownSignals.antt =====
-- shutdown_signals.py: the handlers of SIGTERM and SIGINT that every waiting event loop shares.
pub mod Handlers
use phoenix_channels_python.Base.{
  ℕ, ◌≡◌, refl, Bool, true, false, ◌&&◌, ◌||◌, not, Option, none, some, List, [], ◌∷◌, ◌++◌, arith,
  ◌==◌, if◌then◌else◌,
}

-- SHUTDOWN_SIGNALS
pub data Signal : Type 0 where
  sigterm sigint : Signal

abbrev pub same_signal : Signal → Signal → Bool
same_signal sigterm sigterm = true
same_signal sigint sigint = true
same_signal _ _ = false

-- What `signal.getsignal` says: `_on_shutdown_signal`, None for a handler set outside Python, or
-- another handler, SIG_DFL and SIG_IGN among them.
pub data Handler : Type 0 where
  on_shutdown_signal outside : Handler
  other : ℕ → Handler

abbrev pub is_ours : Handler → Bool
is_ours on_shutdown_signal = true
is_ours _ = false

abbrev pub is_outside : Handler → Bool
is_outside outside = true
is_outside _ = false

-- A waiter, known by a number: whether its loop is open, whether its event is set, and the last
-- signal that it took.
pub record Waiter : Type 0 where
  pub id : ℕ
  pub live : Bool
  pub event_set : Bool
  pub taken : Option Signal

-- The module's state, the process's table of handlers, and the signals that were raised again, the
-- last one first. `previous` is read only for a signal that was owned before.
pub record Process : Type 0 where
  pub waiters : List Waiter
  pub previous : Signal → Handler
  pub table : Signal → Handler
  pub raised : List Signal

-- `_owned`
unfoldable pub owned : Process → Signal → Bool
owned p sig = is_ours (p.table sig)

abbrev pub set_handler : (Signal → Handler) → Signal → Handler → Signal → Handler
set_handler t sig h s = if same_signal s sig then h else t s

unfoldable pub install_one : Process → Signal → Process
unfolding owned
install_one p sig =
    if not (owned p sig) && not (is_outside (p.table sig))
    then record p {
      previous = set_handler p.previous sig (p.table sig);
      table = set_handler p.table sig on_shutdown_signal;
    }
    else p

-- `_install`, where the main thread can take signals; elsewhere it changes nothing.
unfoldable pub install : Process → Process
install p = install_one (install_one p sigterm) sigint

unfoldable pub restore_one : Process → Signal → Process
unfolding owned
restore_one p sig =
    if owned p sig then record p { table = set_handler p.table sig (p.previous sig) } else p

-- `_restore`
unfoldable pub restore : Process → Process
restore p = restore_one (restore_one p sigterm) sigint

unfoldable pub take_signal : Signal → List Waiter → List Waiter
take_signal sig [] = []
take_signal sig (w ∷ ws) =
    (if w.live then record w { taken = some sig; event_set = true } else w) ∷ take_signal sig ws

unfoldable pub any_live : List Waiter → Bool
any_live [] = false
any_live (w ∷ ws) = w.live || any_live ws

-- `_on_shutdown_signal`
unfoldable pub handle_signal : Process → Signal → Process
unfolding owned
handle_signal p sig =
    let q = record p { waiters = take_signal sig p.waiters } in
    let r = restore q in
    if not (any_live p.waiters) && owned q sig then record r { raised = sig ∷ r.raised } else q

-- The waiters but one, without those whose loop is closed.
unfoldable pub others : ℕ → List Waiter → List Waiter
others id [] = []
others id (w ∷ ws) = let rest = others id ws in if w.id == id || not w.live then rest else w ∷ rest

unfoldable pub find : ℕ → List Waiter → Option Waiter
find id [] = none
find id (w ∷ ws) = if w.id == id then some w else find id ws

abbrev pub is_nil {ℓ} : {A : Type ℓ} → List A → Bool
is_nil [] = true
is_nil (x ∷ xs) = false

-- `_unregister`: the signal that the waiter took is still found in the process before.
unfoldable pub unregister : Process → ℕ → (main_thread : Bool) → Process
unregister p id main_thread =
    let q = record p { waiters = others id p.waiters } in
    if is_nil q.waiters && main_thread then restore q else q

-- `handle_shutdown_signals` up to its body.
unfoldable pub enter : Process → ℕ → Process
enter p id = install (record p {
  waiters = p.waiters ++ record { id = id; live = true; event_set = false; taken = none } ∷ [];
})

unfoldable pub received : Option Waiter → Option Signal
received none = none
received (some w) = w.taken

unfoldable pub event_set : Option Waiter → Bool
event_set none = false
event_set (some w) = w.event_set

unfoldable pub raise_unless : Bool → Option Signal → Process → Process
unfolding owned
raise_unless consumed none p = p
raise_unless consumed (some sig) p =
    if not consumed && not (owned p sig) then record p { raised = sig ∷ p.raised } else p

-- The rest of `handle_shutdown_signals`; `completed` says that its body has not raised.
unfoldable pub leave : Process → ℕ → (completed main_thread : Bool) → Process
unfolding received event_set raise_unless
leave p id completed main_thread =
    let w = find id p.waiters in
    raise_unless (completed && event_set w) (received w) (unregister p id main_thread)
