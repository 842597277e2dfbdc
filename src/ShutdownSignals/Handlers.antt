-- ===== src/ShutdownSignals/Handlers.antt =====
-- The handlers that were there before come back, and no other handler is overwritten.
use phoenix_channels_python.Base.{
  ℕ, ◌≡◌, refl, ◌∙◌, ap, inl, inr, Bool, true, false, ◌&&◌, not, Option, none, some, List, [], ◌∷◌,
  ◌++◌, arith, ◌==◌, ==-self, Bool-cases, if◌then◌else◌,
}
use phoenix_channels_python.ShutdownSignals.{
  Signal, sigterm, sigint, Handler, is_ours, Waiter, Process, owned, set_handler, install_one,
  install, restore_one, restore, take_signal, any_live, handle_signal, others, find, is_nil,
  unregister, enter, leave, raise_unless, received, event_set,
}

table-restore :
    (p : Process) (sig : Signal)
    → (restore p).table sig ≡ (if owned p sig then p.previous sig else p.table sig)
unfolding restore restore_one owned
table-restore p sigterm = ground arith
table-restore p sigint = ground arith

install-former :
    (p : Process) (sig : Signal)
    → owned p sig ≡ false
    → (if owned (install p) sig then (install p).previous sig else (install p).table sig)
      ≡ p.table sig
unfolding owned install install_one
install-former p sigterm h = ground arith
install-former p sigint h = ground arith

-- A handler that is owned has replaced another one.
record Kept (p : Process) : Type 0 where
  term : is_ours (p.previous sigterm) ≡ false
  int : is_ours (p.previous sigint) ≡ false

Kept-at : (p : Process) (sig : Signal) → Kept p → is_ours (p.previous sig) ≡ false
Kept-at p sigterm k = k.term
Kept-at p sigint k = k.int

install-Kept : (p : Process) → Kept p → Kept (install p)
unfolding install install_one owned
install-Kept p k = record { term = ground (arith, k.term); int = ground (arith, k.int) }

restore-Kept : (p : Process) → Kept p → Kept (restore p)
unfolding restore restore_one owned
restore-Kept p k = record { term = ground (arith, k.term); int = ground (arith, k.int) }

-- What may happen: a loop starts or ends to wait, a signal arrives, a loop is closed, or other code
-- sets a handler.
pub data Event : Type 0 where
  entered : (id : ℕ) → Event
  left_body : (id : ℕ) → (completed main_thread : Bool) → Event
  arrived : Signal → Event
  closed : (id : ℕ) → Event
  set_elsewhere : Signal → Handler → Event

unfoldable pub close_loop : ℕ → List Waiter → List Waiter
close_loop id [] = []
close_loop id (w ∷ ws) = (if w.id == id then record w { live = false } else w) ∷ close_loop id ws

unfoldable pub step : Process → Event → Process
step p (entered id) = enter p id
step p (left_body id completed main_thread) = leave p id completed main_thread
step p (arrived sig) = handle_signal p sig
step p (closed id) = record p { waiters = close_loop id p.waiters }
step p (set_elsewhere sig h) = record p { table = set_handler p.table sig h }

unfoldable pub run : Process → List Event → Process
run p [] = p
run p (e ∷ es) = run (step p e) es

unregister-Kept :
    (p : Process) (id : ℕ) (main_thread : Bool) → Kept p → Kept (unregister p id main_thread)
unfolding unregister
unregister-Kept p id main_thread k =
    let q = record p { waiters = others id p.waiters } in
    let kept : Kept q = record { term = k.term; int = k.int } in
    elim (Bool-cases (is_nil (others id p.waiters) && main_thread)) [
      | inl e ↦ rw e (restore-Kept q kept)
      | inr e ↦ rw e kept
    ]

raise_unless-same :
    (consumed : Bool) (r : Option Signal) (p : Process)
    → ((raise_unless consumed r p).previous ≡ p.previous)
      × ((raise_unless consumed r p).table ≡ p.table)
unfolding raise_unless
raise_unless-same consumed none p = (refl, refl)
raise_unless-same consumed (some sig) p = elim (Bool-cases (not consumed && not (owned p sig))) [
  | inl e ↦ rw e (refl, refl)
  | inr e ↦ rw e (refl, refl)
]

leave-Kept :
    (p : Process) (id : ℕ) (completed main_thread : Bool)
    → Kept p
    → Kept (leave p id completed main_thread)
unfolding leave
leave-Kept p id completed main_thread k =
    let w = find id p.waiters in
    let q = unregister p id main_thread in
    let same = (raise_unless-same (completed && event_set w) (received w) q).0 in
    let kept = unregister-Kept p id main_thread k in
    record { term = rw same kept.term; int = rw same kept.int }

handle_signal-Kept : (p : Process) (sig : Signal) → Kept p → Kept (handle_signal p sig)
unfolding handle_signal
handle_signal-Kept p sig k =
    let q = record p { waiters = take_signal sig p.waiters } in
    let kept : Kept q = record { term = k.term; int = k.int } in
    let restored = restore-Kept q kept in
    elim (Bool-cases (not (any_live p.waiters) && owned q sig)) [
      | inl e ↦ rw e (record { term = restored.term; int = restored.int })
      | inr e ↦ rw e kept
    ]

step-Kept : (p : Process) (e : Event) → Kept p → Kept (step p e)
unfolding step enter
step-Kept p (entered id) k = install-Kept _ (record { term = k.term; int = k.int })
step-Kept p (left_body id completed main_thread) k = leave-Kept p id completed main_thread k
step-Kept p (arrived sig) k = handle_signal-Kept p sig k
step-Kept p (closed id) k = record { term = k.term; int = k.int }
step-Kept p (set_elsewhere sig h) k = record { term = k.term; int = k.int }

run-Kept : (p : Process) (es : List Event) → Kept p → Kept (run p es)
unfolding run
run-Kept p [] k = k
run-Kept p (e ∷ es) k = run-Kept (step p e) es (step-Kept p e k)

table-unregister :
    (p : Process) (id : ℕ) (sig : Signal)
    → others id p.waiters ≡ []
    → (unregister p id true).table sig ≡ (if owned p sig then p.previous sig else p.table sig)
unfolding unregister owned
table-unregister p id sig last =
    let q = record p { waiters = others id p.waiters } in
    let now : (is_nil (others id p.waiters) && true) ≡ true = rw last refl in
    rw now (table-restore q sig)

-- When the last waiter leaves on the main thread, each signal that is owned gets its former handler
-- back, and the others keep theirs.
table-leave :
    (p : Process) (id : ℕ) (completed : Bool) (sig : Signal)
    → others id p.waiters ≡ []
    → (leave p id completed true).table sig ≡ (if owned p sig then p.previous sig else p.table sig)
unfolding leave
table-leave p id completed sig last =
    let w = find id p.waiters in
    ap (λ (t : Signal → Handler). t sig)
      (raise_unless-same (completed && event_set w) (received w) (unregister p id true)).1
    ∙ table-unregister p id sig last

-- In a process where the module's handler has not replaced itself, whatever happens: when the last
-- waiter leaves on the main thread, the module's handler is in place for neither signal.
pub run-leave :
    (p : Process) (es : List Event) (id : ℕ) (completed : Bool) (sig : Signal)
    → is_ours (p.previous sigterm) ≡ false
    → is_ours (p.previous sigint) ≡ false
    → others id (run p es).waiters ≡ []
    → owned (leave (run p es) id completed true) sig ≡ false
unfolding owned
run-leave p es id completed sig term int last =
    let r = run p es in
    let kept = run-Kept p es (record { term = term; int = int }) in
    let e = table-leave r id completed sig last in
    let former = Kept-at r sig kept in rw e (unfold owned in ground arith)

waiters-install : (p : Process) → (install p).waiters ≡ p.waiters
unfolding install install_one
waiters-install p = ground arith

-- A loop that waits alone on the main thread, for signals that are not owned, gives every signal back
-- the handler that it had.
pub leave-enter :
    (p : Process) (id : ℕ) (completed : Bool) (sig : Signal)
    → p.waiters ≡ []
    → owned p sig ≡ false
    → (leave (enter p id) id completed true).table sig ≡ p.table sig
unfolding owned
leave-enter p id completed sig alone free =
    let w : Waiter = record { id = id; live = true; event_set = false; taken = none } in
    let q = record p { waiters = p.waiters ++ w ∷ [] } in
    let last : others id (install q).waiters ≡ [] =
      rw (waiters-install q, alone) (unfold others in rw (==-self id) refl) in
    unfold enter in table-leave (install q) id completed sig last ∙ install-former q sig free
