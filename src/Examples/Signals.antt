-- ===== src/Examples/Signals.antt =====
-- The shutdown signals at work.
use phoenix_channels_python.Base.{◌≡◌, refl, true, false, List, [], ◌∷◌}
use phoenix_channels_python.ShutdownSignals.{
  unregister, take_signal, install_one, install, any_live, handle_signal, find, others, sigterm,
  sigint, other, Process, owned, enter, leave,
}
use phoenix_channels_python.ShutdownSignals.Handlers.{
  step, Event, entered, left_body, arrived, run, run-leave, leave-enter,
}

abbrev quiet : Process
quiet = record { waiters = []; previous = λ s. other 0; table = λ s. other 7; raised = [] }

-- Two loops wait; a signal arrives, and one of them ends.
abbrev two_loops : List Event
two_loops = entered 1 ∷ entered 2 ∷ arrived sigint ∷ left_body 2 true true ∷ []

run-leave_example : owned (leave (run quiet two_loops) 1 true true) sigterm ≡ false
unfolding others run step leave find handle_signal any_live enter install install_one take_signal
    unregister
run-leave_example = run-leave quiet two_loops 1 true sigterm refl refl refl

leave-enter_example : (leave (enter quiet 1) 1 true true).table sigint ≡ other 7
unfolding owned
leave-enter_example = leave-enter quiet 1 true sigint refl refl
