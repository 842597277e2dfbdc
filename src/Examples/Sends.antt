-- ===== src/Examples/Sends.antt =====
-- A session of sends at work.
use phoenix_channels_python.Base.{
  ◌≤◌, ◌≡◌, refl, true, false, none, some, [], ◌∷◌, length, List, timeout_error, channel_error,
  not_current,
}
use phoenix_channels_python.Futures.{pending}
use phoenix_channels_python.SendSession.{SessionSends, lost, is_submitted}
use phoenix_channels_python.SendSession.Runs.{
  Event, admitted, began, ended, expired, run, run-notified, run-is_submitted,
}

abbrev idle : SessionSends
idle = record {
  operations = λ f. none;
  retired = false;
  failed = false;
  is_current = true;
  notified = [];
  futures = λ f. pending;
}

-- Two sends are lost, and a deadline passes.
abbrev trouble : List Event
trouble =
    admitted 1 (some 1000)
    ∷ admitted 2 (some 1000)
    ∷ began 1 true (channel_error not_current)
    ∷ began 2 true (channel_error not_current)
    ∷ ended 1 lost
    ∷ expired 2 timeout_error
    ∷ []

run-notified_example : length (run idle trouble).notified ≤ 1
run-notified_example = run-notified idle trouble refl refl

run-is_submitted_example :
    is_submitted ((run (record idle { retired = true }) trouble).operations 1) ≡ false
run-is_submitted_example = run-is_submitted (record idle { retired = true }) 1 trouble refl refl
