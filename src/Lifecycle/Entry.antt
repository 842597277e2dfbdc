-- ===== src/Lifecycle/Entry.antt =====
-- What a client promises when it is entered.
use phoenix_channels_python.ClientState.{ClientState, connecting}
use phoenix_channels_python.Supervisor.Connection.{Supervision}
use phoenix_channels_python.Lifecycle.{reset}

abbrev entered : Supervision → Supervision
entered s = record (reset s) { client = record (reset s).client { state = connecting } }
