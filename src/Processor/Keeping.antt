-- ===== src/Processor/Keeping.antt =====
-- A round of the loop keeps the invariant.
use phoenix_channels_python.Base.{ℕ, refl, List, [], ◌∷◌}
use phoenix_channels_python.Messages.{Message, ProtocolVersion}
use phoenix_channels_python.Topic.{is_left}
use phoenix_channels_python.Runtime.{Client}
use phoenix_channels_python.Runtime.Invariant.{From}
use phoenix_channels_python.Runtime.Tasks.Keeping.{From-if-pair, set_core-From}
use phoenix_channels_python.Processor.{take_first, process_round}

take_first-From :
    {o : Client} (version : ProtocolVersion) (c : Client) (k : ℕ) (q : List Message)
    → From o c
    → From o (take_first version c k q).1
unfolding take_first
take_first-From version c k [] f = f
take_first-From version c k (m ∷ q) f = set_core-From c k _ refl f

pub process_round-From :
    {o : Client} (version : ProtocolVersion) (c : Client) (k : ℕ)
    → From o c
    → From o (process_round version c k).1
unfolding process_round
process_round-From version c k f =
    From-if-pair (is_left (c.topics k).state) _ _ (λ _. f)
      (λ _. take_first-From version c k (c.topics k).queue f)
