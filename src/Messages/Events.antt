-- ===== src/Messages/Events.antt =====
-- Texts and system events.
use phoenix_channels_python.Base.{◌≡◌, refl, false, arith}
use phoenix_channels_python.Text.{Text, text_eq, text_eq_iff}
use phoenix_channels_python.Messages.{
  SystemEvent, system, user, close, error, join, reply, leave, system_text, event_text, is_system,
  parse_event,
}

-- The text of a parsed event is the text that was parsed.
pub event_text-parse_event : (t : Text) → event_text (parse_event t) ≡ t
unfolding parse_event event_text
event_text-parse_event t = ground (
  arith,
  text_eq_iff t (system_text close),
  text_eq_iff t (system_text error),
  text_eq_iff t (system_text join),
  text_eq_iff t (system_text reply),
  text_eq_iff t (system_text leave),
)

pub parse_event-system : (e : SystemEvent) → parse_event (system_text e) ≡ system e
unfolding parse_event system_text text_eq
parse_event-system close = refl
parse_event-system error = refl
parse_event-system join = refl
parse_event-system reply = refl
parse_event-system leave = refl

-- A text that is parsed as an application event is the text of no system event.
pub parse_event-user : (t u : Text) → parse_event t ≡ user u → is_system (user t) ≡ false
unfolding parse_event is_system event_text
parse_event-user t u h = ground arith
