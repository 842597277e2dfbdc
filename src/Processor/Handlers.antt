-- ===== src/Processor/Handlers.antt =====
-- channel.py: the handlers that a channel's user puts and takes away, and which of them run.
use phoenix_channels_python.Base.{
  ℕ, ◌≡◌, refl, Option, none, some, List, [], ◌∷◌, arith, if◌then◌else◌, Result, ok, err, ◌&&◌, not,
  inl, inr, Bool-cases, ap, ◌∙◌,
}
use phoenix_channels_python.Text.{text_eq}
use phoenix_channels_python.Messages.{Message, ChannelEvent, event_text, is_lifecycle}
use phoenix_channels_python.Topic.{
  Topic, lookup-insert, lookup-remove, add_event_handler, remove_event_handler, get_event_handler,
}
use phoenix_channels_python.Processor.{snapshot_handlers}

-- What a user does about the handlers of a channel.
pub data Registration : Type 0 where
  on : ChannelEvent → ℕ → Registration
  off : ChannelEvent → Registration
  on_any : ℕ → Registration
  off_any : Registration

abbrev keep_on_error : Topic → Result Topic → Topic
keep_on_error t (ok u) = u
keep_on_error t (err e) = t

-- `Channel.on`, `off`, `on_any` and `off_any`; a handler that is refused changes nothing.
unfoldable pub register : Topic → Registration → Topic
register t (on event handler) = keep_on_error t (add_event_handler t event handler)
register t (off event) = remove_event_handler t event
register t (on_any handler) = record t { on_any = some handler }
register t off_any = record t { on_any = none }

unfoldable pub register_all : Topic → List Registration → Topic
register_all t [] = t
register_all t (r ∷ rs) = register_all (register t r) rs

-- The handler of an event after registrations: that of the last one that is about the event's text.
unfoldable pub last_handler : ChannelEvent → Option ℕ → List Registration → Option ℕ
last_handler event h [] = h
last_handler event h (on other handler ∷ rs) =
    last_handler event
      (if not (is_lifecycle other) && text_eq (event_text other) (event_text event)
        then some handler
        else h)
      rs
last_handler event h (off other ∷ rs) =
    last_handler event (if text_eq (event_text other) (event_text event) then none else h) rs
last_handler event h (r ∷ rs) = last_handler event h rs

unfoldable pub last_any : Option ℕ → List Registration → Option ℕ
last_any h [] = h
last_any h (on_any handler ∷ rs) = last_any (some handler) rs
last_any h (off_any ∷ rs) = last_any none rs
last_any h (r ∷ rs) = last_any h rs

handler-on :
    (t : Topic) (event other : ChannelEvent) (handler : ℕ)
    → get_event_handler (register t (on other handler)) event ≡ (
        if not (is_lifecycle other) && text_eq (event_text other) (event_text event)
        then some handler
        else get_event_handler t event)
unfolding register add_event_handler get_event_handler
handler-on t event other handler =
    ground (arith, lookup-insert (event_text other) (event_text event) handler t.handlers)

handler-off :
    (t : Topic) (event other : ChannelEvent)
    → get_event_handler (register t (off other)) event
      ≡ (if text_eq (event_text other) (event_text event) then none else get_event_handler t event)
unfolding register remove_event_handler get_event_handler
handler-off t event other = lookup-remove (event_text other) (event_text event) t.handlers

any-on :
    (t : Topic) (event : ChannelEvent) (handler : ℕ)
    → (register t (on event handler)).on_any ≡ t.on_any
unfolding register add_event_handler
any-on t event handler = elim (Bool-cases (is_lifecycle event)) [
  | inl e ↦ rw e refl
  | inr e ↦ rw e refl
]

get_event_handler-register_all :
    (t : Topic) (event : ChannelEvent) (rs : List Registration)
    → get_event_handler (register_all t rs) event
      ≡ last_handler event (get_event_handler t event) rs
unfolding register_all last_handler
get_event_handler-register_all t event [] = refl
get_event_handler-register_all t event (on other handler ∷ rs) =
    get_event_handler-register_all (register t (on other handler)) event rs
    ∙ ap (λ h. last_handler event h rs) (handler-on t event other handler)
get_event_handler-register_all t event (off other ∷ rs) =
    get_event_handler-register_all (register t (off other)) event rs
    ∙ ap (λ h. last_handler event h rs) (handler-off t event other)
get_event_handler-register_all t event (on_any handler ∷ rs) =
    get_event_handler-register_all (register t (on_any handler)) event rs
    ∙ ap (λ h. last_handler event h rs) (unfold register get_event_handler in refl)
get_event_handler-register_all t event (off_any ∷ rs) =
    get_event_handler-register_all (register t off_any) event rs
    ∙ ap (λ h. last_handler event h rs) (unfold register get_event_handler in refl)

any-register_all :
    (t : Topic) (rs : List Registration) → (register_all t rs).on_any ≡ last_any t.on_any rs
unfolding register_all last_any
any-register_all t [] = refl
any-register_all t (on event handler ∷ rs) =
    any-register_all (register t (on event handler)) rs
    ∙ ap (λ h. last_any h rs) (any-on t event handler)
any-register_all t (off event ∷ rs) =
    any-register_all (register t (off event)) rs
    ∙ ap (λ h. last_any h rs) (unfold register remove_event_handler in refl)
any-register_all t (on_any handler ∷ rs) =
    any-register_all (register t (on_any handler)) rs
    ∙ ap (λ h. last_any h rs) (unfold register in refl)
any-register_all t (off_any ∷ rs) =
    any-register_all (register t off_any) rs ∙ ap (λ h. last_any h rs) (unfold register in refl)

-- After any registrations, a message is handed to the handler of all messages that was set last, if it
-- was not taken away since, and to that of its event: the last one whose event has the same text, if it
-- was not taken away since. A handler for a lifecycle event is refused and changes nothing.
pub snapshot_handlers-register_all :
    (t : Topic) (m : Message) (rs : List Registration)
    → snapshot_handlers (register_all t rs) m ≡ record {
      message = m;
      message_handler = last_any t.on_any rs;
      event_handler = last_handler m.event (get_event_handler t m.event) rs;
    }
unfolding snapshot_handlers
snapshot_handlers-register_all t m rs =
    rw (get_event_handler-register_all t m.event rs, any-register_all t rs) refl
