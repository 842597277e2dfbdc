-- ===== src/Topic.antt =====
-- TopicSubscription of topic_subscription.py.
use phoenix_channels_python.Base.{
  is_some, Bool-cases, inl, inr, ℕ, ◌≡◌, refl, Bool, true, false, Option, none, some, List, [], ◌∷◌,
  arith, if◌then◌else◌, Result, ok, err, value_error, lifecycle_handler,
}
use phoenix_channels_python.Text.{Text, text_eq, text_eq_iff, text_eq_refl}
use phoenix_channels_python.Messages.{ChannelEvent, event_text, is_lifecycle, Message}

pub data ChannelState : Type 0 where
  created joining joined rejoining left : ChannelState

pub data ChannelCause : Type 0 where
  accepted rejected configuration crash close transport timeout leave stop : ChannelCause

abbrev pub is_left : ChannelState → Bool
is_left left = true
is_left _ = false

abbrev pub is_joined : ChannelState → Bool
is_joined joined = true
is_joined _ = false

abbrev pub is_created : ChannelState → Bool
is_created created = true
is_created _ = false

-- Futures, tasks, connections and handlers are known by numbers. `handlers` are those of
-- `event_handlers`, `on_any` is `async_callback`.
pub record Topic : Type 0 where
  pub name : Text
  pub join_ref : Text
  pub state : ChannelState
  pub cause : Option ChannelCause
  pub connection : Option ℕ
  pub conn_generation : ℕ
  pub current_join_ready : ℕ
  pub unsubscribe_completed : ℕ
  pub join_submitted : Bool
  pub terminal_received : Bool
  pub leave_requested : Bool
  pub leave_ref : Option Text
  pub leave_task : Option ℕ
  pub recovery_task : Option ℕ
  pub process_topic_messages_task : Option ℕ
  pub pending_pushes : List (Text × ℕ)
  pub send_outcomes : List ℕ
  pub cleanup_done : Bool
  pub loss_reported : Bool
  pub established : Bool
  pub blocks_reconnect : Bool
  pub restart_requested : Bool
  pub queue : List Message
  pub max_queue : ℕ
  pub dropped_message_count : ℕ
  pub handlers : List (Text × ℕ)
  pub on_any : Option ℕ
  pub has_join_hook : Bool

-- A dict with text keys.
module _ {ℓ} {V : Type ℓ} where
  unfoldable pub lookup : Text → List (Text × V) → Option V
  lookup k [] = none
  lookup k ((j, v) ∷ d) = if text_eq j k then some v else lookup k d

  unfoldable pub insert : Text → V → List (Text × V) → List (Text × V)
  insert k v [] = (k, v) ∷ []
  insert k v ((j, w) ∷ d) = if text_eq j k then (j, v) ∷ d else (j, w) ∷ insert k v d

  unfoldable pub remove : Text → List (Text × V) → List (Text × V)
  remove k [] = []
  remove k ((j, w) ∷ d) = let rest = remove k d in if text_eq j k then rest else (j, w) ∷ rest

  unfoldable pub values : List (Text × V) → List V
  values [] = []
  values ((j, v) ∷ d) = v ∷ values d

  remove-absent : (k : Text) (d : List (Text × V)) → lookup k d ≡ none → remove k d ≡ d
  unfolding lookup remove
  remove-absent k [] h = refl
  remove-absent k ((j, w) ∷ d) h = elim (Bool-cases (text_eq j k)) [
    | inl e ↦ absurd (ground arith)
    | inr e ↦ rw (e, remove-absent k d (rw e at h)) refl
  ]

  pub lookup-insert :
      (k j : Text) (v : V) (d : List (Text × V))
      → lookup j (insert k v d) ≡ (if text_eq k j then some v else lookup j d)
  unfolding lookup insert
  lookup-insert k j v [] = refl
  lookup-insert k j v ((i, w) ∷ d) =
      ground (arith, text_eq_iff k j, text_eq_iff i k, text_eq_iff i j, lookup-insert k j v d)

  -- A key that is not in the list is added and removed again.
  pub remove-insert :
      (k : Text) (v : V) (d : List (Text × V)) → lookup k d ≡ none → remove k (insert k v d) ≡ d
  unfolding insert remove
  remove-insert k v [] h = rw (text_eq_refl k) refl
  remove-insert k v ((j, w) ∷ d) h = elim (Bool-cases (text_eq j k)) [
    | inl e ↦ absurd (unfold lookup in ground arith)
    | inr e ↦
        let h' : lookup k d ≡ none = unfold lookup in ground arith in
        rw (e, e, remove-insert k v d h') refl
  ]

  pub lookup-remove :
      (k j : Text) (d : List (Text × V))
      → lookup j (remove k d) ≡ (if text_eq k j then none else lookup j d)
  unfolding lookup remove
  lookup-remove k j [] = ground arith
  lookup-remove k j ((i, w) ∷ d) =
      ground (arith, text_eq_iff k j, text_eq_iff i k, text_eq_iff i j, lookup-remove k j d)

-- `add_event_handler`
unfoldable pub add_event_handler : Topic → ChannelEvent → ℕ → Result Topic
add_event_handler t event handler =
    if is_lifecycle event
    then err (value_error lifecycle_handler)
    else ok (record t { handlers = insert (event_text event) handler t.handlers })

unfoldable pub remove_event_handler : Topic → ChannelEvent → Topic
remove_event_handler t event = record t { handlers = remove (event_text event) t.handlers }

unfoldable pub get_event_handler : Topic → ChannelEvent → Option ℕ
get_event_handler t event = lookup (event_text event) t.handlers

unfoldable pub has_event_handler : Topic → ChannelEvent → Bool
has_event_handler t event = is_some (lookup (event_text event) t.handlers)

-- An event's handler is the last one that was added for its text, and a lifecycle event has none.
pub get_event_handler-add :
    (t u : Topic) (event other : ChannelEvent) (handler : ℕ)
    → add_event_handler t event handler ≡ ok u
    → (is_lifecycle event ≡ false)
      × (get_event_handler u other ≡ (
          if text_eq (event_text event) (event_text other)
          then some handler
          else get_event_handler t other))
unfolding add_event_handler get_event_handler
get_event_handler-add t u event other handler h =
    ground (arith, lookup-insert (event_text event) (event_text other) handler t.handlers)
