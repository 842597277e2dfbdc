-- ===== src/Runtime.antt =====
-- The state that topic_runtime.py keeps, and its smallest operations.
pub mod Pushes
pub mod Invariant
pub mod Transition
pub mod Tasks
pub mod Control
pub mod Losses
pub mod Calls
pub mod Leaving
pub mod Joining
pub mod Rejoining
pub mod Sending
use phoenix_channels_python.Base.{
  is_some, ℕ, zero, suc, ◌+◌, ◌≡◌, refl, Bool, true, false, ◌&&◌, ◌||◌, not, Option, none, some,
  List, [], ◌∷◌, arith, ◌==◌, if◌then◌else◌, Result, ok, err, Exc, socket_error, not_connected,
  length,
}
use phoenix_channels_python.Text.{Text}
use phoenix_channels_python.Text.Decimal.{decimal}
use phoenix_channels_python.ClientState.{ClientState, connected}
use phoenix_channels_python.Futures.{Future, Store, pending, is_done, has_result, settle, update}
use phoenix_channels_python.Topic.{Topic, lookup, is_joined, is_left}

-- What a task runs.
pub data Task : Type 0 where
  process_topic_messages : (topic : ℕ) → Task
  recover_channel : (topic generation : ℕ) (immediate : Bool) → Task
  lose_topic : (topic : ℕ) (error : Exc) → Task
  report_topic_lost : (topic : ℕ) (error : Exc) → Task
  leave_and_cleanup : (topic : ℕ) → Task
  close_send_session : Task

-- Objects are known by numbers: `topics`, `futures` and `finished` say what each holds now, and a
-- task is known by its place in `tasks`, the oldest having place 0. `sending` says which futures
-- have a send that has not finished.
pub record Client : Type 0 where
  pub state : ClientState
  pub connection : Option ℕ
  pub conn_generation : ℕ
  pub shutdown_requested : Bool
  pub ref_counter : ℕ
  pub topic_subscriptions : List (Text × ℕ)
  pub topics : ℕ → Topic
  pub next_topic : ℕ
  pub futures : Store
  pub next_future : ℕ
  pub tasks : List Task
  pub finished : ℕ → Bool
  pub sending : ℕ → Bool

abbrev pub set_topic : Client → ℕ → Topic → Client
set_topic c k t = record c { topics = update c.topics k t }

unfoldable pub same_connection : Option ℕ → Option ℕ → Bool
same_connection none none = true
same_connection (some a) (some b) = a == b
same_connection _ _ = false

unfoldable pub is_connected_state : ClientState → Bool
is_connected_state connected = true
is_connected_state _ = false

-- `_is_connected`
unfoldable pub is_connected : Client → Bool
unfolding is_connected_state
is_connected c = is_connected_state c.state && is_some c.connection

is_same_topic : Option ℕ → ℕ → Bool
is_same_topic none k = false
is_same_topic (some j) k = j == k

-- `_is_registered`
unfoldable pub is_registered : Client → ℕ → Bool
unfolding is_same_topic
is_registered c k = is_same_topic (lookup (c.topics k).name c.topic_subscriptions) k

-- `_is_on_current_connection`
unfoldable pub is_on_current_connection : Client → ℕ → Bool
is_on_current_connection c k =
    let t = c.topics k in
    is_connected c
    && t.conn_generation == c.conn_generation
    && (not (is_some t.connection) || same_connection t.connection c.connection)

-- `_is_current_join_ready`
unfoldable pub is_current_join_ready : Client → ℕ → Bool
is_current_join_ready c k = has_result (c.futures (c.topics k).current_join_ready)

-- `_channel_joined`
unfoldable pub channel_joined : Client → ℕ → Bool
channel_joined c k =
    let t = c.topics k in
    is_joined t.state
    && is_registered c k
    && is_on_current_connection c k
    && is_current_join_ready c k
    && not t.leave_requested

-- `_should_rejoin`
unfoldable pub should_rejoin : Client → ℕ → Bool
should_rejoin c k =
    let t = c.topics k in
    is_registered c k && t.established && not t.leave_requested && not (is_left t.state)

-- `_can_recover`
unfoldable pub can_recover : Client → ℕ → ℕ → Bool
can_recover c k generation =
    not c.shutdown_requested
    && should_rejoin c k
    && is_connected c
    && generation == c.conn_generation

is_running : Client → Option ℕ → Bool
is_running c none = false
is_running c (some task) = not (c.finished task)

-- `_is_recovering`
unfoldable pub is_recovering : Client → ℕ → Bool
unfolding is_running
is_recovering c k = is_running c (c.topics k).recovery_task

-- `_generate_ref`
unfoldable pub generate_ref : Client → Text × Client
generate_ref c = let n = c.ref_counter + 1 in (decimal n, record c { ref_counter = n })

-- `_ensure_can_send`
unfoldable pub ensure_can_send : Client → Result (Unit {0})
ensure_can_send c = if is_connected c then ok tt else err (socket_error not_connected)

snoc : List Task → Task → List Task
snoc [] t = t ∷ []
snoc (s ∷ ss) t = s ∷ snoc ss t

-- asyncio.create_task: the task's number, and the client with it.
unfoldable pub create_task : Client → Task → ℕ × Client
unfolding snoc
create_task c task = (
  length c.tasks,
  record c { tasks = snoc c.tasks task; finished = update c.finished (length c.tasks) false },
)

-- loop.create_future
unfoldable pub create_future : Client → ℕ × Client
create_future c = (
  c.next_future,
  record c { futures = update c.futures c.next_future pending; next_future = c.next_future + 1 },
)
