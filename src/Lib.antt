-- ===== src/Lib.antt =====
-- The client of the Phoenix channels protocol in phoenix_channels_python_client/, and what makes it
-- correct.
--
-- The program. A client keeps one websocket to a Phoenix server and any number of channels on it.
-- The supervisor (supervisor.py) connects, reads, and asks a reconnect decider
-- (default_decider.py, through reconnect_controller.py) what to do about a loss; the protocol
-- handler (protocol_handler.py) decodes each frame (codec.py) and hands its message to the topic
-- runtime (topic_runtime.py), which keeps the state of each channel (topic_subscription.py),
-- settles the futures that callers wait for, and queues what is for the user.
--
-- The files, and the code that they model:
--   Base                 lists, Boolean tests, results and exceptions (exceptions.py)
--   Text                 Python's str and bytes, UTF-8 and decimals
--   Json                 JSON values; the services of json and pydantic as a record with laws
--   Messages             messages.py, protocol.py, parse_event and make_message of utils.py
--   Codec                codec.py; Binary, Server and TextFrames hold the proofs
--   ClientState          client_state_machine.py
--   Reconnect            client_types.py (Policy), default_decider.py (Decider),
--                        reconnect_controller.py (Controller)
--   Replies, Futures     replies.py, and the asyncio futures of the runtime; Meaning says on its own
--                        what a reply means
--   Topic                topic_subscription.py
--   Runtime              topic_runtime.py: the client's state (Runtime), the transitions of a channel
--                        (Transition), tasks and names (Tasks), control messages (Control), losses
--                        of the connection (Losses), joins, pushes and restarts (Calls), the end of
--                        a channel (Leaving), new channels, sends and failed joins (Joining), rejoins
--                        and recoveries (Rejoining), the failure of a send session (Sending);
--                        Invariant says what every step keeps, Pushes what it says of the pushes
--   Handler              protocol_handler.py: the reading loop and the queue of a channel
--   Processor            the topic processor of topic_runtime.py: the order of the user's messages
--                        (Order), and which handlers run after the registrations of channel.py
--                        (Handlers)
--   EventLoop            the steps of the client's tasks, its callers and the server in any order,
--                        and the clients that they reach; Safety is about those, Replies about
--                        the reply to a push
--   SendSession          send_session.py; Runs has what may happen to a session
--   ShutdownSignals      shutdown_signals.py; Handlers has what happens to the handlers
--   Supervisor           supervisor.py: close reasons, heartbeats (Heartbeat), what it does to a
--                        connection (Connection), how it closes one (Closing), and its loop (Loop),
--                        of which Legal, Finality and Ends say how it ends
--   Lifecycle            client.py: the options (Options), the entry (Entry) and the stop (Stops) of a
--                        client, its shutdown (Closes)
--   Authentication       authentication.py
--   SocketUrls           the addresses of client.py
--   Diagnostics          diagnostics.py: what a log message shows, and the secrets (Secrets)
--   Examples             tests of the model and instances of its theorems
--
-- The model. Objects that the code shares (topics, futures, tasks, connections) are numbers, and the
-- client's record says what each of them holds; a change through one reference is seen through all.
-- A function of the code that changes state is a function from the client before to the client
-- after. asyncio runs one task at a time between two awaits, so each such function is one step.
-- Setting a future that is done does nothing, as each caller tests `done()` first. A call of a user's
-- hook is given by its outcome, and does not itself call back into the client. A URL is known by its
-- parsed query. The cause of a future's exception and the texts of errors are left out, an error's
-- text being named by `Why`.
-- Times and ratios are whole thousandths where the code has floats; the range of a double is kept
-- where the code can leave it (`power_overflows`). The clock and the random draws are arguments.
-- Loops run over lists. Only the decimal text of a number takes fuel, one more than the number, which
-- is enough since each digit divides it by ten.
--
-- A coroutine is cut at its waits: each part between two of them is a function, and what other tasks
-- do meanwhile is either another step (EventLoop) or a function that is given (the waits of the
-- supervisor's loop, of a recovery, of a shutdown). The supervisor's loop runs over a list of rounds,
-- one for each attempt to connect, and says whether it still runs at the end of the list; the topic
-- processor runs for a number of rounds, for which one more than the messages of the queue is enough
-- when no handler queues more. Each wait of a round of the supervisor's loop may be the one at which
-- its task is cancelled (`cancelled_at`): CancelledError then leaves the loop through that wait, and
-- the `finally` of the round is run. The waits of `_shutdown` are not cancelled, since its task is
-- shielded; a cleanup task that fails (`failed_cleanup`) ends it with that failure.
--
-- Not modelled: the logger of diagnostics.py, which has no effect on the state; of topic_runtime.py
-- the drain of a callback that runs during a rejoin, and the sets of running tasks; of supervisor.py
-- the wait of run_forever for a signal, and what the websocket library does when it closes; of
-- client.py the construction of the parts. What a user's handler returns or raises is not kept, since
-- the code only logs it.
pub mod Base
pub mod Text
pub mod Json
pub mod Messages
pub mod Codec
pub mod ClientState
pub mod Reconnect
pub mod Futures
pub mod Replies
pub mod Topic
pub mod Runtime
pub mod Handler
pub mod Processor
pub mod EventLoop
pub mod SendSession
pub mod ShutdownSignals
pub mod Supervisor
pub mod Lifecycle
pub mod Authentication
pub mod Diagnostics
pub mod SocketUrls
pub mod Examples
