-- ===== src/Lib.antt =====
-- HardLight is an RPC framework over WebSockets. A client calls the methods of a server over one
-- connection, the server keeps the client's copy of a connection state up to date, and sends it the
-- events of the topics that its handler has subscribed the connection to.
--
-- The parts, the files that model them, and the code:
--   Topic, Wire, Channels: the data of src/wire.rs and src/server.rs (Topic, Event, StateUpdate,
--     ClientMessage, ServerMessage, RpcHandlerError, the notifications). Topic/Shown is Debug.
--   Codec, Serialize: deflate, inflate, ser and de of src/lib.rs, the frames of both peers, and the
--     conversions of #[codable] (macros/src/lib.rs). rkyv and flate2 are the interfaces Codec and
--     Flate; what they document, that what is written is read back, is the hypotheses RoundTrips and
--     Inflates.
--   Decimal, Handshake: the headers of the handshake, of the server's callback
--     (Server::spawn_connection_handler) and of Client::connect, with numbers as text.
--   Server/Switch: EventSwitch of src/server.rs. route_event, subscribe and unsubscribe are the arms
--     of EventSwitch::run, run_switch the loop over what it receives, select_input its `select!`.
--   Server/Connection: the loop of Server::spawn_connection_handler. One function per arm
--     (on_response, forward, on_subscription, on_message), connection_round the `select!` on what has
--     been received, run_connection the loop, Select the order in which it serves its queues.
--   Server/Application: Server::new, get_topic_notifier, EventEmitter, HandlerSubscriptionManager.
--     Server/Accept: Server::run.
--   Client: the loop of Client::connect in src/client.rs (on_call, on_message, client_round,
--     run_client).
--   Macros: the code that macros/src/lib.rs generates. State is #[connection_state], over a list of
--     fields, and State/Expand the same from the parsed struct on; Expand and Naming are #[rpc] from
--     the parsed trait to the items that it gives out, Rpc what these do, over a list of methods;
--     AppClient the generated client.
--   System/Setup: the configurations of both peers, over rustls as the interface Tls. System/Opening:
--     how both ends come from the handshake to their loops. System/Session: both ends of one
--     connection with their channels as a step relation; the tasks of the server end in any
--     order, and the client's socket and the server's socket and workers may fail at any message.
--     Deliveries, Progress and Liveness are about runs that only deliver what is under way, Mirror
--     about the client's copy of the state, Heard about its events, Methods about the methods of the
--     generated client, from end to end. System/Hub: all connections of a server and its switch.
--     System/Publishing: these and one session together, from the application of the server to that
--     of a client.
--   Examples: the handlers of examples/todo.rs, examples/counter.rs (Counter/Notifier is the task of
--     its main that greets topics) and examples/pet.rs, and Handwritten that of testing-
--     project/src/handler.rs, with the overflow of u32.
--   Benchmark: what testing-project/src/main.rs computes of its timings, with the overflow of u128 and
--     usize and i32 in a debug and in a release build. Main is all of it from the channel of the timings
--     on; f64 is the interface F64, and whether plotters can draw a graph the interface Plotters.
--   Tests: libraries that are simple enough to run, and each theorem at a concrete input.
--
-- A state is a record and an operation a function that returns the new state and its effects: frames
-- for the socket, tasks, notifications, answers to callers. What the libraries answer at that time
-- (whether the socket takes a message, whether a receiver lives, the random bytes of an id) is an
-- argument. A panic is `none`. A byte is a number below 256, an id one that the source keeps in a u8.
-- A hash map is an association list with one entry to a key; no result depends on its order. The
-- `==` of a field of a connection state, or of a state that is compared, is taken to be equality.
--
-- Loops run over the list of what they receive, so that no fuel is needed. A number is printed with at
-- most ten digits, enough for the 32 bits of a version.
--
-- Not modelled: what rustls, rcgen, tungstenite, tokio, rkyv, flate2 and syn do; the capacity of the
-- bounded channels; log output and what the handlers print; the attributes that rpc_handler and
-- codable put on an item, and the closure of factory!, which the compiler reads; of the benchmark
-- the clock, the tasks that make the calls, and what plotters draws; the main functions of the
-- examples, which call what is modelled; and the integration tests.
pub mod Prelude
pub mod Topic
pub mod Wire
pub mod Codec
pub mod Serialize
pub mod Decimal
pub mod Channels
pub mod Server
pub mod Client
pub mod System
mod Tests
pub mod Handshake
pub mod Macros
pub mod Examples
pub mod Benchmark
