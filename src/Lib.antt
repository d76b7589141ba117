-- ===== src/Lib.antt =====
-- radrpc, a remote procedure call library over websockets (include/radrpc): a model of its client
-- and server sessions, their queues and tables, and the theorems about them.
--
-- A client (client.hpp) owns one session, whose IO thread runs the handlers of
-- impl/client/client_session.hpp; threads of the user call `send`, `send_recv` and `ping`, which post
-- handlers to that thread and wait. A server (server.hpp) has a listener (impl/server/listener.hpp)
-- that accepts connections, and for each one a session, whose strand runs the handlers of
-- impl/server/server_session.hpp; a manager knows the sessions and sends messages to many of them.
-- Both sides queue the messages that wait to be written (detail/data.hpp), since a websocket stream
-- takes one write at a time. A request carries a result id; its response comes back under that id,
-- through the table in which the requesting thread waits.
--
-- Which file models what:
--   Types: include/radrpc/types.hpp and config.hpp, the constants and configurations.
--   Header: io_header of detail/data.hpp and its bytes on the wire. Header/Codec: reading back.
--     Header/Inverse: the other way round.
--   Cache: data_state, data_read and data_cache of detail/data.hpp. Each critical section is a
--     function; `wait` is one section, what other threads do, and another. Cache/Invariant: the
--     table stays well formed. Cache/Rows, Held, Detached: how one row fares under the sections of
--     other threads. Cache/Delivery and Lost: what a waiting thread gets. Cache/Sweep: the loop of
--     remove_obsolete with its iterator.
--   SendQueue: data_send and data_queue of detail/data.hpp. SendQueue/Promises: what happens to
--     the promises of the senders.
--   Operations: the thread-local timeouts of detail/operations.hpp. Operations/OneShot: their use.
--   ClientSession: client_session of impl/client/client_session.hpp, and close_session of
--     session_connect. ClientSession/Calls: ping, send and send_recv, which threads of the user run.
--     ClientSession/Loop: the events of a session. Outcomes, Stream: how handlers end and what they
--     leave alone. Writes, Order, Responses, RoundTrip, Pings, Closes, Ends, Reports:
--     the theorems.
--   Connect: session_connect of impl/client/client_session.hpp, as a chain of operations that the
--     libraries complete. Connect/Chain: its end. Connect/Closing: close, and wait_weak_post of
--     detail/operations.hpp.
--   Client: client of client.hpp, over the interface `Session` of what it does with its session.
--     Client/Attempts: its attempts. Client/Preserved and Calls: what its calls preserve.
--     Client/Connecting: the interface filled with session_connect and client_session;
--     Client/Connecting/Attempts: the attempts to connect; Client/Connecting/Ending: how it closes an
--     established session; Client/Connecting/Outcomes: when a session is used up. Client/Handshakes: the accessors of its handshakes;
--     Client/Handshakes/Greetings and Requests: what its sessions send.
--   ServerSession: session_context and server_session, and the closing of session_accept, of
--     impl/server/server_session.hpp. ServerSession/Accept: session_accept. ServerSession/Establish:
--     its chain of handshakes. ServerSession/Loop: the events. Outcomes, Stream, Frames: how handlers
--     end and what they leave alone. Accepted: what a session accepts. Bounded, Invariant, Sound,
--     Order, Ping, Replies: the theorems.
--   Manager: session_manager of impl/server/server_session.hpp. Manager/Counting and Broadcast: the
--     theorems. Manager/Lifetimes: a run over the lives of sessions and messages, with the theorems
--     in Ids, Registry, Messages, Sessions, Invariant and Disconnects.
--   Listener: the accept loop and the admission of connections by listener of
--     impl/server/listener.hpp and detect_session of impl/server/server_session.hpp.
--     Listener/Admission and Detecting: the theorems.
--   Server: server of server.hpp, its workers, signals and bindings. Server/Stopping: its starts and stops.
--   Handshake: the fields of a handshake and the decorators of impl/client/client_session.hpp and
--     impl/server/server_session.hpp, over the interface `Fields`. Handshake/Decorated: what they leave.
--   Rpc: a remote call over both sides. Rpc/Push: a broadcast over both sides. Rpc/Facade: a facade
--     that connects and calls, over Client/Connecting, and a server session.
--   Examples/Basic: the programs of examples/basic; Examples/Basic/Echo: both of them together.
--     Examples/Advanced: the handlers of examples/advanced/advanced_server.cpp and the handshake of
--     advanced_client.cpp; Examples/Advanced/Admission, Broadcasting, Numbers: the theorems;
--     Examples/Advanced/Client: the main function of the client.
--   Prelude: numbers, lists, maps and tests that the others share. Tests: runs at concrete inputs.
--
-- How the code is read. The handlers of one session run one at a time: on the IO thread of a client,
-- on the strand of a server session. So a handler is a function of the session, an interleaving is a
-- list of events, and the theorems hold for every list. The stream, the timer and the resolver are
-- libraries: what a session asks of them is a trace of actions, and their completions are events, with
-- any error, time and bytes. A completion comes only for an operation that was started. Undefined
-- behaviour (the front of an empty deque) is the result `none`. A lock is held for one critical section,
-- and other threads act between two of them. A wait on a condition variable or a future ends at
-- any time: what other threads do until then is a parameter.
--
-- A broadcast of the manager is two steps, its tests and the rest, between which other threads broadcast;
-- the rest is one step. That a recipient lets go of a message is an event, which is not tied to the place
-- of the message in the queue of a session. remove_obsolete reads the clock once, where the code reads it
-- for each row.
--
-- Numbers: ids are 64-bit and wrap; theorems about the table ask that its counter does not wrap during
-- the events that they look at. Durations are signed 64-bit nanoseconds, whose overflow, undefined in C++,
-- wraps; times on the server's
-- timer are not bounded. Hosts are little-endian. Rows of the table stay on a heap and are not freed:
-- the shared pointers of the waiting threads keep them. All recursion is on lists and on the number of
-- attempts that are left, so no fuel is used; the loop of Cache/Sweep takes one turn for each row.
--
-- Not modelled: logging, the names and the timeouts of the websocket handshake, which are calls of
-- the libraries; the overload of data_cache::queue with a callback, which the library does not call; what
-- happens to an established session during a delay of the facade, which stays an argument of
-- Client/Connecting; memory orderings; of the examples, what they print, the thread that broadcasts, and
-- the SSL examples, which load certificates.
mod Prelude
pub mod Types
pub mod Header
pub mod Cache
pub mod SendQueue
pub mod Operations
pub mod ClientSession
pub mod ServerSession
pub mod Manager
pub mod Handshake
pub mod Connect
pub mod Client
pub mod Listener
pub mod Server
pub mod Rpc
pub mod Examples
mod Tests
