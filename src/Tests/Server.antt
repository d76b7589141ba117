-- ===== src/Tests/Server.antt =====
-- A server session and its manager.
use radrpc.Types.{SessionConfig, ServerConfig, plain_mode}
use radrpc.Header.{IoHeader, io_header, packet, split_packet, encode, to_bytes, decode, of_bytes}
use radrpc.ServerSession.{
  ServerSession, DataPush, Handler, add_session, call_function, handle_send, write, read,
  async_read, async_write, async_ping, async_wait, async_close, ping_next, on_read, close_session,
  is_empty,
}
use radrpc.ServerSession.Accept.{
  session_accept, on_accept, wait_timer, on_timer, on_control_callback, expired, aborted, pong,
}
use radrpc.ServerSession.Loop.{
  Event, sends, runs_send, written, received, timed, step, run, send, next_send, complete_read,
}
use radrpc.ServerSession.Bounded.{Inv, Ensures}
use radrpc.ServerSession.Invariant.{run-on_accept-Inv}
use radrpc.ServerSession.Stream.{issued_packets, backlog}
use radrpc.ServerSession.Accepted.{accepted_run}
use radrpc.ServerSession.Order.{run-in_order}
use radrpc.ServerSession.Ping.{
  close_session-on_timer, close_session-on_control_callback, on_timer-silent,
}
use radrpc.Manager.{Manager, connections, broadcast, use_count, count_alive}
use radrpc.Manager.Broadcast.{lookup-broadcast}
use radrpc.Listener
use radrpc.Listener.{rejected, socket}
use radrpc.Listener.Admission.{on_accept-broadcast}
use radrpc.Prelude.{
  ◌+◌, ◌≡◌, ◌≢◌, refl, pos, true, false, Option, none, some, List, [], ◌∷◌, ◌++◌, Map, lookup,
  length, arith,
}

abbrev config : SessionConfig
config = record { max_transfer_bytes = 1024; ping_delay = pos 1000 }

-- The bytes of the request, twice.
abbrev pub echo_twice : Handler
echo_twice bytes response = record { response = bytes ++ bytes; closes = false }

abbrev funcs : Map (Option Handler)
funcs = (7, some echo_twice) ∷ []

abbrev question : DataPush
question = record { header = io_header 3 0; body = 1 ∷ [] }

run-on_accept-Inv_example : Ensures Inv (
    run
      (sends question
        ∷ runs_send
        ∷ received false 5 (packet (io_header 7 1) (2 ∷ []))
        ∷ written false 6
        ∷ timed expired true 2000
        ∷ [])
      (on_accept false 0 (session_accept funcs config 0)))
run-on_accept-Inv_example = run-on_accept-Inv funcs config 0 0 (
    sends question
    ∷ runs_send
    ∷ received false 5 (packet (io_header 7 1) (2 ∷ []))
    ∷ written false 6
    ∷ timed expired true 2000
    ∷ [])

-- A push, and a request that is served while the push is written.
abbrev push_and_request : List Event
push_and_request =
    sends question ∷ runs_send ∷ received false 5 (packet (io_header 7 1) (2 ∷ [])) ∷ []

-- The push is handed to the stream, the reply waits behind it.
abbrev busy : ServerSession
busy = record {
  bound_funcs = funcs;
  config = config;
  bound_close = false;
  header = io_header 7 1;
  receive_buffer = [];
  response = [];
  write_error = false;
  read_error = false;
  queue = question ∷ record { header = io_header 7 1; body = 2 ∷ 2 ∷ [] } ∷ [];
  handshake_bytes = 0;
  established = true;
  m_close = false;
  close_received = false;
  m_ping_state = ping_next;
  expiry = 1000;
  posted = [];
  started =
      async_wait
      ∷ add_session
      ∷ async_read
      ∷ async_write (packet (io_header 3 0) (1 ∷ []))
      ∷ async_read
      ∷ [];
  writes = 1;
  reads = 1;
  waits = 1;
}

run-push_and_request :
    run push_and_request (on_accept false 0 (session_accept funcs config 0)) ≡ some busy
unfolding run step send next_send complete_read handle_send write on_read call_function is_empty
    on_accept session_accept wait_timer read split_packet packet encode to_bytes decode of_bytes
run-push_and_request = refl

run-in_order_example :
    issued_packets busy.started ++ backlog busy
    ≡ accepted_run push_and_request (on_accept false 0 (session_accept funcs config 0))
run-in_order_example = run-in_order funcs config 0 0 push_and_request busy run-push_and_request refl

-- An established session that waits for its timer and for a request.
abbrev pub idle : ServerSession
idle = record {
  bound_funcs = funcs;
  config = config;
  bound_close = false;
  header = io_header 0 0;
  receive_buffer = [];
  response = [];
  write_error = false;
  read_error = false;
  queue = [];
  handshake_bytes = 0;
  established = true;
  m_close = false;
  close_received = false;
  m_ping_state = ping_next;
  expiry = 1000;
  posted = [];
  started = async_wait ∷ async_read ∷ [];
  writes = 0;
  reads = 1;
  waits = 1;
}

close_session-on_timer_example :
    let t = on_timer aborted true 11 (close_session 10 idle) in
    (t.m_close ≡ true) × (t.started ≡ idle.started ++ async_close ∷ [])
close_session-on_timer_example =
    close_session-on_timer 1000 idle refl (omega arith) refl true 10 11 (omega arith)

close_session-on_control_callback_example :
    let t = on_timer aborted true 12 (on_control_callback pong 11 (close_session 10 idle)) in
    let u = on_timer expired true 1020 t in
    (t.m_close ≡ false)
    × (t.started ≡ idle.started ++ async_wait ∷ [])
    × (u.m_close ≡ false)
    × (u.started ≡ ((idle.started ++ async_wait ∷ []) ++ async_ping ∷ []) ++ async_wait ∷ [])
close_session-on_control_callback_example =
    close_session-on_control_callback 1000 idle refl (omega arith) refl true 10 11 12 1020
      (omega arith) (omega arith)

on_timer-silent_example :
    let t = on_timer expired true 2000 (on_timer expired true 1000 idle) in
    (t.m_close ≡ true)
    × (t.started ≡ ((idle.started ++ async_ping ∷ []) ++ async_wait ∷ []) ++ async_close ∷ [])
on_timer-silent_example =
    on_timer-silent 1000 idle refl (omega arith) refl 1000 2000 refl (omega arith) (omega arith)

abbrev request : IoHeader
request = io_header 7 42

abbrev asked : ServerSession
asked = record idle { receive_buffer = packet request (5 ∷ []); reads = 0 }

abbrev server_config : ServerConfig
server_config = record {
  workers = 1;
  max_sessions = 2;
  max_handshake_bytes = 8192;
  mode = plain_mode;
}

abbrev empty_manager : Manager
empty_manager = record {
  server_cfg = server_config;
  sub_refs = 0;
  msg_queued = 0;
  plain_sessions = [];
  ssl_sessions = [];
  sessions = [];
  others = 3;
  messages = [];
  on_disconnect = false;
  disconnected = [];
}

abbrev started_manager : Manager
started_manager = record empty_manager { sub_refs = 4 }

-- One session of two that the server takes.
abbrev manager : Manager
manager = record started_manager { plain_sessions = 8 ∷ []; sessions = (8, idle) ∷ [] }

connected : connections manager ≢ 0
unfolding connections
connected h = absurd (omega (arith, h))

reached :
    count_alive manager.plain_sessions manager.sessions
      + count_alive manager.ssl_sessions manager.sessions
    ≢ 0
unfolding count_alive
reached h = absurd (omega (arith, h))

lookup-broadcast_example :
    lookup 8 (broadcast 3 (1 ∷ []) (some (8 ∷ 8 ∷ 9 ∷ [])) manager).sessions
    ≡ some (send (record { header = io_header 3 0; body = 1 ∷ [] }) idle)
lookup-broadcast_example =
    lookup-broadcast 3 (1 ∷ []) (some (8 ∷ 8 ∷ 9 ∷ [])) manager 8 idle (omega arith) connected
      (refl, tt) tt refl refl

on_accept-broadcast_example :
    let m' = broadcast 3 (1 ∷ []) none manager in
    (Listener.on_accept false none m' (socket false) ≡ (rejected, true))
    × (length m'.sessions ≡ length manager.sessions)
unfolding connections use_count
on_accept-broadcast_example =
    on_accept-broadcast false false none 3 (1 ∷ []) manager (omega arith) (omega arith) connected
      reached refl
