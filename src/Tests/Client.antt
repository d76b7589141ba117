-- ===== src/Tests/Client.antt =====
-- A client session.
use radrpc.Types.{duration_max}
use radrpc.Header.{IoHeader, io_header, packet}
use radrpc.Cache
use radrpc.SendQueue
use radrpc.SendQueue.{data_send}
use radrpc.Operations.{fresh_tls}
use radrpc.ClientSession.{
  ClientSession, client_session, close, pong, handle_send_task, handle_send, write, async_read,
  async_write,
}
use radrpc.ClientSession.Loop.{
  Event, runs_task, written, received, controlled, posts, promises, run, step, next_task, run_task,
}
use radrpc.ClientSession.Calls
use radrpc.ClientSession.Pings.{has_pong, Returns, ping-m_pong}
use radrpc.ClientSession.Calls.{double, send, send_recv}
use radrpc.ClientSession.Writes.{Inv, Ensures, run-client_session-Inv}
use radrpc.ClientSession.Stream.{issued_packets, backlog}
use radrpc.ClientSession.Order.{accepted_run, run-order}
use radrpc.ClientSession.Responses.{double-never_valid}
use radrpc.ClientSession.RoundTrip.{Got, request_id, writes_out, send_recv-response}
use radrpc.Cache.Invariant.{data_cache-WellFormed}
use radrpc.ClientSession.Reports.{earlier_write_fails, Dropped, send-earlier_write_fails}
use radrpc.Prelude.{◌^◌, ◌-◌, pos, ◌≡◌, ◌≢◌, refl, true, false, some, List, [], ◌∷◌, ◌++◌, arith}

-- Two messages, of which the first is written.
abbrev two_sends : List Event
two_sends =
    promises
    ∷ posts (handle_send_task 1 0 0 (7 ∷ []))
    ∷ promises
    ∷ posts (handle_send_task 1 0 1 (8 ∷ []))
    ∷ runs_task
    ∷ runs_task
    ∷ written false
    ∷ []

run-client_session-Inv_example : Ensures Inv (run two_sends (client_session []))
run-client_session-Inv_example = run-client_session-Inv [] two_sends

-- One message, that has been handed to the stream.
abbrev one_send : List Event
one_send = posts (handle_send_task 1 0 0 (7 ∷ [])) ∷ runs_task ∷ []

abbrev fresh : ClientSession
fresh = record {
  cache = Cache.data_cache 500;
  queue = SendQueue.data_queue 500;
  promises = [];
  bound_funcs = (9, true) ∷ [];
  read_buffer = [];
  m_ping = false;
  m_pong = false;
  read_error = false;
  write_error = false;
  m_close = false;
  close_received = false;
  posted = [];
  started = [];
  writes = 0;
  reads = 0;
}

abbrev sending : ClientSession
sending = record fresh {
  queue = record (SendQueue.data_queue 500) { entries = data_send 1 0 0 (7 ∷ []) ∷ [] };
  started = async_write (packet (io_header 1 0) (7 ∷ [])) ∷ [];
  writes = 1;
}

run-one_send : run one_send (client_session ((9, true) ∷ [])) ≡ some sending
unfolding run step next_task run_task handle_send write SendQueue.queue SendQueue.is_writing
    SendQueue.front client_session
run-one_send = refl

run-order_example :
    issued_packets sending.started ++ backlog sending
    ≡ accepted_run one_send (client_session ((9, true) ∷ []))
run-order_example = run-order ((9, true) ∷ []) one_send sending run-one_send refl

-- The response to request 5.
abbrev header : IoHeader
header = io_header 1 5

abbrev answered : ClientSession
answered = record fresh { read_buffer = packet header (3 ∷ []) }

abbrev pushed : ClientSession
pushed = record fresh { read_buffer = packet (io_header 9 0) (3 ∷ []) }

-- the default timeout
double-never_valid_example : Cache.is_valid 0 (Cache.data_read 0 (double duration_max)) ≡ false
double-never_valid_example = double-never_valid (2 ^ 63 - 1) 0 0 (omega arith) (omega arith)

sending-waits : sending.queue.entries ≢ []
sending-waits h = absurd (cc)

send-earlier_write_fails_example :
    Dropped sending.started (send (pos 5) 2 (4 ∷ []) (λ _. earlier_write_fails) fresh_tls sending)
send-earlier_write_fails_example =
    send-earlier_write_fails (pos 5) 2 (4 ∷ []) fresh_tls sending (omega arith) refl refl
      sending-waits

-- A connected session that reads.
abbrev pub reading : ClientSession
reading = record fresh { reads = 1 }

send_recv-response_example :
    Got
      (3 ∷ [])
      ((reading.started
          ++ async_write (packet (io_header 1 (request_id (pos 9) 0 reading)) (2 ∷ [])) ∷ [])
        ++ async_read ∷ [])
      (send_recv
        (pos 5)
        (pos 9)
        0
        1
        (2 ∷ [])
        []
        (λ _. writes_out)
        (λ _. received false 4 (packet (io_header 1 (request_id (pos 9) 0 reading)) (3 ∷ [])) ∷ [])
        fresh_tls
        reading)
unfolding Cache.data_cache
send_recv-response_example =
    send_recv-response (pos 5) (pos 9) 0 4 1 (2 ∷ []) (3 ∷ []) [] fresh_tls reading
      (data_cache-WellFormed 500) (omega arith) (omega arith) (omega arith) refl refl refl refl refl
      refl (omega arith)

-- A pong that is read too early, and one while the caller waits.
ping-m_pong_example :
    Returns
      (λ answered t. (answered ≡ true) × Inv t)
      (Calls.ping
        (pos 100)
        (controlled pong ∷ [])
        (λ timeout. runs_task ∷ controlled close ∷ controlled pong ∷ [])
        fresh_tls
        (client_session []))
unfolding has_pong
ping-m_pong_example =
    ping-m_pong (pos 100) (controlled pong ∷ [])
      (λ timeout. runs_task ∷ controlled close ∷ controlled pong ∷ []) fresh_tls (client_session [])
      (unfold client_session in record { one_write = refl; capped = omega arith })
