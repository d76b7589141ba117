-- ===== src/Tests/Examples.antt =====
-- The programs of examples/, at concrete inputs.
use radrpc.Client.{Session, Client, connect, send_recv}
use radrpc.ClientSession.{async_read, async_write}
use radrpc.ServerSession.Accept.{
  session_accept, on_accept, on_read_handshake, on_ssl_handshake, accept, wait_timer,
}
use radrpc.ServerSession.Establish.{establish}
use radrpc.Client.Connecting.{World, Outcome}
use radrpc.Operations.{fresh_tls}
use radrpc.ServerSession
use radrpc.ServerSession.{is_empty}
use radrpc.Rpc.Facade.{ops, first_packet, Served, during, Replied, connect-send_recv}
use radrpc.Examples.Basic.{my_rpc_echo_msg, client_main, client_timeouts, echo_msg}
use radrpc.Examples.Basic.Echo.{asked, Shows, client_main-echo_msg}
use radrpc.Tests.Connecting.{quiet}
use radrpc.Prelude.{ℕ, ◌≡◌, refl, true, false, none, List, [], ◌∷◌, arith}

-- The session ends as soon as it is closed.
abbrev closing : Session World
closing = record quiet { destructs = λ w. (true, record w { session = none }) }

abbrev fine : Outcome
fine = record {
  resolve = false;
  connect = false;
  ssl_handshake = false;
  handshake = false;
  lingers = false;
}

abbrev line : List ℕ
line = 104 ∷ 105 ∷ []

abbrev user : Client World
user = record {
  session = record {
    session = none;
    outcomes = fine ∷ [];
    tls = fresh_tls;
    meanwhile = during 3 5 (first_packet my_rpc_echo_msg line) ∷ [];
    undefined = false;
  };
  bound_funcs = [];
  m_exit = false;
}

client_main-echo_msg_example :
    let s = asked 0 (first_packet my_rpc_echo_msg line) in
    (s.established ≡ true)
    × ServerSession.Bounded.Ensures
        (Served (first_packet my_rpc_echo_msg line) s)
        (ServerSession.on_read false 4 s)
    × Shows line (client_main (ops false [] client_timeouts closing) line user)
unfolding is_empty
client_main-echo_msg_example =
    client_main-echo_msg closing (λ w. refl) 3 5 4 0 line fine [] [] user refl refl refl refl refl
      refl refl

connect-send_recv_example :
    let s = asked 0 (first_packet my_rpc_echo_msg line) in
    let (connected, c1) = connect (ops false [] client_timeouts closing) user in
    (connected ≡ true)
    × ServerSession.Bounded.Ensures
        (Served (first_packet my_rpc_echo_msg line) s)
        (ServerSession.on_read false 4 s)
    × Replied line
        (async_read ∷ async_write (first_packet my_rpc_echo_msg line) ∷ async_read ∷ [])
        (send_recv (ops false [] client_timeouts closing) 1 my_rpc_echo_msg line c1)
unfolding establish session_accept on_accept on_read_handshake on_ssl_handshake accept wait_timer
    ServerSession.read is_empty
connect-send_recv_example =
    connect-send_recv false [] client_timeouts closing 0 3 5 4 my_rpc_echo_msg line fine [] [] user
      echo_msg (asked 0 (first_packet my_rpc_echo_msg line)) refl refl refl refl refl refl
      (omega arith) refl refl refl refl refl refl refl refl
