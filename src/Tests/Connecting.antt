-- ===== src/Tests/Connecting.antt =====
-- A facade that connects at its second attempt.
use radrpc.Types.{default_client_timeout, established}
use radrpc.Operations.{fresh_tls}
use radrpc.Client.{Session, Client, connect_attempts, disconnect}
use radrpc.Client.Connecting.{World, Outcome, connecting}
use radrpc.Client.Connecting.Attempts.{Ends, connect_attempts-Connected}
use radrpc.Client.Connecting.Ending.{Waits, ending, Ended, Aborts, disconnect-Ended}
use radrpc.Connect.{SessionConnect, session_connect}
use radrpc.ClientSession.{client_session, read}
use radrpc.ClientSession.Loop.{runs_task}
use radrpc.ClientSession.Writes.{Inv}
use radrpc.ClientSession.Ends.{aborts}
use radrpc.ClientSession.Closes.{is_closing, runs}
use radrpc.Prelude.{refl, true, false, none, some, List, [], ◌∷◌, arith, if◌then◌else◌}

-- A session that is established stays as it is, and sends nothing.
abbrev pub quiet : Session World
quiet = record {
  is_expired = λ w. false;
  locks = λ w. true;
  runs = λ w. (false, w);
  sends = λ id bytes w. (true, w);
  send_recvs = λ id bytes buffer w. ([], true, w);
  pings = λ w. (false, w);
  closes = λ w. w;
  destructs = λ w. (false, w);
  sleeps = λ w. w;
}

-- The first host is not reached, and the IO thread still holds that session; the second connects.
abbrev pub second : List Outcome
second =
    record {
      resolve = false;
      connect = true;
      ssl_handshake = false;
      handshake = false;
      lingers = true;
    }
    ∷ record {
      resolve = false;
      connect = false;
      ssl_handshake = false;
      handshake = false;
      lingers = false;
    }
    ∷ []

abbrev pub unconnected_client : Client World
unconnected_client = record {
  session = record {
    session = none;
    outcomes = second;
    tls = fresh_tls;
    meanwhile = [];
    undefined = false;
  };
  bound_funcs = [];
  m_exit = false;
}

connect_attempts-Connected_example :
    Ends true [] default_client_timeout quiet 3 second
      (connect_attempts (connecting true [] default_client_timeout quiet) 3 unconnected_client)
connect_attempts-Connected_example =
    connect_attempts-Connected true [] default_client_timeout quiet 3 unconnected_client refl refl

-- A facade whose session is established, and what its IO thread does while it is closed.
abbrev connected : SessionConnect
connected = record (session_connect true (read (client_session []))) {
  m_state = established;
  run_callback = some true;
}

connected-Inv : Inv connected.base
unfolding client_session read
connected-Inv = record { one_write = refl; capped = omega arith }

abbrev connected_client : Client World
connected_client = record unconnected_client {
  session = record unconnected_client.session { session = some connected };
}

abbrev pub waits : Waits
waits = record {
  io_stopped = false;
  closing = runs_task ∷ [];
  ending = λ t. if is_closing t then aborts 5 1 else [];
  on_close = is_closing;
}

waits-Aborts : Aborts true [] default_client_timeout quiet waits 5 1
waits-Aborts = record { aborted = λ t h. rw (h) refl; closed = λ t h. h }

disconnect-Ended_example :
    Ended true [] default_client_timeout quiet waits connected_client
      (disconnect (connecting true [] default_client_timeout (ending waits quiet)) connected_client)
unfolding client_session read runs
disconnect-Ended_example =
    disconnect-Ended true [] default_client_timeout quiet waits 5 1 connected_client connected refl
      refl refl refl connected-Inv (omega arith) (omega arith) waits-Aborts
