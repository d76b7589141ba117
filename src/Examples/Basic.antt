-- ===== src/Examples/Basic.antt =====
-- examples/basic/server.cpp and examples/basic/client.cpp: a server that echoes, and a client that
-- connects, sends one line and shows the response.
pub mod Echo
use radrpc.Types.{Duration, SessionConfig, ServerConfig, ClientConfig, ClientTimeout, plain_mode}
use radrpc.ServerSession.{Handler}
use radrpc.Client.{Session, Client, attempts_of, connect, send_recv, disconnect}
use radrpc.Prelude.{
  ℕ, ◌*◌, Bool, true, false, Option, none, some, List, [], ◌∷◌, Map, insert, pos, if◌then◌else◌,
}

-- `enum MyRpcCommands`
abbrev pub my_rpc_echo_msg : ℕ
my_rpc_echo_msg = 0

abbrev pub seconds : ℕ → Duration
seconds n = pos (n * 1_000_000_000)

-- The handler that the server binds.
abbrev pub echo_msg : Handler
echo_msg received response = record { response = received; closes = false }

abbrev pub bound_funcs : Map (Option Handler)
bound_funcs = insert my_rpc_echo_msg (some echo_msg) []

abbrev pub server_cfg : ServerConfig
server_cfg = record {
  workers = 2;
  max_sessions = 1000;
  max_handshake_bytes = 0xFFFF;
  mode = plain_mode;
}

abbrev pub default_session_cfg : SessionConfig
default_session_cfg = record { max_transfer_bytes = 0xFFFFFFFF; ping_delay = seconds 30 }

abbrev pub client_cfg : ClientConfig
client_cfg = record { max_read_bytes = 0xFFFFFFFF; send_attempts = 0; send_attempt_delay = pos 0 }

abbrev pub client_timeouts : ClientTimeout
client_timeouts = record {
  handshake_timeout = seconds 5;
  send_timeout = seconds 1;
  response_timeout = seconds 1;
}

abbrev pub shown : List ℕ → Option (List ℕ)
shown [] = none
shown (b ∷ bs) = some (b ∷ bs)

-- `main` of the client, from `cl.connect()`, with the line that its user enters: the response that it
-- shows, if it is not empty. `none` is an exception.
unfoldable pub client_main :
    {W : Type 0} → Session W → List ℕ → Client W → Option (Option (List ℕ) × Client W)
client_main ops msg_bytes cl =
    let connected = (connect ops cl).1 in
    elim (send_recv ops (attempts_of client_cfg.send_attempts) my_rpc_echo_msg msg_bytes
      connected) [
        | none ↦ none
        | some (response_bytes, used) ↦ elim (disconnect ops used) [
          | none ↦ none
          | some left ↦ some (shown response_bytes, left)
        ]
      ]
