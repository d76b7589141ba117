-- ===== src/Examples/Advanced.antt =====
-- examples/advanced/advanced_server.cpp and examples/advanced/advanced_client.cpp: a server that admits
-- clients by a key in their handshake and lets them broadcast, and such a client.
pub mod Admission
pub mod Client
pub mod Broadcasting
pub mod Numbers
use Prim.Native.String.{String}
use Prim.Native.Char.{code}
use text.Mathlib.Text.{◌==◌ as str_eq}
use radrpc.Types.{SessionConfig}
use radrpc.Handshake.{Fields}
use radrpc.Header.{split_packet}
use radrpc.ServerSession
use radrpc.ServerSession.{ServerSession, Handler}
use radrpc.ServerSession.Accept.{OnAccept}
use radrpc.Manager.{Manager, broadcast}
use radrpc.Prelude.{
  ℕ, zero, suc, ◌+◌, ◌/◌, ◌%◌, Bool, true, false, ◌||◌, not, Option, none, some, List, [], ◌∷◌,
  ◌++◌, Map, insert, lookup, adjust, ltb, pos, if◌then◌else◌,
}

-- `enum MyRpcCommands`
abbrev pub my_rpc_send : ℕ
my_rpc_send = 0

abbrev pub my_rpc_echo_msg : ℕ
my_rpc_echo_msg = 1

abbrev pub my_rpc_broadcast_all : ℕ
my_rpc_broadcast_all = 2

abbrev pub my_rpc_broadcast_single : ℕ
my_rpc_broadcast_single = 3

abbrev pub my_rpc_listen_broadcast : ℕ
my_rpc_listen_broadcast = 4

-- `session_info` of include/radrpc/types.hpp, as far as `on_accept` uses it
pub record SessionInfo (H : Type 0) : Type 0 where
  pub request_handshake : H
  pub response_handshake : H
  pub config : SessionConfig

-- What `on_accept` sets: pings every 30 seconds, and messages up to 64 kilobytes.
abbrev pub accepted_config : SessionConfig
accepted_config = record { max_transfer_bytes = 0xFFFF; ping_delay = pos 30_000_000_000 }

module _ {H : Type 0} (fs : Fields H) where
  -- The server's handler of `bind_accept`. "User-Agent" is the name of the field `user_agent`.
  unfoldable pub on_accept : SessionInfo H → Bool × SessionInfo H
  on_accept info = elim (fs.find "User-Agent" info.request_handshake) [
    | none ↦ (false, info)
    | some agent ↦ elim (fs.find "key" info.request_handshake) [
      | none ↦ (false, info)
      | some key ↦ if not (str_eq key "xxxxxxxxxx") then (false, info) else (
        true,
        record info {
          response_handshake =
              fs.insert "user-level" "1"
                (fs.insert "User-Agent" "radrpc-server" info.response_handshake);
          config = accepted_config;
        },
      )
    ]
  ]

  -- The handler, as a session calls it that has read the handshake `req`.
  abbrev pub bound_accept : H → OnAccept
  bound_accept req = some (λ config.
      let (ok, info) =
        on_accept
          (record { request_handshake = req; response_handshake = fs.empty; config = config }) in
      (ok, info.config))

  -- The handshake that the client sets.
  abbrev pub client_handshake : H
  client_handshake = fs.insert "key" "xxxxxxxxxx" (fs.insert "User-Agent" "radrpc-client" fs.empty)

abbrev pub codes : String → List ℕ
codes String.[] = []
codes (String.◌∷◌ c s) = code c ∷ codes s

-- The digits of a number below 10 ^ fuel.
unfoldable pub digits : ℕ → ℕ → List ℕ
digits zero n = []
digits (suc fuel) n =
    let rest = digits fuel (n / 10) in
    if ltb n 10 then (48 + n) ∷ [] else rest ++ (48 + n % 10) ∷ []

-- `std::to_string` of a `uint64_t`, which has 20 digits at most
abbrev pub to_string : ℕ → List ℕ
to_string n = digits 20 n

-- A bound handler: what it leaves in its context, and what it does with the server, by the id of the
-- session and the bytes of the request.
pub record Bound : Type 0 where
  pub reply : Handler
  pub effect : ℕ → List ℕ → Manager → Manager

abbrev pub rpc_send : Bound
rpc_send = record {
  reply = λ received response. record { response = response; closes = false };
  effect = λ id received m. m;
}

abbrev pub rpc_echo_msg : Bound
rpc_echo_msg = record {
  reply = λ received response. record { response = received; closes = false };
  effect = λ id received m. m;
}

abbrev pub push_zero : Handler
push_zero received response = record { response = response ++ 0 ∷ []; closes = false }

abbrev pub message_all : ℕ → List ℕ → List ℕ
message_all id received = codes "client " ++ to_string id ++ codes " writes: " ++ received

abbrev pub rpc_broadcast_all : Bound
rpc_broadcast_all = record {
  reply = push_zero;
  effect = λ id received m. broadcast my_rpc_listen_broadcast (message_all id received) none m;
}

abbrev pub message_single : ℕ → List ℕ → List ℕ
message_single id received =
    codes "client " ++ to_string id ++ codes " write:" ++ 10 ∷ [] ++ received

abbrev pub rpc_broadcast_single : Bound
rpc_broadcast_single = record {
  reply = push_zero;
  effect = λ id received m.
      broadcast my_rpc_listen_broadcast (message_single id received) (some (id ∷ [])) m;
}

abbrev pub bound_handlers : Map Bound
bound_handlers = insert my_rpc_send rpc_send (
    insert my_rpc_echo_msg rpc_echo_msg (
      insert my_rpc_broadcast_all rpc_broadcast_all
        (insert my_rpc_broadcast_single rpc_broadcast_single [])))

-- The handler that `on_read` of the session calls, with the body of the request.
unfoldable pub called_handler : Map Bound → ServerSession → Option (Bound × List ℕ)
called_handler funcs s =
    if s.close_received || s.m_close || s.write_error
    then none
    else elim (split_packet s.receive_buffer) [
      | none ↦ none
      | some (h, body) ↦ elim (lookup h.call_id funcs) [ none ↦ none | some f ↦ some (f, body) ]
    ]

-- What that handler does with the server.
unfoldable pub effects : Map Bound → ℕ → ServerSession → Manager → Manager
effects funcs id s m = elim (called_handler funcs s) [
  | none ↦ m
  | some (f, body) ↦ f.effect id body m
]

-- `on_read`, without an error, of the session `id`
unfoldable pub read_at : ℕ → ℕ → Manager → Option Manager
read_at id now m = elim (lookup id m.sessions) [
  | none ↦ some m
  | some s ↦ elim (ServerSession.on_read false now s) [
    | none ↦ none
    | some t ↦ some (record m { sessions = adjust id (λ _. t) m.sessions })
  ]
]

-- The same with what its handler does with the server. What the handler posts to sessions, this one
-- included, is not run before `on_read` returns, so that it does not matter that it is posted here
-- before the call.
unfoldable pub on_read_at : Map Bound → ℕ → ℕ → Manager → Option Manager
on_read_at funcs id now m = elim (lookup id m.sessions) [
  | none ↦ some m
  | some s ↦ read_at id now (effects funcs id s m)
]
