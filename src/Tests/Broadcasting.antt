-- ===== src/Tests/Broadcasting.antt =====
-- Two clients of the server of examples/advanced, of which one asks to broadcast.

use radrpc.Header.{io_header, packet}
use radrpc.ServerSession.{ServerSession, Handler}
use radrpc.ServerSession.Accept.{session_accept}
use radrpc.Manager.{session_manager, connections, use_count}
use radrpc.Manager.Lifetimes.{World, Registered}
use radrpc.Examples.Basic.{server_cfg, default_session_cfg}
use radrpc.Examples.Advanced.{my_rpc_broadcast_all, push_zero, bound_handlers, on_read_at}
use radrpc.Examples.Advanced.Broadcasting.{Reaches, on_read_at-broadcast_all}
use radrpc.Prelude.{ℕ, ◌≢◌, refl, true, false, Option, some, List, [], ◌∷◌, Map, arith}

abbrev funcs : Map (Option Handler)
funcs = (my_rpc_broadcast_all, some push_zero) ∷ []

unfoldable client : List ℕ → ServerSession
unfolding session_accept
client bytes = record (session_accept funcs default_session_cfg 0) {
  established = true;
  receive_buffer = bytes;
  reads = 1;
}

abbrev asking : ServerSession
asking = client (packet (io_header my_rpc_broadcast_all 7) (104 ∷ 105 ∷ []))

abbrev server : World
server = record {
  manager = record (session_manager server_cfg 1) {
    sub_refs = 2;
    plain_sessions = 8 ∷ 9 ∷ [];
    sessions = (8, asking) ∷ (9, client []) ∷ [];
  };
  is_ssl = λ j. false;
  threads = 1;
  passed = 0;
}

server-Registered : Registered server
unfolding client session_manager
server-Registered = record {
  plain = λ k. ground arith;
  ssl = λ k. ground arith;
  plain_once = (refl, (refl, tt));
  ssl_once = tt;
}

server-connections : connections server.manager ≢ 0
unfolding connections use_count session_manager client
server-connections h = absurd (omega (arith, h))

on_read_at-broadcast_all_example :
    Reaches 8 7 (104 ∷ 105 ∷ []) asking server (on_read_at bound_handlers 8 3 server.manager)
unfolding client session_manager
on_read_at-broadcast_all_example =
    on_read_at-broadcast_all 8 7 3 (104 ∷ 105 ∷ []) server asking server-Registered (omega arith)
      server-connections refl refl refl refl refl refl refl refl (omega arith) refl
