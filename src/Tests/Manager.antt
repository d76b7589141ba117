-- ===== src/Tests/Manager.antt =====
-- A manager over the lives of its sessions, and a session over its handshakes.
use radrpc.Types.{SessionConfig, ServerConfig, plain_mode, ssl_mode, mode_and}
use radrpc.Header.{io_header, packet}
use radrpc.ClientSession
use radrpc.ClientSession.{ClientSession, client_session, calls}
use radrpc.ServerSession
use radrpc.ServerSession.{ServerSession, async_write, read}
use radrpc.ServerSession.Accept.{
  pong, on_control_callback, session_accept, on_accept, wait_timer, OnAccept, inspect,
}
use radrpc.ServerSession.Establish.{Ends, establish, Established, establish-Established}
use radrpc.ServerSession.Loop.{runs_send, controlled}
use radrpc.ServerSession.Bounded.{Ensures}
use radrpc.Manager.{
  session_manager, construct_session, add_session, use_count, connections, broadcast,
  set_subtract_refs, get_session_ids, is_in, is_full, may_push, push_all,
}
use radrpc.Manager.Broadcast.{Unique}
use radrpc.Manager.Lifetimes.{
  Call, checks, pushes, constructs, accepts, destroys, handles, subtracts_refs, World, Holds,
  handle, step, run, new_world, is_established, Registered,
}
use radrpc.Manager.Lifetimes.Invariant.{Kept, run-Registered}
use radrpc.Manager.Lifetimes.Disconnects.{bound_world, Tracks, lives, unborn, run-lives}
use radrpc.Listener.{Listener}
use radrpc.Listener.Detecting.{accept_all, detect_all, detect_all-connections}
use radrpc.Rpc.Push.{broadcast-on_read}
use radrpc.Prelude.{
  ℕ, ◌≡◌, ◌≢◌, refl, pos, true, false, none, some, List, [], ◌∷◌, ◌++◌, lookup, arith,
}

abbrev server_config : ServerConfig
server_config = record {
  workers = 1;
  max_sessions = 2;
  max_handshake_bytes = 8192;
  mode = plain_mode;
}

abbrev config : SessionConfig
config = record { max_transfer_bytes = 1024; ping_delay = pos 1000 }

-- Two sessions, of which one is accepted, and reads a control frame.
abbrev history : List Call
history =
    subtracts_refs
    ∷ constructs false 8 [] config 0
    ∷ accepts 8 false 5
    ∷ constructs true 9 [] config 0
    ∷ accepts 9 true 6
    ∷ handles 8 (controlled pong 7)
    ∷ []

run-Registered_example :
    Holds
      (λ w.
        Kept w
        × Unique (get_session_ids w.manager)
        × ((k : ℕ)
            → is_in k (get_session_ids w.manager) ≡ is_established (lookup k w.manager.sessions)))
      (run history (new_world server_config 3 2))
run-Registered_example = run-Registered server_config 3 2 history

-- Both end, one of them twice, and another session takes the address of the first.
abbrev both_end : List Call
both_end = history ++ destroys 8 ∷ destroys 9 ∷ destroys 9 ∷ constructs true 8 [] config 0 ∷ []

run-lives_example :
    Holds
      (λ w. (k : ℕ) → Tracks k (lives k both_end unborn) w.manager)
      (run both_end (bound_world server_config 3 2))
run-lives_example = run-lives server_config 3 2 both_end

abbrev world : World
world = elim (run history (new_world server_config 3 2)) [
  | none ↦ new_world server_config 3 2
  | some w ↦ w
]

world-Registered : Registered world
unfolding run step handle ServerSession.Loop.step construct_session add_session set_subtract_refs
    session_manager on_accept session_accept on_control_callback
world-Registered = (run-Registered server_config 3 2 history).0.registered

abbrev established : ServerSession
established = on_control_callback pong 7 (on_accept false 5 (session_accept [] config 0))

abbrev reader : ClientSession
reader = record (client_session ((3, true) ∷ [])) { reads = 1 }

found : lookup 8 world.manager.sessions ≡ some established
unfolding run step handle ServerSession.Loop.step construct_session add_session set_subtract_refs
    session_manager on_accept session_accept
found = refl

connected : connections world.manager ≢ 0
unfolding connections use_count run step handle ServerSession.Loop.step construct_session
    add_session set_subtract_refs session_manager on_accept session_accept
connected h = absurd (omega (arith, h))

broadcast-on_read_example :
    let p = packet (io_header 3 0) (7 ∷ []) in
    Ensures
      (λ s'.
        Ensures
          (λ u. u.started ≡ established.started ++ async_write p ∷ [])
          (ServerSession.Loop.step runs_send s'))
      (lookup 8 (broadcast 3 (7 ∷ []) (some (8 ∷ [])) world.manager).sessions)
    × ClientSession.Writes.Ensures
        (λ u.
          u.started ≡ (reader.started ++ calls 3 (7 ∷ []) ∷ []) ++ ClientSession.async_read ∷ [])
        (ClientSession.Loop.step (ClientSession.Loop.received false 1 p) reader)
unfolding run step handle ServerSession.Loop.step construct_session add_session set_subtract_refs
    session_manager on_accept session_accept wait_timer on_control_callback read client_session
broadcast-on_read_example =
    broadcast-on_read 3 1 (7 ∷ []) (omega arith) world (some (8 ∷ [])) 8 established reader
      world-Registered (omega arith) connected found refl refl refl refl refl refl refl refl refl

-- Without pings, from an `on_accept` that lowers the limit.
abbrev lowers : OnAccept
lowers = some (λ c. (true, record { max_transfer_bytes = 512; ping_delay = pos 0 }))

abbrev ends : Ends
ends = record {
  ssl_ec = false;
  bytes_used = 3;
  read_ec = false;
  left = 0;
  accept_ec = false;
  now = 7;
}

establish-Established_example :
    Established true true
      (record { max_transfer_bytes = 512; ping_delay = pos 0 })
      (establish lowers true ends (session_accept [] config 3))
unfolding inspect
establish-Established_example = establish-Established lowers true ends [] config 3

-- A listener with SSL, for one session at most.
abbrev small_server : ServerConfig
small_server = record { workers = 1; max_sessions = 1; max_handshake_bytes = 8192; mode = ssl_mode }

abbrev listening : Listener
listening = record {
  with_ssl = true;
  is_open = true;
  accepting = 1;
  detecting = 0;
  manager = record (session_manager small_server 1) { sub_refs = 2 };
}

detect_all-connections_example :
    let l' =
      detect_all [] config ssl_mode (8 ∷ 9 ∷ []) (accept_all [] config (8 ∷ 9 ∷ []) listening) in
    (connections l'.manager ≡ 2) × (l'.manager.server_cfg ≡ small_server)
unfolding connections use_count session_manager mode_and is_full
detect_all-connections_example =
    detect_all-connections [] config ssl_mode (8 ∷ 9 ∷ []) 0 listening refl refl refl refl refl
      (omega arith) (refl, (refl, tt)) (λ k h. refl)

-- Two threads test the counter before either of them raises it: it passes the limit of 500.
abbrev busy : World
busy = record world { manager = record world.manager { msg_queued = 499 } }

abbrev queued_after : List Call → ℕ
queued_after cs = elim (run cs busy) [ none ↦ 0 | some w ↦ w.manager.msg_queued ]

passes_limit :
    queued_after (checks ∷ checks ∷ pushes 7 (1 ∷ []) none ∷ pushes 7 (2 ∷ []) none ∷ []) ≡ 501
unfolding run step handle ServerSession.Loop.step construct_session add_session set_subtract_refs
    session_manager on_accept session_accept may_push push_all connections use_count
passes_limit = refl
