-- ===== src/Examples/Basic/Echo.antt =====
-- The client of examples/basic shows what its user has entered.

use radrpc.Client.{Session, Client, with_session, disconnect}
use radrpc.Client.Connecting.{World, Outcome, Meanwhile, wait_destruction}
use radrpc.Client.Connecting.Attempts.{succeeds}
use radrpc.ClientSession.{Action}
use radrpc.ServerSession
use radrpc.ServerSession.{ServerSession, Handler, is_empty}
use radrpc.ServerSession.Accept.{
  session_accept, on_ssl_handshake, on_read_handshake, accept, on_accept, wait_timer,
}
use radrpc.ServerSession.Establish.{Ends, establish}
use radrpc.Rpc.Facade.{ops, first_packet, Served, during, Replied, connect-send_recv}
use radrpc.Examples.Basic.{
  my_rpc_echo_msg, echo_msg, bound_funcs, default_session_cfg, client_timeouts, shown, client_main,
}
use radrpc.Prelude.{
  ℕ, ◌≡◌, refl, ap, true, false, Option, none, some, List, [], ◌∷◌, lookup, arith, if◌then◌else◌,
}

-- The handshakes of a connection without SSL end without an error.
abbrev pub greeted : ℕ → Ends
greeted now = record {
  ssl_ec = false;
  bytes_used = 0;
  read_ec = false;
  left = 0;
  accept_ec = false;
  now = now;
}

-- A session that the server has established.
abbrev pub serving : ℕ → ServerSession
serving now = establish none false (greeted now) (session_accept bound_funcs default_session_cfg 0)

-- The session, when it has read the message.
abbrev pub asked : ℕ → List ℕ → ServerSession
asked now message = record (serving now) { receive_buffer = message; reads = 0 }

serving-established :
    (now : ℕ)
    → ((serving now).established ≡ true)
      × ((serving now).bound_funcs ≡ bound_funcs)
      × (ServerSession.is_closed (serving now) ≡ false)
      × ((serving now).bound_close ≡ false)
      × ((serving now).queue ≡ [])
unfolding establish session_accept on_accept on_read_handshake on_ssl_handshake accept wait_timer
    ServerSession.read
serving-established now = ground arith

-- The program ends without an exception, and has shown the bytes.
abbrev pub Shows : List ℕ → Option (Option (List ℕ) × Client World) → Type 0
Shows bytes none = ⊥
Shows bytes (some (out, c)) = out ≡ some bytes

-- The session that `disconnect` closes is destructed in time.
abbrev pub InTime : Session World → Type 0
InTime rest = (w : World) → (rest.destructs w).0 ≡ true

module _ (rest : Session World) (in_time : InTime rest) where
  abbrev facade : Session World
  facade = ops false [] client_timeouts rest

  wait_destruction-ends : (w : World) → (wait_destruction rest.destructs w).0 ≡ true
  unfolding wait_destruction
  wait_destruction-ends w = ground (arith, in_time w)

  disconnect-ends : (c : Client World) → (c' : Client World) × (disconnect facade c ≡ some c')
  unfolding disconnect
  disconnect-ends c =
      let w = if facade.locks c.session then facade.closes c.session else c.session in
      let left = if c.m_exit then c else with_session facade (facade.destructs w).1 c in
      (left, ground (arith, wait_destruction-ends w))

  shows :
      (bytes : List ℕ) (trace : List Action) (r : Option (List ℕ × Client World))
      → is_empty bytes ≡ false
      → Replied bytes trace r
      → Shows bytes (elim r [
        | none ↦ none
        | some (response_bytes, used) ↦ elim (disconnect facade used) [
          | none ↦ none
          | some left ↦ some (shown response_bytes, left)
        ]
      ])
  unfolding is_empty
  shows bytes trace none some' h = absurd h
  shows [] trace (some (out, c)) some' h = cc
  shows (b ∷ bs) trace (some (out, c)) some' h = let (c', e) = disconnect-ends c in rw (e, h.0) refl

  -- The client shows what its user has entered, unless that is empty, and ends without an exception, if
  -- it connects, a session that the server has established reads the request, the client then reads what
  -- this session writes, and the destruction of a closed session comes in time. This session is
  -- established, and hands one message to its stream: the answer.
  pub client_main-echo_msg :
      (now t at since : ℕ) (msg : List ℕ) (o : Outcome) (os : List Outcome) (ms : List Meanwhile)
      (c : Client World)
      → c.m_exit ≡ false
      → c.session.session ≡ none
      → c.session.outcomes ≡ o ∷ os
      → succeeds false o ≡ true
      → c.session.undefined ≡ false
      → is_empty msg ≡ false
      → c.session.meanwhile ≡ during now t (first_packet my_rpc_echo_msg msg) ∷ ms
      → let s = asked since (first_packet my_rpc_echo_msg msg) in
        (s.established ≡ true)
        × ServerSession.Bounded.Ensures
            (Served (first_packet my_rpc_echo_msg msg) s)
            (ServerSession.on_read false at s)
        × Shows msg (client_main facade msg c)
  unfolding client_main
  client_main-echo_msg now t at since msg o os ms c stays gone outcomes good defined some' calls =
      let (up, bound, open', keeps, idle) = serving-established since in
      let s = asked since (first_packet my_rpc_echo_msg msg) in
      let (connected, serves, got) =
        connect-send_recv false [] client_timeouts rest 0 now t at my_rpc_echo_msg msg o os ms c
          echo_msg s stays gone outcomes good defined refl (omega arith) refl
          (ap (lookup my_rpc_echo_msg) bound) open' keeps refl some' idle calls in
      (up, serves, shows msg _ _ some' got)
