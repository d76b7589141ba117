-- ===== src/Examples/Advanced/Client.antt =====
-- The main function of examples/advanced/advanced_client.cpp.

use radrpc.Operations.{send_timeout, response_timeout}
use radrpc.Handshake.{Fields}
use radrpc.Client.{
  Session, Client, with_session, connect, send, send_recv, listen_broadcast, attempts_of,
}
use radrpc.Client.Handshakes.{World, set_handshake_request}
use radrpc.Client.Preserved.{Preserves, Leaves, send-Leaves, send_recv-Leaves}
use radrpc.Examples.Basic.{seconds, shown}
use radrpc.Examples.Advanced.{
  my_rpc_send, my_rpc_echo_msg, my_rpc_broadcast_all, my_rpc_listen_broadcast, client_handshake,
}
use radrpc.Prelude.{
  ℕ, ◌≡◌, refl, Bool, true, false, Option, none, some, List, [], ◌∷◌, Bool-cases, inl, inr,
}

abbrev pub my_rpc_server_shutdown : ℕ
my_rpc_server_shutdown = 5

-- The lines that the user enters.
pub record Entered : Type 0 where
  pub sent : List ℕ
  pub echoed : List ℕ
  pub to_all : List ℕ
  pub to_single : List ℕ

-- What the program shows: whether the message was sent, the echo, and whether the broadcasts were
-- answered.
pub record Shown : Type 0 where
  pub sent : Bool
  pub echo : Option (List ℕ)
  pub all : Bool
  pub single : Bool

-- `operator bool` of the response
abbrev pub is_answer : List ℕ → Bool
is_answer [] = false
is_answer (b ∷ bs) = true

module _ {H : Type 0} (fs : Fields H) (ops : Session (World H)) where
  -- `set_send_timeout` and `set_response_timeout`, for the calls that follow
  abbrev pub set_timeouts : World H → World H
  set_timeouts w =
      let (old, tls) = send_timeout (seconds 1) w.session.tls in
      let (older, tls') = response_timeout (seconds 2) tls in
      record w { session = record w.session { tls = tls' } }

  abbrev attempts : ℕ
  attempts = attempts_of 0

  -- The calls after `cl.connect()`; `none` is an exception.
  unfoldable pub talk : Entered → Client (World H) → Option Shown
  talk e c =
      elim (send ops attempts my_rpc_send e.sent (with_session ops (set_timeouts c.session) c)) [
        | none ↦ none
        | some (sent, c2) ↦ elim (send_recv ops attempts my_rpc_echo_msg e.echoed c2) [
          | none ↦ none
          | some (echo, c3) ↦ elim (send_recv ops attempts my_rpc_broadcast_all e.to_all c3) [
            | none ↦ none
            | some (all, c4) ↦ elim (send_recv ops attempts my_rpc_broadcast_all e.to_single c4) [
              | none ↦ none
              | some (single, c5) ↦ elim (send ops attempts my_rpc_server_shutdown [] c5) [
                | none ↦ none
                | some (down, c6) ↦ some (record {
                  sent = sent;
                  echo = shown echo;
                  all = is_answer all;
                  single = is_answer single;
                })
              ]
            ]
          ]
        ]
      ]

  unfoldable pub client_main : Entered → Client (World H) → Option Shown
  unfolding talk
  client_main e c = elim (listen_broadcast ops my_rpc_listen_broadcast true c) [
    | none ↦ none
    | some (listens, c1) ↦
        talk e (connect ops (set_handshake_request fs (client_handshake fs) c1)).1
  ]

  abbrev pub Returns : Option Shown → Type 0
  Returns none = ⊥
  Returns (some s) = Unit

  module _ (in_time : (w : World H) → (ops.destructs w).0 ≡ true) where
    abbrev Any : World H → Type 0
    Any w = Unit

    Any-Preserves : Preserves Any ⊥ ops
    Any-Preserves = record {
      runs = λ w p. tt;
      sends = λ id bytes w p. tt;
      send_recvs = λ id bytes result w p. tt;
      pings = λ w p. tt;
      closes = λ w p. tt;
      destructs = λ w p. tt;
      sleeps = λ w p. tt;
      late = λ w p e. cc (e, in_time w);
    }

    -- A call that does not throw has a result.
    result :
        {A : Type 0} (r : Option (A × Client (World H)))
        → Leaves Any ⊥ r
        → (x : A × Client (World H)) × (r ≡ some x)
    result none l = absurd l
    result (some x) l = (x, refl)

    sends-result :
        (id : ℕ) (bytes : List ℕ) (c : Client (World H))
        → (x : Bool × Client (World H)) × (send ops attempts id bytes c ≡ some x)
    sends-result id bytes c = result _ (send-Leaves Any ⊥ ops Any-Preserves attempts id bytes c tt)

    recvs-result :
        (id : ℕ) (bytes : List ℕ) (c : Client (World H))
        → (x : List ℕ × Client (World H)) × (send_recv ops attempts id bytes c ≡ some x)
    recvs-result id bytes c =
        result _ (send_recv-Leaves Any ⊥ ops Any-Preserves attempts id bytes c tt)

    talk-Returns : (e : Entered) (c : Client (World H)) → Returns (talk e c)
    unfolding talk
    talk-Returns e c =
        let ((sent, c2), e2) =
          sends-result my_rpc_send e.sent (with_session ops (set_timeouts c.session) c) in
        let ((echo, c3), e3) = recvs-result my_rpc_echo_msg e.echoed c2 in
        let ((all, c4), e4) = recvs-result my_rpc_broadcast_all e.to_all c3 in
        let ((single, c5), e5) = recvs-result my_rpc_broadcast_all e.to_single c4 in
        let ((down, c6), e6) = sends-result my_rpc_server_shutdown [] c5 in
        rw (e2, e3, e4, e5, e6, talk) tt

    -- The program ends without an exception, whatever its calls give, if each destruction comes in time, on
    -- a facade that is new.
    pub client_main-Returns :
        (e : Entered) (c : Client (World H))
        → ops.is_expired c.session ≡ true
        → c.bound_funcs ≡ []
        → Returns (client_main e c)
    unfolding client_main listen_broadcast
    client_main-Returns e c gone unbound = elim (Bool-cases c.m_exit) [
      | inl e1 ↦ rw (e1, client_main, listen_broadcast) (talk-Returns e _)
      | inr e1 ↦ rw (e1, gone, unbound, client_main, listen_broadcast) (talk-Returns e _)
    ]
