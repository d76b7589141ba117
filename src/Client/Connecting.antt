-- ===== src/Client/Connecting.antt =====
-- The sessions behind the facade of include/radrpc/client.hpp: `session_connect` and the calls of
-- `client_session` fill the interface of the facade. What the resolver, the stream and the server do is the
-- list of `Outcome`s, one for each session to come, and of `Meanwhile`s, one for each call. How an
-- established session ends is an argument, which Client/Connecting/Ending fills but for the delays.
pub mod Attempts
pub mod Ending
pub mod Outcomes
use radrpc.Client.{Session}
use radrpc.Types.{Duration, ClientTimeout}
use radrpc.Operations.{Tls}
use radrpc.ClientSession.{ClientSession, client_session}
use radrpc.ClientSession.Loop.{Event}
use radrpc.ClientSession.Calls
use radrpc.ClientSession.Calls.{ErrorCode}
use radrpc.Connect
use radrpc.Connect.{SessionConnect, session_connect, complete_all}
use radrpc.Connect.Chain.{is_established}
use radrpc.Prelude.{
  ℕ, Bool, true, false, ◌||◌, not, Option, none, some, List, [], ◌∷◌, Map, if◌then◌else◌,
}

-- Whether each operation of a session that connects ends with an error, and whether the IO thread still
-- holds the session when `run` of a session that failed returns.
pub record Outcome : Type 0 where
  pub resolve : Bool
  pub connect : Bool
  pub ssl_handshake : Bool
  pub handshake : Bool
  pub lingers : Bool

-- A call of `send`, `send_recv` or `ping` of the session: when it is made, and what happens to the
-- session during its waits, the first of which `ping` has before it resets `m_pong`.
pub record Meanwhile : Type 0 where
  pub now : ℕ
  pub first : Duration → List Event
  pub second : Duration → List Event

-- `session` is what `m_session` refers to, none once it is deleted: `m_expired`. `tls` are the timeouts of
-- the calling thread, `meanwhile` its calls to come, `undefined` whether a call met undefined behaviour.
pub record World : Type 0 where
  pub session : Option SessionConnect
  pub outcomes : List Outcome
  pub tls : Tls
  pub meanwhile : List Meanwhile
  pub undefined : Bool

-- Beyond the list, no host is resolved.
abbrev pub next_outcome : List Outcome → Outcome
next_outcome [] = record {
  resolve = true;
  connect = true;
  ssl_handshake = true;
  handshake = true;
  lingers = false;
}
next_outcome (o ∷ os) = o

abbrev pub later_outcomes : List Outcome → List Outcome
later_outcomes [] = []
later_outcomes (o ∷ os) = os

-- The errors in the order of the operations. Without SSL, the third is the handshake, and nothing
-- is pending for the fourth.
abbrev pub errors : Bool → Outcome → List Bool
errors is_ssl o =
    o.resolve ∷ o.connect ∷ (if is_ssl then o.ssl_handshake else o.handshake) ∷ o.handshake ∷ []

-- The constructor of the session and its `run`
unfoldable pub attempt : Bool → Map Bool → Outcome → Option SessionConnect
attempt is_ssl funcs o =
    complete_all (errors is_ssl o) (Connect.run (session_connect is_ssl (client_session funcs))).1

-- `ptr->run() == connection_state::established`, and the end of the reference `ptr`
abbrev pub ran : Bool → World → Option SessionConnect → Bool × World
ran lingers w none = (false, record w { session = none })
ran lingers w (some s) =
    let ok = is_established s.m_state in
    (ok, record w { session = if ok || lingers then some s else none })

unfoldable pub runs : Bool → Map Bool → World → Bool × World
unfolding attempt
runs is_ssl funcs w =
    let o = next_outcome w.outcomes in
    ran o.lingers (record w { outcomes = later_outcomes w.outcomes }) (attempt is_ssl funcs o)

-- `wait_destruction`: the IO thread lets go of a session that has failed to connect, in time; what
-- becomes of one that is established is the argument.
unfoldable pub wait_destruction : (World → Bool × World) → World → Bool × World
wait_destruction ended w = elim w.session [
  | none ↦ (true, w)
  | some s ↦ if is_established s.m_state then ended w else (true, record w { session = none })
]

abbrev pub is_none : Option SessionConnect → Bool
is_none none = true
is_none (some s) = false

-- Beyond the list, nothing happens: each wait runs into its timeout.
abbrev pub next_meanwhile : List Meanwhile → Meanwhile
next_meanwhile [] = record { now = 0; first = λ timeout. []; second = λ timeout. [] }
next_meanwhile (m ∷ ms) = m

abbrev pub later_meanwhile : List Meanwhile → List Meanwhile
later_meanwhile [] = []
later_meanwhile (m ∷ ms) = ms

abbrev pub is_error : Option ErrorCode → Bool
is_error none = false
is_error (some ec) = true

-- The world after a call that has left the session in the state `base`.
abbrev pub called : Tls → ClientSession → SessionConnect → World → World
called tls base s w = record w {
  session = some (record s { base = base });
  tls = tls;
  meanwhile = later_meanwhile w.meanwhile;
}

abbrev pub fault : World → World
fault w = record w { undefined = true; meanwhile = later_meanwhile w.meanwhile }

-- `session->send(...)`, with the configured timeout; called only if the session is locked
unfoldable pub sends : ClientTimeout → ℕ → List ℕ → World → Bool × World
sends timeouts call_id bytes w =
    let m = next_meanwhile w.meanwhile in
    elim w.session [
      | none ↦ (true, w)
      | some s ↦ elim (Calls.send timeouts.send_timeout call_id bytes m.first w.tls s.base) [
        | none ↦ (true, fault w)
        | some (ec, tls, base) ↦ (is_error ec, called tls base s w)
      ]
    ]

-- `session->send_recv(...)`
unfoldable pub send_recvs : ClientTimeout → ℕ → List ℕ → List ℕ → World → List ℕ × Bool × World
send_recvs timeouts call_id bytes result w =
    let m = next_meanwhile w.meanwhile in
    elim w.session [
      | none ↦ (result, true, w)
      | some s ↦
          elim (Calls.send_recv timeouts.send_timeout timeouts.response_timeout m.now call_id bytes
            result m.first m.second w.tls s.base) [
              | none ↦ (result, true, fault w)
              | some r ↦ (r.recv_bytes, is_error r.ec, called r.tls r.session s w)
            ]
    ]

-- `session->ping()`
unfoldable pub pings : ClientTimeout → World → Bool × World
pings timeouts w =
    let m = next_meanwhile w.meanwhile in
    elim w.session [
      | none ↦ (false, w)
      | some s ↦
          elim (Calls.ping timeouts.response_timeout (m.first timeouts.response_timeout) m.second
            w.tls s.base) [
              | none ↦ (false, fault w)
              | some (pong, tls, base) ↦ (pong, called tls base s w)
            ]
    ]

-- The interface; `rest` is what becomes of a session that is established.
abbrev pub connecting : Bool → Map Bool → ClientTimeout → Session World → Session World
connecting is_ssl funcs timeouts rest = record rest {
  sends = sends timeouts;
  send_recvs = send_recvs timeouts;
  pings = pings timeouts;
  is_expired = λ w. is_none w.session;
  locks = λ w. not (is_none w.session);
  runs = runs is_ssl funcs;
  destructs = wait_destruction rest.destructs;
  sleeps = λ w. if is_none w.session then w else rest.sleeps w;
}
