-- ===== src/Client/Handshakes.antt =====
-- The handshakes of the facade of include/radrpc/client.hpp: `set_handshake_request`,
-- `get_handshake_response`, and what the sessions that the facade constructs do with the request. The
-- type of the fields is Boost.Beast's, behind the interface `Fields`.
pub mod Greetings
pub mod Requests
use radrpc.ClientSession.{client_session}
use radrpc.Connect
use radrpc.Connect.{SessionConnect, Pending, handshakes, session_connect, complete_all}
use radrpc.Handshake.{Fields, decorate}
use radrpc.Client.{Session, Client}
use radrpc.Client.Connecting
use radrpc.Client.Connecting.{Outcome, next_outcome}
use radrpc.Prelude.{Bool, true, false, Option, none, some, List, [], ◌∷◌, ◌++◌, Map, if◌then◌else◌}

-- `session` is what the facade sees of its sessions; `requests` are the handshakes that they have sent,
-- the oldest first; `res_handshake` is that of the last session, and `answers` are those that Beast is
-- going to read, one for each handshake that is sent.
pub record World (H : Type 0) : Type 0 where
  pub session : Connecting.World
  pub m_req_handshake : H
  pub res_handshake : H
  pub requests : List H
  pub answers : List H

abbrev pub is_handshaking : Pending → Bool
is_handshaking handshakes = true
is_handshaking _ = false

abbrev pub sends_handshake : Option SessionConnect → Bool
sends_handshake none = false
sends_handshake (some s) = is_handshaking s.pending

-- Whether the session gets as far as `async_handshake`.
unfoldable pub greets : Bool → Map Bool → Outcome → Bool
greets is_ssl funcs o =
    let ecs = o.resolve ∷ o.connect ∷ (if is_ssl then o.ssl_handshake ∷ [] else []) in
    sends_handshake
      (complete_all ecs (Connect.run (session_connect is_ssl (client_session funcs))).1)

module _ {H : Type 0} (fs : Fields H) where
  abbrev pub next_answer : List H → H
  next_answer [] = fs.empty
  next_answer (h ∷ hs) = h

  abbrev pub later_answers : List H → List H
  later_answers [] = []
  later_answers (h ∷ hs) = hs

  -- The session is constructed with `m_req_handshake`; `base` is the handshake that Beast makes for it,
  -- before the decorator adds those fields.
  unfoldable pub greet : H → World H → World H
  greet base w = record w {
    requests = w.requests ++ decorate fs w.m_req_handshake base ∷ [];
    res_handshake = next_answer w.answers;
    answers = later_answers w.answers;
  }

  module _ (base : H) (is_ssl : Bool) (funcs : Map Bool) (ops : Session Connecting.World) where
    unfoldable pub runs : World H → Bool × World H
    unfolding greet
    runs w =
        let (ok, s) = ops.runs w.session in
        let fresh = record w { session = s; res_handshake = fs.empty } in
        (
          ok,
          if greets is_ssl funcs (next_outcome w.session.outcomes) then greet base fresh else fresh,
        )

    -- The interface of the facade, with the handshakes.
    abbrev pub greeting : Session (World H)
    greeting = record {
      is_expired = λ w. ops.is_expired w.session;
      locks = λ w. ops.locks w.session;
      runs = runs;
      sends = λ id bytes w.
          let (ec, s) = ops.sends id bytes w.session in (ec, record w { session = s });
      send_recvs = λ id bytes result w.
          let (out, ec, s) = ops.send_recvs id bytes result w.session in
          (out, ec, record w { session = s });
      pings = λ w. let (ok, s) = ops.pings w.session in (ok, record w { session = s });
      closes = λ w. record w { session = ops.closes w.session };
      destructs = λ w. let (ok, s) = ops.destructs w.session in (ok, record w { session = s });
      sleeps = λ w. record w { session = ops.sleeps w.session };
    }

  unfoldable pub set_handshake_request : H → Client (World H) → Client (World H)
  set_handshake_request req c =
      if c.m_exit then c else record c { session = record c.session { m_req_handshake = req } }

  unfoldable pub get_handshake_response : Session (World H) → Client (World H) → H
  get_handshake_response ops c =
      if c.m_exit
      then fs.empty
      else if ops.locks c.session
      then c.session.res_handshake
      else fs.empty
