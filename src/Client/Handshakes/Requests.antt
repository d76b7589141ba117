-- ===== src/Client/Handshakes/Requests.antt =====
-- Which handshakes the sessions of a facade send.
use radrpc.Handshake.{Fields, decorate}
use radrpc.Types.{ClientTimeout}
use radrpc.Client.{Session, Client}
use radrpc.Client.Connecting
use radrpc.Client.Connecting.{
  Outcome, next_outcome, later_outcomes, attempt, ran, wait_destruction, connecting,
}
use radrpc.Client.Connecting.Outcomes.{Apart, is_up}
use radrpc.Client.Handshakes.{World, greeting}
use radrpc.Client.Handshakes.Greetings.{reaches, Used}
use radrpc.Prelude.{
  ◌≡◌, Bool, true, false, ◌&&◌, Option, none, some, List, [], ◌∷◌, ◌++◌, Map, if◌then◌else◌,
}

module _ {H : Type 0} (fs : Fields H) (base : H) (is_ssl : Bool) (funcs : Map Bool) where
  module _ (timeouts : ClientTimeout) (rest : Session Connecting.World) (apart : Apart rest) where
    abbrev ops : Session Connecting.World
    ops = connecting is_ssl funcs timeouts rest

    abbrev facade : Session (World H)
    facade = greeting fs base is_ssl funcs ops

    pub record Accounts (req : H) (os : List Outcome) (before : List H) (w : World H) : Type 0 where
      pub request : w.m_req_handshake ≡ req
      pub use_up : Used fs base is_ssl req os w.session.outcomes before w.requests

    -- A call has thrown: the destruction of an established session did not come in time, and until then
    -- the sessions have sent what they should.
    pub record Thrown (req : H) (os : List Outcome) (before : List H) : Type 0 where
      pub left : World H
      pub up : is_up left.session.session ≡ true
      pub late : (rest.destructs left.session).0 ≡ false
      pub sent : Used fs base is_ssl req os left.session.outcomes before left.requests

    module _ (req : H) (os : List Outcome) (before : List H) where
      -- What the sessions that the calls constructed have sent, also if one of the calls has thrown.
      abbrev pub Sent : Option (Client (World H)) → Type 0
      Sent none = Thrown req os before
      Sent (some c) =
          Used fs base is_ssl req os c.session.session.outcomes before c.session.requests

    -- What `connect` has sent: the handshake of the next session, if there was none and it gets that far.
    abbrev pub Greeted : H → Client (World H) → Client (World H) → Type 0
    Greeted req c c' =
        let os = c.session.session.outcomes in
        let free = Connecting.is_none c.session.session.session in
        (c'.session.requests
          ≡ c.session.requests
            ++ (if free && reaches is_ssl (next_outcome os) then decorate fs req base ∷ [] else []))
        × (c'.session.session.outcomes ≡ (if free then later_outcomes os else os))
