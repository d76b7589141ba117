-- ===== src/Connect.antt =====
-- `session_connect` of include/radrpc/impl/client/client_session.hpp: how a client session is
-- connected, one operation after the other, while the thread that called `run` waits for the result.
-- The resolver and the stream are libraries: their operations are named by `Pending`, and each ends
-- with an error or without.
pub mod Chain
pub mod Closing
use radrpc.Types.{ConnectionState, unconnected, connect, handshake, established}
use radrpc.ClientSession
use radrpc.ClientSession.{ClientSession, Task, close_task, read}
use radrpc.ClientSession.Loop.{post}
use radrpc.Prelude.{Bool, true, false, ◌||◌, not, Option, none, some, List, [], ◌∷◌, if◌then◌else◌}

-- The operation of the connecting session that is not completed yet.
pub data Pending : Type 0 where
  idle resolves connects ssl_handshakes handshakes : Pending

-- `run_callback` is the promise `m_run_callback`, none until it is set.
pub record SessionConnect : Type 0 where
  pub base : ClientSession
  pub is_ssl : Bool
  pub m_state : ConnectionState
  pub run_callback : Option Bool
  pub close_initiated : Bool
  pub pending : Pending

abbrev pub session_connect : Bool → ClientSession → SessionConnect
session_connect is_ssl base = record {
  base = base;
  is_ssl = is_ssl;
  m_state = unconnected;
  run_callback = none;
  close_initiated = false;
  pending = idle;
}

-- `m_run_callback.set_value(b)`: it throws if the promise was set before, `none`.
unfoldable pub set_callback : Bool → SessionConnect → Option SessionConnect
set_callback b s = elim s.run_callback [
  | none ↦ some (record s { run_callback = some b })
  | some b' ↦ none
]

unfoldable pub on_handshake : Bool → SessionConnect → Option SessionConnect
unfolding set_callback
on_handshake true s = set_callback false s
on_handshake false s =
    set_callback true (record s { base = ClientSession.read s.base; m_state = established })

unfoldable pub on_ssl_handshake : Bool → SessionConnect → Option SessionConnect
unfolding set_callback
on_ssl_handshake true s = set_callback false s
on_ssl_handshake false s = some (record s { m_state = handshake; pending = handshakes })

-- `ssl_handshake()` of the two streams
unfoldable pub ssl_handshake : SessionConnect → Option SessionConnect
unfolding on_ssl_handshake
ssl_handshake s =
    if s.is_ssl then some (record s { pending = ssl_handshakes }) else on_ssl_handshake false s

unfoldable pub on_connect : Bool → SessionConnect → Option SessionConnect
unfolding set_callback ssl_handshake
on_connect true s = set_callback false s
on_connect false s = ssl_handshake s

unfoldable pub on_resolve : Bool → SessionConnect → Option SessionConnect
unfolding set_callback
on_resolve true s = set_callback false s
on_resolve false s = some (record s { m_state = connect; pending = connects })

is_unconnected : ConnectionState → Bool
is_unconnected unconnected = true
is_unconnected _ = false

-- `run()` up to `res.wait()`: whether the resolver was started. If not, `run` returns `none`.
unfoldable pub run : SessionConnect → Bool × SessionConnect
unfolding is_unconnected
run s =
    if s.close_initiated || not (is_unconnected s.m_state)
    then (false, s)
    else (true, record s { run_callback = none; pending = resolves })

-- The pending operation ends.
complete_pending : Pending → Bool → SessionConnect → Option SessionConnect
complete_pending idle ec s = some s
complete_pending resolves ec s = on_resolve ec s
complete_pending connects ec s = on_connect ec s
complete_pending ssl_handshakes ec s = on_ssl_handshake ec s
complete_pending handshakes ec s = on_handshake ec s

unfoldable pub complete : Bool → SessionConnect → Option SessionConnect
unfolding complete_pending
complete ec s = complete_pending s.pending ec (record s { pending = idle })

unfoldable pub complete_all : List Bool → SessionConnect → Option SessionConnect
unfolding complete
complete_all [] s = some s
complete_all (ec ∷ ecs) s = elim (complete ec s) [ none ↦ none | some t ↦ complete_all ecs t ]

-- `close()`, up to the posted handler
unfoldable pub close : SessionConnect → SessionConnect
close s =
    if s.close_initiated
    then s
    else record s { close_initiated = true; base = post close_task s.base }
