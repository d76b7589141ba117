-- ===== src/Listener.antt =====
-- `listener` of include/radrpc/impl/server/listener.hpp and `detect_session` of
-- include/radrpc/impl/server/server_session.hpp: which connections become sessions.
pub mod Admission
pub mod Detecting
use radrpc.Types.{ServerMode, SessionConfig, mode_and, plain_mode, ssl_mode}
use radrpc.ServerSession.{Handler}
use radrpc.ServerSession.Accept.{session_accept}
use radrpc.Manager.{Manager, is_full, set_subtract_refs, construct_session}
use radrpc.Prelude.{
  ℕ, zero, suc, ◌+◌, Map, Bool, true, false, ◌||◌, ◌&&◌, not, Option, none, some, if◌then◌else◌,
}

-- How a connection was accepted: not, as the acceptor was closed; not, for another error; or it was,
-- and whether its remote address could be read.
pub data Accepted : Type 0 where
  aborted error : Accepted
  socket : Bool → Accepted

-- What becomes of the connection.
pub data Outcome : Type 0 where
  nothing rejected : Outcome
  detects plain_session ssl_session : Outcome

-- The bound `on_listen`, if there is one: whether it takes the address.
abbrev pub allows : Option Bool → Bool
allows none = true
allows (some b) = b

-- `on_accept`: what becomes of the connection, and whether the listener accepts the next one.
-- `with_ssl` tells whether the listener has an SSL context.
unfoldable pub on_accept : Bool → Option Bool → Manager → Accepted → Outcome × Bool
on_accept with_ssl on_listen m aborted = (nothing, false)
on_accept with_ssl on_listen m error = (nothing, true)
on_accept with_ssl on_listen m (socket ec) =
    if not (allows on_listen) || ec || is_full m
    then (rejected, true)
    else if with_ssl
    then (detects, true)
    else (plain_session, true)

-- `on_detect`: `result` is whether the client has begun an SSL handshake.
unfoldable pub on_detect : ServerMode → Bool → Bool → Outcome
unfolding mode_and
on_detect mode ec result =
    if ec
    then nothing
    else if result && mode_and mode ssl_mode
    then ssl_session
    else if not result && mode_and mode plain_mode
    then plain_session
    else nothing

-- The errors of the four steps that open the acceptor. A step is taken only if those before it have
-- succeeded.
pub record Opening : Type 0 where
  pub open_ec : Bool
  pub set_option_ec : Bool
  pub bind_ec : Bool
  pub listen_ec : Bool

-- `is_open` is what `m_acceptor.is_open()` says, `accepting` counts the `async_accept` that are not
-- completed, `detecting` the `detect_session` that are alive.
pub record Listener : Type 0 where
  pub with_ssl : Bool
  pub is_open : Bool
  pub accepting : ℕ
  pub detecting : ℕ
  pub manager : Manager

-- The constructor: the acceptor is open once the first step has succeeded. `none` is the failed
-- assertion of `set_subtract_refs`.
unfoldable pub listener : Bool → Opening → Manager → Option Listener
listener with_ssl o m = elim (set_subtract_refs m) [
  | none ↦ none
  | some m' ↦ some (record {
    with_ssl = with_ssl;
    is_open = not o.open_ec;
    accepting = 0;
    detecting = 0;
    manager = m';
  })
]

unfoldable pub handle_accept : Listener → Listener
handle_accept l = if not l.is_open then l else record l { accepting = l.accepting + 1 }

unfoldable pub run : Listener → Listener
unfolding handle_accept
run l = if not l.is_open then l else handle_accept l

-- What the listener does with the connection: a session that is constructed, at the address `id`, is
-- kept by the operation that it starts.
unfoldable pub place : Outcome → ℕ → Map (Option Handler) → SessionConfig → ℕ → Listener → Listener
place nothing id funcs config bytes l = l
place rejected id funcs config bytes l = l
place detects id funcs config bytes l = record l { detecting = l.detecting + 1 }
place plain_session id funcs config bytes l = record l {
  manager = construct_session id (session_accept funcs config bytes) l.manager;
}
place ssl_session id funcs config bytes l = record l {
  manager = construct_session id (session_accept funcs config bytes) l.manager;
}

-- An `async_accept` completes.
unfoldable pub complete_accept :
    Option Bool → Accepted → ℕ → Map (Option Handler) → SessionConfig → ℕ → Listener → Listener
unfolding on_accept place handle_accept
complete_accept on_listen a id funcs config zero l = l
complete_accept on_listen a id funcs config (suc n) l =
    let (outcome, again) = on_accept l.with_ssl on_listen l.manager a in
    let placed = place outcome id funcs config 0 (record l { accepting = n }) in
    if again then handle_accept placed else placed

-- An `async_detect_ssl` completes, with `bytes` in its buffer.
unfoldable pub complete_detect :
    ServerMode
    → Bool
    → Bool
    → ℕ
    → Map (Option Handler)
    → SessionConfig
    → ℕ
    → ℕ
    → Listener
    → Listener
unfolding on_detect place
complete_detect mode ec result id funcs config bytes zero l = l
complete_detect mode ec result id funcs config bytes (suc n) l =
    place (on_detect mode ec result) id funcs config bytes (record l { detecting = n })
