-- ===== src/ServerSession.antt =====
-- `session_context`, `server_session` and the closing of `session_accept`, of
-- include/radrpc/impl/server/server_session.hpp: one object, whose handlers run on its strand. A
-- handler returns the new session; `none` is undefined behaviour (`front()` or `erase(begin())` of
-- an empty deque). `now` is the time in nanoseconds. `started` is the trace of what the session asks
-- of its stream, its timer and the manager; `writes`, `reads` and `waits` count the operations that
-- are not completed yet.
pub mod Accept
pub mod Establish
pub mod Loop
pub mod Outcomes
pub mod Bounded
pub mod Invariant
pub mod Frames
pub mod Sound
pub mod Stream
pub mod Accepted
pub mod Order
pub mod Ping
pub mod Replies
use radrpc.Types.{Duration, SessionConfig, queue_send_max}
use radrpc.Operations.{duration_eq}
use radrpc.Types.{duration_zero}
use radrpc.Header.{IoHeader, io_header, packet, split_packet}
use radrpc.Prelude.{
  ℕ, ◌+◌, ◌-◌, pos, negsuc, Bool, true, false, ◌||◌, ◌&&◌, not, Option, none, some, List, [], ◌∷◌,
  ◌++◌, Map, lookup, length, leb, ltb, if◌then◌else◌,
}

pub data PingState : Type 0 where
  ping_next ping_send ping_close : PingState

pub record DataPush : Type 0 where
  pub header : IoHeader
  pub body : List ℕ

-- What a bound handler leaves in its `session_context`: `response`, and whether it called `close()`.
pub record Reply : Type 0 where
  pub response : List ℕ
  pub closes : Bool

-- A bound handler sees the bytes of the request and the `response` so far.
abbrev pub Handler : Type 0
Handler = List ℕ → List ℕ → Reply

pub data Action : Type 0 where
  ssl_handshake read_handshake add_session : Action
  async_accept : ℕ → Action
  async_read async_ping async_close async_wait : Action
  async_write : List ℕ → Action

-- `bound_funcs` are those of the manager; a handler is `none` for an empty `std::function`.
-- `handshake_bytes` is the size of the handshake buffer, `expiry` the expiry of the timer.
pub record ServerSession : Type 0 where
  pub bound_funcs : Map (Option Handler)
  pub config : SessionConfig
  pub bound_close : Bool
  pub header : IoHeader
  pub receive_buffer : List ℕ
  pub response : List ℕ
  pub write_error : Bool
  pub read_error : Bool
  pub queue : List DataPush
  pub handshake_bytes : ℕ
  pub established : Bool
  pub m_close : Bool
  pub close_received : Bool
  pub m_ping_state : PingState
  pub expiry : ℕ
  pub posted : List DataPush
  pub started : List Action
  pub writes : ℕ
  pub reads : ℕ
  pub waits : ℕ

abbrev pub start : Action → ServerSession → ServerSession
start a s = record s { started = s.started ++ a ∷ [] }

-- `expires_after(d)`: times are not bounded here. A time in the past is the past all the same.
abbrev pub after : ℕ → Duration → ℕ
after now (pos n) = now + n
after now (negsuc n) = now - (n + 1)

abbrev pub expires_after : ℕ → Duration → ServerSession → ServerSession
expires_after now d s = record s { expiry = after now d }

unfoldable pub shutdown : ServerSession → ServerSession
shutdown s =
    if s.m_close || s.close_received then s else start async_close (record s { m_close = true })

unfoldable pub close_session : ℕ → ServerSession → ServerSession
unfolding shutdown
close_session now s =
    if not (duration_eq s.config.ping_delay duration_zero)
    then expires_after now duration_zero (record s { m_ping_state = ping_close })
    else shutdown s

first : List DataPush → Option DataPush
first [] = none
first (d ∷ ds) = some d

unfoldable pub write : ServerSession → Option ServerSession
unfolding first
write s = elim (first s.queue) [
  | none ↦ none
  | some d ↦
      some (start (async_write (packet d.header d.body)) (record s { writes = s.writes + 1 }))
]

-- The flags under which nothing more is queued.
abbrev pub is_closed : ServerSession → Bool
is_closed s = s.m_close || s.close_received || s.write_error || s.read_error

unfoldable pub handle_send : DataPush → ServerSession → Option ServerSession
unfolding write
handle_send d s =
    let s' = record s { queue = s.queue ++ d ∷ [] } in
    if is_closed s
    then some s
    else if leb queue_send_max (length s.queue)
    then some s
    else if ltb 1 (length s'.queue)
    then some s'
    else write s'

unfoldable pub pop_write : List DataPush → ServerSession → Option ServerSession
unfolding write
pop_write [] s = none
pop_write (d ∷ []) s = some (record s { queue = [] })
pop_write (d ∷ e ∷ es) s = write (record s { queue = e ∷ es })

unfoldable pub on_write : Bool → ℕ → ServerSession → Option ServerSession
unfolding close_session pop_write
on_write ec now s =
    if ec || s.m_close || s.close_received || s.read_error
    then some (close_session now (record s { write_error = true; queue = [] }))
    else pop_write s.queue s

unfoldable pub read : ServerSession → ServerSession
read s = start async_read (record s { reads = s.reads + 1 })

unfoldable pub is_empty : List ℕ → Bool
is_empty [] = true
is_empty (b ∷ bs) = false

-- The part of `call_function` after the handler has returned.
pub after_call : ℕ → ServerSession → Option ServerSession
unfolding close_session handle_send is_empty
after_call now s =
    let sent =
      handle_send (record { header = s.header; body = s.response }) (record s { response = [] }) in
    if s.bound_close
    then some (close_session now s)
    else if not (is_empty s.response)
    then sent
    else some s

-- `func_itr->second(this)`
abbrev pub call : Handler → List ℕ → ServerSession → ServerSession
call f body s =
    let r = f body s.response in
    record s { response = r.response; bound_close = s.bound_close || r.closes }

unfoldable pub call_function : ℕ → ServerSession → Option ServerSession
unfolding after_call
call_function now s = elim (split_packet s.receive_buffer) [
  | none ↦ some s
  | some (h, body) ↦
      let s' = record s { header = h; receive_buffer = body } in
      elim (lookup h.call_id s.bound_funcs) [
        | none ↦ some s'
        | some none ↦ some s'
        | some (some f) ↦ after_call now (call f body s')
      ]
]

pub finish_read : Option ServerSession → Option ServerSession
unfolding read
finish_read none = none
finish_read (some s) = some (read (record s { receive_buffer = []; response = [] }))

unfoldable pub on_read : Bool → ℕ → ServerSession → Option ServerSession
unfolding close_session call_function finish_read
on_read ec now s =
    if ec || s.close_received
    then some (close_session now (record s { read_error = true }))
    else finish_read (if not s.m_close && not s.write_error then call_function now s else some s)
