-- ===== src/ClientSession.antt =====
-- `client_session` of include/radrpc/impl/client/client_session.hpp, with `close_session` of
-- `session_connect`: the handlers that the one IO thread runs. A handler returns the new session;
-- `none` is undefined behaviour (`front()` of an empty deque). `started` is the trace of what the
-- session asks of the stream and of its user, `writes` and `reads` count the operations of the
-- stream that are not completed yet.
pub mod Loop
pub mod Calls
pub mod Pings
pub mod Closes
pub mod Ends
pub mod Outcomes
pub mod Writes
pub mod Stream
pub mod Order
pub mod Responses
pub mod Reports
pub mod RoundTrip
use radrpc.Types.{queue_recv_max, queue_send_max}
use radrpc.Header.{packet, split_packet}
use radrpc.Cache
use radrpc.Cache.{DataCache}
use radrpc.SendQueue
use radrpc.SendQueue.{Promise, DataQueue}
use radrpc.Prelude.{
  ℕ, ◌+◌, Bool, true, false, ◌||◌, not, Option, none, some, List, [], ◌∷◌, ◌++◌, Map, lookup,
  if◌then◌else◌,
}

pub data FrameType : Type 0 where
  close ping pong : FrameType

-- What a session starts on its stream, or calls.
pub data Action : Type 0 where
  async_ping async_read async_close notify_ping : Action
  async_write : List ℕ → Action
  calls : ℕ → List ℕ → Action

-- A handler posted with `weak_post`, with its arguments.
pub data Task : Type 0 where
  handle_ping_task close_task : Task
  handle_send_task : ℕ → ℕ → ℕ → List ℕ → Task

-- `bound_funcs` maps a broadcast id to whether its `std::function` can be called.
pub record ClientSession : Type 0 where
  pub cache : DataCache
  pub queue : DataQueue
  pub promises : List Promise
  pub bound_funcs : Map Bool
  pub read_buffer : List ℕ
  pub m_ping : Bool
  pub m_pong : Bool
  pub read_error : Bool
  pub write_error : Bool
  pub m_close : Bool
  pub close_received : Bool
  pub posted : List Task
  pub started : List Action
  pub writes : ℕ
  pub reads : ℕ

unfoldable pub client_session : Map Bool → ClientSession
client_session funcs = record {
  cache = Cache.data_cache queue_recv_max;
  queue = SendQueue.data_queue queue_send_max;
  promises = [];
  bound_funcs = funcs;
  read_buffer = [];
  m_ping = false;
  m_pong = false;
  read_error = false;
  write_error = false;
  m_close = false;
  close_received = false;
  posted = [];
  started = [];
  writes = 0;
  reads = 0;
}

abbrev pub start : Action → ClientSession → ClientSession
start a s = record s { started = s.started ++ a ∷ [] }

unfoldable pub handle_ping : ClientSession → ClientSession
handle_ping s = if s.m_ping then s else start async_ping (record s { m_ping = true })

unfoldable pub on_ping : Bool → ClientSession → ClientSession
on_ping ec s = record s { m_ping = false }

unfoldable pub close_session : ClientSession → ClientSession
close_session s =
    if s.m_close || s.close_received then s else start async_close (record s { m_close = true })

unfoldable pub write : ClientSession → Option ClientSession
write s = elim (SendQueue.front s.queue) [
  | none ↦ none
  | some d ↦
      some (start (async_write (packet d.header d.body)) (record s { writes = s.writes + 1 }))
]

-- The flags under which nothing more is queued.
abbrev pub is_closed : ClientSession → Bool
is_closed s = s.m_close || s.close_received || s.write_error || s.read_error

unfoldable pub handle_send : ℕ → ℕ → ℕ → List ℕ → ClientSession → Option ClientSession
unfolding write
handle_send call_id result_id callback body s =
    let (done, q) = SendQueue.queue call_id result_id callback body s.queue in
    let s' = record s { queue = q } in
    if is_closed s
    then some s
    else if not done
    then some s
    else if SendQueue.is_writing q
    then some s'
    else write s'

unfoldable pub fail_writes : ClientSession → ClientSession
unfolding close_session
fail_writes s =
    let (q, ps) = SendQueue.clear s.queue s.promises in
    close_session (record s { queue = q; promises = ps; write_error = true })

pub next_write : Option (Bool × DataQueue × List Promise) → ClientSession → Option ClientSession
unfolding write
next_write none s = none
next_write (some (more, q, ps)) s =
    let s' = record s { queue = q; promises = ps } in if more then write s' else some s'

unfoldable pub on_write : Bool → ClientSession → Option ClientSession
unfolding fail_writes next_write
on_write ec s =
    if ec || s.m_close || s.close_received || s.read_error
    then some (fail_writes s)
    else next_write (SendQueue.write_next s.queue s.promises) s

unfoldable pub read : ClientSession → ClientSession
read s = start async_read (record s { reads = s.reads + 1 })

-- The part of `on_read` that looks at one message.
unfoldable pub dispatch : List ℕ → ClientSession → ClientSession
dispatch bytes s = elim (split_packet bytes) [
  | none ↦ s
  | some (header, body) ↦ elim (lookup header.call_id s.bound_funcs) [
    | some callable ↦ if callable then start (calls header.call_id body) s else s
    | none ↦ record s { cache = (Cache.swap_notify header.result_id body s.cache).1 }
  ]
]

unfoldable pub finish_read : ℕ → ClientSession → ClientSession
unfolding read
finish_read now s = read (record s { cache = Cache.remove_obsolete now s.cache; read_buffer = [] })

unfoldable pub on_read : Bool → ℕ → ClientSession → ClientSession
unfolding dispatch close_session finish_read
on_read ec now s =
    if ec || s.close_received
    then close_session (record s { cache = Cache.clear s.cache; read_error = true })
    else finish_read now (dispatch s.read_buffer s)

unfoldable pub on_control_callback : FrameType → ClientSession → ClientSession
on_control_callback pong s = start notify_ping (record s { m_pong = true })
on_control_callback close s = record s { close_received = true }
on_control_callback ping s = s
