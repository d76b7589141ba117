-- ===== src/ServerSession/Accept.antt =====
-- `session_accept` of include/radrpc/impl/server/server_session.hpp: the chain from the accepted
-- connection to the established session, and the ping timer.
use radrpc.Types.{SessionConfig, header_size, duration_zero}
use radrpc.Operations.{duration_eq}
use radrpc.Header.{io_header}
use radrpc.ServerSession.{
  ServerSession, Handler, PingState, ping_next, ping_send, ssl_handshake, read_handshake,
  add_session, async_accept, async_ping, async_wait, start, expires_after, shutdown, read,
}
use radrpc.Prelude.{
  ℕ, ◌+◌, ◌-◌, ◌^◌, ◌%◌, Bool, true, false, ◌||◌, ◌&&◌, not, ◌==◌, leb, Option, none, some, [], Map,
  if◌then◌else◌,
}

pub data FrameType : Type 0 where
  close ping pong : FrameType

-- How a wait on the timer ends: no error, `operation_aborted`, or another error.
pub data TimerEnd : Type 0 where
  expired aborted failed : TimerEnd

-- `(std::chrono::steady_clock::time_point::max)()`
abbrev pub time_max : ℕ
time_max = 2 ^ 63 - 1

-- `handshake_bytes` is what the given buffer holds already.
unfoldable pub session_accept : Map (Option Handler) → SessionConfig → ℕ → ServerSession
session_accept funcs config handshake_bytes = record {
  bound_funcs = funcs;
  config = config;
  bound_close = false;
  header = io_header 0 0;
  receive_buffer = [];
  response = [];
  write_error = false;
  read_error = false;
  queue = [];
  handshake_bytes = handshake_bytes;
  established = false;
  m_close = false;
  close_received = false;
  m_ping_state = ping_next;
  expiry = time_max;
  posted = [];
  started = [];
  writes = 0;
  reads = 0;
  waits = 0;
}

unfoldable pub on_ssl_handshake : Bool → ℕ → ServerSession → ServerSession
on_ssl_handshake ec bytes_used s =
    if ec
    then s
    else start read_handshake (record s { handshake_bytes = s.handshake_bytes - bytes_used })

-- `accept()`, with `ssl_handshake()` of the two streams
unfoldable pub accept : Bool → ServerSession → ServerSession
unfolding on_ssl_handshake
accept is_ssl s = if is_ssl then start ssl_handshake s else on_ssl_handshake false 0 s

-- The bound `on_accept`, if there is one, may change the configuration and may reject.
abbrev pub OnAccept : Type 0
OnAccept = Option (SessionConfig → Bool × SessionConfig)

unfoldable pub inspect : OnAccept → SessionConfig → Bool × SessionConfig
inspect none c = (true, c)
inspect (some f) c = f c

-- `left` is what the handshake buffer holds after the request has been read. The limit of a message
-- is a `size_t`.
unfoldable pub on_read_handshake : OnAccept → Bool → ℕ → ServerSession → ServerSession
unfolding inspect
on_read_handshake on_accept ec left s =
    let (accepted, config) = inspect on_accept s.config in
    let s1 = record s { handshake_bytes = left } in
    let s2 = record s { handshake_bytes = 0; config = config } in
    if ec || not (left == 0)
    then s1
    else if not accepted
    then s2
    else start (async_accept ((config.max_transfer_bytes + header_size) % 2 ^ 64)) s2

unfoldable pub wait_timer : ℕ → ServerSession → ServerSession
wait_timer now s =
    start async_wait (record (expires_after now s.config.ping_delay s) { waits = s.waits + 1 })

unfoldable pub on_accept : Bool → ℕ → ServerSession → ServerSession
unfolding wait_timer read
on_accept ec now s =
    let s1 = record s { established = true } in
    let s2 =
      if not (duration_eq s.config.ping_delay duration_zero) then wait_timer now s1 else s1 in
    if ec then s else read (start add_session s2)

unfoldable pub is_next : PingState → Bool
is_next ping_next = true
is_next _ = false

-- `is_open` is what the stream says.
unfoldable pub on_expired : Bool → ℕ → ServerSession → ServerSession
unfolding shutdown wait_timer is_next
on_expired is_open now s =
    if is_open && is_next s.m_ping_state
    then wait_timer now (start async_ping (record s { m_ping_state = ping_send }))
    else shutdown s

unfoldable pub on_timer : TimerEnd → Bool → ℕ → ServerSession → ServerSession
unfolding wait_timer on_expired
on_timer failed is_open now s = s
on_timer expired is_open now s =
    if leb s.expiry now then on_expired is_open now s else wait_timer now s
on_timer aborted is_open now s =
    if leb s.expiry now then on_expired is_open now s else wait_timer now s

unfoldable pub on_control_callback : FrameType → ℕ → ServerSession → ServerSession
on_control_callback close now s = record s { close_received = true }
on_control_callback ping now s =
    expires_after now s.config.ping_delay (record s { m_ping_state = ping_next })
on_control_callback pong now s =
    expires_after now s.config.ping_delay (record s { m_ping_state = ping_next })
