-- ===== src/ClientSession/Calls.antt =====
-- `ping`, `send` and `send_recv` of `client_session`: what a thread of the user runs. `others` is
-- what happens to the session while the thread waits, until it wakes or its timeout has passed; it
-- is given the timeout. The error code is an output, none for success.
use radrpc.Types.{Duration}
use radrpc.Cache
use radrpc.SendQueue.{Promise, fulfilled}
use radrpc.Operations.{Tls, use_send_timeout, use_response_timeout}
use radrpc.ClientSession.{ClientSession, handle_ping_task, handle_send_task}
use radrpc.ClientSession.Loop.{Event, post, new_promise, drop_promise, run}
use radrpc.Prelude.{
  ℕ, ◌-◌, ◌+◌, ◌*◌, ◌%◌, ◌^◌, pos, negsuc, signed64, Bool, true, false, Option, none, some, List,
  length, get_elem?, ◌==◌, if◌then◌else◌,
}

-- The codes of `boost::asio::error` that the session sets.
pub data ErrorCode : Type 0 where
  timed_out operation_aborted : ErrorCode

-- `future::wait_for` against `std::future_status::ready`
abbrev pub is_ready : Option Promise → Bool
is_ready (some (fulfilled b)) = true
is_ready _ = false

-- `duration * 2`: the 64-bit product wraps.
-- `response_timeout * 2`, with the wrap of two's complement; C++ leaves the overflow undefined.
unfoldable pub double : Duration → Duration
double (pos n) = signed64 ((2 * n) % 2 ^ 64)
double (negsuc n) = signed64 ((2 * (2 ^ 64 - (n + 1))) % 2 ^ 64)

-- Post the message and wait until it is written: the result is whether the promise was set in time.
unfoldable pub write_out :
    ℕ → ℕ → List ℕ → List Event → ClientSession → Option (Bool × ClientSession)
write_out call_id result_id body others s =
    let a = length s.promises in
    let s1 = post (handle_send_task call_id result_id a body) (new_promise s) in
    elim (run others s1) [
      | none ↦ none
      | some s2 ↦ some (is_ready (get_elem? s2.promises a), drop_promise a s2)
    ]

unfoldable pub send :
    Duration
    → ℕ
    → List ℕ
    → (Duration → List Event)
    → Tls
    → ClientSession
    → Option (Option ErrorCode × Tls × ClientSession)
unfolding write_out use_send_timeout
send configured call_id body others tls s =
    let (timeout, tls') = use_send_timeout configured tls in
    elim (write_out call_id 0 body (others timeout) s) [
      | none ↦ none
      | some (ready, s') ↦ some (if ready then none else some timed_out, tls', s')
    ]

-- The bytes that `send_recv` leaves in `recv_bytes`, its error code, and the states.
pub record Received : Type 0 where
  pub recv_bytes : List ℕ
  pub ec : Option ErrorCode
  pub tls : Tls
  pub session : ClientSession

unfoldable pub receive_end : ℕ → List ℕ → Tls → ClientSession → Received
receive_end a buffer tls s =
    let (out, cache) = Cache.take_buffer a buffer s.cache in
    record {
      recv_bytes = out;
      ec = if Cache.end_wait a s.cache then none else some timed_out;
      tls = tls;
      session = record s { cache = cache };
    }

-- `m_cache.wait(result_id, response_timeout, recv_bytes)`
unfoldable pub receive :
    Duration → ℕ → List ℕ → (Duration → List Event) → Tls → ClientSession → Option Received
unfolding receive_end use_response_timeout
receive configured id buffer others tls s =
    let (timeout, tls') = use_response_timeout configured tls in
    let (begun, cache) = Cache.begin_wait id s.cache in
    let s1 = record s { cache = cache } in
    elim begun [
      | Cache.missing ↦
          some (record { recv_bytes = buffer; ec = some timed_out; tls = tls'; session = s1 })
      | Cache.ready a ↦
          let (out, cache') = Cache.take_buffer a buffer cache in
          some (record {
            recv_bytes = out;
            ec = none;
            tls = tls';
            session = record s { cache = cache' };
          })
      | Cache.waits a ↦ elim (run (others timeout) s1) [
        | none ↦ none
        | some s2 ↦ some (receive_end a buffer tls' s2)
      ]
    ]

-- `now` is the time of the call, `writing` and `reading` what happens during the two waits.
unfoldable pub send_recv :
    (send_limit response_limit : Duration) (now call_id : ℕ) (body buffer : List ℕ)
    (writing reading : Duration → List Event)
    → Tls
    → ClientSession
    → Option Received
unfolding write_out receive use_send_timeout double
send_recv send_limit response_limit now call_id body buffer writing reading tls s =
    let (id, cache) = Cache.queue now (double response_limit) s.cache in
    let (timeout, tls') = use_send_timeout send_limit tls in
    if id == 0
    then some (record { recv_bytes = buffer; ec = some operation_aborted; tls = tls; session = s })
    else elim (write_out call_id id body (writing timeout) (record s { cache = cache })) [
      | none ↦ none
      | some (false, s') ↦
          some (record { recv_bytes = buffer; ec = some timed_out; tls = tls'; session = s' })
      | some (true, s') ↦ receive response_limit id buffer reading tls' s'
    ]

-- `ping()`: whether a pong came in time. `m_pong` is reset after the handler is posted, under the
-- lock; `before` is what happens in between.
unfoldable pub ping :
    Duration
    → List Event
    → (Duration → List Event)
    → Tls
    → ClientSession
    → Option (Bool × Tls × ClientSession)
unfolding use_response_timeout
ping configured before others tls s =
    let (timeout, tls') = use_response_timeout configured tls in
    elim (run before (post handle_ping_task s)) [
      | none ↦ none
      | some s1 ↦ elim (run (others timeout) (record s1 { m_pong = false })) [
        | none ↦ none
        | some s2 ↦ some (s2.m_pong, tls', s2)
      ]
    ]
