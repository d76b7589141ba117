-- ===== src/ServerSession/Establish.antt =====
-- The chain from `accept` to the established session, of `session_accept` in
-- include/radrpc/impl/server/server_session.hpp: each operation is started by the completion of the
-- one before, and its handler runs once, when it completes.
use radrpc.Types.{SessionConfig, header_size, duration_zero}
use radrpc.Operations.{duration_eq}
use radrpc.ServerSession.{
  ServerSession, Handler, Action, ssl_handshake, read_handshake, add_session, async_accept, read,
}
use radrpc.ServerSession.Accept.{
  session_accept, OnAccept, inspect, accept, on_ssl_handshake, on_read_handshake, on_accept,
  wait_timer,
}
use radrpc.Prelude.{
  ℕ, ◌+◌, ◌^◌, ◌%◌, ◌≡◌, Bool, true, false, ◌||◌, ◌&&◌, not, ◌==◌, Option, none, some, List, [],
  ◌∷◌, Map, arith, if◌then◌else◌,
}

-- How the operations end: the errors, the bytes that the SSL handshake has used, what is left in the
-- handshake buffer after the request, and the time at the end.
pub record Ends : Type 0 where
  pub ssl_ec : Bool
  pub bytes_used : ℕ
  pub read_ec : Bool
  pub left : ℕ
  pub accept_ec : Bool
  pub now : ℕ

-- Which operation was started last.
starts_ssl : List Action → Bool
starts_ssl [] = false
starts_ssl (a ∷ b ∷ as') = starts_ssl (b ∷ as')
starts_ssl (ssl_handshake ∷ []) = true
starts_ssl (a ∷ []) = false

starts_read : List Action → Bool
starts_read [] = false
starts_read (a ∷ b ∷ as') = starts_read (b ∷ as')
starts_read (read_handshake ∷ []) = true
starts_read (a ∷ []) = false

starts_accept : List Action → Bool
starts_accept [] = false
starts_accept (a ∷ b ∷ as') = starts_accept (b ∷ as')
starts_accept (async_accept n ∷ []) = true
starts_accept (a ∷ []) = false

after_ssl : Ends → ServerSession → ServerSession
unfolding starts_ssl
after_ssl e s = if starts_ssl s.started then on_ssl_handshake e.ssl_ec e.bytes_used s else s

after_read : OnAccept → Ends → ServerSession → ServerSession
unfolding starts_read
after_read f e s = if starts_read s.started then on_read_handshake f e.read_ec e.left s else s

after_accept : Ends → ServerSession → ServerSession
unfolding starts_accept
after_accept e s = if starts_accept s.started then on_accept e.accept_ec e.now s else s

-- A completed operation that has failed has started nothing: it must not be completed again.
unfoldable pub establish : OnAccept → Bool → Ends → ServerSession → ServerSession
unfolding after_ssl after_read after_accept
establish f is_ssl e s =
    let s1 = accept is_ssl s in
    let s2 = after_ssl e s1 in let s3 = after_read f e s2 in after_accept e s3

pub adds : List Action → Bool
adds [] = false
adds (add_session ∷ as') = true
adds (a ∷ as') = adds as'

-- The limits that the stream was told when it was asked to accept.
pub limits : List Action → List ℕ
limits [] = []
limits (async_accept n ∷ as') = n ∷ limits as'
limits (a ∷ as') = limits as'

-- The stream is asked to accept: there is no SSL or its handshake succeeds, the request is read with
-- nothing behind it, and the bound `on_accept` does not reject.
abbrev pub is_greeted : OnAccept → Bool → Ends → SessionConfig → Bool
is_greeted f is_ssl e config =
    (not is_ssl || not e.ssl_ec) && not e.read_ec && (e.left == 0) && (inspect f config).0

-- What the chain leaves behind: `ok` is whether it came to its end, `own` the configuration that
-- `on_accept` has left.
pub record Established (greeted ok : Bool) (own : SessionConfig) (t : ServerSession) : Type 0 where
  pub up : t.established ≡ ok
  pub registered : adds t.started ≡ ok
  pub one_read : t.reads ≡ (if ok then 1 else 0)
  pub one_wait : t.waits ≡ (if ok && not (duration_eq own.ping_delay duration_zero) then 1 else 0)
  pub limit :
      limits t.started
      ≡ (if greeted then (own.max_transfer_bytes + header_size) % 2 ^ 64 ∷ [] else [])

-- A new session becomes established, is registered with the manager and starts to read, exactly if
-- there is no SSL or its handshake succeeds, the request is read with nothing behind it, the bound
-- `on_accept` does not reject, and the websocket handshake succeeds; its ping timer is then started
-- unless `on_accept` has left a delay of zero. The stream is told the limit of a message once,
-- before it is asked to accept, and from the configuration that `on_accept` has left.
pub establish-Established :
    (f : OnAccept) (is_ssl : Bool) (e : Ends) (funcs : Map (Option Handler))
    (config : SessionConfig) (bytes : ℕ)
    → let greeted = is_greeted f is_ssl e config in
      Established greeted
        (greeted && not e.accept_ec)
        (inspect f config).1
        (establish f is_ssl e (session_accept funcs config bytes))
unfolding establish accept on_ssl_handshake on_read_handshake on_accept session_accept wait_timer
    read adds limits
establish-Established none true e funcs config bytes = ground arith
establish-Established none false e funcs config bytes = ground arith
establish-Established (some f) true e funcs config bytes = ground arith
establish-Established (some f) false e funcs config bytes = ground arith
