-- ===== src/Rpc.antt =====
-- A remote call over both sides: `send_recv` of a client session
-- (impl/client/client_session.hpp) and the handlers of a server session
-- (impl/server/server_session.hpp).
pub mod Push
pub mod Facade
use radrpc.Types.{Duration}
use radrpc.Header.{io_header, packet}
use radrpc.Cache.Invariant.{WellFormed}
use radrpc.Operations.{Tls}
use radrpc.ClientSession
use radrpc.ClientSession.{ClientSession}
use radrpc.ClientSession.Loop.{received}
use radrpc.ClientSession.Calls.{send_recv}
use radrpc.ClientSession.Outcomes
use radrpc.ClientSession.Writes.{Inv}
use radrpc.ClientSession.RoundTrip.{
  Got, request_id, request_id-Fits, writes_out, send_recv-response,
}
use radrpc.ServerSession
use radrpc.ServerSession.{ServerSession, Handler, async_write, async_read, is_empty}
use radrpc.ServerSession.Bounded.{Ensures}
use radrpc.ServerSession.Replies.{on_read-reply}
use radrpc.Prelude.{
  ℕ, ◌+◌, ◌^◌, ◌<◌, ◌≡◌, false, ◌||◌, none, some, List, [], ◌∷◌, ◌++◌, length, lookup,
}

module _ (send_limit response_limit : Duration) (now t at call_id : ℕ) (body buffer : List ℕ)
    (tls : Tls) (c : ClientSession) (f : Handler) (s : ServerSession) (w : WellFormed c.cache)
    (space : length c.cache.entries < c.cache.max_entries)
    (counter : c.cache.id_counter + 2 < 2 ^ 64) (inv : Inv c) (posted_none : c.posted ≡ [])
    (client_open : ClientSession.is_closed c || ClientSession.Outcomes.is_full c ≡ false)
    (client_idle : c.queue.entries ≡ []) (reading : c.reads ≡ 1) (empty : c.read_buffer ≡ [])
    (unbound : lookup call_id c.bound_funcs ≡ none) (small : call_id < 2 ^ 32) where
  abbrev request : List ℕ
  request = packet (io_header call_id (request_id response_limit now c)) body

  -- A remote call: `send_recv` hands one message to its stream, its request. An open server session with
  -- an empty queue that reads this request writes an answer, and if that answer is what the client
  -- reads next, then `send_recv` returns what the handler that the server has bound to the call id has
  -- left as its response to the request's body.
  pub send_recv-on_read :
      s.receive_buffer ≡ request
      → lookup call_id s.bound_funcs ≡ some (some f)
      → ServerSession.is_closed s ≡ false
      → s.bound_close ≡ false
      → (f body s.response).closes ≡ false
      → is_empty (f body s.response).response ≡ false
      → s.queue ≡ []
      → let answer =
          packet
            (io_header call_id (request_id response_limit now c))
            (f body s.response).response in
        Ensures
          (λ u.
            (u.started ≡ (s.started ++ async_write answer ∷ []) ++ async_read ∷ [])
            × (u.receive_buffer ≡ [])
            × (u.response ≡ []))
          (ServerSession.on_read false at s)
        × Got
            (f body s.response).response
            ((c.started ++ ClientSession.async_write request ∷ []) ++ ClientSession.async_read ∷ [])
            (send_recv send_limit response_limit now call_id body buffer
              (λ _. writes_out)
              (λ _. received false t answer ∷ [])
              tls
              c)
  send_recv-on_read message bound server_open asked keeps some' idle = (
    on_read-reply at (io_header call_id (request_id response_limit now c)) body f s
        (request_id-Fits response_limit now call_id c space counter small).1 message bound
        server_open asked keeps some' idle,
    send_recv-response send_limit response_limit now t call_id body (f body s.response).response
        buffer tls c w space counter inv posted_none client_open client_idle reading empty unbound
        small,
  )
