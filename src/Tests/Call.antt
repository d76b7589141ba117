-- ===== src/Tests/Call.antt =====
-- A remote call over both sides.
use radrpc.Header.{io_header, packet}
use radrpc.Cache
use radrpc.Cache.Invariant.{data_cache-WellFormed}
use radrpc.Operations.{fresh_tls}
use radrpc.ClientSession
use radrpc.ClientSession.Loop.{received}
use radrpc.ClientSession.Calls.{send_recv}
use radrpc.ClientSession.RoundTrip.{Got, request_id, writes_out}
use radrpc.ServerSession.{ServerSession, async_write, async_read, on_read, is_empty}
use radrpc.ServerSession.Bounded.{Ensures}
use radrpc.Rpc.{send_recv-on_read}
use radrpc.Tests.Client.{reading}
use radrpc.Tests.Server.{idle, echo_twice}
use radrpc.Prelude.{List, ℕ, pos, ◌≡◌, refl, false, [], ◌∷◌, ◌++◌, arith}

-- The request of the client, that the server has read.
abbrev serving : ServerSession
serving = record idle {
  receive_buffer = packet (io_header 7 (request_id (pos 9) 0 reading)) (5 ∷ []);
  reads = 0;
}

abbrev answer : List ℕ
answer = packet (io_header 7 (request_id (pos 9) 0 reading)) (5 ∷ 5 ∷ [])

send_recv-on_read_example :
    Ensures
      (λ u.
        (u.started ≡ (serving.started ++ async_write answer ∷ []) ++ async_read ∷ [])
        × (u.receive_buffer ≡ [])
        × (u.response ≡ []))
      (on_read false 3 serving)
    × Got
        (5 ∷ 5 ∷ [])
        ((reading.started ++ ClientSession.async_write serving.receive_buffer ∷ [])
          ++ ClientSession.async_read ∷ [])
        (send_recv
          (pos 5)
          (pos 9)
          0
          7
          (5 ∷ [])
          []
          (λ _. writes_out)
          (λ _. received false 4 answer ∷ [])
          fresh_tls
          reading)
unfolding Cache.data_cache is_empty
send_recv-on_read_example =
    send_recv-on_read (pos 5) (pos 9) 0 4 3 7 (5 ∷ []) [] fresh_tls reading echo_twice serving
      (data_cache-WellFormed 500) (omega arith) (omega arith) (omega arith) refl refl refl refl refl
      refl (omega arith) refl refl refl refl refl refl refl
