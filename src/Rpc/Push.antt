-- ===== src/Rpc/Push.antt =====
-- A broadcast over both sides: `session_manager::broadcast` and the handlers of a server session
-- (impl/server/server_session.hpp), and `on_read` of a client session
-- (impl/client/client_session.hpp).
use radrpc.Types.{queue_send_max}
use radrpc.Header.{io_header, packet}
use radrpc.Header.Codec.{Fits}
use radrpc.ClientSession
use radrpc.ClientSession.{ClientSession, calls}
use radrpc.ClientSession.Loop
use radrpc.ClientSession.Responses.{on_read-broadcast}
use radrpc.ClientSession.Writes
use radrpc.ServerSession.{ServerSession, DataPush, async_write, is_closed}
use radrpc.ServerSession.Loop.{step, runs_send, send, next_send}
use radrpc.ServerSession.Outcomes.{Sent, refused, queued, issued, handle_send-Sent}
use radrpc.ServerSession.Bounded.{Ensures}
use radrpc.Manager.{connections, broadcast, is_in}
use radrpc.Manager.Broadcast.{is_addressed, lookup-broadcast}
use radrpc.Manager.Lifetimes.{World, is_established, Registered}
use radrpc.Prelude.{
  ℕ, ◌^◌, ◌<◌, ◌≡◌, ◌≢◌, refl, ap, true, false, ◌||◌, ◌&&◌, Option, some, List, [], ◌∷◌, ◌++◌,
  length, lookup, arith,
}

module _ (call_id t : ℕ) (send_bytes : List ℕ) (small : call_id < 2 ^ 32) where
  abbrev d : DataPush
  d = record { header = io_header call_id 0; body = send_bytes }

  abbrev p : List ℕ
  p = packet (io_header call_id 0) send_bytes

  sent :
      (s : ServerSession) {r : Option ServerSession}
      → is_closed s ≡ false
      → s.queue ≡ []
      → Sent d s r
      → Ensures (λ u. u.started ≡ s.started ++ async_write p ∷ []) r
  sent s o q (refused c e) = absurd (ground (arith, ap length q))
  sent s o q (queued c n e) = absurd (n q)
  sent s o q (issued c n e) = rw e refl

  posted_sent :
      (s : ServerSession) (ds : List DataPush)
      → ds ≡ d ∷ []
      → is_closed s ≡ false
      → s.queue ≡ []
      → Ensures (λ u. u.started ≡ s.started ++ async_write p ∷ []) (next_send ds s)
  unfolding next_send
  posted_sent s ds e o q =
      rw e (sent (record s { posted = [] }) o q (handle_send-Sent d (record s { posted = [] })))

  runs_send-send :
      (s : ServerSession)
      → s.posted ≡ []
      → is_closed s ≡ false
      → s.queue ≡ []
      → Ensures (λ u. u.started ≡ s.started ++ async_write p ∷ []) (step runs_send (send d s))
  unfolding step send
  runs_send-send s n o q =
      posted_sent (record s { posted = s.posted ++ d ∷ [] }) (s.posted ++ d ∷ []) (rw n refl) o q

  received_call :
      (c : ClientSession)
      → c.close_received ≡ false
      → c.read_buffer ≡ []
      → c.reads ≡ 1
      → lookup call_id c.bound_funcs ≡ some true
      → ClientSession.Writes.Ensures
          (λ u.
            u.started
            ≡ (c.started ++ calls call_id send_bytes ∷ []) ++ ClientSession.async_read ∷ [])
          (ClientSession.Loop.step (ClientSession.Loop.received false t p) c)
  unfolding ClientSession.Loop.step ClientSession.Loop.complete_read
  received_call c o e n b =
      let fits : Fits (io_header call_id 0) = record {
        call_id_fits = small;
        pad0_fits = omega arith;
        result_id_fits = omega arith;
      } in
      rw n
        (on_read-broadcast t (io_header call_id 0) send_bytes
          (record c { reads = 0; read_buffer = c.read_buffer ++ p }) fits (rw e refl) o b).1

  -- An established session among the addressees gets the message posted.
  pub broadcast-send :
      (w : World) (session_ids : Option (List ℕ)) (k : ℕ) (s : ServerSession)
      → Registered w
      → w.manager.msg_queued < queue_send_max
      → connections w.manager ≢ 0
      → lookup k w.manager.sessions ≡ some s
      → s.established ≡ true
      → is_addressed session_ids k ≡ true
      → lookup k (broadcast call_id send_bytes session_ids w.manager).sessions ≡ some (send d s)
  broadcast-send w session_ids k s i room some' found up addressed =
      let m = w.manager in
      let live : is_in k m.plain_sessions || is_in k m.ssl_sessions ≡ true =
        ground (arith, i.plain k, i.ssl k, ap is_established found) in
      let apart : is_in k m.plain_sessions && is_in k m.ssl_sessions ≡ false =
        ground (arith, i.plain k, i.ssl k) in
      rw (addressed, live) at
        (lookup-broadcast call_id send_bytes session_ids m k s room some' i.plain_once i.ssl_once
          apart found)

  -- A broadcast, in a server whose registered sessions are as they should be: if its queue of
  -- messages has room and it has connections, then an established session among the addressees
  -- that is open and has nothing to write gets the message posted, and hands it to its stream as one packet;
  -- and a client that reads this packet next, and has a handler bound to the call id, calls it with
  -- the broadcast bytes, and reads on.
  pub broadcast-on_read :
      (w : World) (session_ids : Option (List ℕ)) (k : ℕ) (s : ServerSession) (c : ClientSession)
      → Registered w
      → w.manager.msg_queued < queue_send_max
      → connections w.manager ≢ 0
      → lookup k w.manager.sessions ≡ some s
      → s.established ≡ true
      → is_addressed session_ids k ≡ true
      → s.posted ≡ []
      → is_closed s ≡ false
      → s.queue ≡ []
      → c.close_received ≡ false
      → c.read_buffer ≡ []
      → c.reads ≡ 1
      → lookup call_id c.bound_funcs ≡ some true
      → Ensures
          (λ s'. Ensures (λ u. u.started ≡ s.started ++ async_write p ∷ []) (step runs_send s'))
          (lookup k (broadcast call_id send_bytes session_ids w.manager).sessions)
        × ClientSession.Writes.Ensures
            (λ u.
              u.started
              ≡ (c.started ++ calls call_id send_bytes ∷ []) ++ ClientSession.async_read ∷ [])
            (ClientSession.Loop.step (ClientSession.Loop.received false t p) c)
  broadcast-on_read w session_ids k s c i room some' found up addressed n o q co ce cn bound = (
    rw (broadcast-send w session_ids k s i room some' found up addressed) (runs_send-send s n o q),
    received_call c co ce cn bound,
  )
