-- ===== src/Examples/Advanced/Broadcasting.antt =====
-- A client of examples/advanced has its message sent to all clients.
use radrpc.Types.{queue_send_max}
use radrpc.Header.{io_header, packet, split_packet}
use radrpc.Header.Codec.{Fits, split_packet-packet}
use radrpc.ServerSession
use radrpc.ServerSession.{
  ServerSession, DataPush, async_write, async_read, is_closed, is_empty, read,
}
use radrpc.ServerSession.Loop.{send, step, runs_send, next_send}
use radrpc.ServerSession.Outcomes.{Sent, refused, queued, issued, handle_send-Sent}
use radrpc.ServerSession.Bounded.{Ensures}
use radrpc.ServerSession.Replies.{on_read-replied}
use radrpc.Manager.{Manager, connections, broadcast}
use radrpc.Manager.Lifetimes.{World, Registered}
use radrpc.Rpc.Push.{broadcast-send}
use radrpc.Examples.Advanced.{
  my_rpc_broadcast_all, my_rpc_listen_broadcast, message_all, push_zero, rpc_broadcast_all,
  bound_handlers, called_handler, effects, read_at, on_read_at,
}
use radrpc.Prelude.{
  ℕ, ◌^◌, ◌<◌, ◌≡◌, ◌≢◌, refl, ap, sym, ◌∙◌, true, false, ◌||◌, ◌==◌, Option, none, some, List, [],
  ◌∷◌, ◌++◌, lookup, lookup-adjust, length, arith,
}

module _ (id rid : ℕ) (received : List ℕ) where
  abbrev pub push : DataPush
  push = record { header = io_header my_rpc_listen_broadcast 0; body = message_all id received }

  abbrev pub answer : DataPush
  answer = record { header = io_header my_rpc_broadcast_all rid; body = 0 ∷ [] }

  -- The requesting session `s` has handed the answer to its stream, and the message waits to be queued.
  pub record Answered (s u : ServerSession) : Type 0 where
    pub started_answer :
        u.started
        ≡ (s.started ++ async_write (packet answer.header answer.body) ∷ []) ++ async_read ∷ []
    pub queue_answer : u.queue ≡ answer ∷ []
    pub posted_push : u.posted ≡ push ∷ []
    pub still_open : is_closed u ≡ false

  -- The message is queued behind the answer, and waits for it to be written.
  abbrev pub Behind : ServerSession → ServerSession → Type 0
  Behind u v = (v.queue ≡ answer ∷ push ∷ []) × (v.started ≡ u.started)

  -- What holds of the manager after the read: the requester has answered, and the other sessions have
  -- the message posted.
  pub record Broadcasted (s : ServerSession) (w : World) (m : Manager) : Type 0 where
    pub requester : ServerSession
    pub found_requester : lookup id m.sessions ≡ some requester
    pub answered : Answered s requester
    pub in_order : Ensures (Behind requester) (step runs_send requester)
    pub others :
        (k : ℕ) (t : ServerSession)
        → id == k ≡ false
        → lookup k w.manager.sessions ≡ some t
        → t.established ≡ true
        → lookup k m.sessions ≡ some (send push t)

  abbrev pub Reaches : ServerSession → World → Option Manager → Type 0
  Reaches s w none = ⊥
  Reaches s w (some m) = Broadcasted s w m

module _ (id rid now : ℕ) (received : List ℕ) (w : World) (s : ServerSession)
    (registered : Registered w) (room : w.manager.msg_queued < queue_send_max)
    (connected : connections w.manager ≢ 0) (found : lookup id w.manager.sessions ≡ some s)
    (up : s.established ≡ true) (posted_none : s.posted ≡ []) (open' : is_closed s ≡ false)
    (asked : s.bound_close ≡ false) (fresh : s.response ≡ []) (idle : s.queue ≡ [])
    (bound : lookup my_rpc_broadcast_all s.bound_funcs ≡ some (some push_zero))
    (small : rid < 2 ^ 64)
    (message : s.receive_buffer ≡ packet (io_header my_rpc_broadcast_all rid) received) where
  abbrev told : Manager
  told = broadcast my_rpc_listen_broadcast (message_all id received) none w.manager

  fits : Fits (io_header my_rpc_broadcast_all rid)
  fits = omega (arith, small)

  called : called_handler bound_handlers s ≡ some (rpc_broadcast_all, received)
  unfolding called_handler
  called =
      let quiet : s.close_received || s.m_close || s.write_error ≡ false = ground arith in
      rw quiet (
        rw
          (ap split_packet message
            ∙ split_packet-packet (io_header my_rpc_broadcast_all rid) received fits)
          refl)

  -- The session with the message posted, which its own handler has broadcast.
  abbrev waiting : ServerSession
  waiting = record s { posted = s.posted ++ (push id rid received) ∷ [] }

  posted : lookup id told.sessions ≡ some waiting
  unfolding send
  posted =
      broadcast-send my_rpc_listen_broadcast 0 (message_all id received) (omega arith) w none id s
        registered room connected found up refl

  responds : is_empty (s.response ++ 0 ∷ []) ≡ false
  unfolding is_empty
  responds = rw fresh refl

  zero_response : s.response ++ 0 ∷ [] ≡ 0 ∷ []
  zero_response = rw fresh refl

  reads :
      (u : ServerSession) × (ServerSession.on_read false now waiting ≡ some u)
      × Answered id rid received s u
  unfolding read
  reads = (
    _,
    on_read-replied now (io_header my_rpc_broadcast_all rid) received push_zero waiting fits message
        bound open' asked refl responds idle,
    record {
      started_answer =
          ap
            (λ bytes.
              (s.started ++ async_write (packet (io_header my_rpc_broadcast_all rid) bytes) ∷ [])
              ++ async_read ∷ [])
            zero_response;
      queue_answer =
          ap (λ bytes. record { header = io_header my_rpc_broadcast_all rid; body = bytes } ∷ [])
            zero_response;
      posted_push = ap (λ ds. ds ++ (push id rid received) ∷ []) posted_none;
      still_open = open';
    },
  )

  Sent-Behind :
      (u : ServerSession) {r : Option ServerSession}
      → Answered id rid received s u
      → Sent (push id rid received) (record u { posted = [] }) r
      → Ensures (Behind id rid received u) r
  Sent-Behind u a (refused c e) = absurd (ground (arith, a.still_open, ap length a.queue_answer))
  Sent-Behind u a (queued c n e) =
      rw e (ap (λ ds. ds ++ (push id rid received) ∷ []) a.queue_answer, refl)
  Sent-Behind u a (issued c n e) = absurd (let q = sym a.queue_answer ∙ n in cc)

  runs_send-Behind :
      (u : ServerSession)
      → Answered id rid received s u
      → Ensures (Behind id rid received u) (step runs_send u)
  unfolding step next_send
  runs_send-Behind u a =
      rw a.posted_push
        (Sent-Behind u a (handle_send-Sent (push id rid received) (record u { posted = [] })))

  effects-told : effects bound_handlers id s w.manager ≡ told
  unfolding effects
  effects-told = rw (called, effects) refl

  read_at-Reaches : Reaches id rid received s w (read_at id now told)
  unfolding read_at
  read_at-Reaches =
      let (u, e, a) = reads in
      rw (posted, read_at)
        (rw e (record {
          requester = u;
          found_requester = ground (arith, lookup-adjust id id (λ _. u) told.sessions, posted);
          answered = a;
          in_order = runs_send-Behind u a;
          others = λ k t apart at up'. rw (lookup-adjust id k (λ _. u) told.sessions) (
              rw apart (
                broadcast-send my_rpc_listen_broadcast 0 (message_all id received) (omega arith) w
                  none k t registered room connected at up' refl));
        }))

  -- An established session that is open, writes nothing and reads a request to broadcast to all, in a
  -- server whose queue of messages has room: the session hands the answer to its stream, and its own
  -- copy of the message is queued behind it when the strand runs it; each other established
  -- session has the message posted.
  pub on_read_at-broadcast_all :
      Reaches id rid received s w (on_read_at bound_handlers id now w.manager)
  unfolding on_read_at
  on_read_at-broadcast_all = rw (found, on_read_at) (rw effects-told read_at-Reaches)
