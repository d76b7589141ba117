-- ===== src/ServerSession/Replies.antt =====
-- What a server session does with a request.

use radrpc.Header.{IoHeader, packet, split_packet}
use radrpc.Header.Codec.{Fits, split_packet-packet}
use radrpc.ServerSession.{
  ServerSession, DataPush, Handler, Reply, handle_send, async_read, async_write, on_read,
  call_function, after_call, call, finish_read, read, is_empty, is_closed,
}
use radrpc.ServerSession.Outcomes.{Sent, refused, queued, issued, handle_send-Sent, writing}
use radrpc.ServerSession.Bounded.{Ensures}
use radrpc.Prelude.{
  ℕ, ◌≡◌, refl, ap, ◌∙◌, true, false, ◌&&◌, not, Option, some, List, [], ◌∷◌, ◌++◌, lookup, length,
  arith,
}

module _ (now : ℕ) (h : IoHeader) (body : List ℕ) (f : Handler) (s : ServerSession) (fits : Fits h)
    (message : s.receive_buffer ≡ packet h body)
    (bound : lookup h.call_id s.bound_funcs ≡ some (some f)) (open' : is_closed s ≡ false)
    (asked : s.bound_close ≡ false) where
  parsed : split_packet s.receive_buffer ≡ some (h, body)
  parsed = ap split_packet message ∙ split_packet-packet h body fits

  abbrev reply : Reply
  reply = f body s.response

  abbrev answer : DataPush
  answer = record { header = h; body = reply.response }

  -- The session after the call of the handler.
  abbrev called : ServerSession
  called = call f body (record s { header = h; receive_buffer = body })

  is_reading : s.close_received ≡ false
  is_reading = ground arith

  is_calling : not s.m_close && not s.write_error ≡ true
  is_calling = ground arith

  on_read-call : on_read false now s ≡ finish_read (after_call now called)
  unfolding on_read call_function
  on_read-call =
      rw (is_reading, is_calling, on_read)
        (ap finish_read (rw (parsed, call_function) (rw bound refl)))

  module _ (keeps : reply.closes ≡ false) (some' : is_empty reply.response ≡ false) where
    call-keeps : called.bound_close ≡ false
    call-keeps = rw (asked, keeps) refl

    after_call-send : after_call now called ≡ handle_send answer (record called { response = [] })
    unfolding after_call
    after_call-send = rw call-keeps (rw some' refl)

    issue :
        {r : Option ServerSession}
        → s.queue ≡ []
        → Sent answer (record called { response = [] }) r
        → r ≡ some (writing answer (record called { response = []; queue = answer ∷ [] }))
    issue e (refused c x) = absurd (ground (arith, ap length e))
    issue e (queued c n x) = absurd (n e)
    issue e (issued c n x) = x

    -- The session that has handed the answer to its stream and reads again.
    abbrev pub replied : ServerSession
    replied = read (record (writing answer (record called { response = []; queue = answer ∷ [] })) {
      receive_buffer = [];
      response = [];
    })

    pub on_read-replied : s.queue ≡ [] → on_read false now s ≡ some replied
    unfolding finish_read
    on_read-replied idle =
        on_read-call
        ∙ ap finish_read after_call-send
        ∙ ap finish_read (issue idle (handle_send-Sent answer (record called { response = [] })))

    -- If the bound handler leaves a response and does not close, and nothing else is being written,
    -- then the response is written under the header of the request, and the next read is started.
    pub on_read-reply :
        s.queue ≡ []
        → Ensures
            (λ t.
              (t.started
                ≡ (s.started ++ async_write (packet h reply.response) ∷ []) ++ async_read ∷ [])
              × (t.receive_buffer ≡ [])
              × (t.response ≡ []))
            (on_read false now s)
    unfolding read
    on_read-reply idle = rw (on_read-replied idle) (refl, refl, refl)
