-- ===== src/ServerSession/Accepted.antt =====
-- The packets that a server session accepts: what its stream is compared with.

use radrpc.Header.{split_packet}
use radrpc.ServerSession.{ServerSession, DataPush, is_empty, call}
use radrpc.ServerSession.Loop.{Event, runs_send, received, step}
use radrpc.ServerSession.Stream.{if_accepted}
use radrpc.Prelude.{
  ℕ, zero, suc, Bool, ◌||◌, none, some, List, [], ◌∷◌, ◌++◌, lookup, if◌then◌else◌,
}

-- What is queued after a handler has returned: its response, unless it is empty or the handler has
-- closed the session.
unfoldable pub reply : ServerSession → List (List ℕ)
reply s =
    if s.bound_close || is_empty s.response
    then []
    else if_accepted (record { header = s.header; body = s.response }) s

-- What is queued for the request in the read buffer: the reply of the handler that is bound to its
-- call id.
unfoldable pub call_reply : ServerSession → List (List ℕ)
unfolding reply
call_reply s = elim (split_packet s.receive_buffer) [
  | none ↦ []
  | some (h, body) ↦
      let s' = record s { header = h; receive_buffer = body } in
      elim (lookup h.call_id s.bound_funcs) [
        | none ↦ []
        | some none ↦ []
        | some (some f) ↦ reply (call f body s')
      ]
]

-- A request is served unless the session is closing or writing has failed.
unfoldable pub read_reply : Bool → ℕ → List ℕ → ServerSession → List (List ℕ)
unfolding call_reply
read_reply ec zero bytes s = []
read_reply ec (suc n) bytes s =
    if ec || s.close_received || s.m_close || s.write_error
    then []
    else call_reply (record s { reads = n; receive_buffer = s.receive_buffer ++ bytes })

unfoldable pub accepted_send : List DataPush → ServerSession → List (List ℕ)
accepted_send [] s = []
accepted_send (d ∷ ds) s = if_accepted d s

-- The packet that an event makes the session accept: of a posted push, if the session is open and
-- its queue has room; of the reply to a request.
unfoldable pub accepted : Event → ServerSession → List (List ℕ)
unfolding accepted_send read_reply
accepted runs_send s = accepted_send s.posted s
accepted (received ec now bytes) s = read_reply ec s.reads bytes s
accepted _ s = []

unfoldable pub accepted_run : List Event → ServerSession → List (List ℕ)
accepted_run [] s = []
accepted_run (e ∷ es) s = accepted e s ++ elim (step e s) [ none ↦ [] | some t ↦ accepted_run es t ]
