-- ===== src/ClientSession/Stream.antt =====
-- What a session hands to its stream, and the steps that leave it alone.
use mathlib.Core.List.{append-nil}
use radrpc.Header.{packet, split_packet}
use radrpc.Cache
use radrpc.SendQueue.{DataSend}
use radrpc.ClientSession.{
  ClientSession, Action, async_write, async_ping, async_read, async_close, notify_ping, calls,
  FrameType, close, ping, pong, close_session, on_read, on_control_callback, dispatch, read,
  finish_read,
}
use radrpc.ClientSession.Loop.{complete_read}
use radrpc.Prelude.{
  ℕ, zero, suc, ◌≡◌, refl, ap, sym, ◌∙◌, Bool, true, false, ◌||◌, List, [], ◌∷◌, ◌++◌, map, arith,
  Bool-cases, Option-cases, lookup, inl, inr,
}

abbrev pub packet_of : DataSend → List ℕ
packet_of d = packet d.header d.body

-- The packets that were handed to the stream, in order.
abbrev pub issued_packets : List Action → List (List ℕ)
issued_packets [] = []
issued_packets (async_write bytes ∷ as') = bytes ∷ issued_packets as'
issued_packets (a ∷ as') = issued_packets as'

abbrev pub rest_of : List DataSend → List DataSend
rest_of [] = []
rest_of (d ∷ ds) = ds

-- The packets that wait behind the one in flight.
abbrev pub backlog : ClientSession → List (List ℕ)
backlog s = map packet_of (rest_of s.queue.entries)

pub issued_packets-append :
    (xs ys : List Action) → issued_packets (xs ++ ys) ≡ issued_packets xs ++ issued_packets ys
issued_packets-append [] ys = refl
issued_packets-append (async_write b ∷ xs) ys = ap (◌∷◌ b) (issued_packets-append xs ys)
issued_packets-append (async_ping ∷ xs) ys = issued_packets-append xs ys
issued_packets-append (async_read ∷ xs) ys = issued_packets-append xs ys
issued_packets-append (async_close ∷ xs) ys = issued_packets-append xs ys
issued_packets-append (notify_ping ∷ xs) ys = issued_packets-append xs ys
issued_packets-append (calls i b ∷ xs) ys = issued_packets-append xs ys

-- All that the session has accepted and not dropped.
abbrev pub stream_of : ClientSession → List (List ℕ)
stream_of s = issued_packets s.started ++ backlog s

-- Unless writing has failed at `t`, it has not at `s`, and the step from `s` adds `more` to the stream.
abbrev pub Adds : List (List ℕ) → ClientSession → ClientSession → Type 0
Adds more s t =
    t.write_error ≡ false → (s.write_error ≡ false) × (stream_of t ≡ stream_of s ++ more)

-- A step that starts no write and leaves the queue alone.
pub record Quiet (s t : ClientSession) : Type 0 where
  pub same_queue : t.queue ≡ s.queue
  pub same_packets : issued_packets t.started ≡ issued_packets s.started
  pub same_error : t.write_error ≡ s.write_error

pub Quiet-Adds : {s t : ClientSession} → Quiet s t → Adds [] s t
Quiet-Adds {s} q h =
    (sym q.same_error ∙ h, rw (q.same_queue, q.same_packets, append-nil (stream_of s)))

pub close_session-Quiet : (s : ClientSession) → Quiet s (close_session s)
unfolding close_session
close_session-Quiet s = ground (
  arith,
  issued_packets-append s.started (async_close ∷ []),
  append-nil (issued_packets s.started),
)

dispatch-Quiet : (bytes : List ℕ) (s : ClientSession) → Quiet s (dispatch bytes s)
unfolding dispatch
dispatch-Quiet bytes s = elim (Option-cases (split_packet bytes)) [
  | inl e ↦ rw (e, dispatch) (record { same_queue = refl; same_packets = refl; same_error = refl })
  | inr ((h, body), e) ↦ elim (Option-cases (lookup h.call_id s.bound_funcs)) [
    | inl e' ↦
        rw (e, e', dispatch) (record { same_queue = refl; same_packets = refl; same_error = refl })
    | inr (callable, e') ↦
        rw (e, e', dispatch)
          (ground (
            arith,
            issued_packets-append s.started (calls h.call_id body ∷ []),
            append-nil (issued_packets s.started),
          ))
  ]
]

on_read-Quiet : (ec : Bool) (now : ℕ) (s : ClientSession) → Quiet s (on_read ec now s)
unfolding on_read read finish_read
on_read-Quiet ec now s = elim (Bool-cases (ec || s.close_received)) [
  | inl e ↦
      rw (e, on_read)
        (let k =
            close_session-Quiet (record s { cache = Cache.clear s.cache; read_error = true }) in
          record {
            same_queue = k.same_queue;
            same_packets = k.same_packets;
            same_error = k.same_error;
          })
  | inr e ↦
      rw (e, on_read)
        (let k = dispatch-Quiet s.read_buffer s in
          record {
            same_queue = k.same_queue;
            same_packets =
                issued_packets-append (dispatch s.read_buffer s).started (async_read ∷ [])
                ∙ append-nil _
                ∙ k.same_packets;
            same_error = k.same_error;
          })
]

pub complete_read-Quiet :
    (ec : Bool) (now : ℕ) (bytes : List ℕ) (n : ℕ) (s : ClientSession)
    → Quiet s (complete_read ec now bytes n s)
unfolding complete_read
complete_read-Quiet ec now bytes zero s = record {
  same_queue = refl;
  same_packets = refl;
  same_error = refl;
}
complete_read-Quiet ec now bytes (suc n) s =
    let q = on_read-Quiet ec now (record s { reads = n; read_buffer = s.read_buffer ++ bytes }) in
    record { same_queue = q.same_queue; same_packets = q.same_packets; same_error = q.same_error }

pub on_control_callback-Quiet :
    (kind : FrameType) (s : ClientSession) → Quiet s (on_control_callback kind s)
unfolding on_control_callback
on_control_callback-Quiet ping s = record {
  same_queue = refl;
  same_packets = refl;
  same_error = refl;
}
on_control_callback-Quiet close s = record {
  same_queue = refl;
  same_packets = refl;
  same_error = refl;
}
on_control_callback-Quiet pong s = record {
  same_queue = refl;
  same_packets =
      issued_packets-append s.started (notify_ping ∷ []) ∙ append-nil (issued_packets s.started);
  same_error = refl;
}
