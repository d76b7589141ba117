-- ===== src/ServerSession/Stream.antt =====
-- What a server session hands to its stream, and the handlers that leave its queue alone.
use mathlib.Core.List.{append-nil, append_assoc, map-append}
use radrpc.Header.{packet}
use radrpc.ServerSession.{
  ServerSession, DataPush, Action, ssl_handshake, read_handshake, add_session, async_accept,
  async_read, async_ping, async_close, async_wait, async_write, close_session, shutdown, is_closed,
  start, ping_send,
}
use radrpc.ServerSession.Accept.{
  FrameType, close, ping, pong, TimerEnd, expired, aborted, failed, on_timer, on_expired, is_next,
  wait_timer, on_control_callback,
}
use radrpc.ServerSession.Outcomes.{
  Sent, refused, queued, issued, Wrote, dropped, last, next, is_full, fail_writes,
}
use radrpc.ServerSession.Bounded.{Ensures}
use radrpc.Prelude.{
  ℕ, ◌≡◌, ◌≢◌, refl, ap, sym, ◌∙◌, Bool, true, false, ◌||◌, ◌&&◌, Option, List, [], ◌∷◌, ◌++◌, map,
  arith, Bool-cases, inl, inr, if◌then◌else◌,
}

abbrev pub packet_of : DataPush → List ℕ
packet_of d = packet d.header d.body

-- The packets that were handed to the stream, in order.
abbrev pub issued_packets : List Action → List (List ℕ)
issued_packets [] = []
issued_packets (async_write bytes ∷ as') = bytes ∷ issued_packets as'
issued_packets (a ∷ as') = issued_packets as'

abbrev pub rest_of : List DataPush → List DataPush
rest_of [] = []
rest_of (d ∷ ds) = ds

-- The packets that wait behind the one in flight.
abbrev pub backlog : ServerSession → List (List ℕ)
backlog s = map packet_of (rest_of s.queue)

pub issued_packets-append :
    (xs ys : List Action) → issued_packets (xs ++ ys) ≡ issued_packets xs ++ issued_packets ys
issued_packets-append [] ys = refl
issued_packets-append (async_write b ∷ xs) ys = ap (◌∷◌ b) (issued_packets-append xs ys)
issued_packets-append (async_ping ∷ xs) ys = issued_packets-append xs ys
issued_packets-append (async_read ∷ xs) ys = issued_packets-append xs ys
issued_packets-append (async_close ∷ xs) ys = issued_packets-append xs ys
issued_packets-append (async_wait ∷ xs) ys = issued_packets-append xs ys
issued_packets-append (ssl_handshake ∷ xs) ys = issued_packets-append xs ys
issued_packets-append (read_handshake ∷ xs) ys = issued_packets-append xs ys
issued_packets-append (add_session ∷ xs) ys = issued_packets-append xs ys
issued_packets-append (async_accept n ∷ xs) ys = issued_packets-append xs ys

-- All that the session has accepted and not dropped.
abbrev pub stream_of : ServerSession → List (List ℕ)
stream_of s = issued_packets s.started ++ backlog s

-- Unless writing has failed at `t`, it has not at `s`, and `t` has added `more` to the stream.
abbrev pub Adds : List (List ℕ) → ServerSession → ServerSession → Type 0
Adds more s t =
    t.write_error ≡ false → (s.write_error ≡ false) × (stream_of t ≡ stream_of s ++ more)

-- A handler that starts no write and leaves the queue alone.
pub record Quiet (s t : ServerSession) : Type 0 where
  pub same_queue : t.queue ≡ s.queue
  pub same_packets : issued_packets t.started ≡ issued_packets s.started
  pub same_error : t.write_error ≡ s.write_error

pub Quiet-Adds : {s t : ServerSession} → Quiet s t → Adds [] s t
Quiet-Adds {s} q h =
    (sym q.same_error ∙ h, rw (q.same_queue, q.same_packets, append-nil (stream_of s)))

pub Quiet-trans : {s t u : ServerSession} → Quiet s t → Quiet t u → Quiet s u
Quiet-trans p q = record {
  same_queue = q.same_queue ∙ p.same_queue;
  same_packets = q.same_packets ∙ p.same_packets;
  same_error = q.same_error ∙ p.same_error;
}

pub shutdown-Quiet : (s : ServerSession) → Quiet s (shutdown s)
unfolding shutdown
shutdown-Quiet s = ground (
  arith,
  issued_packets-append s.started (async_close ∷ []),
  append-nil (issued_packets s.started),
)

pub close_session-Quiet : (now : ℕ) (s : ServerSession) → Quiet s (close_session now s)
unfolding close_session
close_session-Quiet now s = ground (arith, shutdown-Quiet s)

wait_timer-Quiet : (now : ℕ) (s : ServerSession) → Quiet s (wait_timer now s)
unfolding wait_timer
wait_timer-Quiet now s = record {
  same_queue = refl;
  same_packets =
      issued_packets-append s.started (async_wait ∷ []) ∙ append-nil (issued_packets s.started);
  same_error = refl;
}

on_expired-Quiet :
    (is_open : Bool) (now : ℕ) (s : ServerSession) → Quiet s (on_expired is_open now s)
unfolding on_expired
on_expired-Quiet is_open now s = elim (Bool-cases (is_open && is_next s.m_ping_state)) [
  | inl e ↦
      let s' = start async_ping (record s { m_ping_state = ping_send }) in
      let first : Quiet s s' = record {
        same_queue = refl;
        same_packets =
            issued_packets-append s.started (async_ping ∷ [])
            ∙ append-nil (issued_packets s.started);
        same_error = refl;
      } in
      rw (e, on_expired) (Quiet-trans first (wait_timer-Quiet now s'))
  | inr e ↦ rw (e, on_expired) (shutdown-Quiet s)
]

pub on_timer-Quiet :
    (ec : TimerEnd) (is_open : Bool) (now : ℕ) (s : ServerSession)
    → Quiet s (on_timer ec is_open now s)
unfolding on_timer
on_timer-Quiet failed is_open now s = record {
  same_queue = refl;
  same_packets = refl;
  same_error = refl;
}
on_timer-Quiet expired is_open now s =
    ground (arith, wait_timer-Quiet now s, on_expired-Quiet is_open now s)
on_timer-Quiet aborted is_open now s =
    ground (arith, wait_timer-Quiet now s, on_expired-Quiet is_open now s)

pub on_control_callback-Quiet :
    (kind : FrameType) (now : ℕ) (s : ServerSession) → Quiet s (on_control_callback kind now s)
unfolding on_control_callback
on_control_callback-Quiet close now s = record {
  same_queue = refl;
  same_packets = refl;
  same_error = refl;
}
on_control_callback-Quiet ping now s = record {
  same_queue = refl;
  same_packets = refl;
  same_error = refl;
}
on_control_callback-Quiet pong now s = record {
  same_queue = refl;
  same_packets = refl;
  same_error = refl;
}

rest_of-append :
    (es : List DataPush) (d : DataPush) → es ≢ [] → rest_of (es ++ d ∷ []) ≡ rest_of es ++ d ∷ []
rest_of-append [] d h = absurd (h refl)
rest_of-append (e ∷ es) d h = refl

-- What a message adds: its packet, if the session is open and its queue has room.
abbrev pub if_accepted : DataPush → ServerSession → List (List ℕ)
if_accepted d s = if is_closed s || is_full s then [] else packet_of d ∷ []

pub Sent-Adds :
    {d : DataPush} {s : ServerSession} {r : Option ServerSession}
    → Sent d s r
    → Ensures (Adds (if_accepted d s) s) r
Sent-Adds {d} {s} (refused c e) = rw (e, c) (λ h. (h, sym (append-nil (stream_of s))))
Sent-Adds {d} {s} (queued c n e) =
    rw (e, c) (λ h. (h, simp (rest_of-append s.queue d n, map-append, append_assoc)))
Sent-Adds {d} {s} (issued c n e) =
    rw (e, c) (λ h. (h, simp (ap rest_of n, issued_packets-append s.started, append-nil)))

fail_writes-error : (now : ℕ) (s : ServerSession) → (fail_writes now s).write_error ≡ true
fail_writes-error now s =
    (close_session-Quiet now (record s { write_error = true; queue = [] })).same_error

pub Wrote-Adds :
    {ec : Bool} {now : ℕ} {d : DataPush} {ds : List DataPush} {s : ServerSession}
    {r : Option ServerSession}
    → s.queue ≡ d ∷ ds
    → Wrote ec now ds s r
    → Ensures (Adds [] s) r
Wrote-Adds {now = now} {s = s} q (dropped f e) = rw e (λ h. let t = fail_writes-error now s in cc)
Wrote-Adds {d = d} {ds} {s} q (last f n e) = rw e (λ h. (h, simp (ap rest_of q, n, append-nil)))
Wrote-Adds {d = d} {ds} {s} q (next x xs f n e) =
    rw e
      (λ h. (h, simp (ap rest_of q, n, issued_packets-append s.started, append-nil, append_assoc)))
