-- ===== src/ServerSession/Order.antt =====
-- The stream is handed the accepted pushes and the replies in the order in which they were accepted,
-- each once.
use mathlib.Core.List.{append-nil, append_assoc}
use radrpc.Types.{SessionConfig}
use radrpc.Header.{split_packet}
use radrpc.ServerSession.{
  ServerSession, DataPush, Handler, async_read, call_function, after_call, call, finish_read, read,
  on_read,
}
use radrpc.ServerSession.Accept.{TimerEnd, session_accept, on_accept, wait_timer}
use radrpc.ServerSession.Loop.{
  Event, sends, runs_send, written, received, timed, controlled, step, run, send, next_send,
  complete_write, complete_read, complete_wait,
}
use radrpc.ServerSession.Outcomes.{handle_send-Sent, on_write-Wrote}
use radrpc.ServerSession.Bounded.{Inv, Ensures, in_flight}
use radrpc.ServerSession.Invariant.{step-Inv, on_accept-Inv}
use radrpc.ServerSession.Stream.{
  issued_packets, backlog, issued_packets-append, stream_of, Adds, Quiet, Quiet-Adds, Quiet-trans,
  close_session-Quiet, on_timer-Quiet, on_control_callback-Quiet, if_accepted, Sent-Adds,
  Wrote-Adds,
}
use radrpc.Prelude.{
  ℕ, zero, suc, ◌≡◌, refl, ap, sym, ◌∙◌, Bool, true, false, ◌||◌, ◌&&◌, not, Option, none, some,
  List, [], ◌∷◌, ◌++◌, Map, lookup, arith, Option-cases, Bool-cases, inl, inr,
}
use radrpc.ServerSession.Accepted.{
  reply, call_reply, read_reply, accepted_send, accepted, accepted_run,
}

-- A change that the stream does not show may come first.
Quiet-Ensures :
    (xs : List (List ℕ)) {s t : ServerSession} (r : Option ServerSession)
    → Quiet s t
    → Ensures (Adds xs t) r
    → Ensures (Adds xs s) r
Quiet-Ensures xs none q h = h
Quiet-Ensures xs {s} {t} (some u) q h =
    λ e. let (f, g) = h e in (sym q.same_error ∙ f, rw (sym q.same_queue, sym q.same_packets, g))

unchanged : (s : ServerSession) → Adds [] s s
unchanged s h = (h, sym (append-nil (stream_of s)))

after_call-Adds : (now : ℕ) (s : ServerSession) → Ensures (Adds (reply s) s) (after_call now s)
unfolding after_call reply
after_call-Adds now s =
    let d : DataPush = record { header = s.header; body = s.response } in
    let s' = record s { response = [] } in
    let start_of : Quiet s s' = record {
      same_queue = refl;
      same_packets = refl;
      same_error = refl;
    } in
    let k = Quiet-Ensures (if_accepted d s) _ start_of (Sent-Adds (handle_send-Sent d s')) in
    ground (arith, k, Quiet-Adds (close_session-Quiet now s), unchanged s)

call_function-Adds :
    (now : ℕ) (s : ServerSession) → Ensures (Adds (call_reply s) s) (call_function now s)
unfolding call_function call_reply
call_function-Adds now s = elim (Option-cases (split_packet s.receive_buffer)) [
  | inl e ↦ rw (e, call_function, call_reply) (unchanged s)
  | inr ((h, body), e) ↦
      let s' = record s { header = h; receive_buffer = body } in
      elim (Option-cases (lookup h.call_id s.bound_funcs)) [
        | inl e' ↦ rw (e, e', call_function, call_reply) (unchanged s)
        | inr (none, e') ↦ rw (e, e', call_function, call_reply) (unchanged s)
        | inr (some f, e') ↦
            let q : Quiet s (call f body s') = record {
              same_queue = refl;
              same_packets = refl;
              same_error = refl;
            } in
            rw (e, e', call_function, call_reply)
              (Quiet-Ensures (reply (call f body s')) _ q (after_call-Adds now (call f body s')))
      ]
]

finish_read-Adds :
    (xs : List (List ℕ)) (s : ServerSession) (r : Option ServerSession)
    → Ensures (Adds xs s) r
    → Ensures (Adds xs s) (finish_read r)
unfolding finish_read read
finish_read-Adds xs s none h = h
finish_read-Adds xs s (some t) h = λ e.
    let (f, g) = h e in (f, simp (issued_packets-append t.started (async_read ∷ []), append-nil, g))

complete_read-Adds :
    (ec : Bool) (now : ℕ) (bytes : List ℕ) (n : ℕ) (s : ServerSession)
    → Ensures (Adds (read_reply ec n bytes s) s) (complete_read ec now bytes n s)
unfolding complete_read on_read read_reply
complete_read-Adds ec now bytes zero s = unchanged s
complete_read-Adds ec now bytes (suc n) s =
    let s' = record s { reads = n; receive_buffer = s.receive_buffer ++ bytes } in
    let q : Quiet s s' = record { same_queue = refl; same_packets = refl; same_error = refl } in
    let s'' = record s' { read_error = true } in
    let p : Quiet s s'' = record { same_queue = refl; same_packets = refl; same_error = refl } in
    let c = Quiet-trans p (close_session-Quiet now s'') in
    let r = call_function-Adds now s' in
    elim (Bool-cases (ec || s.close_received)) [
      | inl e ↦ rw (e, on_read) (Quiet-Adds c)
      | inr e ↦ elim (Bool-cases (not s.m_close && not s.write_error)) [
        | inl o ↦
            let f : s.m_close || s.write_error ≡ false = ground arith in
            rw (e, o, f, on_read)
              (finish_read-Adds (call_reply s') s (call_function now s')
                (Quiet-Ensures (call_reply s') (call_function now s') q r))
        | inr o ↦
            let f : s.m_close || s.write_error ≡ true = ground arith in
            rw (e, o, f, on_read) (finish_read-Adds [] s (some s') (Quiet-Adds q))
      ]
    ]

complete_wait-Quiet :
    (ec : TimerEnd) (is_open : Bool) (now n : ℕ) (s : ServerSession)
    → Quiet s (complete_wait ec is_open now n s)
unfolding complete_wait
complete_wait-Quiet ec is_open now zero s = record {
  same_queue = refl;
  same_packets = refl;
  same_error = refl;
}
complete_wait-Quiet ec is_open now (suc n) s =
    let s' = record s { waits = n } in
    let q : Quiet s s' = record { same_queue = refl; same_packets = refl; same_error = refl } in
    Quiet-trans q (on_timer-Quiet ec is_open now s')

next_send-Adds :
    (ds : List DataPush) (s : ServerSession)
    → Ensures (Adds (accepted_send ds s) s) (next_send ds s)
unfolding next_send accepted_send
next_send-Adds [] s = unchanged s
next_send-Adds (d ∷ ds) s = Sent-Adds (handle_send-Sent d (record s { posted = ds }))

complete_write-Adds :
    (ec : Bool) (now n : ℕ) (ds : List DataPush) (s : ServerSession)
    → s.writes ≡ n
    → s.queue ≡ ds
    → Inv s
    → Ensures (Adds [] s) (complete_write ec now n s)
unfolding complete_write
complete_write-Adds ec now zero ds s w e i = unchanged s
complete_write-Adds ec now (suc n) [] s w e i = absurd (omega (arith, ap in_flight e, i.one_write))
complete_write-Adds ec now (suc n) (d ∷ ds) s w e i =
    Wrote-Adds e (on_write-Wrote ec now d ds (record s { writes = n }) e)

step-Adds : (e : Event) (s : ServerSession) → Inv s → Ensures (Adds (accepted e s) s) (step e s)
unfolding step accepted send
step-Adds (sends d) s i = unchanged s
step-Adds runs_send s i = next_send-Adds s.posted s
step-Adds (written ec now) s i = complete_write-Adds ec now s.writes s.queue s refl refl i
step-Adds (received ec now bytes) s i = complete_read-Adds ec now bytes s.reads s
step-Adds (timed ec is_open now) s i = Quiet-Adds (complete_wait-Quiet ec is_open now s.waits s)
step-Adds (controlled kind now) s i = Quiet-Adds (on_control_callback-Quiet kind now s)

Adds-trans :
    (xs ys : List (List ℕ)) (s t u : ServerSession)
    → Adds xs s t
    → Adds ys t u
    → Adds (xs ++ ys) s u
Adds-trans xs ys s t u f g h =
    let (clean, later) = g h in
    let (start, first) = f clean in
    (start, later ∙ ap (λ z. z ++ ys) first ∙ append_assoc (stream_of s) xs ys)

Ensures-map :
    (P Q : ServerSession → Type 0)
    → ((s : ServerSession) → P s → Q s)
    → (r : Option ServerSession) → Ensures P r
    → Ensures Q r
Ensures-map P Q f none h = h
Ensures-map P Q f (some s) h = f s h

bind-Adds :
    (xs : List (List ℕ)) (s : ServerSession) (es : List Event) (r : Option ServerSession)
    → Ensures (Adds xs s) r
    → Ensures (λ t. Ensures (Adds (accepted_run es t) t) (run es t)) r
    → Ensures
        (Adds (xs ++ elim r [ none ↦ [] | some t ↦ accepted_run es t ]) s)
        (elim r [ none ↦ none | some t ↦ run es t ])
bind-Adds xs s es none h k = h
bind-Adds xs s es (some t) h k =
    Ensures-map (Adds (accepted_run es t) t) (Adds (xs ++ accepted_run es t) s)
      (λ u. Adds-trans xs (accepted_run es t) s t u h) (run es t) k

run-Adds :
    (es : List Event) (s : ServerSession) → Inv s → Ensures (Adds (accepted_run es s) s) (run es s)
unfolding run accepted_run
run-Adds [] s i = unchanged s
run-Adds (e ∷ es) s i = bind-Adds (accepted e s) s es (step e s) (step-Adds e s i) (
    Ensures-map Inv (λ t. Ensures (Adds (accepted_run es t) t) (run es t)) (run-Adds es) (step e s)
      (step-Inv e s i))

Ensures-some :
    (P : ServerSession → Type 0) (r : Option ServerSession) (t : ServerSession)
    → r ≡ some t
    → Ensures P r
    → P t
Ensures-some P r t e h = rw e at h

-- What `on_accept` leaves has handed no packet to the stream.
stream-on_accept :
    (funcs : Map (Option Handler)) (config : SessionConfig) (bytes now : ℕ)
    → stream_of (on_accept false now (session_accept funcs config bytes)) ≡ []
unfolding on_accept session_accept wait_timer read
stream-on_accept funcs config bytes now = ground arith

-- From its acceptance on, as long as no write has failed, the packets that a session has handed to
-- its stream and those behind the one in flight are together what it has accepted in its whole
-- history, each once and in that order: the pushes that found it open with room in its queue, and
-- the replies of bound handlers to its requests, under the header of the request.
pub run-in_order :
    (funcs : Map (Option Handler)) (config : SessionConfig) (bytes now : ℕ) (es : List Event)
    (t : ServerSession)
    → run es (on_accept false now (session_accept funcs config bytes)) ≡ some t
    → t.write_error ≡ false
    → issued_packets t.started ++ backlog t
      ≡ accepted_run es (on_accept false now (session_accept funcs config bytes))
run-in_order funcs config bytes now es t e h =
    let s = on_accept false now (session_accept funcs config bytes) in
    let a : Adds (accepted_run es s) s t =
      Ensures-some (Adds (accepted_run es s) s) _ t e
        (run-Adds es s (on_accept-Inv funcs config bytes now)) in
    (a h).1 ∙ ap (λ z. z ++ accepted_run es s) (stream-on_accept funcs config bytes now)
