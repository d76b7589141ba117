-- ===== src/ClientSession/Order.antt =====
-- The stream is handed the accepted messages in the order in which they were accepted, each once.
use mathlib.Core.List.{append-nil, append_assoc, map-append}
use radrpc.Header.{io_header, packet}
use radrpc.SendQueue.{DataSend}
use radrpc.ClientSession.{
  ClientSession, async_ping, client_session, Task, handle_ping_task, close_task, handle_send_task,
  handle_ping, on_ping, close_session, is_closed, fail_writes,
}
use radrpc.ClientSession.Loop.{
  Event, runs_task, pinged, written, received, controlled, uses_cache, posts, promises, drops, step,
  run, next_task, run_task, complete_write,
}
use radrpc.ClientSession.Outcomes.{
  Sent, refused, queued, issued, handle_send-Sent, Wrote, failed, last, next, on_write-Wrote,
  is_full, pushed, writing, popped,
}
use radrpc.ClientSession.Writes.{Inv, Ensures, Ensures-map, in_flight, step-Inv}
use radrpc.ClientSession.Stream.{
  packet_of, issued_packets, rest_of, backlog, issued_packets-append, stream_of, Adds, Quiet-Adds,
  close_session-Quiet, complete_read-Quiet, on_control_callback-Quiet,
}
use radrpc.Prelude.{
  ℕ, zero, suc, ◌≡◌, ◌≢◌, refl, ap, sym, ◌∙◌, Bool, true, false, ◌||◌, Option, none, some, List, [],
  ◌∷◌, ◌++◌, Map, arith, if◌then◌else◌,
}

accepted_task : List Task → ClientSession → List (List ℕ)
accepted_task [] s = []
accepted_task (handle_ping_task ∷ ts) s = []
accepted_task (close_task ∷ ts) s = []
accepted_task (handle_send_task call_id result_id callback body ∷ ts) s =
    if is_closed s || is_full s then [] else packet (io_header call_id result_id) body ∷ []

-- The packet that an event makes the session accept: of a posted message, if the session is open
-- and its queue has room.
pub accepted : Event → ClientSession → List (List ℕ)
unfolding accepted_task
accepted runs_task s = accepted_task s.posted s
accepted _ s = []

pub accepted_run : List Event → ClientSession → List (List ℕ)
accepted_run [] s = []
accepted_run (e ∷ es) s = accepted e s ++ elim (step e s) [ none ↦ [] | some t ↦ accepted_run es t ]

rest_of-append :
    (es : List DataSend) (d : DataSend) → es ≢ [] → rest_of (es ++ d ∷ []) ≡ rest_of es ++ d ∷ []
rest_of-append [] d h = absurd (h refl)
rest_of-append (e ∷ es) d h = refl

rest_of-alone : (es : List DataSend) (d : DataSend) → es ≡ [] → rest_of (es ++ d ∷ []) ≡ []
rest_of-alone [] d h = refl
rest_of-alone (e ∷ es) d h = cc

module _ (d : DataSend) (s : ClientSession) where
  pushed-Adds : s.queue.entries ≢ [] → Adds (packet_of d ∷ []) s (pushed d s)
  pushed-Adds n h = (h, simp (rest_of-append s.queue.entries d n, map-append, append_assoc))

  issued-Adds : s.queue.entries ≡ [] → Adds (packet_of d ∷ []) s (writing d (pushed d s))
  issued-Adds n h = (
    h,
    simp (
      rest_of-alone s.queue.entries d n,
      ap rest_of n,
      issued_packets-append s.started,
      append-nil,
    ),
  )

  popped_last :
      (ds : List DataSend) → s.queue.entries ≡ d ∷ ds → ds ≡ [] → Adds [] s (popped d ds s)
  popped_last ds e n h = (h, simp (ap rest_of e, n, append-nil))

  popped_next :
      (ds : List DataSend) (x : DataSend) (xs : List DataSend)
      → s.queue.entries ≡ d ∷ ds
      → ds ≡ x ∷ xs
      → Adds [] s (writing x (popped d ds s))
  popped_next ds x xs e n h =
      (h, simp (ap rest_of e, n, issued_packets-append s.started, append-nil, append_assoc))

Sent-Adds :
    {d : DataSend} {s : ClientSession} {r : Option ClientSession}
    → Sent d s r
    → Ensures (Adds (if is_closed s || is_full s then [] else packet_of d ∷ []) s) r
Sent-Adds {d} {s} (refused c e) = rw (e, c) (λ h. (h, sym (append-nil (stream_of s))))
Sent-Adds {d} {s} (queued c n e) = rw (e, c) (pushed-Adds d s n)
Sent-Adds {d} {s} (issued c n e) = rw (e, c) (issued-Adds d s n)

fail_writes_error : (s : ClientSession) → (fail_writes s).write_error ≡ true
unfolding fail_writes close_session
fail_writes_error s = ground arith

Wrote-Adds :
    {ec : Bool} {d : DataSend} {ds : List DataSend} {s : ClientSession} {r : Option ClientSession}
    → s.queue.entries ≡ d ∷ ds
    → Wrote ec d ds s r
    → Ensures (Adds [] s) r
Wrote-Adds {s = s} q (failed f e) = rw e (λ h. let t = fail_writes_error s in cc)
Wrote-Adds {d = d} {ds} {s} q (last f n e) = rw e (popped_last d s ds q n)
Wrote-Adds {d = d} {ds} {s} q (next x xs f n e) = rw e (popped_next d s ds x xs q n)

run_task-Adds :
    (t : Task) (ts : List Task) (s : ClientSession)
    → Ensures (Adds (accepted_task (t ∷ ts) s) s) (run_task t (record s { posted = ts }))
unfolding run_task accepted_task
run_task-Adds handle_ping_task ts s =
    unfold handle_ping in
    ground (
      arith,
      issued_packets-append s.started (async_ping ∷ []),
      append-nil (issued_packets s.started),
      append-nil (stream_of s),
    )
run_task-Adds close_task ts s =
    let q = close_session-Quiet (record s { posted = ts }) in
    Quiet-Adds {s = s} {t = close_session (record s { posted = ts })} (record {
      same_queue = q.same_queue;
      same_packets = q.same_packets;
      same_error = q.same_error;
    })
run_task-Adds (handle_send_task call_id result_id callback body) ts s =
    Sent-Adds (handle_send-Sent call_id result_id callback body (record s { posted = ts }))

next_task-Adds :
    (ts : List Task) (s : ClientSession) → Ensures (Adds (accepted_task ts s) s) (next_task ts s)
unfolding next_task accepted_task
next_task-Adds [] s = λ h. (h, sym (append-nil (stream_of s)))
next_task-Adds (t ∷ ts) s = run_task-Adds t ts s

complete_write-Adds :
    (ec : Bool) (n : ℕ) (es : List DataSend) (s : ClientSession)
    → s.writes ≡ n
    → s.queue.entries ≡ es
    → Inv s
    → Ensures (Adds [] s) (complete_write ec n s)
unfolding complete_write
complete_write-Adds ec zero es s w e i = λ h. (h, sym (append-nil (stream_of s)))
complete_write-Adds ec (suc n) [] s w e i = absurd (omega (arith, ap in_flight e, i.one_write))
complete_write-Adds ec (suc n) (d ∷ ds) s w e i =
    Wrote-Adds e (on_write-Wrote ec d ds (record s { writes = n }) e)

step-Adds : (e : Event) (s : ClientSession) → Inv s → Ensures (Adds (accepted e s) s) (step e s)
unfolding step accepted
step-Adds runs_task s i = next_task-Adds s.posted s
step-Adds (pinged ec) s i = λ h. unfold on_ping in (h, sym (append-nil (stream_of s)))
step-Adds (written ec) s i = complete_write-Adds ec s.writes s.queue.entries s refl refl i
step-Adds (received ec now bytes) s i = Quiet-Adds (complete_read-Quiet ec now bytes s.reads s)
step-Adds (controlled kind) s i = Quiet-Adds (on_control_callback-Quiet kind s)
step-Adds (uses_cache o) s i = λ h. (h, sym (append-nil (stream_of s)))
step-Adds (posts t) s i = λ h. (h, sym (append-nil (stream_of s)))
step-Adds promises s i = λ h. (h, sym (append-nil (stream_of s)))
step-Adds (drops a) s i = λ h. (h, sym (append-nil (stream_of s)))

Adds-trans :
    (xs ys : List (List ℕ)) (s t u : ClientSession)
    → Adds xs s t
    → Adds ys t u
    → Adds (xs ++ ys) s u
Adds-trans xs ys s t u f g h =
    let (clean, later) = g h in
    let (start, first) = f clean in
    (start, later ∙ ap (λ z. z ++ ys) first ∙ append_assoc (stream_of s) xs ys)

bind-Adds :
    (xs : List (List ℕ)) (s : ClientSession) (es : List Event) (r : Option ClientSession)
    → Ensures (Adds xs s) r
    → Ensures (λ t. Ensures (Adds (accepted_run es t) t) (run es t)) r
    → Ensures
        (Adds (xs ++ elim r [ none ↦ [] | some t ↦ accepted_run es t ]) s)
        (elim r [ none ↦ none | some t ↦ run es t ])
bind-Adds xs s es none h k = h
bind-Adds xs s es (some t) h k =
    Ensures-map (Adds (accepted_run es t) t) (Adds (xs ++ accepted_run es t) s)
      (λ u. Adds-trans xs (accepted_run es t) s t u h) (run es t) k

run-Adds :
    (es : List Event) (s : ClientSession) → Inv s → Ensures (Adds (accepted_run es s) s) (run es s)
unfolding run accepted_run
run-Adds [] s i = λ h. (h, sym (append-nil (stream_of s)))
run-Adds (e ∷ es) s i = bind-Adds (accepted e s) s es (step e s) (step-Adds e s i) (
    Ensures-map Inv (λ t. Ensures (Adds (accepted_run es t) t) (run es t)) (run-Adds es) (step e s)
      (step-Inv e s i))

Ensures-some :
    (P : ClientSession → Type 0) (r : Option ClientSession) (t : ClientSession)
    → r ≡ some t
    → Ensures P r
    → P t
Ensures-some P r t e h = rw e at h

-- As long as no write has failed, the packets handed to the stream and those behind the one in
-- flight are together the accepted packets of the whole history, each once and in their order.
pub run-order :
    (funcs : Map Bool) (es : List Event) (t : ClientSession)
    → run es (client_session funcs) ≡ some t
    → t.write_error ≡ false
    → issued_packets t.started ++ backlog t ≡ accepted_run es (client_session funcs)
unfolding client_session
run-order funcs es t e h =
    (Ensures-some (Adds (accepted_run es (client_session funcs)) (client_session funcs)) _ t e
      (run-Adds es (client_session funcs) (ground arith)) h).1
