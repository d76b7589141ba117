-- ===== src/ClientSession/Writes.antt =====
-- One write at a time: what the session relies on when it hands the first message of its queue to
-- the stream and pops it on completion.
use radrpc.Cache
use radrpc.SendQueue
use radrpc.SendQueue.{DataSend, DataQueue, Promise}
use radrpc.ClientSession.{
  ClientSession, FrameType, close, ping, pong, client_session, Task, handle_ping_task, close_task,
  handle_send_task, handle_ping, on_ping, close_session, on_write, on_read, on_control_callback,
  is_closed, dispatch, fail_writes, read, finish_read,
}
use radrpc.ClientSession.Loop.{
  Event, runs_task, pinged, written, received, controlled, uses_cache, posts, promises, drops, step,
  run, next_task, run_task, complete_write, complete_read,
}
use radrpc.ClientSession.Outcomes.{
  Sent, refused, queued, issued, handle_send-Sent, Wrote, failed, last, next, on_write-Wrote,
  is_full,
}
use radrpc.Prelude.{
  ap, sym, ◌∙◌, ◌≢◌, ◌<◌, ℕ, zero, suc, ◌≤◌, ◌≡◌, refl, Bool, true, false, ◌||◌, Option, none, some,
  List, [], ◌∷◌, ◌++◌, Map, length, length-append, arith, Bool-cases, inl, inr,
}

abbrev pub in_flight : List DataSend → ℕ
in_flight [] = 0
in_flight (d ∷ ds) = 1

-- A write is outstanding exactly if the queue holds a message, and it is the only one.
pub record Inv (s : ClientSession) : Type 0 where
  pub one_write : s.writes ≡ in_flight s.queue.entries
  pub capped : length s.queue.entries ≤ s.queue.max_entries

-- The result exists, and the predicate holds of it.
abbrev pub Ensures : (ClientSession → Type 0) → Option ClientSession → Type 0
Ensures P none = ⊥
Ensures P (some s) = P s

close_session-Inv : (s : ClientSession) → Inv s → Inv (close_session s)
unfolding close_session
close_session-Inv s i = ground arith

in_flight-append : (es : List DataSend) (d : DataSend) → in_flight (es ++ d ∷ []) ≡ 1
in_flight-append [] d = refl
in_flight-append (e ∷ es) d = refl

pub in_flight_of_ne : (es : List DataSend) → es ≢ [] → in_flight es ≡ 1
in_flight_of_ne [] h = absurd (h refl)
in_flight_of_ne (e ∷ es) h = refl

has_room :
    (s : ClientSession)
    → is_closed s || is_full s ≡ false
    → length s.queue.entries < s.queue.max_entries
has_room s h = ground arith

Sent-Inv :
    {d : DataSend} {s : ClientSession} {r : Option ClientSession}
    → Inv s
    → Sent d s r
    → Ensures Inv r
Sent-Inv i (refused c e) = rw e i
Sent-Inv {d} {s} i (queued c n e) = rw e (record {
  one_write = i.one_write ∙ in_flight_of_ne _ n ∙ sym (in_flight-append s.queue.entries d);
  capped = omega (arith, has_room s c, length-append s.queue.entries (d ∷ []));
})
Sent-Inv {d} {s} i (issued c n e) = rw e (record {
  one_write = omega (arith, ap in_flight n, i.one_write, in_flight-append s.queue.entries d);
  capped = omega (arith, has_room s c, length-append s.queue.entries (d ∷ []));
})

fail_writes-Inv : (s : ClientSession) → s.writes ≡ 0 → Inv (fail_writes s)
unfolding fail_writes close_session SendQueue.clear
fail_writes-Inv s w = ground arith

-- The outstanding write of a session in which `n` others are outstanding has been completed.
Wrote-Inv :
    {ec : Bool} {d : DataSend} {ds : List DataSend} {s : ClientSession} {r : Option ClientSession}
    → s.writes ≡ 0
    → length (d ∷ ds) ≤ s.queue.max_entries
    → Wrote ec d ds s r
    → Ensures Inv r
Wrote-Inv {s = s} w c (failed f e) = rw e (fail_writes-Inv s w)
Wrote-Inv w c (last f n e) = rw e (record { one_write = rw (n, w); capped = omega arith })
Wrote-Inv w c (next x xs f n e) = rw e (record { one_write = rw (n, w); capped = omega arith })

on_write-Inv :
    (ec : Bool) (s : ClientSession) (es : List DataSend) (n : ℕ)
    → s.queue.entries ≡ es
    → s.writes ≡ suc n
    → Inv s
    → Ensures Inv (on_write ec (record s { writes = n }))
on_write-Inv ec s [] n e w i = absurd (omega (arith, ap in_flight e, i.one_write))
on_write-Inv ec s (d ∷ ds) n e w i =
    Wrote-Inv (omega (arith, ap in_flight e, i.one_write)) (omega (arith, ap length e, i.capped))
      (on_write-Wrote ec d ds (record s { writes = n }) e)

-- A handler that leaves the queue and the writes alone keeps the invariant.
record Keeps (s t : ClientSession) : Type 0 where
  same_queue : t.queue ≡ s.queue
  same_writes : t.writes ≡ s.writes

Keeps-Inv : {s t : ClientSession} → Keeps s t → Inv s → Inv t
Keeps-Inv k i = record {
  one_write = rw (k.same_queue, k.same_writes) i.one_write;
  capped = rw k.same_queue i.capped;
}

dispatch-Keeps : (bytes : List ℕ) (s : ClientSession) → Keeps s (dispatch bytes s)
unfolding dispatch
dispatch-Keeps bytes s = ground arith

close_session-Keeps : (s : ClientSession) → Keeps s (close_session s)
unfolding close_session
close_session-Keeps s = ground arith

on_read-Keeps : (ec : Bool) (now : ℕ) (s : ClientSession) → Keeps s (on_read ec now s)
unfolding on_read read finish_read
on_read-Keeps ec now s = elim (Bool-cases (ec || s.close_received)) [
  | inl e ↦
      rw (e, on_read)
        (let k =
            close_session-Keeps (record s { cache = Cache.clear s.cache; read_error = true }) in
          record { same_queue = k.same_queue; same_writes = k.same_writes })
  | inr e ↦
      rw (e, on_read)
        (let k = dispatch-Keeps s.read_buffer s in
          record { same_queue = k.same_queue; same_writes = k.same_writes })
]

run_task-Inv : (t : Task) (s : ClientSession) → Inv s → Ensures Inv (run_task t s)
unfolding run_task
run_task-Inv handle_ping_task s i = unfold handle_ping in ground arith
run_task-Inv close_task s i = Keeps-Inv (close_session-Keeps s) i
run_task-Inv (handle_send_task call_id result_id callback body) s i =
    Sent-Inv i (handle_send-Sent call_id result_id callback body s)

next_task-Inv : (ts : List Task) (s : ClientSession) → Inv s → Ensures Inv (next_task ts s)
unfolding next_task
next_task-Inv [] s i = i
next_task-Inv (t ∷ ts) s i =
    run_task-Inv t (record s { posted = ts })
      (record { one_write = i.one_write; capped = i.capped })

complete_write-Inv :
    (ec : Bool) (n : ℕ) (s : ClientSession)
    → s.writes ≡ n
    → Inv s
    → Ensures Inv (complete_write ec n s)
unfolding complete_write
complete_write-Inv ec zero s e i = i
complete_write-Inv ec (suc n) s e i = on_write-Inv ec s s.queue.entries n refl e i

complete_read-Inv :
    (ec : Bool) (now : ℕ) (bytes : List ℕ) (n : ℕ) (s : ClientSession)
    → Inv s
    → Inv (complete_read ec now bytes n s)
unfolding complete_read
complete_read-Inv ec now bytes zero s i = i
complete_read-Inv ec now bytes (suc n) s i =
    Keeps-Inv (on_read-Keeps ec now (record s { reads = n; read_buffer = s.read_buffer ++ bytes }))
      (record { one_write = i.one_write; capped = i.capped })

on_control_callback-Inv :
    (kind : FrameType) (s : ClientSession) → Inv s → Inv (on_control_callback kind s)
unfolding on_control_callback
on_control_callback-Inv ping s i = i
on_control_callback-Inv pong s i = record { one_write = i.one_write; capped = i.capped }
on_control_callback-Inv close s i = record { one_write = i.one_write; capped = i.capped }

-- Every event has a result, with no use of an empty queue, and afterwards a write is outstanding
-- exactly if the queue holds a message.
pub step-Inv : (e : Event) (s : ClientSession) → Inv s → Ensures Inv (step e s)
unfolding step
step-Inv runs_task s i = next_task-Inv s.posted s i
step-Inv (pinged ec) s i = unfold on_ping in record { one_write = i.one_write; capped = i.capped }
step-Inv (written ec) s i = complete_write-Inv ec s.writes s refl i
step-Inv (received ec now bytes) s i = complete_read-Inv ec now bytes s.reads s i
step-Inv (controlled kind) s i = on_control_callback-Inv kind s i
step-Inv (uses_cache o) s i = record { one_write = i.one_write; capped = i.capped }
step-Inv (posts t) s i = record { one_write = i.one_write; capped = i.capped }
step-Inv promises s i = record { one_write = i.one_write; capped = i.capped }
step-Inv (drops a) s i = record { one_write = i.one_write; capped = i.capped }

-- `run` goes on with the session that a step returns.
pub run_bind :
    (P : ClientSession → Type 0) (r : Option ClientSession) (es : List Event)
    → Ensures (λ s. Ensures P (run es s)) r
    → Ensures P (elim r [ none ↦ none | some s ↦ run es s ])
run_bind P none es h = h
run_bind P (some s) es h = h

pub Ensures-map :
    (P Q : ClientSession → Type 0)
    → ((s : ClientSession) → P s → Q s)
    → (r : Option ClientSession) → Ensures P r
    → Ensures Q r
Ensures-map P Q f none h = h
Ensures-map P Q f (some s) h = f s h

pub both :
    (P Q : ClientSession → Type 0) (r : Option ClientSession)
    → Ensures P r
    → Ensures Q r
    → Ensures (λ s. P s × Q s) r
both P Q none p q = p
both P Q (some s) p q = (p, q)

pub run-Inv : (es : List Event) (s : ClientSession) → Inv s → Ensures Inv (run es s)
unfolding run
run-Inv [] s i = i
run-Inv (e ∷ es) s i =
    run_bind Inv (step e s) es
      (Ensures-map Inv (λ t. Ensures Inv (run es t)) (run-Inv es) (step e s) (step-Inv e s i))

-- So it is from the construction of the session on, whatever events follow: the session never calls
-- `front` or `pop_front` of an empty queue, and never has two writes outstanding.
pub run-client_session-Inv :
    (funcs : Map Bool) (es : List Event) → Ensures Inv (run es (client_session funcs))
run-client_session-Inv funcs es = run-Inv es _ (unfold client_session in ground arith)
