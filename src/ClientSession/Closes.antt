-- ===== src/ClientSession/Closes.antt =====
-- A handler that is posted is run once the IO thread has run those before it: what `close_session`
-- relies on.

use radrpc.SendQueue.{DataSend}
use radrpc.ClientSession.{
  ClientSession, close, ping, pong, Task, handle_ping_task, close_task, handle_send_task,
  handle_ping, on_ping, close_session, on_control_callback, fail_writes, dispatch, read,
  finish_read, on_read,
}
use radrpc.ClientSession.Loop.{
  Event, runs_task, pinged, written, received, controlled, uses_cache, posts, promises, drops, step,
  run, next_task, run_task, complete_write, complete_read, post,
}
use radrpc.ClientSession.Outcomes.{
  Sent, refused, queued, issued, handle_send-Sent, Wrote, failed, last, next, on_write-Wrote,
}
use radrpc.ClientSession.Writes.{Inv, Ensures, Ensures-map, both, run_bind, in_flight, step-Inv}
use radrpc.Prelude.{
  ℕ, zero, suc, ◌<◌, ◌≡◌, ◌⊎◌, refl, ap, ◌∙◌, Bool, true, ◌||◌, Option, some, List, [], ◌∷◌, ◌++◌,
  get_elem?, get_elem?-append_left, lt_of_get_elem?, arith, Bool-cases, inl, inr,
}

count_run : Event → ℕ → ℕ
count_run runs_task k = suc k
count_run _ k = k

-- How often the IO thread runs a posted handler.
unfoldable pub runs : List Event → ℕ
unfolding count_run
runs [] = 0
runs (e ∷ es) = count_run e (runs es)

-- The stream was asked to close, or the server has closed.
abbrev pub is_closing : ClientSession → Bool
is_closing s = s.m_close || s.close_received

-- A handler that posts nothing, and closes at most.
record Later (s t : ClientSession) : Type 0 where
  stays : is_closing s ≡ true → is_closing t ≡ true
  same_posted : t.posted ≡ s.posted

close_session-Later : (s : ClientSession) → Later s (close_session s)
unfolding close_session
close_session-Later s = ground arith

close_session-is_closing : (s : ClientSession) → is_closing (close_session s) ≡ true
unfolding close_session
close_session-is_closing s = ground arith

dispatch-Later : (bytes : List ℕ) (s : ClientSession) → Later s (dispatch bytes s)
unfolding dispatch
dispatch-Later bytes s = ground arith

complete_read-Later :
    (ec : Bool) (now : ℕ) (bytes : List ℕ) (n : ℕ) (s : ClientSession)
    → Later s (complete_read ec now bytes n s)
unfolding complete_read on_read finish_read read
complete_read-Later ec now bytes zero s = ground arith
complete_read-Later ec now bytes (suc n) s = elim (Bool-cases (ec || s.close_received)) [
  | inl e ↦ rw (e, on_read) (unfold close_session in ground arith)
  | inr e ↦
      rw (e, on_read)
        (let d =
            dispatch-Later (s.read_buffer ++ bytes)
              (record s { reads = n; read_buffer = s.read_buffer ++ bytes }) in
          record { stays = d.stays; same_posted = d.same_posted })
]

Sent-Later :
    {d : DataSend} {s : ClientSession} {r : Option ClientSession} → Sent d s r → Ensures (Later s) r
Sent-Later (refused c e) = rw e (record { stays = λ h. h; same_posted = refl })
Sent-Later (queued c n e) = rw e (record { stays = λ h. h; same_posted = refl })
Sent-Later (issued c n e) = rw e (record { stays = λ h. h; same_posted = refl })

fail_writes-Later : (s : ClientSession) → Later s (fail_writes s)
unfolding fail_writes close_session
fail_writes-Later s = ground arith

Wrote-Later :
    {ec : Bool} {d : DataSend} {ds : List DataSend} {s : ClientSession} {r : Option ClientSession}
    → Wrote ec d ds s r
    → Ensures (Later s) r
Wrote-Later {s = s} (failed f e) = rw e (fail_writes-Later s)
Wrote-Later (last f n e) = rw e (record { stays = λ h. h; same_posted = refl })
Wrote-Later (next x xs f n e) = rw e (record { stays = λ h. h; same_posted = refl })

complete_write-Later :
    (ec : Bool) (n : ℕ) (es : List DataSend) (s : ClientSession)
    → s.writes ≡ n
    → s.queue.entries ≡ es
    → Inv s
    → Ensures (Later s) (complete_write ec n s)
unfolding complete_write
complete_write-Later ec zero es s w e i = record { stays = λ h. h; same_posted = refl }
complete_write-Later ec (suc n) [] s w e i = absurd (omega (arith, ap in_flight e, i.one_write))
complete_write-Later ec (suc n) (d ∷ ds) s w e i =
    let k = on_write-Wrote ec d ds (record s { writes = n }) e in
    Ensures-map (Later (record s { writes = n })) (Later s)
      (λ t l. record { stays = l.stays; same_posted = l.same_posted }) _ (Wrote-Later k)

run_task-Later : (t : Task) (s : ClientSession) → Ensures (Later s) (run_task t s)
unfolding run_task
run_task-Later handle_ping_task s = unfold handle_ping in ground arith
run_task-Later close_task s = close_session-Later s
run_task-Later (handle_send_task call_id result_id callback body) s =
    Sent-Later (handle_send-Sent call_id result_id callback body s)

-- The session is closing, or the posted `close_session` is among the next `k` handlers.
abbrev pub Pending : ℕ → ClientSession → Type 0
Pending k s = (is_closing s ≡ true) ⊎ ((n : ℕ) × (n < k) × (get_elem? s.posted n ≡ some close_task))

Later-Pending : (k : ℕ) (s t : ClientSession) → Pending k s → Later s t → Pending k t
Later-Pending k s t (inl c) l = inl (l.stays c)
Later-Pending k s t (inr (n, h, e)) l = inr (n, h, rw l.same_posted e)

-- The first handler is the one that closes.
run_task-closes :
    (k : ℕ) (t : Task) (s : ClientSession)
    → some t ≡ some close_task
    → Ensures (Pending k) (run_task t s)
unfolding run_task
run_task-closes k handle_ping_task s e = absurd cc
run_task-closes k close_task s e = inl (close_session-is_closing s)
run_task-closes k (handle_send_task call_id result_id callback body) s e = absurd cc

next_task-Pending :
    (k : ℕ) (ts : List Task) (s : ClientSession)
    → s.posted ≡ ts
    → Pending (suc k) s
    → Ensures (Pending k) (next_task ts s)
unfolding next_task
next_task-Pending k [] s e (inl c) = inl c
next_task-Pending k [] s e (inr (n, h, p)) = absurd (let q = rw e at p in cc)
next_task-Pending k (t ∷ ts) s e (inl c) =
    Ensures-map (Later (record s { posted = ts })) (Pending k) (λ u l. inl (l.stays c)) _
      (run_task-Later t (record s { posted = ts }))
next_task-Pending k (t ∷ ts) s e (inr (zero, h, p)) =
    run_task-closes k t (record s { posted = ts }) (rw e at p)
next_task-Pending k (t ∷ ts) s e (inr (suc n, h, p)) =
    let q : get_elem? ts n ≡ some close_task = rw e at p in
    Ensures-map (Later (record s { posted = ts })) (Pending k)
      (λ u l. inr (n, omega (arith, h), rw l.same_posted q)) _
      (run_task-Later t (record s { posted = ts }))

Pending-posts : (k : ℕ) (t : Task) (s : ClientSession) → Pending k s → Pending k (post t s)
Pending-posts k t s (inl c) = inl c
Pending-posts k t s (inr (n, h, e)) =
    inr (n, h, get_elem?-append_left s.posted (t ∷ []) n (lt_of_get_elem? s.posted n e) ∙ e)

step-Pending :
    (e : Event) (k : ℕ) (s : ClientSession)
    → Inv s
    → Pending (count_run e k) s
    → Ensures (Pending k) (step e s)
unfolding step count_run on_ping on_control_callback
step-Pending runs_task k s i p = next_task-Pending k s.posted s refl p
step-Pending (pinged ec) k s i p =
    Later-Pending k s (on_ping ec s) p (record { stays = λ h. h; same_posted = refl })
step-Pending (written ec) k s i p =
    Ensures-map (Later s) (Pending k) (λ t. Later-Pending k s t p) _
      (complete_write-Later ec s.writes s.queue.entries s refl refl i)
step-Pending (received ec now bytes) k s i p =
    Later-Pending k s _ p (complete_read-Later ec now bytes s.reads s)
step-Pending (controlled close) k s i p =
    Later-Pending k s (record s { close_received = true }) p
      (record { stays = λ h. ground arith; same_posted = refl })
step-Pending (controlled ping) k s i p = p
step-Pending (controlled pong) k s i p =
    Later-Pending k s (on_control_callback pong s) p (record { stays = λ h. h; same_posted = refl })
step-Pending (uses_cache o) k s i p = p
step-Pending (posts t) k s i p = Pending-posts k t s p
step-Pending promises k s i p = p
step-Pending (drops a) k s i p = p

-- If the IO thread runs a handler often enough, it closes the session.
pub run-is_closing :
    (es : List Event) (s : ClientSession)
    → Inv s
    → Pending (runs es) s
    → Ensures (λ t. (is_closing t ≡ true) × Inv t) (run es s)
unfolding run runs
run-is_closing [] s i (inl c) = (c, i)
run-is_closing [] s i (inr (n, h, e)) = absurd (omega (arith, h))
run-is_closing (e ∷ es) s i p =
    run_bind (λ t. (is_closing t ≡ true) × Inv t) (step e s) es
      (Ensures-map (λ t. Inv t × Pending (runs es) t) _ (λ t (j, q). run-is_closing es t j q)
        (step e s)
        (both Inv (Pending (runs es)) (step e s) (step-Inv e s i) (step-Pending e (runs es) s i p)))
