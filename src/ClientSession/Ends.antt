-- ===== src/ClientSession/Ends.antt =====
-- When a client session of include/radrpc/impl/client/client_session.hpp ends: the handlers of its operations
-- on the stream hold it, and those that are posted do not.
use radrpc.ClientSession.{
  FrameType, ClientSession, read, write, handle_send, handle_ping, close_session, fail_writes,
  next_write, on_write, on_read, dispatch, finish_read, on_control_callback, on_ping, Task,
  handle_ping_task, close_task, handle_send_task,
}
use radrpc.ClientSession.Loop.{
  Event, runs_task, pinged, written, received, controlled, uses_cache, posts, promises, drops,
  run_task, next_task, complete_write, complete_read, step, run,
}
use radrpc.ClientSession.Writes.{Ensures}
use radrpc.SendQueue
use radrpc.Prelude.{
  ℕ, zero, suc, ◌≤◌, ◌≡◌, refl, ◌==◌, Bool, true, false, ◌||◌, ◌&&◌, not, Option, none, some, List,
  [], ◌∷◌, ◌++◌, arith,
}

-- Whether a handler holds the session; `closed` is whether `on_close` has been called.
abbrev pub is_held : Bool → ClientSession → Bool
is_held closed s =
    s.m_ping || not (s.reads == 0) || not (s.writes == 0) || (s.m_close && not closed)

-- The reads that are outstanding fail.
abbrev pub fail_reads : ℕ → ℕ → List Event
fail_reads now zero = []
fail_reads now (suc n) = received true now [] ∷ fail_reads now n

-- No operation is outstanding but reads.
abbrev pub Reading : ℕ → ClientSession → Type 0
Reading n s = (s.m_ping ≡ false) × (s.writes ≡ 0) × (s.reads ≤ n)

complete_read-Reading :
    (now k n : ℕ) (s : ClientSession)
    → s.reads ≡ k
    → Reading (suc n) s
    → Reading n (complete_read true now [] k s)
unfolding complete_read on_read close_session
complete_read-Reading now zero n s e r = (r.0, r.1, omega (arith, e))
complete_read-Reading now (suc k) n s e r = ground (arith, r, e)

fail_reads-ends :
    (now n : ℕ) (s : ClientSession)
    → Reading n s
    → Ensures (λ t. is_held true t ≡ false) (run (fail_reads now n) s)
unfolding run step
fail_reads-ends now zero s r = ground (arith, r)
fail_reads-ends now (suc n) s r =
    fail_reads-ends now n (complete_read true now [] s.reads s)
      (complete_read-Reading now s.reads n s refl r)

-- The operations fail, or are over: the write, the ping and the reads.
abbrev pub aborts : ℕ → ℕ → List Event
aborts now n = written true ∷ pinged true ∷ fail_reads now n

abort_write :
    (k n : ℕ) (s : ClientSession)
    → s.writes ≡ k
    → k ≤ 1
    → s.reads ≤ n
    → Ensures (λ t. (t.writes ≡ 0) × (t.reads ≤ n)) (complete_write true k s)
unfolding complete_write on_write fail_writes close_session
abort_write zero n s e h r = (e, r)
abort_write (suc k) n s e h r = ground (arith, e, h, r)

aborts-then :
    (now n : ℕ) (r : Option ClientSession)
    → Ensures (λ t. (t.writes ≡ 0) × (t.reads ≤ n)) r
    → Ensures
        (λ t. is_held true t ≡ false)
        (elim r [ none ↦ none | some t ↦ run (pinged true ∷ fail_reads now n) t ])
unfolding run step on_ping
aborts-then now n none h = h
aborts-then now n (some t) (w, r) = fail_reads-ends now n (on_ping true t) (refl, w, r)

-- Once the operations that are outstanding have failed, and the stream is closed, nothing holds the session.
pub aborts-ends :
    (now n : ℕ) (s : ClientSession)
    → s.writes ≤ 1
    → s.reads ≤ n
    → Ensures (λ t. is_held true t ≡ false) (run (aborts now n) s)
unfolding run step
aborts-ends now n s w r =
    aborts-then now n (complete_write true s.writes s) (abort_write s.writes n s refl w r)

-- The predicate holds of the result, if there is one.
abbrev pub May : (ClientSession → Type 0) → Option ClientSession → Type 0
May P none = Unit
May P (some s) = P s

-- The reads are not more than `k`.
abbrev pub AtMost : ℕ → ClientSession → Type 0
AtMost k s = s.reads ≤ k

write-AtMost : (k : ℕ) (s : ClientSession) → AtMost k s → May (AtMost k) (write s)
unfolding write
write-AtMost k s h = ground (arith, h)

handle_send-AtMost :
    (call_id result_id callback : ℕ) (body : List ℕ) (k : ℕ) (s : ClientSession)
    → AtMost k s
    → May (AtMost k) (handle_send call_id result_id callback body s)
unfolding handle_send write
handle_send-AtMost call_id result_id callback body k s h = ground (
  arith,
  h,
  write-AtMost k (record s { queue = (SendQueue.queue call_id result_id callback body s.queue).1 })
      h,
)

next_task-AtMost :
    (ts : List Task) (k : ℕ) (s : ClientSession) → AtMost k s → May (AtMost k) (next_task ts s)
unfolding next_task run_task handle_ping close_session
next_task-AtMost [] k s h = h
next_task-AtMost (handle_ping_task ∷ ts) k s h = ground (arith, h)
next_task-AtMost (close_task ∷ ts) k s h = ground (arith, h)
next_task-AtMost (handle_send_task call_id result_id callback body ∷ ts) k s h =
    handle_send-AtMost call_id result_id callback body k (record s { posted = ts }) h

next_write-AtMost :
    (r : Option (Bool × SendQueue.DataQueue × List SendQueue.Promise)) (k : ℕ) (s : ClientSession)
    → AtMost k s
    → May (AtMost k) (next_write r s)
unfolding next_write write
next_write-AtMost none k s h = tt
next_write-AtMost (some (more, q, ps)) k s h =
    ground (arith, h, write-AtMost k (record s { queue = q; promises = ps }) h)

complete_write-AtMost :
    (ec : Bool) (m k : ℕ) (s : ClientSession) → AtMost k s → May (AtMost k) (complete_write ec m s)
unfolding complete_write on_write fail_writes close_session
complete_write-AtMost ec zero k s h = h
complete_write-AtMost ec (suc m) k s h = ground (
  arith,
  h,
  next_write-AtMost (SendQueue.write_next s.queue s.promises) k (record s { writes = m }) h,
)

dispatch-reads : (bytes : List ℕ) (s : ClientSession) → (dispatch bytes s).reads ≡ s.reads
unfolding dispatch
dispatch-reads bytes s = ground arith

complete_read-AtMost :
    (ec : Bool) (now : ℕ) (bytes : List ℕ) (m k : ℕ) (s : ClientSession)
    → s.reads ≡ m
    → AtMost k s
    → AtMost k (complete_read ec now bytes m s)
unfolding complete_read on_read close_session finish_read read
complete_read-AtMost ec now bytes zero k s e h = h
complete_read-AtMost ec now bytes (suc m) k s e h = ground (
  arith,
  dispatch-reads (s.read_buffer ++ bytes)
      (record s { reads = m; read_buffer = s.read_buffer ++ bytes }),
  e,
  h,
)

step-AtMost : (e : Event) (k : ℕ) (s : ClientSession) → AtMost k s → May (AtMost k) (step e s)
unfolding step on_ping on_control_callback
step-AtMost runs_task k s h = next_task-AtMost s.posted k s h
step-AtMost (pinged ec) k s h = h
step-AtMost (written ec) k s h = complete_write-AtMost ec s.writes k s h
step-AtMost (received ec now bytes) k s h = complete_read-AtMost ec now bytes s.reads k s refl h
step-AtMost (controlled FrameType.close) k s h = h
step-AtMost (controlled FrameType.ping) k s h = h
step-AtMost (controlled FrameType.pong) k s h = h
step-AtMost (uses_cache o) k s h = h
step-AtMost (posts t) k s h = h
step-AtMost promises k s h = h
step-AtMost (drops a) k s h = h

then-AtMost :
    (es : List Event) (k : ℕ)
    → ((s : ClientSession) → AtMost k s → May (AtMost k) (run es s))
    → (r : Option ClientSession) → May (AtMost k) r
    → May (AtMost k) (elim r [ none ↦ none | some s ↦ run es s ])
then-AtMost es k later none h = tt
then-AtMost es k later (some s) h = later s h

-- No event gives a session more reads.
pub run-AtMost :
    (es : List Event) (k : ℕ) (s : ClientSession) → AtMost k s → May (AtMost k) (run es s)
unfolding run
run-AtMost [] k s h = h
run-AtMost (e ∷ es) k s h = then-AtMost es k (run-AtMost es k) (step e s) (step-AtMost e k s h)
