-- ===== src/ServerSession/Invariant.antt =====
-- The invariant of a server session holds from its acceptance on, after any events.
use radrpc.Types.{SessionConfig}
use radrpc.ServerSession.{
  ServerSession, DataPush, Handler, async_read, async_ping, async_wait, start, ping_send, on_read,
  shutdown, close_session, call_function, finish_read, read,
}
use radrpc.ServerSession.Accept.{
  FrameType, close, ping, pong, TimerEnd, expired, aborted, failed, session_accept, on_accept,
  on_timer, on_expired, is_next, wait_timer, on_control_callback,
}
use radrpc.ServerSession.Loop.{
  Event, sends, runs_send, written, received, timed, controlled, step, run, send, next_send,
  complete_read, complete_wait,
}
use radrpc.ServerSession.Outcomes.{handle_send-Sent}
use radrpc.ServerSession.Bounded.{
  closes-append, Bounded, Inv, Ensures, shutdown-Bounded, close_session-Bounded, Sent-Bounded,
  complete_write-Bounded, call_function-Bounded,
}
use radrpc.Prelude.{
  ℕ, zero, suc, ◌≤◌, ◌≡◌, refl, Bool, true, false, ◌||◌, ◌&&◌, not, Option, none, some, List, [],
  ◌∷◌, ◌++◌, Map, arith, Bool-cases, inl, inr,
}

weaken : {r w : ℕ} (s : ServerSession) → r ≤ 1 → w ≤ 1 → Bounded r w s → Inv s
weaken s hr hw i = record {
  one_write = i.one_write;
  capped = i.capped;
  few_reads = omega (arith, i.few_reads);
  few_waits = omega (arith, i.few_waits);
  one_close = i.one_close;
}

finish_read-Inv : (t : Option ServerSession) → Ensures (Bounded 0 1) t → Ensures Inv (finish_read t)
unfolding finish_read read
finish_read-Inv none h = h
finish_read-Inv (some s) i = record {
  one_write = i.one_write;
  capped = i.capped;
  few_reads = omega (arith, i.few_reads);
  few_waits = i.few_waits;
  one_close = omega (arith, i.one_close, closes-append s.started (async_read ∷ []));
}

on_read-Inv :
    (ec : Bool) (now : ℕ) (s : ServerSession) → Bounded 0 1 s → Ensures Inv (on_read ec now s)
unfolding on_read
on_read-Inv ec now s i = elim (Bool-cases (ec || s.close_received)) [
  | inl e ↦
      rw (e, on_read)
        (let s' = record s { read_error = true } in
          weaken (close_session now s') (omega arith) (omega arith) (
            close_session-Bounded now s' (record {
              one_write = i.one_write;
              capped = i.capped;
              few_reads = i.few_reads;
              few_waits = i.few_waits;
              one_close = i.one_close;
            })))
  | inr e ↦ elim (Bool-cases (not s.m_close && not s.write_error)) [
    | inl o ↦
        rw (e, o, on_read) (finish_read-Inv (call_function now s) (call_function-Bounded now s i))
    | inr o ↦ rw (e, o, on_read) (finish_read-Inv (some s) i)
  ]
]

complete_read-Inv :
    (ec : Bool) (now : ℕ) (bytes : List ℕ) (n : ℕ) (s : ServerSession)
    → s.reads ≡ n
    → Inv s
    → Ensures Inv (complete_read ec now bytes n s)
unfolding complete_read
complete_read-Inv ec now bytes zero s e i = i
complete_read-Inv ec now bytes (suc n) s e i =
    on_read-Inv ec now (record s { reads = n; receive_buffer = s.receive_buffer ++ bytes })
      (record {
        one_write = i.one_write;
        capped = i.capped;
        few_reads = omega (arith, i.few_reads, e);
        few_waits = i.few_waits;
        one_close = i.one_close;
      })

wait_timer-Inv : (now : ℕ) (s : ServerSession) → Bounded 1 0 s → Inv (wait_timer now s)
unfolding wait_timer
wait_timer-Inv now s i = record {
  one_write = i.one_write;
  capped = i.capped;
  few_reads = i.few_reads;
  few_waits = omega (arith, i.few_waits);
  one_close = omega (arith, i.one_close, closes-append s.started (async_wait ∷ []));
}

on_expired-Inv :
    (is_open : Bool) (now : ℕ) (s : ServerSession) → Bounded 1 0 s → Inv (on_expired is_open now s)
unfolding on_expired
on_expired-Inv is_open now s i = elim (Bool-cases (is_open && is_next s.m_ping_state)) [
  | inl e ↦
      let s' = start async_ping (record s { m_ping_state = ping_send }) in
      rw (e, on_expired)
        (wait_timer-Inv now s' (record {
          one_write = i.one_write;
          capped = i.capped;
          few_reads = i.few_reads;
          few_waits = i.few_waits;
          one_close = omega (arith, i.one_close, closes-append s.started (async_ping ∷ []));
        }))
  | inr e ↦
      rw (e, on_expired) (weaken (shutdown s) (omega arith) (omega arith) (shutdown-Bounded s i))
]

on_timer-Inv :
    (ec : TimerEnd) (is_open : Bool) (now : ℕ) (s : ServerSession)
    → Bounded 1 0 s
    → Inv (on_timer ec is_open now s)
unfolding on_timer
on_timer-Inv failed is_open now s i = weaken s (omega arith) (omega arith) i
on_timer-Inv expired is_open now s i =
    ground (arith, wait_timer-Inv now s i, on_expired-Inv is_open now s i)
on_timer-Inv aborted is_open now s i =
    ground (arith, wait_timer-Inv now s i, on_expired-Inv is_open now s i)

complete_wait-Inv :
    (ec : TimerEnd) (is_open : Bool) (now n : ℕ) (s : ServerSession)
    → s.waits ≡ n
    → Inv s
    → Inv (complete_wait ec is_open now n s)
unfolding complete_wait
complete_wait-Inv ec is_open now zero s e i = i
complete_wait-Inv ec is_open now (suc n) s e i =
    on_timer-Inv ec is_open now (record s { waits = n })
      (record {
        one_write = i.one_write;
        capped = i.capped;
        few_reads = i.few_reads;
        few_waits = omega (arith, i.few_waits, e);
        one_close = i.one_close;
      })

next_send-Inv : (ds : List DataPush) (s : ServerSession) → Inv s → Ensures Inv (next_send ds s)
unfolding next_send
next_send-Inv [] s i = i
next_send-Inv (d ∷ ds) s i =
    Sent-Bounded
      (record {
        one_write = i.one_write;
        capped = i.capped;
        few_reads = i.few_reads;
        few_waits = i.few_waits;
        one_close = i.one_close;
      })
      (handle_send-Sent d (record s { posted = ds }))

on_control_callback-Inv :
    (kind : FrameType) (now : ℕ) (s : ServerSession) → Inv s → Inv (on_control_callback kind now s)
unfolding on_control_callback
on_control_callback-Inv close now s i = ground arith
on_control_callback-Inv ping now s i = ground arith
on_control_callback-Inv pong now s i = ground arith

pub step-Inv : (e : Event) (s : ServerSession) → Inv s → Ensures Inv (step e s)
unfolding step send
step-Inv (sends d) s i = ground arith
step-Inv runs_send s i = next_send-Inv s.posted s i
step-Inv (written ec now) s i = complete_write-Bounded ec now s.writes s.queue s refl refl i
step-Inv (received ec now bytes) s i = complete_read-Inv ec now bytes s.reads s refl i
step-Inv (timed ec is_open now) s i = complete_wait-Inv ec is_open now s.waits s refl i
step-Inv (controlled kind now) s i = on_control_callback-Inv kind now s i

run_bind :
    (es : List Event)
    → ((s : ServerSession) → Inv s → Ensures Inv (run es s))
    → (t : Option ServerSession) → Ensures Inv t
    → Ensures Inv (elim t [ none ↦ none | some s ↦ run es s ])
run_bind es f none h = h
run_bind es f (some s) h = f s h

pub run-Inv : (es : List Event) (s : ServerSession) → Inv s → Ensures Inv (run es s)
unfolding run
run-Inv [] s i = i
run-Inv (e ∷ es) s i = run_bind es (run-Inv es) (step e s) (step-Inv e s i)

pub on_accept-Inv :
    (funcs : Map (Option Handler)) (config : SessionConfig) (bytes now : ℕ)
    → Inv (on_accept false now (session_accept funcs config bytes))
unfolding on_accept session_accept wait_timer read
on_accept-Inv funcs config bytes now = ground arith

-- From its acceptance on, after any events, a server session never uses the front of an empty queue;
-- a write is outstanding exactly if its queue holds a message, and never two writes, two reads or two
-- waits on its timer are; its queue is within its limit; and it asks its stream to close at most
-- once, exactly if `m_close` is set.
pub run-on_accept-Inv :
    (funcs : Map (Option Handler)) (config : SessionConfig) (bytes now : ℕ) (es : List Event)
    → Ensures Inv (run es (on_accept false now (session_accept funcs config bytes)))
run-on_accept-Inv funcs config bytes now es = run-Inv es _ (on_accept-Inv funcs config bytes now)
