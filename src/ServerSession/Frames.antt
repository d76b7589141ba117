-- ===== src/ServerSession/Frames.antt =====
-- What the handlers of a server session leave alone: whether it is established, and, before its
-- acceptance, that it neither reads nor waits.

use radrpc.Header.{split_packet}
use radrpc.ServerSession.{
  ServerSession, DataPush, close_session, shutdown, call_function, after_call, call, finish_read,
  read, on_read,
}
use radrpc.ServerSession.Accept.{
  close, ping, pong, TimerEnd, expired, aborted, failed, on_timer, on_expired, wait_timer,
  on_control_callback,
}
use radrpc.ServerSession.Loop.{
  Event, sends, runs_send, written, received, timed, controlled, step, send, next_send,
  complete_write, complete_read, complete_wait,
}
use radrpc.ServerSession.Outcomes.{
  Sent, refused, queued, issued, handle_send-Sent, Wrote, dropped, last, next, on_write-Wrote,
}
use radrpc.ServerSession.Bounded.{Inv, Ensures, in_flight}
use radrpc.Prelude.{
  ℕ, zero, suc, ◌≡◌, refl, ap, ◌∙◌, Bool, true, ◌||◌, ◌&&◌, not, Option, none, some, List, [], ◌∷◌,
  ◌++◌, lookup, arith, Bool-cases, Option-cases, inl, inr,
}

-- A handler that starts neither a read nor a wait.
pub record Frame (s t : ServerSession) : Type 0 where
  pub same_established : t.established ≡ s.established
  pub same_reads : t.reads ≡ s.reads
  pub same_waits : t.waits ≡ s.waits

pub Ensures-map :
    (P Q : ServerSession → Type 0)
    → ((s : ServerSession) → P s → Q s)
    → (r : Option ServerSession) → Ensures P r
    → Ensures Q r
Ensures-map P Q f none h = h
Ensures-map P Q f (some s) h = f s h

Frame-from :
    (s s' : ServerSession) (r : Option ServerSession)
    → s'.established ≡ s.established
    → s'.reads ≡ s.reads
    → s'.waits ≡ s.waits
    → Ensures (Frame s') r
    → Ensures (Frame s) r
Frame-from s s' r e d w h =
    Ensures-map (Frame s') (Frame s)
      (λ t f. record {
        same_established = f.same_established ∙ e;
        same_reads = f.same_reads ∙ d;
        same_waits = f.same_waits ∙ w;
      })
      r h

shutdown-Frame : (s : ServerSession) → Frame s (shutdown s)
unfolding shutdown
shutdown-Frame s = ground arith

close_session-Frame : (now : ℕ) (s : ServerSession) → Frame s (close_session now s)
unfolding close_session
close_session-Frame now s = ground (arith, shutdown-Frame s)

Sent-Frame :
    {d : DataPush} {s : ServerSession} {r : Option ServerSession} → Sent d s r → Ensures (Frame s) r
Sent-Frame (refused c e) =
    rw e (record { same_established = refl; same_reads = refl; same_waits = refl })
Sent-Frame (queued c n e) =
    rw e (record { same_established = refl; same_reads = refl; same_waits = refl })
Sent-Frame (issued c n e) =
    rw e (record { same_established = refl; same_reads = refl; same_waits = refl })

Wrote-Frame :
    {ec : Bool} {now : ℕ} {ds : List DataPush} {s : ServerSession} {r : Option ServerSession}
    → Wrote ec now ds s r
    → Ensures (Frame s) r
Wrote-Frame {now = now} {s = s} (dropped f e) =
    let q = close_session-Frame now (record s { write_error = true; queue = [] }) in
    rw e (record {
      same_established = q.same_established;
      same_reads = q.same_reads;
      same_waits = q.same_waits;
    })
Wrote-Frame (last f n e) =
    rw e (record { same_established = refl; same_reads = refl; same_waits = refl })
Wrote-Frame (next x xs f n e) =
    rw e (record { same_established = refl; same_reads = refl; same_waits = refl })

complete_write-Frame :
    (ec : Bool) (now n : ℕ) (ds : List DataPush) (s : ServerSession)
    → s.writes ≡ n
    → s.queue ≡ ds
    → Inv s
    → Ensures (Frame s) (complete_write ec now n s)
unfolding complete_write
complete_write-Frame ec now zero ds s w e i = record {
  same_established = refl;
  same_reads = refl;
  same_waits = refl;
}
complete_write-Frame ec now (suc n) [] s w e i = absurd (omega (arith, ap in_flight e, i.one_write))
complete_write-Frame ec now (suc n) (d ∷ ds) s w e i =
    Frame-from s (record s { writes = n }) _ refl refl refl
      (Wrote-Frame (on_write-Wrote ec now d ds (record s { writes = n }) e))

abbrev pub Same : ServerSession → ServerSession → Type 0
Same s t = t.established ≡ s.established

next_send-Frame : (ds : List DataPush) (s : ServerSession) → Ensures (Frame s) (next_send ds s)
unfolding next_send
next_send-Frame [] s = record { same_established = refl; same_reads = refl; same_waits = refl }
next_send-Frame (d ∷ ds) s =
    Frame-from s (record s { posted = ds }) _ refl refl refl
      (Sent-Frame (handle_send-Sent d (record s { posted = ds })))

after_call-Same : (now : ℕ) (s : ServerSession) → Ensures (Same s) (after_call now s)
unfolding after_call
after_call-Same now s =
    let d : DataPush = record { header = s.header; body = s.response } in
    let k =
      Ensures-map (Frame (record s { response = [] })) (Same s) (λ t f. f.same_established) _
        (Sent-Frame (handle_send-Sent d (record s { response = [] }))) in
    let c = (close_session-Frame now s).same_established in ground (arith, k, c)

call_function-Same : (now : ℕ) (s : ServerSession) → Ensures (Same s) (call_function now s)
unfolding call_function
call_function-Same now s = elim (Option-cases (split_packet s.receive_buffer)) [
  | inl e ↦ rw (e, call_function) refl
  | inr ((h, body), e) ↦
      let s' = record s { header = h; receive_buffer = body } in
      elim (Option-cases (lookup h.call_id s.bound_funcs)) [
        | inl e' ↦ rw (e, e', call_function) refl
        | inr (none, e') ↦ rw (e, e', call_function) refl
        | inr (some f, e') ↦ rw (e, e', call_function) (after_call-Same now (call f body s'))
      ]
]

finish_read-Same :
    (s : ServerSession) (r : Option ServerSession)
    → Ensures (Same s) r
    → Ensures (Same s) (finish_read r)
unfolding finish_read read
finish_read-Same s none h = h
finish_read-Same s (some t) h = h

complete_read-Same :
    (ec : Bool) (now : ℕ) (bytes : List ℕ) (n : ℕ) (s : ServerSession)
    → Ensures (Same s) (complete_read ec now bytes n s)
unfolding complete_read on_read
complete_read-Same ec now bytes zero s = refl
complete_read-Same ec now bytes (suc n) s =
    let s' = record s { reads = n; receive_buffer = s.receive_buffer ++ bytes } in
    elim (Bool-cases (ec || s.close_received)) [
      | inl e ↦
          rw (e, on_read)
            (close_session-Frame now (record s' { read_error = true })).same_established
      | inr e ↦ elim (Bool-cases (not s.m_close && not s.write_error)) [
        | inl o ↦
            rw (e, o, on_read)
              (finish_read-Same s (call_function now s') (call_function-Same now s'))
        | inr o ↦ rw (e, o, on_read) (finish_read-Same s (some s') refl)
      ]
    ]

complete_wait-Same :
    (ec : TimerEnd) (is_open : Bool) (now n : ℕ) (s : ServerSession)
    → Same s (complete_wait ec is_open now n s)
unfolding complete_wait on_timer on_expired wait_timer shutdown
complete_wait-Same ec is_open now zero s = refl
complete_wait-Same failed is_open now (suc n) s = refl
complete_wait-Same expired is_open now (suc n) s = ground arith
complete_wait-Same aborted is_open now (suc n) s = ground arith

pub step-established : (e : Event) (s : ServerSession) → Inv s → Ensures (Same s) (step e s)
unfolding step send on_control_callback
step-established (sends d) s i = refl
step-established runs_send s i =
    Ensures-map (Frame s) (Same s) (λ t f. f.same_established) _ (next_send-Frame s.posted s)
step-established (written ec now) s i =
    Ensures-map (Frame s) (Same s) (λ t f. f.same_established) _
      (complete_write-Frame ec now s.writes s.queue s refl refl i)
step-established (received ec now bytes) s i = complete_read-Same ec now bytes s.reads s
step-established (timed ec is_open now) s i = complete_wait-Same ec is_open now s.waits s
step-established (controlled close now) s i = refl
step-established (controlled ping now) s i = refl
step-established (controlled pong now) s i = refl

-- Nothing is read or waited for.
abbrev pub Idle : ServerSession → Type 0
Idle s = (s.reads ≡ 0) × (s.waits ≡ 0)

Frame-Idle :
    (s : ServerSession) (r : Option ServerSession) → Idle s → Ensures (Frame s) r → Ensures Idle r
Frame-Idle s r (d, w) h =
    Ensures-map (Frame s) Idle (λ t f. (f.same_reads ∙ d, f.same_waits ∙ w)) r h

pub step-Idle : (e : Event) (s : ServerSession) → Inv s → Idle s → Ensures Idle (step e s)
unfolding step send on_control_callback complete_read complete_wait
step-Idle (sends d) s i h = h
step-Idle runs_send s i h = Frame-Idle s _ h (next_send-Frame s.posted s)
step-Idle (written ec now) s i h =
    Frame-Idle s _ h (complete_write-Frame ec now s.writes s.queue s refl refl i)
step-Idle (received ec now bytes) s i h = rw h.0 (refl, h.1)
step-Idle (timed ec is_open now) s i h = rw h.1 (h.0, refl)
step-Idle (controlled close now) s i h = h
step-Idle (controlled ping now) s i h = h
step-Idle (controlled pong now) s i h = h
