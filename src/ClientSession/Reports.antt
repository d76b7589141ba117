-- ===== src/ClientSession/Reports.antt =====
-- What `send` tells its caller when the message is dropped.
use radrpc.Types.{Duration}
use radrpc.SendQueue
use radrpc.SendQueue.Promises.{is_owned, is_fulfilled, fail_all_last}
use radrpc.SendQueue.{DataSend, Promise, pending, expired, fulfilled, data_send}
use radrpc.Operations.{Tls}
use radrpc.ClientSession.{
  ClientSession, Action, handle_send_task, close_session, fail_writes, is_closed, on_write,
}
use radrpc.ClientSession.Loop.{
  Event, runs_task, written, step, run, next_task, run_task, complete_write, post, drop_promise,
  new_promise,
}
use radrpc.ClientSession.Calls.{ErrorCode, send, write_out, is_ready}
use radrpc.ClientSession.Outcomes.{Sent, refused, queued, issued, handle_send-Sent, is_full, pushed}
use radrpc.ClientSession.Writes.{Inv, in_flight_of_ne}
use radrpc.ClientSession.Stream.{issued_packets, close_session-Quiet}
use radrpc.Prelude.{
  ℕ, ◌≡◌, ◌≢◌, refl, ap, ◌∙◌, true, false, ◌||◌, Option, none, some, List, [], ◌∷◌, ◌++◌, length,
  get_elem?, get_elem?-append_end, arith,
}

-- What happens while the caller waits: the posted message is queued, then the write of an earlier
-- message fails.
abbrev pub earlier_write_fails : List Event
earlier_write_fails = runs_task ∷ written true ∷ []

-- The session after that.
abbrev after_failure : DataSend → ClientSession → ClientSession
after_failure d s = fail_writes (record (pushed d s) { writes = 0 })

behind : (s : ClientSession) (d : DataSend) → s.queue.entries ≢ [] → Inv s → s.writes ≡ 1
behind s d n i = i.one_write ∙ in_flight_of_ne s.queue.entries n

Sent-queued :
    {d : DataSend} {s : ClientSession} {r : Option ClientSession}
    → is_closed s || is_full s ≡ false
    → s.queue.entries ≢ []
    → Sent d s r
    → r ≡ some (pushed d s)
Sent-queued o n (refused c e) = cc
Sent-queued o n (queued c m e) = e
Sent-queued o n (issued c m e) = absurd (n m)

fail_written :
    (n : ℕ) (s : ClientSession)
    → s.writes ≡ 1
    → step (written true) s ≡ some (fail_writes (record s { writes = 0 }))
unfolding step complete_write on_write
fail_written n s w = ap (λ k. complete_write true k s) w

run_failure :
    (call_id result_id a : ℕ) (body : List ℕ) (s : ClientSession)
    → Inv s
    → s.posted ≡ handle_send_task call_id result_id a body ∷ []
    → is_closed s || is_full s ≡ false
    → s.queue.entries ≢ []
    → run earlier_write_fails s
      ≡ some (after_failure (data_send call_id result_id a body) (record s { posted = [] }))
unfolding run step next_task run_task
run_failure call_id result_id a body s i p o n =
    let s0 = record s { posted = [] } in
    let d = data_send call_id result_id a body in
    let first : step runs_task s ≡ some (pushed d s0) =
      ap (λ ts. next_task ts s) p
      ∙ Sent-queued o n (handle_send-Sent call_id result_id a body s0) in
    let second = fail_written 0 (pushed d s0) (behind s d n i) in
    rw (first, run) (rw (second, run) refl)

is_ready_of_fulfilled : (o : Option Promise) → is_fulfilled o ≡ true → is_ready o ≡ true
is_ready_of_fulfilled none h = cc
is_ready_of_fulfilled (some (fulfilled b)) h = refl
is_ready_of_fulfilled (some pending) h = cc
is_ready_of_fulfilled (some expired) h = cc

abbrev pub Dropped : List Action → Option (Option ErrorCode × Tls × ClientSession) → Type 0
Dropped before none = ⊥
Dropped before (some (ec, tls, t)) =
    (ec ≡ none) × (t.write_error ≡ true) × (issued_packets t.started ≡ issued_packets before)

failure-packets :
    (d : DataSend) (s : ClientSession)
    → ((after_failure d s).write_error ≡ true)
      × (issued_packets (after_failure d s).started ≡ issued_packets s.started)
unfolding fail_writes
failure-packets d s =
    let (q, ps) = SendQueue.clear (pushed d s).queue s.promises in
    let k =
      close_session-Quiet
        (record (pushed d s) { writes = 0; queue = q; promises = ps; write_error = true }) in
    (k.same_error, k.same_packets)

failure-promise :
    (d : DataSend) (s : ClientSession)
    → is_owned (get_elem? s.promises d.result_callback) ≡ true
    → is_fulfilled (get_elem? (after_failure d s).promises d.result_callback) ≡ true
unfolding fail_writes close_session SendQueue.clear
failure-promise d s h = let k = fail_all_last s.queue.entries d s.promises h in ground arith

module _ (configured : Duration) (call_id : ℕ) (body : List ℕ) (tls : Tls) (s : ClientSession)
    (inv : Inv s) (posted_none : s.posted ≡ []) (open' : is_closed s || is_full s ≡ false)
    (waiting : s.queue.entries ≢ []) where
  abbrev a : ℕ
  a = length s.promises

  abbrev outcome : ClientSession
  outcome = after_failure (data_send call_id 0 a body) (record (new_promise s) { posted = [] })

  write_out-outcome :
      write_out call_id 0 body earlier_write_fails s ≡ some (true, drop_promise a outcome)
  unfolding write_out
  write_out-outcome =
      let task = handle_send_task call_id 0 a body in
      let s1 = post task (new_promise s) in
      let i1 : Inv s1 = record { one_write = inv.one_write; capped = inv.capped } in
      let e =
        run_failure call_id 0 a body s1 i1 (ap (λ ts. ts ++ task ∷ []) posted_none) open' waiting in
      let f =
        failure-promise (data_send call_id 0 a body) (record (new_promise s) { posted = [] })
          (ap is_owned (get_elem?-append_end s.promises pending)) in
      rw (e, write_out) (ap (λ b. some (b, drop_promise a outcome)) (is_ready_of_fulfilled _ f))

  -- `send` reports no error for a message that was dropped: if the session is open and has room, with
  -- an earlier message in flight whose write fails after the new one was queued, then the result is
  -- no error, though the message was never handed to the stream, and the session has a write error.
  pub send-earlier_write_fails :
      Dropped s.started (send configured call_id body (λ _. earlier_write_fails) tls s)
  unfolding send
  send-earlier_write_fails =
      let k =
        failure-packets (data_send call_id 0 a body) (record (new_promise s) { posted = [] }) in
      rw (write_out-outcome, Dropped) (refl, k.0, k.1)
