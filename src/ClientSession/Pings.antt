-- ===== src/ClientSession/Pings.antt =====
-- `ping`: what its result says of the control frames that came while it waited.
use radrpc.Types.{Duration}
use radrpc.SendQueue.{DataSend}
use radrpc.Operations.{Tls, use_response_timeout}
use radrpc.ClientSession.{
  ClientSession, close, ping, pong, Task, handle_ping_task, close_task, handle_send_task,
  handle_ping, on_ping, close_session, on_control_callback, fail_writes, dispatch, read,
  finish_read, on_read,
}
use radrpc.ClientSession.Loop.{
  Event, runs_task, pinged, written, received, controlled, uses_cache, posts, promises, drops, step,
  run, next_task, run_task, complete_write, complete_read, post,
}
use radrpc.ClientSession.Calls
use radrpc.ClientSession.Outcomes.{
  Sent, refused, queued, issued, handle_send-Sent, Wrote, failed, last, next, on_write-Wrote,
}
use radrpc.ClientSession.Writes.{
  Inv, Ensures, Ensures-map, both, run_bind, in_flight, step-Inv, run-Inv,
}
use radrpc.Prelude.{
  ℕ, zero, suc, ◌≡◌, refl, ap, ◌∙◌, Bool, true, false, ◌||◌, Option, none, some, List, [], ◌∷◌,
  ◌++◌, arith, Bool-cases, inl, inr,
}

unfoldable is_pong : Event → Bool
is_pong (controlled pong) = true
is_pong _ = false

-- Whether a pong is read.
unfoldable pub has_pong : List Event → Bool
unfolding is_pong
has_pong [] = false
has_pong (e ∷ es) = is_pong e || has_pong es

abbrev Same : ClientSession → ClientSession → Type 0
Same s t = t.m_pong ≡ s.m_pong

close_session-Same : (s : ClientSession) → Same s (close_session s)
unfolding close_session
close_session-Same s = ground arith

dispatch-Same : (bytes : List ℕ) (s : ClientSession) → Same s (dispatch bytes s)
unfolding dispatch
dispatch-Same bytes s = ground arith

complete_read-Same :
    (ec : Bool) (now : ℕ) (bytes : List ℕ) (n : ℕ) (s : ClientSession)
    → Same s (complete_read ec now bytes n s)
unfolding complete_read on_read finish_read read
complete_read-Same ec now bytes zero s = refl
complete_read-Same ec now bytes (suc n) s = elim (Bool-cases (ec || s.close_received)) [
  | inl e ↦ rw (e, on_read) (unfold close_session in ground arith)
  | inr e ↦
      rw (e, on_read)
        (dispatch-Same (s.read_buffer ++ bytes)
          (record s { reads = n; read_buffer = s.read_buffer ++ bytes }))
]

Sent-Same :
    {d : DataSend} {s : ClientSession} {r : Option ClientSession} → Sent d s r → Ensures (Same s) r
Sent-Same (refused c e) = rw e refl
Sent-Same (queued c n e) = rw e refl
Sent-Same (issued c n e) = rw e refl

fail_writes-Same : (s : ClientSession) → Same s (fail_writes s)
unfolding fail_writes close_session
fail_writes-Same s = ground arith

Wrote-Same :
    {ec : Bool} {d : DataSend} {ds : List DataSend} {s : ClientSession} {r : Option ClientSession}
    → Wrote ec d ds s r
    → Ensures (Same s) r
Wrote-Same {s = s} (failed f e) = rw e (fail_writes-Same s)
Wrote-Same (last f n e) = rw e refl
Wrote-Same (next x xs f n e) = rw e refl

next_task-Same : (ts : List Task) (s : ClientSession) → Ensures (Same s) (next_task ts s)
unfolding next_task run_task
next_task-Same [] s = refl
next_task-Same (handle_ping_task ∷ ts) s = unfold handle_ping in ground arith
next_task-Same (close_task ∷ ts) s = close_session-Same (record s { posted = ts })
next_task-Same (handle_send_task call_id result_id callback body ∷ ts) s =
    Sent-Same (handle_send-Sent call_id result_id callback body (record s { posted = ts }))

complete_write-Same :
    (ec : Bool) (n : ℕ) (es : List DataSend) (s : ClientSession)
    → s.writes ≡ n
    → s.queue.entries ≡ es
    → Inv s
    → Ensures (Same s) (complete_write ec n s)
unfolding complete_write
complete_write-Same ec zero es s w e i = refl
complete_write-Same ec (suc n) [] s w e i = absurd (omega (arith, ap in_flight e, i.one_write))
complete_write-Same ec (suc n) (d ∷ ds) s w e i =
    Wrote-Same (on_write-Wrote ec d ds (record s { writes = n }) e)

step-m_pong :
    (e : Event) (s : ClientSession)
    → Inv s
    → Ensures (λ t. t.m_pong ≡ is_pong e || s.m_pong) (step e s)
unfolding step is_pong
step-m_pong runs_task s i = next_task-Same s.posted s
step-m_pong (pinged ec) s i = unfold on_ping in refl
step-m_pong (written ec) s i = complete_write-Same ec s.writes s.queue.entries s refl refl i
step-m_pong (received ec now bytes) s i = complete_read-Same ec now bytes s.reads s
step-m_pong (controlled close) s i = unfold on_control_callback in refl
step-m_pong (controlled ping) s i = unfold on_control_callback in refl
step-m_pong (controlled pong) s i = unfold on_control_callback in refl
step-m_pong (uses_cache o) s i = refl
step-m_pong (posts t) s i = refl
step-m_pong promises s i = refl
step-m_pong (drops a) s i = refl

later_or_first : (a b c : Bool) → b || (a || c) ≡ (a || b) || c
later_or_first true true c = refl
later_or_first true false c = refl
later_or_first false b c = refl

run-m_pong :
    (es : List Event) (s : ClientSession)
    → Inv s
    → Ensures (λ t. t.m_pong ≡ has_pong es || s.m_pong) (run es s)
unfolding run has_pong
run-m_pong [] s i = refl
run-m_pong (e ∷ es) s i =
    run_bind (λ u. u.m_pong ≡ has_pong (e ∷ es) || s.m_pong) (step e s) es
      (Ensures-map (λ t. Inv t × (t.m_pong ≡ is_pong e || s.m_pong)) _
        (λ t (j, h).
          Ensures-map (λ u. u.m_pong ≡ has_pong es || t.m_pong) _
            (λ u k.
              k ∙ ap (◌||◌ (has_pong es)) h ∙ later_or_first (is_pong e) (has_pong es) s.m_pong)
            (run es t) (run-m_pong es t j))
        (step e s)
        (both Inv (λ t. t.m_pong ≡ is_pong e || s.m_pong) (step e s) (step-Inv e s i)
          (step-m_pong e s i)))

-- The call returns, and what it returns is as stated.
unfoldable pub Returns :
    (Bool → ClientSession → Type 0) → Option (Bool × Tls × ClientSession) → Type 0
Returns P none = ⊥
Returns P (some (b, tls, s)) = P b s

or_false : (a : Bool) → a || false ≡ a
or_false true = refl
or_false false = refl

abbrev Answered : List Event → Bool → ClientSession → Type 0
Answered es answered t = (answered ≡ has_pong es) × Inv t

-- The wait, from a session whose flag is reset.
abbrev ended : Tls → Option ClientSession → Option (Bool × Tls × ClientSession)
ended tls r = elim r [ none ↦ none | some t ↦ some (t.m_pong, tls, t) ]

ended-Answered :
    (es : List Event) (tls : Tls) (r : Option ClientSession)
    → Ensures (λ t. Inv t × (t.m_pong ≡ has_pong es || false)) r
    → Returns (Answered es) (ended tls r)
unfolding Returns
ended-Answered es tls none h = h
ended-Answered es tls (some t) (i, e) = (e ∙ or_false (has_pong es), i)

wait-Answered :
    (es : List Event) (tls : Tls) (s : ClientSession)
    → Inv s
    → Returns (Answered es) (ended tls (run es (record s { m_pong = false })))
wait-Answered es tls s i =
    let s' = record s { m_pong = false } in
    let i' : Inv s' = record { one_write = i.one_write; capped = i.capped } in
    ended-Answered es tls (run es s') (
      both Inv (λ t. t.m_pong ≡ has_pong es || false) (run es s') (run-Inv es s' i')
        (run-m_pong es s' i'))

begin-Answered :
    (es : List Event) (tls : Tls) (r : Option ClientSession)
    → Ensures Inv r
    → Returns
        (Answered es)
        (elim r [ none ↦ none | some s ↦ ended tls (run es (record s { m_pong = false })) ])
unfolding Returns
begin-Answered es tls none h = h
begin-Answered es tls (some s) i = wait-Answered es tls s i

-- `ping` always returns, with a session that keeps the invariant. It returns true exactly if a pong
-- is read after `m_pong` has been reset and before the timeout has passed: not for a pong that is
-- read in between the posting and the reset, nor for a close frame or an earlier pong.
pub ping-m_pong :
    (configured : Duration) (before : List Event) (others : Duration → List Event) (tls : Tls)
    (s : ClientSession)
    → Inv s
    → let timeout = (use_response_timeout configured tls).0 in
      Returns
        (λ answered t. (answered ≡ has_pong (others timeout)) × Inv t)
        (Calls.ping configured before others tls s)
unfolding Calls.ping
ping-m_pong configured before others tls s i =
    let (timeout, tls') = use_response_timeout configured tls in
    begin-Answered (others timeout) tls' (run before (post handle_ping_task s)) (
      run-Inv before (post handle_ping_task s)
        (record { one_write = i.one_write; capped = i.capped }))
