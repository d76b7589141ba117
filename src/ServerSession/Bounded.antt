-- ===== src/ServerSession/Bounded.antt =====
-- One operation of each kind at a time: what a websocket stream asks of its user. The handlers of
-- writes and requests.
use radrpc.Types.{queue_send_max}
use radrpc.Header.{packet, split_packet}
use radrpc.ServerSession.{
  ServerSession, DataPush, Action, ssl_handshake, read_handshake, add_session, async_accept,
  async_read, async_ping, async_close, async_wait, async_write, close_session, shutdown, is_closed,
  call_function, after_call, call,
}
use radrpc.ServerSession.Loop.{complete_write}
use radrpc.ServerSession.Outcomes.{
  Sent, refused, queued, issued, handle_send-Sent, Wrote, dropped, last, next, on_write-Wrote,
  is_full,
}
use radrpc.Prelude.{
  ap, sym, ◌∙◌, ◌≢◌, ◌<◌, ◌+◌, ℕ, zero, suc, ◌≤◌, ◌≡◌, refl, Bool, true, false, ◌||◌, Option, none,
  some, List, [], ◌∷◌, ◌++◌, length, length-append, arith, Option-cases, lookup, inl, inr,
  if◌then◌else◌,
}

abbrev pub in_flight : List DataPush → ℕ
in_flight [] = 0
in_flight (d ∷ ds) = 1

-- How often the stream was asked to close.
abbrev pub closes : List Action → ℕ
closes [] = 0
closes (async_close ∷ as') = suc (closes as')
closes (a ∷ as') = closes as'

-- A write is outstanding exactly if the queue holds a message, and it is the only one; at most
-- `reads` reads and `waits` waits on the timer are; the queue is within its limit; the stream is
-- asked to close at most once.
pub record Bounded (reads waits : ℕ) (s : ServerSession) : Type 0 where
  pub one_write : s.writes ≡ in_flight s.queue
  pub capped : length s.queue ≤ queue_send_max
  pub few_reads : s.reads ≤ reads
  pub few_waits : s.waits ≤ waits
  pub one_close : closes s.started ≡ (if s.m_close then 1 else 0)

abbrev pub Inv : ServerSession → Type 0
Inv s = Bounded 1 1 s

-- The result exists, and the predicate holds of it.
abbrev pub Ensures : (ServerSession → Type 0) → Option ServerSession → Type 0
Ensures P none = ⊥
Ensures P (some s) = P s

pub closes-append : (xs ys : List Action) → closes (xs ++ ys) ≡ closes xs + closes ys
closes-append [] ys = omega arith
closes-append (async_close ∷ xs) ys = omega (arith, closes-append xs ys)
closes-append (ssl_handshake ∷ xs) ys = closes-append xs ys
closes-append (read_handshake ∷ xs) ys = closes-append xs ys
closes-append (add_session ∷ xs) ys = closes-append xs ys
closes-append (async_accept n ∷ xs) ys = closes-append xs ys
closes-append (async_read ∷ xs) ys = closes-append xs ys
closes-append (async_ping ∷ xs) ys = closes-append xs ys
closes-append (async_wait ∷ xs) ys = closes-append xs ys
closes-append (async_write b ∷ xs) ys = closes-append xs ys

in_flight-append : (es : List DataPush) (d : DataPush) → in_flight (es ++ d ∷ []) ≡ 1
in_flight-append [] d = refl
in_flight-append (e ∷ es) d = refl

in_flight_of_ne : (es : List DataPush) → es ≢ [] → in_flight es ≡ 1
in_flight_of_ne [] h = absurd (h refl)
in_flight_of_ne (e ∷ es) h = refl

has_room : (s : ServerSession) → is_closed s || is_full s ≡ false → length s.queue < queue_send_max
has_room s h = ground arith

module _ {r w : ℕ} where
  pub shutdown-Bounded : (s : ServerSession) → Bounded r w s → Bounded r w (shutdown s)
  unfolding shutdown
  shutdown-Bounded s i = ground (arith, closes-append s.started (async_close ∷ []))

  pub close_session-Bounded :
      (now : ℕ) (s : ServerSession) → Bounded r w s → Bounded r w (close_session now s)
  unfolding close_session
  close_session-Bounded now s i = ground (arith, shutdown-Bounded s i)

  pub Sent-Bounded :
      {d : DataPush} {s : ServerSession} {t : Option ServerSession}
      → Bounded r w s
      → Sent d s t
      → Ensures (Bounded r w) t
  Sent-Bounded {d} {s} i (refused c e) = rw e i
  Sent-Bounded {d} {s} i (queued c n e) = rw e (record {
    one_write = i.one_write ∙ in_flight_of_ne s.queue n ∙ sym (in_flight-append s.queue d);
    capped = omega (arith, length-append s.queue (d ∷ []), has_room s c);
    few_reads = i.few_reads;
    few_waits = i.few_waits;
    one_close = i.one_close;
  })
  Sent-Bounded {d} {s} i (issued c n e) = rw e (record {
    one_write = omega (arith, i.one_write, ap in_flight n);
    capped = omega arith;
    few_reads = i.few_reads;
    few_waits = i.few_waits;
    one_close =
        omega
          (arith, i.one_close, closes-append s.started (async_write (packet d.header d.body) ∷ []));
  })

  -- The outstanding write has been completed.
  Wrote-Bounded :
      {ec : Bool} {now n : ℕ} {d : DataPush} {ds : List DataPush} {s : ServerSession}
      {t : Option ServerSession}
      → s.queue ≡ d ∷ ds
      → s.writes ≡ suc n
      → Bounded r w s
      → Wrote ec now ds (record s { writes = n }) t
      → Ensures (Bounded r w) t
  Wrote-Bounded {now = now} {n} {d} {ds} {s} q e i (dropped f h) = rw h (
      close_session-Bounded now (record s { writes = n; write_error = true; queue = [] })
        (record {
          one_write = omega (arith, i.one_write, ap in_flight q, e);
          capped = omega arith;
          few_reads = i.few_reads;
          few_waits = i.few_waits;
          one_close = i.one_close;
        }))
  Wrote-Bounded {n = n} {d} {ds} {s} q e i (last f m h) = rw h (record {
    one_write = omega (arith, i.one_write, ap in_flight q, e);
    capped = omega arith;
    few_reads = i.few_reads;
    few_waits = i.few_waits;
    one_close = i.one_close;
  })
  Wrote-Bounded {n = n} {d} {ds} {s} q e i (next x xs f m h) = rw h (record {
    one_write = omega (arith, i.one_write, ap in_flight q, e);
    capped = omega (arith, i.capped, ap length q, ap length m);
    few_reads = i.few_reads;
    few_waits = i.few_waits;
    one_close =
        omega
          (arith, i.one_close, closes-append s.started (async_write (packet x.header x.body) ∷ []));
  })

  pub complete_write-Bounded :
      (ec : Bool) (now n : ℕ) (ds : List DataPush) (s : ServerSession)
      → s.queue ≡ ds
      → s.writes ≡ n
      → Bounded r w s
      → Ensures (Bounded r w) (complete_write ec now n s)
  unfolding complete_write
  complete_write-Bounded ec now zero ds s q e i = i
  complete_write-Bounded ec now (suc n) [] s q e i =
      absurd (omega (arith, ap in_flight q, i.one_write))
  complete_write-Bounded ec now (suc n) (d ∷ ds) s q e i =
      Wrote-Bounded q e i (on_write-Wrote ec now d ds (record s { writes = n }) q)

  after_call-Bounded :
      (now : ℕ) (s : ServerSession) → Bounded r w s → Ensures (Bounded r w) (after_call now s)
  unfolding after_call
  after_call-Bounded now s i =
      let reply : DataPush = record { header = s.header; body = s.response } in
      let k =
        Sent-Bounded
          (record {
            one_write = i.one_write;
            capped = i.capped;
            few_reads = i.few_reads;
            few_waits = i.few_waits;
            one_close = i.one_close;
          })
          (handle_send-Sent reply (record s { response = [] })) in
      ground (arith, k, close_session-Bounded now s i)

  pub call_function-Bounded :
      (now : ℕ) (s : ServerSession) → Bounded r w s → Ensures (Bounded r w) (call_function now s)
  unfolding call_function
  call_function-Bounded now s i = elim (Option-cases (split_packet s.receive_buffer)) [
    | inl e ↦ rw (e, call_function) i
    | inr ((h, body), e) ↦
        let s' = record s { header = h; receive_buffer = body } in
        let i' : Bounded r w s' = record {
          one_write = i.one_write;
          capped = i.capped;
          few_reads = i.few_reads;
          few_waits = i.few_waits;
          one_close = i.one_close;
        } in
        elim (Option-cases (lookup h.call_id s.bound_funcs)) [
          | inl e' ↦ rw (e, e', call_function) i'
          | inr (none, e') ↦ rw (e, e', call_function) i'
          | inr (some f, e') ↦
              rw (e, e', call_function)
                (after_call-Bounded now (call f body s') (record {
                  one_write = i.one_write;
                  capped = i.capped;
                  few_reads = i.few_reads;
                  few_waits = i.few_waits;
                  one_close = i.one_close;
                }))
        ]
  ]
