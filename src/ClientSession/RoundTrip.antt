-- ===== src/ClientSession/RoundTrip.antt =====
-- `send_recv` from the request to the response.
use radrpc.Types.{Duration}
use radrpc.Header.{io_header, packet}
use radrpc.Header.Codec.{Fits}
use radrpc.Cache
use radrpc.Cache.{DataCache, wait, swaps, removes, begin_wait}
use radrpc.Cache.Invariant.{WellFormed}
use radrpc.Cache.Delivery.{wait-swap_notify, queue-Held, queue-counter, begin_wait-waits}
use radrpc.SendQueue.{pending, DataSend, data_send, set_promise}
use radrpc.SendQueue.Promises.{get_elem?-set_value}
use radrpc.Operations.{Tls, use_send_timeout}
use radrpc.ClientSession.{
  ClientSession, Action, async_read, async_write, handle_send_task, is_closed, on_read,
}
use radrpc.ClientSession.Loop.{
  Event, runs_task, written, received, step, run, next_task, run_task, complete_write,
  complete_read, post, new_promise, drop_promise,
}
use radrpc.ClientSession.Calls.{
  Received, double, send_recv, write_out, receive, receive_end, is_ready,
}
use radrpc.ClientSession.Outcomes.{
  Sent, refused, queued, issued, handle_send-Sent, Wrote, failed, last, next, on_write-Wrote,
  is_full, pushed, writing, popped,
}
use radrpc.ClientSession.Writes.{Inv, in_flight}
use radrpc.ClientSession.Responses.{on_read-response}
use radrpc.Prelude.{
  ℕ, ◌+◌, ◌^◌, ◌<◌, ◌≡◌, refl, ap, ◌∙◌, true, false, ◌||◌, Option, none, some, List, [], ◌∷◌, ◌++◌,
  length, get_elem?, get_elem?-append_end, lookup, arith, ◌==◌,
}

-- The posted message is handed to the stream, and its write is completed.
abbrev pub writes_out : List Event
writes_out = runs_task ∷ written false ∷ []

Sent-issued :
    {d : DataSend} {s : ClientSession} {r : Option ClientSession}
    → is_closed s || is_full s ≡ false
    → s.queue.entries ≡ []
    → Sent d s r
    → r ≡ some (writing d (pushed d s))
Sent-issued o n (refused c e) = cc
Sent-issued o n (queued c m e) = absurd (m n)
Sent-issued o n (issued c m e) = e

Wrote-last :
    {d : DataSend} {s : ClientSession} {r : Option ClientSession}
    → is_closed s ≡ false
    → Wrote false d [] s r
    → r ≡ some (popped d [] s)
Wrote-last o (failed f e) = absurd (ground arith)
Wrote-last o (last f n e) = e
Wrote-last o (next x xs f n e) = cc

module _ (call_id result_id : ℕ) (body : List ℕ) (s : ClientSession) (idle : s.writes ≡ 0)
    (posted_none : s.posted ≡ []) (open' : is_closed s || is_full s ≡ false)
    (empty : s.queue.entries ≡ []) where
  abbrev a : ℕ
  a = length s.promises

  abbrev d : DataSend
  d = data_send call_id result_id a body

  abbrev before : ClientSession
  before = record (new_promise s) { posted = [] }

  abbrev after : ClientSession
  after = popped d [] (record (writing d (pushed d before)) { writes = 0 })

  written_out :
      run writes_out (post (handle_send_task call_id result_id a body) (new_promise s)) ≡ some after
  unfolding run step next_task run_task complete_write
  written_out =
      let task = handle_send_task call_id result_id a body in
      let s1 = post task (new_promise s) in
      let posted : s1.posted ≡ task ∷ [] = ap (λ ts. ts ++ task ∷ []) posted_none in
      let first : step runs_task s1 ≡ some (writing d (pushed d before)) =
        ap (λ ts. next_task ts s1) posted
        ∙ Sent-issued open' empty (handle_send-Sent call_id result_id a body before) in
      let mid = writing d (pushed d before) in
      let second : step (written false) mid ≡ some after =
        ap (λ k. complete_write false (k + 1) mid) idle
        ∙ Wrote-last (ground arith) (
            on_write-Wrote false d [] (record mid { writes = 0 })
              (ap (λ es. es ++ d ∷ []) empty)) in
      rw (first, run) (rw (second, run) refl)

  promise_kept : is_ready (get_elem? after.promises a) ≡ true
  unfolding set_promise
  promise_kept =
      rw (get_elem?-set_value a a true (s.promises ++ pending ∷ []))
        (rw (get_elem?-append_end s.promises pending) (ground arith))

  write_out-written :
      write_out call_id result_id body writes_out s ≡ some (true, drop_promise a after)
  unfolding write_out
  write_out-written =
      rw (written_out, write_out) (ap (λ b. some (b, drop_promise a after)) promise_kept)

-- The result id of a request that is made at `now`.
abbrev pub request_id : Duration → ℕ → ClientSession → ℕ
request_id response_limit now s = (Cache.queue now (double response_limit) s.cache).0

pub request_id-Fits :
    (response_limit : Duration) (now call_id : ℕ) (s : ClientSession)
    → length s.cache.entries < s.cache.max_entries
    → s.cache.id_counter + 2 < 2 ^ 64
    → call_id < 2 ^ 32
    → (request_id response_limit now s ≡ s.cache.id_counter + 1)
      × Fits (io_header call_id (request_id response_limit now s))
request_id-Fits response_limit now call_id s space counter small =
    let e = (queue-counter s.cache now (double response_limit) space (omega arith)).0 in
    (e, omega (arith, e, small))

-- What the caller of `send_recv` gets, and the trace of the session.
abbrev pub Got : List ℕ → List Action → Option Received → Type 0
Got bytes trace none = ⊥
Got bytes trace (some r) = (r.recv_bytes ≡ bytes) × (r.ec ≡ none) × (r.session.started ≡ trace)

module _ (limit : Duration) (now t call_id : ℕ) (response buffer : List ℕ) (tls : Tls)
    (c : DataCache) (valid : Duration) (s : ClientSession) (w : WellFormed c)
    (space : length c.entries < c.max_entries) (counter : c.id_counter + 2 < 2 ^ 64)
    (asked : s.cache ≡ (Cache.queue now valid c).1) (reading : s.reads ≡ 1)
    (empty : s.read_buffer ≡ []) (open' : s.close_received ≡ false)
    (unbound : lookup call_id s.bound_funcs ≡ none)
    (fits : Fits (io_header call_id (Cache.queue now valid c).0)) where
  abbrev id : ℕ
  id = (Cache.queue now valid c).0

  abbrev bytes : List ℕ
  bytes = packet (io_header call_id id) response

  abbrev waiting : DataCache
  waiting = (begin_wait id s.cache).1

  abbrev answered : ClientSession
  answered = on_read false t (record s { cache = waiting; reads = 0; read_buffer = bytes })

  received_one : run (received false t bytes ∷ []) (record s { cache = waiting }) ≡ some answered
  unfolding run step complete_read
  received_one =
      ap (λ k. some (complete_read false t bytes k (record s { cache = waiting }))) reading
      ∙ ap
          (λ b.
            some
              (on_read false t (record s { cache = waiting; reads = 0; read_buffer = b ++ bytes })))
          empty

  answered-cache :
      answered.cache ≡ Cache.remove_obsolete t (Cache.swap_notify id response waiting).1
  answered-cache =
      (on_read-response t (io_header call_id id) response
        (record s { cache = waiting; reads = 0; read_buffer = bytes }) fits refl open' unbound).0

  begun : (begin_wait id s.cache).0 ≡ Cache.waits (length c.heap)
  begun =
      rw asked (ap (λ p. p.0) (begin_wait-waits (queue-Held c now valid space (omega arith)) refl))

  waited :
      let (got, out, c') = wait id (swaps id response ∷ removes t ∷ []) buffer s.cache in
      (got ≡ true) × (out ≡ response)
  unfolding Cache.run
  waited = rw asked (
      wait-swap_notify c now valid [] [] (removes t ∷ []) response buffer w space counter tt tt
        (tt, tt))

  ends :
      (Cache.end_wait (length c.heap) answered.cache ≡ true)
      × ((Cache.take_buffer (length c.heap) buffer answered.cache).0 ≡ response)
  unfolding Cache.run Cache.step wait
  ends = rw answered-cache (rw (begun, wait) at waited)

  answered-started : answered.started ≡ s.started ++ async_read ∷ []
  answered-started =
      (on_read-response t (io_header call_id id) response
        (record s { cache = waiting; reads = 0; read_buffer = bytes }) fits refl open' unbound).1

  receive-Got :
      Got response
        (s.started ++ async_read ∷ [])
        (receive limit id buffer (λ _. received false t bytes ∷ []) tls s)
  unfolding receive receive_end
  receive-Got = rw (begun, receive) (rw received_one (ends.1, rw ends.0 refl, answered-started))

module _ (send_limit response_limit : Duration) (now t call_id : ℕ) (body response buffer : List ℕ)
    (tls : Tls) (s : ClientSession) (w : WellFormed s.cache)
    (space : length s.cache.entries < s.cache.max_entries)
    (counter : s.cache.id_counter + 2 < 2 ^ 64) (inv : Inv s) (posted_none : s.posted ≡ [])
    (open' : is_closed s || is_full s ≡ false) (idle : s.queue.entries ≡ []) (reading : s.reads ≡ 1)
    (empty : s.read_buffer ≡ []) (unbound : lookup call_id s.bound_funcs ≡ none)
    (small : call_id < 2 ^ 32) where
  abbrev queued_session : ClientSession
  queued_session = record s { cache = (Cache.queue now (double response_limit) s.cache).1 }

  abbrev request : List ℕ
  request = packet (io_header call_id (request_id response_limit now s)) body

  -- `send_recv` on a connected session returns the bytes of the response, without an error, if its
  -- request is written and the message that is read next is the response under the request's id; the
  -- request is the one message that it has handed to its stream. It does not matter which timeouts are
  -- set, and that old rows are removed at any time `t` of the read.
  pub send_recv-response :
      Got response ((s.started ++ async_write request ∷ []) ++ async_read ∷ []) (
        send_recv send_limit response_limit now call_id body buffer
          (λ _. writes_out)
          (λ _.
            received false t (packet (io_header call_id (request_id response_limit now s)) response)
            ∷ [])
          tls
          s)
  unfolding send_recv
  send_recv-response =
      let id = request_id response_limit now s in
      let (e, fits) = request_id-Fits response_limit now call_id s space counter small in
      let zero_writes : s.writes ≡ 0 = omega (arith, inv.one_write, ap in_flight idle) in
      let positive : id == 0 ≡ false = ground (arith, e) in
      rw (positive, send_recv)
        (rw (write_out-written call_id id body queued_session zero_writes posted_none open' idle) (
          receive-Got response_limit now t call_id response buffer
            (use_send_timeout send_limit tls).1 s.cache (double response_limit) _ w space counter
            refl reading empty (ground arith) unbound fits))
