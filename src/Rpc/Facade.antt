-- ===== src/Rpc/Facade.antt =====
-- A remote call by the facade of include/radrpc/client.hpp, from the connection to the response: the
-- facade, `session_connect` behind it, the client session, the wire and the server session.
use radrpc.Types.{ClientTimeout}
use radrpc.Header.{io_header, packet}
use radrpc.Cache
use radrpc.Cache.Invariant.{data_cache-WellFormed}
use radrpc.Client.{
  Session, Client, with_session, construct_session, connect, send_recv, recv_from, recv_attempt,
}
use radrpc.Client.Connecting.{
  World, Outcome, Meanwhile, attempt, ran, runs, send_recvs, connecting, is_none, next_outcome,
  next_meanwhile, later_outcomes,
}
use radrpc.Client.Connecting.Attempts.{succeeds, attempt-Told}
use radrpc.ClientSession
use radrpc.ClientSession.{ClientSession, Action, async_read, async_write, client_session}
use radrpc.ClientSession.Loop.{received}
use radrpc.ClientSession.Calls
use radrpc.ClientSession.Calls.{Received}
use radrpc.ClientSession.RoundTrip.{Got, writes_out}
use radrpc.ClientSession.Writes.{Inv}
use radrpc.Connect.{SessionConnect}
use radrpc.Connect.Chain.{Ensures, Told}
use radrpc.ServerSession
use radrpc.ServerSession.{ServerSession, Handler, is_empty}
use radrpc.ServerSession.Bounded
use radrpc.Rpc.{send_recv-on_read}
use radrpc.Prelude.{
  ℕ, suc, ◌<◌, ◌^◌, ◌≡◌, refl, ap, ◌∙◌, Bool, true, false, ◌||◌, not, Option, none, some, List, [],
  ◌∷◌, ◌++◌, Map, lookup, arith, if◌then◌else◌, Option-cases, inl, inr,
}

-- A fresh session that has started to read.
abbrev pub reading_session : Map Bool → ClientSession
reading_session funcs = ClientSession.read (client_session funcs)

-- The first request of a session has the result id 1, and its response has it too.
abbrev pub first_packet : ℕ → List ℕ → List ℕ
first_packet call_id body = packet (io_header call_id 1) body

-- What happens during a call: the request is written, and the answer is read.
abbrev pub during : ℕ → ℕ → List ℕ → Meanwhile
during now t answer = record {
  now = now;
  first = λ timeout. writes_out;
  second = λ timeout. received false t answer ∷ [];
}

-- The server session has handed the answer to its stream, and reads again.
abbrev pub Served : List ℕ → ServerSession → ServerSession → Type 0
Served answer s u =
    (u.started
      ≡ (s.started ++ ServerSession.async_write answer ∷ []) ++ ServerSession.async_read ∷ [])
    × (u.receive_buffer ≡ [])
    × (u.response ≡ [])

-- What the caller of the facade's `send_recv` gets, and the trace of the session behind it.
abbrev pub Replied : List ℕ → List Action → Option (List ℕ × Client World) → Type 0
Replied bytes trace none = ⊥
Replied bytes trace (some (out, c)) =
    (out ≡ bytes)
    × Ensures (λ s. s.base.started ≡ trace) c.session.session
    × (c.session.undefined ≡ false)

module _ (is_ssl : Bool) (funcs : Map Bool) (timeouts : ClientTimeout) (rest : Session World) where
  abbrev pub ops : Session World
  ops = connecting is_ssl funcs timeouts rest

  -- A session that connects without an error.
  runs-connected :
      (o : Outcome) (os : List Outcome) (w : World)
      → w.outcomes ≡ o ∷ os
      → succeeds is_ssl o ≡ true
      → (s : SessionConnect) × (runs is_ssl funcs w
          ≡ (true, record w { session = some s; outcomes = os }))
        × (s.base ≡ reading_session funcs)
  unfolding runs
  runs-connected o os w e good = elim (Option-cases (attempt is_ssl funcs o)) [
    | inl a ↦ absurd (rw a at (attempt-Told is_ssl funcs timeouts rest o))
    | inr (s, a) ↦
        let t : Told true (client_session funcs) s =
          rw (a, good) at (attempt-Told is_ssl funcs timeouts rest o) in
        let ran_it : runs is_ssl funcs w ≡ ran o.lingers (record w { outcomes = os }) (some s) =
          ap
            (λ outs.
              ran (next_outcome outs).lingers (record w { outcomes = later_outcomes outs })
                (attempt is_ssl funcs (next_outcome outs)))
            e
          ∙ ap (ran o.lingers (record w { outcomes = os })) a in
        (
          s,
          ran_it
              ∙ ap
                  (λ ok. (
                    ok,
                    record w { session = if ok || o.lingers then some s else none; outcomes = os },
                  ))
                  t.state,
          t.reads,
        )
  ]

  connect-connected :
      (o : Outcome) (os : List Outcome) (c : Client World)
      → c.m_exit ≡ false
      → c.session.session ≡ none
      → c.session.outcomes ≡ o ∷ os
      → succeeds is_ssl o ≡ true
      → (s : SessionConnect) × (connect ops c
          ≡ (true, with_session ops (record c.session { session = some s; outcomes = os }) c))
        × (s.base ≡ reading_session funcs)
  unfolding connect construct_session
  connect-connected o os c stays gone e good =
      let (s, ran_it, base) = runs-connected o os c.session e good in
      let whole : Bool × World → Bool × Client World = λ r. (r.0, with_session ops r.1 c) in
      (
        s,
        ap (λ x. if x then (false, c) else construct_session ops c) stays
            ∙ ap (λ x. if not (is_none x) then (true, c) else whole (runs is_ssl funcs c.session))
                gone
            ∙ ap whole ran_it,
        base,
      )

  module _ (call_id : ℕ) (body : List ℕ) where
    recv_attempt-good :
        (result : List ℕ) (c : Client World)
        → ops.locks c.session ≡ true
        → (ops.send_recvs call_id body result c.session).1 ≡ false
        → let r = ops.send_recvs call_id body result c.session in
          recv_attempt ops call_id body result c ≡ some (r.0, true, with_session ops r.2 c)
    unfolding recv_attempt
    recv_attempt-good result c back fine = rw (back, fine, recv_attempt) refl

    recv_from-good :
        (n : ℕ) (result out : List ℕ) (c c' : Client World)
        → c.m_exit ≡ false
        → recv_attempt ops call_id body result c ≡ some (out, true, c')
        → recv_from ops (suc n) call_id body result false c ≡ some (out, c')
    unfolding recv_from
    recv_from-good n result out c c' stays e = rw (e, recv_from) (rw stays refl)

    passes :
        (bytes : List ℕ) (trace : List Action) (s : SessionConnect) (m : Meanwhile) (w : World)
        → w.session ≡ some s
        → next_meanwhile w.meanwhile ≡ m
        → Got bytes trace (
            Calls.send_recv timeouts.send_timeout timeouts.response_timeout m.now call_id body []
              m.first m.second w.tls s.base)
        → let x = send_recvs timeouts call_id body [] w in
          (x.0 ≡ bytes)
          × (x.1 ≡ false)
          × Ensures (λ t. t.base.started ≡ trace) x.2.session
          × (x.2.undefined ≡ w.undefined)
    unfolding send_recvs
    passes bytes trace s m w e f got =
        let call : Meanwhile → Option Received = λ (k : Meanwhile).
          Calls.send_recv timeouts.send_timeout timeouts.response_timeout k.now call_id body []
            k.first k.second w.tls s.base in
        elim (Option-cases (call m)) [
          | inl n ↦ absurd (rw n at got)
          | inr (r, n) ↦
              let g : (r.recv_bytes ≡ bytes) × (r.ec ≡ none) × (r.session.started ≡ trace) =
                rw n at got in
              rw (e, f, n, send_recvs) (g.0, rw g.1 refl, g.2, refl)
        ]

module _ (is_ssl : Bool) (funcs : Map Bool) (timeouts : ClientTimeout) (rest : Session World)
    (attempts now t at call_id : ℕ) (body : List ℕ) (o : Outcome) (os : List Outcome)
    (ms : List Meanwhile) (c : Client World) (f : Handler) (s : ServerSession)
    (stays : c.m_exit ≡ false) (gone : c.session.session ≡ none)
    (outcomes : c.session.outcomes ≡ o ∷ os) (good : succeeds is_ssl o ≡ true)
    (defined : c.session.undefined ≡ false) (unbound : lookup call_id funcs ≡ none)
    (small : call_id < 2 ^ 32) where
  abbrev request : List ℕ
  request = first_packet call_id body

  abbrev answer : List ℕ
  answer = first_packet call_id (f body s.response).response

  remote :
      s.receive_buffer ≡ request
      → lookup call_id s.bound_funcs ≡ some (some f)
      → ServerSession.is_closed s ≡ false
      → s.bound_close ≡ false
      → (f body s.response).closes ≡ false
      → is_empty (f body s.response).response ≡ false
      → s.queue ≡ []
      → ServerSession.Bounded.Ensures (Served answer s) (ServerSession.on_read false at s)
        × Got (f body s.response).response (async_read ∷ async_write request ∷ async_read ∷ []) (
            Calls.send_recv timeouts.send_timeout timeouts.response_timeout now call_id body []
              (λ timeout. writes_out)
              (λ timeout. received false t answer ∷ [])
              c.session.tls
              (reading_session funcs))
  unfolding ClientSession.read client_session Cache.data_cache Cache.queue
  remote message bound server_open asked keeps some' idle =
      let reading = reading_session funcs in
      let inv : Inv reading = record { one_write = refl; capped = omega arith } in
      let (serves, got) =
        send_recv-on_read timeouts.send_timeout timeouts.response_timeout now t at call_id body []
          c.session.tls reading f s (data_cache-WellFormed 500) (omega arith) (omega arith) inv refl
          refl refl refl refl unbound small message bound server_open asked keeps some' idle in
      (serves, got)

  -- A facade without a session that connects, without an error, and then calls `send_recv`: the connection
  -- is made; the call hands one message to the stream, its request, with the result id 1; an open
  -- server session with an empty queue that reads this request writes an answer; and if that answer is
  -- what the client reads next, then the call returns what the handler that the server has bound to the
  -- call id has left as its response, at the first attempt and with no undefined behaviour.
  pub connect-send_recv :
      s.receive_buffer ≡ request
      → lookup call_id s.bound_funcs ≡ some (some f)
      → ServerSession.is_closed s ≡ false
      → s.bound_close ≡ false
      → (f body s.response).closes ≡ false
      → is_empty (f body s.response).response ≡ false
      → s.queue ≡ []
      → c.session.meanwhile ≡ during now t answer ∷ ms
      → let (connected, c1) = connect (ops is_ssl funcs timeouts rest) c in
        (connected ≡ true)
        × ServerSession.Bounded.Ensures (Served answer s) (ServerSession.on_read false at s)
        × Replied
            (f body s.response).response
            (async_read ∷ async_write request ∷ async_read ∷ [])
            (send_recv (ops is_ssl funcs timeouts rest) (suc attempts) call_id body c1)
  unfolding send_recv
  connect-send_recv message bound server_open asked keeps some' idle calls =
      let (sc, e, base) =
        connect-connected is_ssl funcs timeouts rest o os c stays gone outcomes good in
      let w1 = record c.session { session = some sc; outcomes = os } in
      let (serves, got) = remote message bound server_open asked keeps some' idle in
      let passed =
        passes is_ssl funcs timeouts rest call_id body (f body s.response).response
          (async_read ∷ async_write request ∷ async_read ∷ []) sc (during now t answer) w1 refl
          (ap next_meanwhile calls) (rw base got) in
      let c1 = with_session (ops is_ssl funcs timeouts rest) w1 c in
      let first = recv_attempt-good is_ssl funcs timeouts rest call_id body [] c1 refl passed.1 in
      let whole =
        recv_from-good is_ssl funcs timeouts rest call_id body attempts [] _ c1 _ stays first in
      rw e (refl, serves, rw whole (passed.0, passed.2, passed.3 ∙ defined))
