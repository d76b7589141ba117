-- ===== src/Client/Connecting/Ending.antt =====
-- How the facade of include/radrpc/client.hpp closes an established session, and waits for its destruction:
-- `on_session_delete` tells it that no handler holds the session any more.
use radrpc.Types.{ClientTimeout}
use radrpc.Connect
use radrpc.Connect.{SessionConnect}
use radrpc.Connect.Chain.{is_established}
use radrpc.Connect.Closing.{close_wait, wait_weak_post}
use radrpc.ClientSession.{ClientSession, close_task}
use radrpc.ClientSession.Loop.{Event, run, post}
use radrpc.ClientSession.Writes.{Inv, Ensures, in_flight}
use radrpc.ClientSession.Ends.{is_held, aborts, aborts-ends, May, AtMost, run-AtMost}
use radrpc.ClientSession.Closes.{is_closing, runs, run-is_closing}
use radrpc.SendQueue.{DataSend}
use radrpc.Client.{Session, Client, disconnect}
use radrpc.Client.Connecting.{World, connecting, wait_destruction, is_none}
use radrpc.Prelude.{
  ℕ, ◌≤◌, ◌<◌, ◌≡◌, ◌∙◌, length, get_elem?-append_end, refl, Bool, true, false, not, Option, none,
  some, List, [], ◌∷◌, Map, arith, if◌then◌else◌, Bool-cases, Option-cases, inl, inr,
}

-- What the IO thread does until `close` of the session returns; what it does from then on until the wait
-- for the destruction ends, and whether `on_close` has been called by then, in the state that `close`
-- has left.
pub record Waits : Type 0 where
  pub io_stopped : Bool
  pub closing : List Event
  pub ending : ClientSession → List Event
  pub on_close : ClientSession → Bool

abbrev broken : World → World
broken w = record w { undefined = true }

-- `if (auto session = m_session.lock()) session->close()`
unfoldable pub closes : Waits → World → World
closes ws w = elim w.session [
  | none ↦ w
  | some s ↦ elim (close_wait ws.io_stopped ws.closing s) [
    | none ↦ broken w
    | some s' ↦ record w { session = some s' }
  ]
]

-- `wait_destruction()`
unfoldable pub destructs : Waits → World → Bool × World
destructs ws w = elim w.session [
  | none ↦ (true, w)
  | some s ↦ elim (run (ws.ending s.base) s.base) [
    | none ↦ (false, broken w)
    | some t ↦
        if is_held (ws.on_close s.base) t
        then (false, record w { session = some (record s { base = t }) })
        else (true, record w { session = none })
  ]
]

abbrev pub ending : Waits → Session World → Session World
ending ws rest = record rest { closes = closes ws; destructs = destructs ws }

-- The session is established, is closing, and has at most one write and `n` reads.
abbrev Ready : ℕ → Option SessionConnect → Type 0
Ready n none = ⊥
Ready n (some s) =
    (is_established s.m_state ≡ true)
    × (is_closing s.base ≡ true)
    × (s.base.writes ≤ 1)
    × (s.base.reads ≤ n)

in_flight-le : (es : List DataSend) → in_flight es ≤ 1
in_flight-le [] = omega arith
in_flight-le (d ∷ es) = omega arith

close-state :
    (s : SessionConnect) → is_established (Connect.close s).m_state ≡ is_established s.m_state
unfolding Connect.close
close-state s = ground arith

at_most_one : (t : ClientSession) → Inv t → t.writes ≤ 1
at_most_one t i = omega (arith, i.one_write, in_flight-le t.queue.entries)

ran-Ready :
    (n : ℕ) (s : SessionConnect) (r : Option ClientSession)
    → is_established s.m_state ≡ true
    → Ensures (λ t. (is_closing t ≡ true) × Inv t) r
    → May (AtMost n) r
    → Ready n (elim r [ none ↦ none | some t ↦ some (record (Connect.close s) { base = t }) ])
unfolding Connect.close
ran-Ready n s none up i h = i
ran-Ready n s (some t) up (c, i) h = (close-state s ∙ up, c, at_most_one t i, h)

waited-Ready :
    (n : ℕ) (s : SessionConnect) (b : Bool) (r : Option ClientSession)
    → is_established s.m_state ≡ true
    → Ensures (λ t. (is_closing t ≡ true) × Inv t) r
    → May (AtMost n) r
    → Ready n
        (elim (elim r as (λ _. Option (Bool × ClientSession)) [
          | none ↦ none
          | some t ↦ some (b, t)
        ]) [ none ↦ none | some (executed, t) ↦ some (record (Connect.close s) { base = t }) ])
unfolding Connect.close
waited-Ready n s b none up i h = i
waited-Ready n s b (some t) up i h = ran-Ready n s (some t) up i h

close_wait-Ready :
    (ws : Waits) (n : ℕ) (s : SessionConnect)
    → is_established s.m_state ≡ true
    → s.close_initiated ≡ false
    → Inv s.base
    → s.base.reads ≤ n
    → length s.base.posted < runs ws.closing
    → Ready n (close_wait ws.io_stopped ws.closing s)
unfolding close_wait wait_weak_post
close_wait-Ready ws n s up new i h in_time =
    let t = post close_task s.base in
    let j : Ensures (λ u. (is_closing u ≡ true) × Inv u) (run ws.closing t) =
      run-is_closing ws.closing t (record { one_write = i.one_write; capped = i.capped })
        (inr (length s.base.posted, in_time, get_elem?-append_end s.base.posted close_task)) in
    let k = run-AtMost ws.closing n t h in
    elim (Bool-cases ws.io_stopped) [
      | inl e ↦ rw (new, e, close_wait) (ran-Ready n s (run ws.closing t) up j k)
      | inr e ↦ rw (new, e, close_wait) (waited-Ready n s _ (run ws.closing t) up j k)
    ]

module _ (is_ssl : Bool) (funcs : Map Bool) (timeouts : ClientTimeout) (rest : Session World)
    (ws : Waits) where
  abbrev facade : Session World
  facade = connecting is_ssl funcs timeouts (ending ws rest)

  -- `disconnect` has returned, without a session that is left and without undefined behaviour.
  abbrev pub Ended : Client World → Option (Client World) → Type 0
  Ended c none = ⊥
  Ended c (some c') =
      (c'.session.session ≡ none)
      × (c'.session.undefined ≡ c.session.undefined)
      × (c'.m_exit ≡ c.m_exit)

  -- A stream that has been asked to close, or that the server has closed, calls `on_close` and ends its
  -- other operations with errors, at most `n` of them reads. Nothing is said of a stream that is open.
  pub record Aborts (now n : ℕ) : Type 0 where
    pub aborted : (t : ClientSession) → is_closing t ≡ true → ws.ending t ≡ aborts now n
    pub closed : (t : ClientSession) → is_closing t ≡ true → ws.on_close t ≡ true

  -- The wait for the destruction of a session that is closing.
  wait-ends :
      (now n : ℕ) (w : World) (s : SessionConnect)
      → Aborts now n
      → w.session ≡ some s
      → Ready n (some s)
      → (facade.destructs w) ≡ (true, record w { session = none })
  unfolding wait_destruction destructs
  wait-ends now n w s a there (up, closing, writes, reads) =
      let h : Ensures (λ t. is_held true t ≡ false) (run (ws.ending s.base) s.base) =
        rw (a.aborted s.base closing) (aborts-ends now n s.base writes reads) in
      elim (Option-cases (run (ws.ending s.base) s.base)) [
        | inl e ↦ absurd (rw e at h)
        | inr (t, e) ↦
            let free : is_held true t ≡ false = rw e at h in
            let free' : is_held (ws.on_close s.base) t ≡ false =
              rw (a.closed s.base closing) free in
            rw (there, up, destructs, e, free') refl
      ]

  closes-there :
      (w : World) (s : SessionConnect) (n : ℕ)
      → w.session ≡ some s
      → Ready n (close_wait ws.io_stopped ws.closing s)
      → (s' : SessionConnect) × Ready n (some s') × (closes ws w ≡ record w { session = some s' })
  unfolding closes
  closes-there w s n there r = elim (Option-cases (close_wait ws.io_stopped ws.closing s)) [
    | inl e ↦ absurd (rw e at r)
    | inr (s', e) ↦ let r' : Ready n (some s') = rw e at r in (s', r', rw (there, closes, e) refl)
  ]

  -- If the facade does not exit and has an established session that it has not closed, with the invariant of
  -- its queue and at most `n` reads; if the IO thread runs the handlers that were posted before and one
  -- more until `close` returns; and if a stream that is closing calls `on_close` and ends its other
  -- operations with errors: then `disconnect` returns, with no session and no undefined behaviour.
  pub disconnect-Ended :
      (now n : ℕ) (c : Client World) (s : SessionConnect)
      → c.m_exit ≡ false
      → c.session.session ≡ some s
      → is_established s.m_state ≡ true
      → s.close_initiated ≡ false
      → Inv s.base
      → s.base.reads ≤ n
      → length s.base.posted < runs ws.closing
      → Aborts now n
      → Ended c (disconnect facade c)
  unfolding disconnect
  disconnect-Ended now n c s stays there up new i reads in_time a =
      let ready = close_wait-Ready ws n s up new i reads in_time in
      let (s', r, at_close) = closes-there c.session s n there ready in
      let locked : not (is_none c.session.session) ≡ true = rw (there) refl in
      let w = record c.session { session = some s' } in
      rw (stays, locked, at_close, wait-ends now n w s' a refl r) (refl, refl, refl)
