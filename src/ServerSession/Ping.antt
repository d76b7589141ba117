-- ===== src/ServerSession/Ping.antt =====
-- The ping timer: it ends a silent connection, and carries out a close.
use radrpc.Types.{duration_zero}
use radrpc.Operations.{duration_eq}
use radrpc.ServerSession.{
  ServerSession, async_ping, async_close, async_wait, ping_next, close_session, shutdown,
}
use radrpc.ServerSession.Accept.{
  pong, expired, aborted, on_timer, on_expired, on_control_callback, is_next, wait_timer,
}
use radrpc.Prelude.{
  ℕ, ◌+◌, ◌≤◌, ◌<◌, ◌≡◌, refl, pos, Bool, true, false, ◌||◌, leb, [], ◌∷◌, ◌++◌, arith,
}

-- `now` is after the expiry of a timer that was set `delay` before.
leb_le : (a b : ℕ) → a ≤ b → leb a b ≡ true
leb_le a b h = ground arith

leb_lt : (a b : ℕ) → b < a → leb a b ≡ false
leb_lt a b h = ground arith

module _ (delay : ℕ) (s : ServerSession) (configured : s.config.ping_delay ≡ pos delay)
    (positive : 0 < delay) (open' : s.m_close || s.close_received ≡ false) where
  not_zero : duration_eq s.config.ping_delay duration_zero ≡ false
  not_zero = rw configured (ground arith)

  -- `close_session` is carried out by the handler of the timer that it interrupts, whenever that runs,
  -- if no control frame comes before: the stream is asked to close, once.
  pub close_session-on_timer :
      (is_open : Bool) (now later : ℕ)
      → now ≤ later
      → let t = on_timer aborted is_open later (close_session now s) in
        (t.m_close ≡ true) × (t.started ≡ s.started ++ async_close ∷ [])
  unfolding on_timer on_expired shutdown close_session is_next
  close_session-on_timer true now later h =
      rw (not_zero, close_session)
        (rw (leb_le (now + 0) later (omega arith)) (rw open' (refl, refl)))
  close_session-on_timer false now later h =
      rw (not_zero, close_session)
        (rw (leb_le (now + 0) later (omega arith)) (rw open' (refl, refl)))

  -- If a ping or a pong is read between `close_session` and the handler of the timer, and that handler runs
  -- before the ping delay after the frame has passed, then it only waits again: the stream is not asked to
  -- close. If no further frame comes and the stream is open, the handler of the next expiry sends a ping
  -- and waits again, and the stream is still not asked to close.
  pub close_session-on_control_callback :
      (is_open : Bool) (now read_at later next : ℕ)
      → later < read_at + delay
      → later + delay ≤ next
      → let t =
          on_timer aborted is_open later (on_control_callback pong read_at (close_session now s)) in
        let u = on_timer expired true next t in
        (t.m_close ≡ false)
        × (t.started ≡ s.started ++ async_wait ∷ [])
        × (u.m_close ≡ false)
        × (u.started ≡ ((s.started ++ async_wait ∷ []) ++ async_ping ∷ []) ++ async_wait ∷ [])
  unfolding on_timer on_expired close_session on_control_callback wait_timer is_next
  close_session-on_control_callback is_open now read_at later next h h' =
      rw (not_zero, close_session)
        (rw configured (
          rw (leb_lt (read_at + delay) later h)
            (rw (leb_le (later + delay) next h') (ground arith, refl, ground arith, refl))))

  -- A silent client: a ping is sent at the first expiry, and the stream is asked to close at the
  -- second, if no control frame has come.
  pub on_timer-silent :
      (now later : ℕ)
      → s.m_ping_state ≡ ping_next
      → s.expiry ≤ now
      → now + delay ≤ later
      → let t = on_timer expired true later (on_timer expired true now s) in
        (t.m_close ≡ true)
        × (t.started ≡ ((s.started ++ async_ping ∷ []) ++ async_wait ∷ []) ++ async_close ∷ [])
  unfolding on_timer on_expired shutdown wait_timer is_next
  on_timer-silent now later p e h =
      rw (leb_le s.expiry now e) (
        rw (p, is_next) (rw configured (rw (leb_le (now + delay) later h) (rw open' (refl, refl)))))

  -- A client that answers: after a pong, the timer that expires later sends the next ping and does not
  -- close.
  pub on_timer-answered :
      (now read_at later : ℕ)
      → s.m_ping_state ≡ ping_next
      → s.expiry ≤ now
      → read_at + delay ≤ later
      → let t =
          on_timer expired true later
            (on_control_callback pong read_at (on_timer expired true now s)) in
        (t.m_close ≡ false)
        × (t.started
            ≡ (((s.started ++ async_ping ∷ []) ++ async_wait ∷ []) ++ async_ping ∷ [])
              ++ async_wait ∷ [])
  unfolding on_timer on_expired on_control_callback wait_timer is_next
  on_timer-answered now read_at later p e h =
      rw (leb_le s.expiry now e) (
        rw (p, is_next)
          (rw configured (rw (leb_le (read_at + delay) later h) (ground arith, refl))))
