-- ===== src/Server/Stopping.antt =====
-- `stop` ends, and the server can be started again.
use radrpc.Server.{
  Server, worker_count, start, async_start, end_worker, stop_io, end_stop, on_signal, bind_listen,
  bind_accept, bind_disconnect,
}
use radrpc.Prelude.{
  ℕ, zero, suc, ◌+◌, ◌-◌, ◌≤◌, ◌≡◌, refl, sym, ap, ◌∙◌, Bool, true, false, ◌||◌, not, ◌==◌, List,
  [], ◌∷◌, arith,
}

pub data Event : Type 0 where
  starts async_starts ends stops stops_elsewhere signals : Event
  binds_listen binds_accept binds_disconnect : Bool → Event

unfoldable pub step : Event → Server → Server
step starts s = start s
step async_starts s = async_start s
step ends s = end_worker s
step stops s = stop_io s
step stops_elsewhere s = (end_stop s).1
step signals s = on_signal s
step (binds_listen callable) s = (bind_listen callable s).1
step (binds_accept callable) s = (bind_accept callable s).1
step (binds_disconnect callable) s = (bind_disconnect callable s).1

unfoldable pub run : List Event → Server → Server
run [] s = s
run (e ∷ es) s = run es (step e s)

-- A running server has launched the workers of its mode, and no more are done than were launched.
pub record Inv (s : Server) : Type 0 where
  pub counted : s.m_workers_done ≤ s.launched
  pub launched : not s.m_running || (worker_count s == s.launched) ≡ true

step-Inv : (e : Event) (s : Server) → Inv s → Inv (step e s)
unfolding step start async_start end_worker stop_io end_stop worker_count on_signal bind_listen
    bind_accept bind_disconnect
step-Inv starts s i = ground arith
step-Inv async_starts s i = ground arith
step-Inv ends s i = ground arith
step-Inv stops s i = ground arith
step-Inv stops_elsewhere s i = ground arith
step-Inv signals s i = ground arith
step-Inv (binds_listen callable) s i = ground arith
step-Inv (binds_accept callable) s i = ground arith
step-Inv (binds_disconnect callable) s i = ground arith

pub run-Inv : (es : List Event) (s : Server) → Inv s → Inv (run es s)
unfolding run
run-Inv [] s i = i
run-Inv (e ∷ es) s i = run-Inv es (step e s) (step-Inv e s i)

-- `n` workers end.
unfoldable pub end_workers : ℕ → Server → Server
end_workers zero s = s
end_workers (suc n) s = end_workers n (end_worker s)

end_workers-done :
    (n : ℕ) (s : Server)
    → s.io_stopped ≡ true
    → s.m_workers_done + n ≡ s.launched
    → end_workers n s ≡ record s { m_workers_done = s.launched }
unfolding end_workers end_worker
end_workers-done zero s h e = ap (λ k. record s { m_workers_done = k }) (omega (arith, e))
end_workers-done (suc n) s h e =
    let t = record s { m_workers_done = s.m_workers_done + 1 } in
    let one : end_worker s ≡ t = ground arith in
    ap (end_workers n) one ∙ end_workers-done n t h (omega (arith, e))

-- After any starts, stops, signals, bindings and ends of workers, if the server is running: once its context is
-- stopped and the workers that are left have ended, `stop` returns, and the server is not running.
-- Until the last of them has ended, `stop` waits.
pub run-end_stop :
    (es : List Event) (s0 : Server)
    → Inv s0
    → (run es s0).m_running ≡ true
    → let s = run es s0 in
      let left = s.launched - s.m_workers_done in
      let t = end_workers left (stop_io s) in
      (end_stop t ≡ (true, record t { m_running = false }))
      × (t.m_workers_done ≡ worker_count s)
      × ((end_stop s).0 ≡ (left == 0))
unfolding stop_io end_stop worker_count
run-end_stop es s0 i0 r =
    let s = run es s0 in
    let i = run-Inv es s0 i0 in
    let e =
      end_workers-done (s.launched - s.m_workers_done) (stop_io s) refl
        (omega (arith, i.counted)) in
    let c : worker_count s ≡ s.launched = ground (arith, i.launched) in
    rw e (ground (arith, i.launched), sym c, ground (arith, i.launched, c, i.counted))
