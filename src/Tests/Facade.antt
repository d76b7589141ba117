-- ===== src/Tests/Facade.antt =====
-- The facade over a session that is counted, and the chain that connects one.

use radrpc.Connect.{SessionConnect, session_connect, complete_all}
use radrpc.Connect.Closing.{close_wait, Closed, close_wait-Closed}
use radrpc.ClientSession.{handle_ping_task, client_session}
use radrpc.ClientSession.Loop.{runs_task, pinged}
use radrpc.ClientSession.Closes.{runs}
use radrpc.Connect
use radrpc.Connect.Chain.{Ensures, Told, run-complete_all}
use radrpc.Client.{Session, Client, with_session, connect, send, construct_session}
use radrpc.Client.Attempts.{send-expired}
use radrpc.Tests.Client.{reading}
use radrpc.Server.{
  Server, bind_accept, on_signal, start, async_start, end_worker, stop_io, end_stop, worker_count,
}
use radrpc.Server.Stopping.{
  Event, starts, async_starts, ends, stops, stops_elsewhere, signals, binds_accept, step, run,
  end_workers, run-end_stop,
}
use radrpc.Prelude.{
  ◌-◌, ◌==◌, List, ℕ, ◌+◌, ◌≡◌, refl, Bool, true, false, not, some, [], ◌∷◌, arith,
}

-- A session that is there or not, and how many messages it has sent.
abbrev Line : Type 0
Line = Bool × ℕ

abbrev line : Session Line
line = record {
  is_expired = λ w. not w.0;
  locks = λ w. w.0;
  runs = λ w. (true, (true, w.1));
  sends = λ id bytes w. (false, (w.0, w.1 + 1));
  send_recvs = λ id bytes buffer w. (bytes, false, (w.0, w.1 + 1));
  pings = λ w. (true, w);
  closes = λ w. (false, w.1);
  destructs = λ w. (true, w);
  sleeps = λ w. w;
}

abbrev fresh_client : Client Line
fresh_client = record { session = (false, 0); bound_funcs = []; m_exit = false }

send-expired_example :
    let c1 = (connect line fresh_client).1 in
    (send line 1 3 (7 ∷ []) fresh_client ≡ some (false, c1))
    × (send line 2 3 (7 ∷ []) fresh_client ≡ some (true, with_session line (true, 1) c1))
unfolding connect construct_session
send-expired_example = send-expired line 3 (7 ∷ []) fresh_client refl refl refl refl refl

run-complete_all_example : Ensures (Told true reading) (
    complete_all
      (false ∷ false ∷ false ∷ true ∷ [])
      (Connect.run (session_connect false reading)).1)
run-complete_all_example = run-complete_all false reading false false false true

-- A server with two workers that has not been started.
abbrev new_server : Server
new_server = record {
  workers = 2;
  m_running = false;
  m_async_start = false;
  m_workers_done = 0;
  launched = 0;
  io_stopped = false;
  connections = 0;
  bound_funcs = [];
  on_listen = false;
  on_accept = false;
  on_disconnect = false;
}

abbrev twice : List Event
twice = binds_accept true ∷ starts ∷ stops ∷ ends ∷ stops_elsewhere ∷ async_starts ∷ signals ∷ []

run-end_stop_example :
    let s = run twice new_server in
    let left = s.launched - s.m_workers_done in
    let t = end_workers left (stop_io s) in
    (end_stop t ≡ (true, record t { m_running = false }))
    × (t.m_workers_done ≡ worker_count s)
    × ((end_stop s).0 ≡ (left == 0))
unfolding run step start async_start end_worker stop_io end_stop bind_accept on_signal
run-end_stop_example =
    run-end_stop twice new_server (record { counted = omega arith; launched = refl }) refl

-- One handler waits before that of `close`.
abbrev pinging : SessionConnect
pinging = session_connect false (record reading { posted = handle_ping_task ∷ [] })

close_wait-Closed_example :
    Closed (close_wait false (runs_task ∷ pinged false ∷ runs_task ∷ []) pinging)
unfolding client_session
close_wait-Closed_example =
    close_wait-Closed false (runs_task ∷ pinged false ∷ runs_task ∷ []) pinging refl
      (record { one_write = refl; capped = omega arith }) (unfold runs in omega arith)
