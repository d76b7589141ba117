-- ===== src/Server.antt =====
-- `server` of include/radrpc/server.hpp: starting and stopping its workers, and binding handlers. A
-- worker is a thread that runs the IO context, and ends once that is stopped.
pub mod Stopping
use radrpc.Prelude.{
  ℕ, zero, suc, ◌+◌, ◌-◌, ◌^◌, ◌%◌, Bool, true, false, ◌||◌, ◌&&◌, not, ◌==◌, ltb, Option, none,
  some, [], Map, lookup, insert, if◌then◌else◌,
}

-- `connections` is what the manager says. `launched` counts the threads of `m_workers`. `on_listen`,
-- `on_accept` and `on_disconnect` tell whether the manager has such a handler.
pub record Server : Type 0 where
  pub workers : ℕ
  pub m_running : Bool
  pub m_async_start : Bool
  pub m_workers_done : ℕ
  pub launched : ℕ
  pub io_stopped : Bool
  pub connections : ℕ
  pub bound_funcs : Map Bool
  pub on_listen : Bool
  pub on_accept : Bool
  pub on_disconnect : Bool

-- The constructor: its listener and its signals wait on a context that no worker runs yet.
unfoldable pub server : ℕ → Server
server workers = record {
  workers = workers;
  m_running = false;
  m_async_start = false;
  m_workers_done = 0;
  launched = 0;
  io_stopped = false;
  connections = 0;
  bound_funcs = [];
  on_listen = false;
  on_accept = false;
  on_disconnect = false;
}

-- `m_async_start ? workers : workers - 1`, on `unsigned int`
unfoldable pub worker_count : Server → ℕ
worker_count s = if s.m_async_start then s.workers else (s.workers + (2 ^ 32 - 1)) % 2 ^ 32

unfoldable pub run_async_workers : Server → Server
unfolding worker_count
run_async_workers s = record s { io_stopped = false; m_workers_done = 0; launched = worker_count s }

-- `start()`, up to the blocking run of the context
unfoldable pub start : Server → Server
unfolding run_async_workers
start s =
    if s.m_running
    then s
    else run_async_workers (record s { m_running = true; m_async_start = false })

unfoldable pub async_start : Server → Server
unfolding run_async_workers
async_start s =
    if s.m_running
    then s
    else run_async_workers (record s { m_running = true; m_async_start = true })

-- One worker returns from `run`, if there is one and the context is stopped.
unfoldable pub end_worker : Server → Server
end_worker s =
    if s.io_stopped && ltb s.m_workers_done s.launched
    then record s { m_workers_done = s.m_workers_done + 1 }
    else s

-- `stop()` begins with stopping the context; on a worker it does nothing else.
unfoldable pub stop_io : Server → Server
stop_io s = record s { io_stopped = true }

-- The rest of `stop()` elsewhere: whether it returns, or still waits for the workers.
unfoldable pub end_stop : Server → Bool × Server
unfolding worker_count
end_stop s =
    if not s.m_running
    then (true, s)
    else if worker_count s == s.m_workers_done
    then (true, record s { m_running = false })
    else (false, s)

-- `SIGINT` or `SIGTERM` comes: a worker stops the context.
unfoldable pub on_signal : Server → Server
on_signal s = record s { io_stopped = true }

-- `~server()`: whether it ends, or still waits for the workers.
unfoldable pub destroy : Server → Bool × Server
unfolding stop_io end_stop
destroy s = end_stop (stop_io s)

-- The three bindings below succeed if the server is idle, and replace what was bound before.
abbrev pub is_idle : Server → Bool
is_idle s = not (s.m_running || not (s.connections == 0))

-- `callable` is whether the handler is not empty.
unfoldable pub bind_listen : Bool → Server → Bool × Server
bind_listen callable s = if is_idle s then (true, record s { on_listen = callable }) else (false, s)

unfoldable pub bind_accept : Bool → Server → Bool × Server
bind_accept callable s = if is_idle s then (true, record s { on_accept = callable }) else (false, s)

unfoldable pub bind_disconnect : Bool → Server → Bool × Server
bind_disconnect callable s =
    if is_idle s then (true, record s { on_disconnect = callable }) else (false, s)

-- Binding an id twice throws: `none`.
unfoldable pub bind : ℕ → Bool → Server → Option (Bool × Server)
bind id callable s =
    if s.m_running || not (s.connections == 0)
    then some (false, s)
    else elim (lookup id s.bound_funcs) [
      | some f ↦ none
      | none ↦ some (true, record s { bound_funcs = insert id callable s.bound_funcs })
    ]
