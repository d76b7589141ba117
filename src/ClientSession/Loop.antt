-- ===== src/ClientSession/Loop.antt =====
-- What can happen to a client session, one event at a time: the IO thread runs a posted handler or
-- the completion of an operation on the stream, and other threads use the cache, post handlers and
-- own promises. A completion comes only for an operation that was started: an event that has no
-- such operation changes nothing.
use radrpc.Cache
use radrpc.SendQueue.{pending, expired}
use radrpc.ClientSession.{
  ClientSession, FrameType, Task, handle_ping_task, close_task, handle_send_task, handle_ping,
  on_ping, close_session, handle_send, on_write, on_read, on_control_callback,
}
use radrpc.Prelude.{ℕ, zero, suc, Bool, Option, none, some, List, [], ◌∷◌, ◌++◌, set}

pub data Event : Type 0 where
  runs_task : Event
  pinged written : Bool → Event
  received : Bool → ℕ → List ℕ → Event
  controlled : FrameType → Event
  uses_cache : Cache.Op → Event
  posts : Task → Event
  promises : Event
  drops : ℕ → Event

-- the `std::bind` of each `weak_post`; the session is alive while its handlers run
unfoldable pub run_task : Task → ClientSession → Option ClientSession
run_task handle_ping_task s = some (handle_ping s)
run_task close_task s = some (close_session s)
run_task (handle_send_task call_id result_id callback body) s =
    handle_send call_id result_id callback body s

unfoldable pub next_task : List Task → ClientSession → Option ClientSession
unfolding run_task
next_task [] s = some s
next_task (t ∷ ts) s = run_task t (record s { posted = ts })

unfoldable pub complete_write : Bool → ℕ → ClientSession → Option ClientSession
complete_write ec zero s = some s
complete_write ec (suc n) s = on_write ec (record s { writes = n })

unfoldable pub complete_read : Bool → ℕ → List ℕ → ℕ → ClientSession → ClientSession
complete_read ec now bytes zero s = s
complete_read ec now bytes (suc n) s =
    on_read ec now (record s { reads = n; read_buffer = s.read_buffer ++ bytes })

abbrev pub post : Task → ClientSession → ClientSession
post t s = record s { posted = s.posted ++ t ∷ [] }

abbrev pub new_promise : ClientSession → ClientSession
new_promise s = record s { promises = s.promises ++ pending ∷ [] }

abbrev pub drop_promise : ℕ → ClientSession → ClientSession
drop_promise a s = record s { promises = set s.promises a expired }

unfoldable pub step : Event → ClientSession → Option ClientSession
unfolding next_task complete_write complete_read
step runs_task s = next_task s.posted s
step (pinged ec) s = some (on_ping ec s)
step (written ec) s = complete_write ec s.writes s
step (received ec now bytes) s = some (complete_read ec now bytes s.reads s)
step (controlled kind) s = some (on_control_callback kind s)
step (uses_cache o) s = some (record s { cache = Cache.step s.cache o })
step (posts t) s = some (post t s)
step promises s = some (new_promise s)
step (drops a) s = some (drop_promise a s)

unfoldable pub run : List Event → ClientSession → Option ClientSession
run [] s = some s
run (e ∷ es) s = elim (step e s) [ none ↦ none | some s' ↦ run es s' ]
