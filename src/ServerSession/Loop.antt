-- ===== src/ServerSession/Loop.antt =====
-- What can happen to a server session, one event at a time, in the order in which its strand runs
-- the handlers. A completion comes only for an operation that was started: an event that has no
-- such operation changes nothing.
use radrpc.ServerSession.{ServerSession, DataPush, handle_send, on_write, on_read}
use radrpc.ServerSession.Accept.{FrameType, TimerEnd, on_timer, on_control_callback}
use radrpc.Prelude.{ℕ, zero, suc, Bool, Option, none, some, List, [], ◌∷◌, ◌++◌}

pub data Event : Type 0 where
  sends : DataPush → Event
  runs_send : Event
  written : Bool → ℕ → Event
  received : Bool → ℕ → List ℕ → Event
  timed : TimerEnd → Bool → ℕ → Event
  controlled : FrameType → ℕ → Event

-- `send(data)`: posted to the strand.
unfoldable pub send : DataPush → ServerSession → ServerSession
send d s = record s { posted = s.posted ++ d ∷ [] }

unfoldable pub next_send : List DataPush → ServerSession → Option ServerSession
next_send [] s = some s
next_send (d ∷ ds) s = handle_send d (record s { posted = ds })

unfoldable pub complete_write : Bool → ℕ → ℕ → ServerSession → Option ServerSession
complete_write ec now zero s = some s
complete_write ec now (suc n) s = on_write ec now (record s { writes = n })

unfoldable pub complete_read : Bool → ℕ → List ℕ → ℕ → ServerSession → Option ServerSession
complete_read ec now bytes zero s = some s
complete_read ec now bytes (suc n) s =
    on_read ec now (record s { reads = n; receive_buffer = s.receive_buffer ++ bytes })

unfoldable pub complete_wait : TimerEnd → Bool → ℕ → ℕ → ServerSession → ServerSession
complete_wait ec is_open now zero s = s
complete_wait ec is_open now (suc n) s = on_timer ec is_open now (record s { waits = n })

unfoldable pub step : Event → ServerSession → Option ServerSession
unfolding next_send complete_write complete_read complete_wait send
step (sends d) s = some (send d s)
step runs_send s = next_send s.posted s
step (written ec now) s = complete_write ec now s.writes s
step (received ec now bytes) s = complete_read ec now bytes s.reads s
step (timed ec is_open now) s = some (complete_wait ec is_open now s.waits s)
step (controlled kind now) s = some (on_control_callback kind now s)

unfoldable pub run : List Event → ServerSession → Option ServerSession
run [] s = some s
run (e ∷ es) s = elim (step e s) [ none ↦ none | some s' ↦ run es s' ]
