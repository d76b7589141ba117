-- ===== src/SendQueue.antt =====
-- `data_send` and `data_queue` of include/radrpc/detail/data.hpp: the messages of a client session
-- that wait to be written, each with a promise that tells the sending thread how it went.
pub mod Promises
use radrpc.Header.{IoHeader, io_header}
use radrpc.Prelude.{
  ℕ, Bool, true, false, Option, none, some, List, [], ◌∷◌, ◌++◌, length, get_elem?, set, ltb, leb,
  not, if◌then◌else◌,
}

-- A `std::promise<bool>` behind a `weak_ptr`: gone with its owner, not set yet, or set.
pub data Promise : Type 0 where
  expired pending : Promise
  fulfilled : Bool → Promise

-- `if (auto active = weak.lock()) active->set_value(b)`; a second `set_value` throws, and the
-- exception is caught and dropped.
unfoldable pub set_promise : Bool → Promise → Promise
set_promise b pending = fulfilled b
set_promise b p = p

-- The promises of the process; a `weak_ptr` is an index.
unfoldable pub set_value : ℕ → Bool → List Promise → List Promise
unfolding set_promise
set_value a b ps = elim (get_elem? ps a) [ none ↦ ps | some p ↦ set ps a (set_promise b p) ]

-- `body` is the memory behind `body_ptr` and `body_size`; the sending thread keeps it alive.
pub record DataSend : Type 0 where
  pub result_callback : ℕ
  pub body : List ℕ
  pub header : IoHeader

pub record DataQueue : Type 0 where
  pub max_entries : ℕ
  pub entries : List DataSend

abbrev pub data_send : ℕ → ℕ → ℕ → List ℕ → DataSend
data_send call_id result_id callback body = record {
  result_callback = callback;
  body = body;
  header = io_header call_id result_id;
}

abbrev pub data_queue : ℕ → DataQueue
data_queue max_entries = record { max_entries = max_entries; entries = [] }

-- `queue(...)`: false, and nothing queued, if the queue is full.
unfoldable pub queue : ℕ → ℕ → ℕ → List ℕ → DataQueue → Bool × DataQueue
queue call_id result_id callback body q =
    if leb q.max_entries (length q.entries)
    then (false, q)
    else (true, record q { entries = q.entries ++ data_send call_id result_id callback body ∷ [] })

-- More than the message that has just been queued.
unfoldable pub is_writing : DataQueue → Bool
is_writing q = ltb 1 (length q.entries)

first : List DataSend → Option DataSend
first [] = none
first (d ∷ ds) = some d

-- `front()` of an empty deque is undefined: `none`.
unfoldable pub front : DataQueue → Option DataSend
unfolding first
front q = first q.entries

pub is_empty : List DataSend → Bool
is_empty [] = true
is_empty (d ∷ ds) = false

unfoldable pub pop_written :
    List DataSend → DataQueue → List Promise → Option (Bool × DataQueue × List Promise)
pop_written [] q ps = none
pop_written (d ∷ ds) q ps =
    some (not (is_empty ds), record q { entries = ds }, set_value d.result_callback true ps)

-- `write_next()`: the first message has been written. Undefined on an empty deque: `none`.
unfoldable pub write_next : DataQueue → List Promise → Option (Bool × DataQueue × List Promise)
unfolding pop_written is_empty
write_next q ps = pop_written q.entries q ps

unfoldable pub fail_all : List DataSend → List Promise → List Promise
fail_all [] ps = ps
fail_all (d ∷ ds) ps = fail_all ds (set_value d.result_callback false ps)

-- `clear()`: each waiting thread is told false.
unfoldable pub clear : DataQueue → List Promise → DataQueue × List Promise
unfolding fail_all
clear q ps = (record q { entries = [] }, fail_all q.entries ps)
