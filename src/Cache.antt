-- ===== src/Cache.antt =====
-- `data_read` and `data_cache` of include/radrpc/detail/data.hpp. A row is shared by the table and
-- by the thread that waits for it, so rows live on a heap and both hold an address. The functions
-- below are the critical sections of the table's mutex; a wait is two of them, and what other
-- threads do between them is a list of `Op`.
pub mod Invariant
pub mod Rows
pub mod Held
pub mod Detached
pub mod Delivery
pub mod Lost
pub mod Sweep
use radrpc.Types.{Duration, ns_per_ms}
use radrpc.Prelude.{
  ℕ, ◌+◌, ◌-◌, ◌/◌, ◌%◌, ◌^◌, ℤ, div_trunc, nat_ltb, Bool, true, false, none, some, List, [], ◌∷◌,
  ◌++◌, length, get_elem?, set, Map, lookup, insert, erase, keep_if, leb, if◌then◌else◌,
}

pub data DataState : Type 0 where
  queued waiting swapped : DataState

-- A row is not freed in the model: nothing reads it once the last owner is gone.
pub record DataRead : Type 0 where
  pub timestamp : ℕ
  pub valid_ms : ℤ
  pub state : DataState
  pub read_buffer : List ℕ

pub record DataCache : Type 0 where
  pub max_entries : ℕ
  pub id_counter : ℕ  -- uint64_t
  pub entries : Map ℕ
  pub heap : List DataRead

-- the constructor of `data_read`, with `duration_cast<milliseconds>`
abbrev pub data_read : ℕ → Duration → DataRead
data_read now valid = record {
  timestamp = now;
  valid_ms = div_trunc valid ns_per_ms;
  state = queued;
  read_buffer = [];
}

-- `data_read::valid()`; the clock is steady, so `now` is not before the timestamp
abbrev pub is_valid : ℕ → DataRead → Bool
is_valid now row = nat_ltb ((now - row.timestamp) / ns_per_ms) row.valid_ms

abbrev pub is_swapped : DataState → Bool
is_swapped swapped = true
is_swapped _ = false

abbrev pub is_waiting : DataState → Bool
is_waiting waiting = true
is_waiting _ = false

unfoldable pub data_cache : ℕ → DataCache
data_cache max_entries = record {
  max_entries = max_entries;
  id_counter = 0;
  entries = [];
  heap = [];
}

-- `queue(valid)`. The id is 0 when the table is full.
unfoldable pub queue : ℕ → Duration → DataCache → ℕ × DataCache
queue now valid c =
    let id = (c.id_counter + 1) % 2 ^ 64 in
    if leb c.max_entries (length c.entries) then (0, c) else (
      id,
      record c {
        id_counter = id;
        entries = insert id (length c.heap) c.entries;
        heap = c.heap ++ data_read now valid ∷ [];
      },
    )

-- The first critical section of `wait`: no entry, a row that has its data, or one to wait on.
pub data Begun : Type 0 where
  missing : Begun
  ready waits : ℕ → Begun

begin_row : ℕ → ℕ → DataRead → DataCache → Begun × DataCache
begin_row id a row c =
    if is_swapped row.state
    then (ready a, record c { entries = erase id c.entries })
    else (waits a, record c { heap = set c.heap a (record row { state = waiting }) })

-- A lookup gives an address on the heap (`WellFormed`), so the inner `none` does not occur.
unfoldable pub begin_wait : ℕ → DataCache → Begun × DataCache
unfolding begin_row
begin_wait id c = elim (lookup id c.entries) [
  | none ↦ (missing, c)
  | some a ↦ elim (get_elem? c.heap a) [ none ↦ (missing, c) | some row ↦ begin_row id a row c ]
]

-- What `cv.wait_for` with a predicate returns: the predicate, when it wakes or times out.
unfoldable pub end_wait : ℕ → DataCache → Bool
end_wait a c = elim (get_elem? c.heap a) [ none ↦ false | some row ↦ is_swapped row.state ]

-- `std::swap(buffer, row->read_buffer)` after the wait
unfoldable pub take_buffer : ℕ → List ℕ → DataCache → List ℕ × DataCache
take_buffer a buffer c = elim (get_elem? c.heap a) [
  | none ↦ (buffer, c)
  | some row ↦
      (row.read_buffer, record c { heap = set c.heap a (record row { read_buffer = buffer }) })
]

swap_row : ℕ → List ℕ → ℕ → DataRead → DataCache → List ℕ × DataCache
swap_row id buffer a row c =
    let filled = set c.heap a (record row { read_buffer = buffer; state = swapped }) in
    let rest = if is_waiting row.state then erase id c.entries else c.entries in
    ([], record c { heap = filled; entries = rest })

-- `swap_notify`: the caller's buffer is emptied, if the id is found.
unfoldable pub swap_notify : ℕ → List ℕ → DataCache → List ℕ × DataCache
unfolding swap_row
swap_notify id buffer c = elim (lookup id c.entries) [
  | none ↦ (buffer, c)
  | some a ↦ elim (get_elem? c.heap a) [
    | none ↦ (buffer, c)
    | some row ↦ swap_row id buffer a row c
  ]
]

abbrev pub row_is_valid : ℕ → List DataRead → ℕ → ℕ → Bool
row_is_valid now heap id a = elim (get_elem? heap a) [ none ↦ false | some row ↦ is_valid now row ]

unfoldable pub remove_obsolete : ℕ → DataCache → DataCache
remove_obsolete now c = record c { entries = keep_if (row_is_valid now c.heap) c.entries }

unfoldable pub size : DataCache → ℕ
size c = length c.entries

pub release_row : List DataRead → ℕ → List DataRead
release_row heap a = elim (get_elem? heap a) [
  | none ↦ heap
  | some row ↦ set heap a (record row { state = swapped })
]

-- the loop of `clear()`: each row is marked, so that its waiter wakes, and leaves the table
pub release_all : Map ℕ → List DataRead → List DataRead
release_all [] heap = heap
release_all ((id, a) ∷ m) heap = release_all m (release_row heap a)

unfoldable pub clear : DataCache → DataCache
unfolding release_all release_row
clear c = record c { heap = release_all c.entries c.heap; entries = [] }

-- The critical sections that threads run on the shared cache.
pub data Op : Type 0 where
  queues : ℕ → Duration → Op
  begins : ℕ → Op
  takes swaps : ℕ → List ℕ → Op
  removes : ℕ → Op
  clears : Op

unfoldable pub step : DataCache → Op → DataCache
step c (queues now valid) = (queue now valid c).1
step c (begins id) = (begin_wait id c).1
step c (takes a buffer) = (take_buffer a buffer c).1
step c (swaps id buffer) = (swap_notify id buffer c).1
step c (removes now) = remove_obsolete now c
step c clears = clear c

unfoldable pub run : List Op → DataCache → DataCache
run [] c = c
run (o ∷ os) c = run os (step c o)

-- `wait(id, timeout, buffer)`: `others` is what other threads do until the wait wakes or times out.
unfoldable pub wait : ℕ → List Op → List ℕ → DataCache → Bool × List ℕ × DataCache
wait id others buffer c =
    let (begun, c1) = begin_wait id c in
    elim begun [
      | missing ↦ (false, buffer, c1)
      | ready a ↦ let (out, c2) = take_buffer a buffer c1 in (true, out, c2)
      | waits a ↦
          let c2 = run others c1 in
          let (out, c3) = take_buffer a buffer c2 in (end_wait a c2, out, c3)
    ]
