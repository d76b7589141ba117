-- ===== src/Cache/Invariant.antt =====
-- What holds of the table between two critical sections, and that each of them keeps it.
use radrpc.Types.{Duration}
use radrpc.Cache.{
  DataRead, DataCache, data_cache, data_read, Op, queues, begins, takes, swaps, removes, clears,
  step, run, queue, begin_wait, take_buffer, swap_notify, remove_obsolete, clear, release_all,
  release_row, row_is_valid, waiting, is_swapped, is_waiting,
}
use radrpc.Prelude.{
  ◌∙◌, ◌++◌, Bool, Bool-cases, leb, ℕ, ◌+◌, ◌^◌, ◌≤◌, ◌<◌, ◌≡◌, ◌≢◌, refl, List, [], ◌∷◌, some,
  length, length-append, length-set, length-insert-le, length-erase-le, length-keep_if-le, All,
  All-mono, All-insert, All-erase, All-keep_if, Map, lookup, insert, erase, keep_if, arith,
  Option-cases, get_elem?, set, inl, inr,
}

-- `a` is the address of no entry.
abbrev pub NotIn : ℕ → Map ℕ → Type 0
NotIn a = All (λ e. e.1 ≢ a)

-- No two entries share a row.
abbrev pub Distinct : Map ℕ → Type 0
Distinct [] = Unit
Distinct ((k, a) ∷ m) = NotIn a m × Distinct m

abbrev pub Below : ℕ → Map ℕ → Type 0
Below n = All (λ e. e.1 < n)

abbrev pub Issued : ℕ → Map ℕ → Type 0
Issued n = All (λ e. (0 < e.0) × (e.0 ≤ n))

pub record WellFormed (c : DataCache) : Type 0 where
  pub counter_fits : c.id_counter < 2 ^ 64
  pub issued : Issued c.id_counter c.entries
  pub below : Below (length c.heap) c.entries
  pub distinct : Distinct c.entries
  pub capped : length c.entries ≤ c.max_entries

pub Below-NotIn : (n : ℕ) (m : Map ℕ) → Below n m → NotIn n m
Below-NotIn n = All-mono (λ e. e.1 < n) (λ e. e.1 ≢ n) (λ k v h. omega arith)

Distinct-insert : (k a : ℕ) (m : Map ℕ) → NotIn a m → Distinct m → Distinct (insert k a m)
Distinct-insert k a [] n d = (tt, tt)
Distinct-insert k a ((j, b) ∷ m) n d =
    ground (arith, Distinct-insert k a m, All-insert (λ e. e.1 ≢ b) k a m)

Distinct-erase : (k : ℕ) (m : Map ℕ) → Distinct m → Distinct (erase k m)
Distinct-erase k [] d = tt
Distinct-erase k ((j, b) ∷ m) d = ground (arith, Distinct-erase k m, All-erase (λ e. e.1 ≢ b) k m)

Distinct-keep_if : (p : ℕ → ℕ → Bool) (m : Map ℕ) → Distinct m → Distinct (keep_if p m)
Distinct-keep_if p [] d = tt
Distinct-keep_if p ((j, b) ∷ m) d =
    ground (arith, Distinct-keep_if p m, All-keep_if (λ e. e.1 ≢ b) p m)

length-release_row : (heap : List DataRead) (a : ℕ) → length (release_row heap a) ≡ length heap
unfolding release_row
length-release_row heap a = elim (Option-cases (get_elem? heap a)) [
  | inl e ↦ rw (e, release_row)
  | inr (row, e) ↦ rw (e, release_row) (length-set heap a _)
]

length-release_all : (m : Map ℕ) (heap : List DataRead) → length (release_all m heap) ≡ length heap
unfolding release_all
length-release_all [] heap = refl
length-release_all ((k, a) ∷ m) heap =
    length-release_all m (release_row heap a) ∙ length-release_row heap a

-- An operation on one row ends in one of the states that its branches build.
pub begin_wait_cases {ℓ} :
    (P : DataCache → Type ℓ) (id : ℕ) (c : DataCache)
    → P c
    → P (record c { entries = erase id c.entries })
    → ((a : ℕ) (row : DataRead)
        → lookup id c.entries ≡ some a
        → get_elem? c.heap a ≡ some row
        → P (record c { heap = set c.heap a (record row { state = waiting }) }))
    → P (begin_wait id c).1
unfolding begin_wait
begin_wait_cases P id c same erased marked = elim (Option-cases (lookup id c.entries)) [
  | inl e ↦ rw (e, begin_wait) same
  | inr (a, e) ↦ elim (Option-cases (get_elem? c.heap a)) [
    | inl e' ↦ rw (e, e', begin_wait) same
    | inr (row, e') ↦ elim (Bool-cases (is_swapped row.state)) [
      | inl s ↦ rw (e, e', s, begin_wait) erased
      | inr s ↦ rw (e, e', s, begin_wait) (marked a row e e')
    ]
  ]
]

module _ {c : DataCache} (w : WellFormed c) where
  heap-WellFormed :
      (heap : List DataRead) → length heap ≡ length c.heap → WellFormed (record c { heap = heap })
  heap-WellFormed heap e = record {
    counter_fits = w.counter_fits;
    issued = w.issued;
    below = rw e w.below;
    distinct = w.distinct;
    capped = w.capped;
  }

  erase-WellFormed :
      (id : ℕ) (heap : List DataRead)
      → length heap ≡ length c.heap
      → WellFormed (record c { heap = heap; entries = erase id c.entries })
  erase-WellFormed id heap e = record {
    counter_fits = w.counter_fits;
    issued = All-erase _ id c.entries w.issued;
    below = rw e (All-erase _ id c.entries w.below);
    distinct = Distinct-erase id c.entries w.distinct;
    capped = omega (arith, length-erase-le id c.entries);
  }

  insert-WellFormed :
      (id : ℕ) (row : DataRead)
      → c.id_counter < id
      → id < 2 ^ 64
      → length c.entries < c.max_entries
      → WellFormed (record c {
        id_counter = id;
        entries = insert id (length c.heap) c.entries;
        heap = c.heap ++ row ∷ [];
      })
  insert-WellFormed id row above fits room = record {
    counter_fits = fits;
    issued =
        All-insert _ id (length c.heap) c.entries (omega arith)
          (All-mono _ _ (λ k a h. omega arith) c.entries w.issued);
    below = rw (length-append c.heap (row ∷ [])) (
        All-insert _ id (length c.heap) c.entries (omega arith)
          (All-mono _ _ (λ k a h. omega arith) c.entries w.below));
    distinct =
        Distinct-insert id (length c.heap) c.entries (Below-NotIn (length c.heap) c.entries w.below)
          w.distinct;
    capped = omega (arith, length-insert-le id (length c.heap) c.entries);
  }

  pub queue-WellFormed :
      (now : ℕ) (valid : Duration) → c.id_counter + 1 < 2 ^ 64 → WellFormed (queue now valid c).1
  unfolding queue
  queue-WellFormed now valid h = elim (Bool-cases (leb c.max_entries (length c.entries))) [
    | inl full ↦ rw (full, queue) w
    | inr room ↦
        rw (room, queue)
          (insert-WellFormed _ (data_read now valid) (omega arith) (omega arith) (ground arith))
  ]

  begin_wait-WellFormed : (id : ℕ) → WellFormed (begin_wait id c).1
  begin_wait-WellFormed id =
      begin_wait_cases WellFormed id c w (erase-WellFormed id c.heap refl)
        (λ a row _ _. heap-WellFormed _ (length-set c.heap a _))

  take_buffer-WellFormed : (a : ℕ) (buffer : List ℕ) → WellFormed (take_buffer a buffer c).1
  unfolding take_buffer
  take_buffer-WellFormed a buffer = elim (Option-cases (get_elem? c.heap a)) [
    | inl e ↦ rw (e, take_buffer) w
    | inr (row, e) ↦ rw (e, take_buffer) (heap-WellFormed _ (length-set c.heap a _))
  ]

  swap_notify-WellFormed : (id : ℕ) (buffer : List ℕ) → WellFormed (swap_notify id buffer c).1
  unfolding swap_notify
  swap_notify-WellFormed id buffer = elim (Option-cases (lookup id c.entries)) [
    | inl e ↦ rw (e, swap_notify) w
    | inr (a, e) ↦ elim (Option-cases (get_elem? c.heap a)) [
      | inl e' ↦ rw (e, e', swap_notify) w
      | inr (row, e') ↦ elim (Bool-cases (is_waiting row.state)) [
        | inl s ↦ rw (e, e', s, swap_notify) (erase-WellFormed id _ (length-set c.heap a _))
        | inr s ↦ rw (e, e', s, swap_notify) (heap-WellFormed _ (length-set c.heap a _))
      ]
    ]
  ]

  remove_obsolete-WellFormed : (now : ℕ) → WellFormed (remove_obsolete now c)
  unfolding remove_obsolete
  remove_obsolete-WellFormed now = record {
    counter_fits = w.counter_fits;
    issued = All-keep_if _ _ c.entries w.issued;
    below = All-keep_if _ _ c.entries w.below;
    distinct = Distinct-keep_if _ c.entries w.distinct;
    capped = omega (arith, length-keep_if-le (row_is_valid now c.heap) c.entries);
  }

  clear-WellFormed : WellFormed (clear c)
  unfolding clear
  clear-WellFormed = record {
    counter_fits = w.counter_fits;
    issued = tt;
    below = tt;
    distinct = tt;
    capped = omega arith;
  }

-- The counter does not wrap in the run of an operation.
abbrev pub NoWrap : DataCache → Op → Type 0
NoWrap c (queues now valid) = c.id_counter + 1 < 2 ^ 64
NoWrap c _ = Unit

-- A new table is well formed.
pub data_cache-WellFormed : (n : ℕ) → WellFormed (data_cache n)
unfolding data_cache
data_cache-WellFormed n = ground arith

-- Each critical section keeps the table well formed, as long as the counter of ids does not wrap.
pub step-WellFormed : (c : DataCache) (o : Op) → NoWrap c o → WellFormed c → WellFormed (step c o)
unfolding step
step-WellFormed c (queues now valid) h w = queue-WellFormed w now valid h
step-WellFormed c (begins id) h w = begin_wait-WellFormed w id
step-WellFormed c (takes a buffer) h w = take_buffer-WellFormed w a buffer
step-WellFormed c (swaps id buffer) h w = swap_notify-WellFormed w id buffer
step-WellFormed c (removes now) h w = remove_obsolete-WellFormed w now
step-WellFormed c clears h w = clear-WellFormed w

pub id_counter-step-le : (c : DataCache) (o : Op) → (step c o).id_counter ≤ c.id_counter + 1
unfolding step
id_counter-step-le c (queues now valid) = unfold queue in ground arith
id_counter-step-le c (begins id) =
    begin_wait_cases (λ d. d.id_counter ≤ c.id_counter + 1) id c (omega arith) (omega arith)
      (λ a row _ _. omega arith)
id_counter-step-le c (takes a buffer) = unfold take_buffer in ground arith
id_counter-step-le c (swaps id buffer) = unfold swap_notify in ground arith
id_counter-step-le c (removes now) = unfold remove_obsolete in omega arith
id_counter-step-le c clears = unfold clear in omega arith

-- So many operations leave the counter below its limit.
abbrev pub Room : DataCache → List Op → Type 0
Room c os = c.id_counter + length os < 2 ^ 64

pub Room-NoWrap : (c : DataCache) (o : Op) (os : List Op) → Room c (o ∷ os) → NoWrap c o
Room-NoWrap c (queues now valid) os h = omega arith
Room-NoWrap c _ os h = tt

pub Room-step : (c : DataCache) (o : Op) (os : List Op) → Room c (o ∷ os) → Room (step c o) os
Room-step c o os h = omega (arith, id_counter-step-le c o)

pub id_counter-run-le :
    (c : DataCache) (os : List Op) → (run os c).id_counter ≤ c.id_counter + length os
unfolding run
id_counter-run-le c [] = omega arith
id_counter-run-le c (o ∷ os) =
    omega (arith, id_counter-step-le c o, id_counter-run-le (step c o) os)

-- Any sequence of critical sections, of any threads, keeps the table well formed, if the counter
-- has room for an id for each of them.
pub run-WellFormed :
    (c : DataCache) (os : List Op) → Room c os → WellFormed c → WellFormed (run os c)
unfolding run
run-WellFormed c [] h w = w
run-WellFormed c (o ∷ os) h w =
    run-WellFormed (step c o) os (Room-step c o os h) (step-WellFormed c o (Room-NoWrap c o os h) w)
