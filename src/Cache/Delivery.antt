-- ===== src/Cache/Delivery.antt =====
-- A response reaches the thread that waits for it, whatever the other threads do in between.
use radrpc.Types.{Duration}
use radrpc.Cache.{
  DataRead, DataCache, data_read, Op, begins, swaps, swapped, waiting, is_swapped, is_waiting,
  is_valid, step, run, queue, begin_wait, end_wait, take_buffer, swap_notify, wait, waits, ready,
}
use radrpc.Cache.Invariant.{
  WellFormed, Room, Room-step, id_counter-run-le, queue-WellFormed, step-WellFormed, run-WellFormed,
}
use radrpc.Cache.Rows.{Held, Detached, Quiet, Leaves, NotIn-erase}
use radrpc.Cache.Held.{Held-run}
use radrpc.Cache.Detached.{Detached-run}
use radrpc.Prelude.{
  ℕ, ◌+◌, ◌^◌, ◌<◌, ◌≡◌, refl, ap, ◌∙◌, true, false, List, [], ◌∷◌, ◌++◌, some, none, length, All,
  lookup, erase, lookup-insert, lookup-erase, get_elem?, set, get_elem?-set_self,
  get_elem?-append_end, lt_of_get_elem?, arith, leb,
}

pub run-append : (xs ys : List Op) (c : DataCache) → run (xs ++ ys) c ≡ run ys (run xs c)
unfolding run
run-append [] ys c = refl
run-append (x ∷ xs) ys c = run-append xs ys (step c x)

module _ (c : DataCache) (now : ℕ) (valid : Duration)
    (space : length c.entries < c.max_entries) where
  pub queue-Held :
      c.id_counter + 1 < 2 ^ 64
      → Held (queue now valid c).0 (length c.heap) (data_read now valid) (queue now valid c).1
  unfolding queue
  queue-Held fits =
      let room : leb c.max_entries (length c.entries) ≡ false = ground arith in
      rw (room, queue)
        (record {
          entry = lookup-insert _ _ (length c.heap) c.entries ∙ ground arith;
          content = get_elem?-append_end c.heap (data_read now valid);
        })

  pub queue-counter :
      c.id_counter + 1 < 2 ^ 64
      → ((queue now valid c).0 ≡ c.id_counter + 1)
        × ((queue now valid c).1.id_counter ≡ c.id_counter + 1)
  unfolding queue
  queue-counter fits = ground arith

module _ {id a : ℕ} {row : DataRead} {c : DataCache} (h : Held id a row c) where
  -- The row is marked, or leaves the table if its data is there.
  pub begin_wait-waits :
      is_swapped row.state ≡ false
      → begin_wait id c
        ≡ (waits a, record c { heap = set c.heap a (record row { state = waiting }) })
  unfolding begin_wait
  begin_wait-waits s = rw (h.entry, h.content, s, begin_wait)

  pub begin_wait-ready :
      is_swapped row.state ≡ true
      → begin_wait id c ≡ (ready a, record c { entries = erase id c.entries })
  unfolding begin_wait
  begin_wait-ready s = rw (h.entry, h.content, s, begin_wait)

  inside : a < length c.heap
  inside = lt_of_get_elem? c.heap a h.content

  pub Held-marked :
      Held id a
        (record row { state = waiting })
        (record c { heap = set c.heap a (record row { state = waiting }) })
  Held-marked = record { entry = h.entry; content = get_elem?-set_self c.heap a _ inside }

  pub swap_notify-Detached :
      (bytes : List ℕ)
      → WellFormed c
      → is_waiting row.state ≡ true
      → Detached a (record row { read_buffer = bytes; state = swapped }) (swap_notify id bytes c).1
  unfolding swap_notify
  swap_notify-Detached bytes w s =
      rw (h.entry, h.content, s, swap_notify)
        (record {
          gone = NotIn-erase id a c.entries w.distinct h.entry;
          content = get_elem?-set_self c.heap a _ inside;
        })

  pub swap_notify-Held :
      (bytes : List ℕ)
      → is_waiting row.state ≡ false
      → Held id a (record row { read_buffer = bytes; state = swapped }) (swap_notify id bytes c).1
  unfolding swap_notify
  swap_notify-Held bytes s =
      rw (h.entry, h.content, s, swap_notify)
        (record { entry = h.entry; content = get_elem?-set_self c.heap a _ inside })

  -- A wait that has to wait returns what the row holds when the others are done.
  pub wait-run :
      (others : List Op) (buffer : List ℕ) (end : DataRead)
      → is_swapped row.state ≡ false
      → get_elem? (run others (begin_wait id c).1).heap a ≡ some end
      → let (got, out, c') = wait id others buffer c in
        (got ≡ is_swapped end.state) × (out ≡ end.read_buffer)
  unfolding wait end_wait take_buffer
  wait-run others buffer end s e =
      let begun : (begin_wait id c).0 ≡ waits a = ap (λ p. p.0) (begin_wait-waits s) in
      rw (begun, wait) (rw (e, end_wait, take_buffer) (refl, refl))

  -- A wait for data that is there takes it, and its id out of the table.
  pub wait-ready :
      (others : List Op) (buffer : List ℕ)
      → is_swapped row.state ≡ true
      → let (got, out, c') = wait id others buffer c in
        (got ≡ true) × (out ≡ row.read_buffer) × (lookup id c'.entries ≡ none)
  unfolding wait take_buffer
  wait-ready others buffer s =
      let missed : lookup id (erase id c.entries) ≡ none =
        lookup-erase id id c.entries ∙ ground arith in
      rw (begin_wait-ready s, wait)
        (rw (begin_wait-ready s) (rw (h.content, take_buffer) (refl, refl, missed)))

-- What a thread that waits on the row sees, once another thread has brought the response.
module _ {id a : ℕ} {row : DataRead} {c : DataCache} (h : Held id a row c) (w : WellFormed c)
    (s : is_swapped row.state ≡ false) (during : List Op)
    (room : c.id_counter + (1 + length during) < 2 ^ 64)
    (q : All (Quiet id a (λ t. is_valid t row)) during) where
  Held-during :
      Held id a (record row { state = waiting }) (run during (begin_wait id c).1)
      × WellFormed (run during (begin_wait id c).1)
  unfolding run step
  Held-during =
      let marked : Held id a (record row { state = waiting }) (begin_wait id c).1 =
        rw (begin_wait-waits h s) (Held-marked h) in
      let enough : Room c (begins id ∷ during) = omega arith in
      (
        Held-run id a (record row { state = waiting }) _ during
            (Room-step c (begins id) during enough) (step-WellFormed c (begins id) tt w) q marked,
        run-WellFormed c (begins id ∷ during) enough w,
      )

  -- The wait ends with the row that the operation `o` takes out of the table.
  pub wait-Detached :
      (o : Op) (end : DataRead) (buffer : List ℕ) (after : List Op)
      → ((d : DataCache)
          → Held id a (record row { state = waiting }) d
          → WellFormed d
          → Detached a end (step d o))
      → All (Leaves a) after
      → let (got, out, c') = wait id (during ++ o ∷ after) buffer c in
        (got ≡ is_swapped end.state) × (out ≡ end.read_buffer)
  unfolding run
  wait-Detached o end buffer after f l =
      let (held, w') = Held-during in
      wait-run h (during ++ o ∷ after) buffer end s
        (rw (run-append during (o ∷ after)) (Detached-run a end _ after l (f _ held w')).content)

-- The operations do not concern the response that `queue now valid` asks for at the table `c`: no
-- wait for its id, no response under it, no use of its row, no `clear`, and `remove_obsolete` only
-- while it is valid.
abbrev pub Undisturbed : DataCache → ℕ → Duration → List Op → Type 0
Undisturbed c now valid =
    All (Quiet (queue now valid c).0 (length c.heap) (λ t. is_valid t (data_read now valid)))

-- After the `queue` and `before`, the row is as it was.
pub queue-run-Held :
    (c : DataCache) (now : ℕ) (valid : Duration) (os : List Op)
    → WellFormed c
    → length c.entries < c.max_entries
    → c.id_counter + (1 + length os) < 2 ^ 64
    → Undisturbed c now valid os
    → Held
        (queue now valid c).0
        (length c.heap)
        (data_read now valid)
        (run os (queue now valid c).1)
      × WellFormed (run os (queue now valid c).1)
queue-run-Held c now valid os w space room q =
    let fits : c.id_counter + 1 < 2 ^ 64 = omega arith in
    let enough : Room (queue now valid c).1 os =
      omega (arith, (queue-counter c now valid space fits).1) in
    let w' = queue-WellFormed w now valid fits in
    (
      Held-run _ _ _ _ os enough w' q (queue-Held c now valid space fits),
      run-WellFormed _ os enough w',
    )

-- A thread asks for a response with `queue` and then waits for it. Other threads do `before` in
-- between and `during` while it waits, with nothing that concerns this response, until the response
-- comes. The wait returns true with the bytes of the response, whatever is done to the table
-- `after`, if the table had space for the id and the counter does not wrap.
pub wait-swap_notify :
    (c : DataCache) (now : ℕ) (valid : Duration) (before during after : List Op)
    (bytes buffer : List ℕ)
    → WellFormed c
    → length c.entries < c.max_entries
    → c.id_counter + (2 + length before + length during) < 2 ^ 64
    → Undisturbed c now valid before
    → Undisturbed c now valid during
    → All (Leaves (length c.heap)) after
    → let (id, table) = queue now valid c in
      let (got, out, c') = wait id (during ++ swaps id bytes ∷ after) buffer (run before table) in
      (got ≡ true) × (out ≡ bytes)
unfolding step
wait-swap_notify c now valid before during after bytes buffer w space room q r l =
    let (held, w') = queue-run-Held c now valid before w space (omega arith) q in
    wait-Detached held w' refl during
      (omega (
        arith,
        (queue-counter c now valid space (omega arith)).1,
        id_counter-run-le (queue now valid c).1 before,
      ))
      r (swaps (queue now valid c).0 bytes) _ buffer after
      (λ d h v. swap_notify-Detached h bytes v refl) l

-- A response that comes before the thread waits is kept: after any undisturbing operations the wait
-- returns at once with its bytes, and its id has left the table.
pub swap_notify-wait :
    (c : DataCache) (now : ℕ) (valid : Duration) (before between others : List Op)
    (bytes buffer : List ℕ)
    → WellFormed c
    → length c.entries < c.max_entries
    → c.id_counter + (2 + length before + length between) < 2 ^ 64
    → Undisturbed c now valid before
    → Undisturbed c now valid between
    → let (id, table) = queue now valid c in
      let (got, out, c') = wait id others buffer (run (before ++ swaps id bytes ∷ between) table) in
      (got ≡ true) × (out ≡ bytes) × (lookup id c'.entries ≡ none)
unfolding run step
swap_notify-wait c now valid before between others bytes buffer w space room q r =
    let (held, w') = queue-run-Held c now valid before w space (omega arith) q in
    let id = (queue now valid c).0 in
    let start = run before (queue now valid c).1 in
    let enough : Room start (swaps id bytes ∷ between) = omega (
      arith,
      (queue-counter c now valid space (omega arith)).1,
      id_counter-run-le (queue now valid c).1 before,
    ) in
    rw (run-append before (swaps id bytes ∷ between)) (
      wait-ready
        (Held-run id (length c.heap) _ _ between (Room-step start (swaps id bytes) between enough)
          (step-WellFormed start (swaps id bytes) tt w') r (swap_notify-Held held bytes refl))
        others buffer refl)
