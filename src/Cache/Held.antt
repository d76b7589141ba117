-- ===== src/Cache/Held.antt =====
-- Other threads leave a row of the table as it is: `Quiet` operations keep it under its id.
use radrpc.Cache.Rows.{Held, Quiet, lookup-ne}
use radrpc.Cache.{
  DataRead, DataCache, data_read, Op, queues, begins, takes, swaps, removes, clears, is_waiting,
  is_valid, row_is_valid, step, run, queue, begin_wait, take_buffer, swap_notify, remove_obsolete,
}
use radrpc.Cache.Invariant.{
  WellFormed, NoWrap, Room, Room-NoWrap, Room-step, begin_wait_cases, step-WellFormed,
}
use radrpc.Types.{Duration}
use radrpc.Prelude.{
  ℕ, ◌+◌, ◌%◌, ◌^◌, ◌<◌, ◌≡◌, ◌≢◌, ◌∙◌, true, List, [], ◌∷◌, some, length, All, All-lookup, Map,
  lookup, erase, lookup-insert, lookup-erase, lookup-keep_if, get_elem?, set, get_elem?-set_ne,
  get_elem?-append_left, lt_of_get_elem?, arith, Option-cases, Bool-cases, leb, inl, inr,
}

module _ {id a : ℕ} {row : DataRead} {c : DataCache} (w : WellFormed c) (h : Held id a row c) where
  Held-heap :
      (j b : ℕ) (r : DataRead) (es : Map ℕ)
      → j ≢ id
      → lookup j c.entries ≡ some b
      → lookup id es ≡ some a
      → Held id a row (record c { heap = set c.heap b r; entries = es })
  Held-heap j b r es n e k = record {
    entry = k;
    content =
        get_elem?-set_ne c.heap b a r (lookup-ne j id b a c.entries w.distinct e h.entry n)
        ∙ h.content;
  }

  Held-erase : (j : ℕ) → j ≢ id → lookup id (erase j c.entries) ≡ some a
  Held-erase j n = lookup-erase j id c.entries ∙ ground (arith, h.entry)

  Held-queue :
      (now : ℕ) (valid : Duration) → c.id_counter + 1 < 2 ^ 64 → Held id a row (queue now valid c).1
  unfolding queue
  Held-queue now valid fits = elim (Bool-cases (leb c.max_entries (length c.entries))) [
    | inl full ↦ rw (full, queue) h
    | inr room ↦
        rw (room, queue)
          (record {
            entry =
                lookup-insert ((c.id_counter + 1) % 2 ^ 64) id (length c.heap) c.entries
                ∙ ground (arith, h.entry, All-lookup _ id a c.entries h.entry w.issued);
            content =
                get_elem?-append_left c.heap (data_read now valid ∷ []) a
                  (lt_of_get_elem? c.heap a h.content)
                ∙ h.content;
          })
  ]

  Held-begin_wait : (j : ℕ) → j ≢ id → Held id a row (begin_wait j c).1
  Held-begin_wait j n =
      begin_wait_cases (Held id a row) j c h
        (record { entry = Held-erase j n; content = h.content })
        (λ b r e _. Held-heap j b _ c.entries n e h.entry)

  Held-take_buffer : (b : ℕ) (buffer : List ℕ) → b ≢ a → Held id a row (take_buffer b buffer c).1
  unfolding take_buffer
  Held-take_buffer b buffer n = elim (Option-cases (get_elem? c.heap b)) [
    | inl e ↦ rw (e, take_buffer) h
    | inr (r, e) ↦
        rw (e, take_buffer)
          (record { entry = h.entry; content = get_elem?-set_ne c.heap b a _ n ∙ h.content })
  ]

  Held-swap_notify : (j : ℕ) (buffer : List ℕ) → j ≢ id → Held id a row (swap_notify j buffer c).1
  unfolding swap_notify
  Held-swap_notify j buffer n = elim (Option-cases (lookup j c.entries)) [
    | inl e ↦ rw (e, swap_notify) h
    | inr (b, e) ↦ elim (Option-cases (get_elem? c.heap b)) [
      | inl e' ↦ rw (e, e', swap_notify) h
      | inr (r, e') ↦ elim (Bool-cases (is_waiting r.state)) [
        | inl s ↦ rw (e, e', s, swap_notify) (Held-heap j b _ _ n e (Held-erase j n))
        | inr s ↦ rw (e, e', s, swap_notify) (Held-heap j b _ _ n e h.entry)
      ]
    ]
  ]

  Held-remove_obsolete : (now : ℕ) → is_valid now row ≡ true → Held id a row (remove_obsolete now c)
  unfolding remove_obsolete
  Held-remove_obsolete now v = record {
    entry =
        lookup-keep_if (row_is_valid now c.heap) id a c.entries h.entry
          (rw (h.content, row_is_valid) v);
    content = h.content;
  }

Held-step :
    (id a : ℕ) (row : DataRead) (c : DataCache) (o : Op)
    → NoWrap c o
    → WellFormed c
    → Quiet id a (λ t. is_valid t row) o
    → Held id a row c
    → Held id a row (step c o)
unfolding step
Held-step id a row c (queues now valid) f w q h = Held-queue w h now valid f
Held-step id a row c (begins j) f w q h = Held-begin_wait w h j q
Held-step id a row c (takes b buffer) f w q h = Held-take_buffer w h b buffer q
Held-step id a row c (swaps j buffer) f w q h = Held-swap_notify w h j buffer q
Held-step id a row c (removes now) f w q h = Held-remove_obsolete w h now q
Held-step id a row c clears f w q h = absurd q

pub Held-run :
    (id a : ℕ) (row : DataRead) (c : DataCache) (os : List Op)
    → Room c os
    → WellFormed c
    → All (Quiet id a (λ t. is_valid t row)) os
    → Held id a row c
    → Held id a row (run os c)
unfolding run
Held-run id a row c [] f w q h = h
Held-run id a row c (o ∷ os) f w q h =
    Held-run id a row (step c o) os (Room-step c o os f)
      (step-WellFormed c o (Room-NoWrap c o os f) w) q.1
      (Held-step id a row c o (Room-NoWrap c o os f) w q.0 h)
