-- ===== src/Cache/Detached.antt =====
-- Other threads leave a row as it is once it has left the table.
use radrpc.Cache.Rows.{Detached, Leaves}
use radrpc.Cache.{
  DataRead, DataCache, data_read, Op, queues, begins, takes, swaps, removes, clears, is_waiting,
  step, run, queue, begin_wait, take_buffer, swap_notify, remove_obsolete, clear, release_all,
  release_row,
}
use radrpc.Cache.Invariant.{NotIn, begin_wait_cases}
use radrpc.Types.{Duration}
use radrpc.Prelude.{
  ℕ, ◌<◌, ◌≡◌, ◌≢◌, refl, ◌∙◌, List, [], ◌∷◌, some, length, All, All-insert, All-erase, All-keep_if,
  All-lookup, Map, lookup, get_elem?, set, get_elem?-set_ne, get_elem?-append_left, lt_of_get_elem?,
  arith, Option-cases, Bool-cases, leb, inl, inr,
}

module _ {a : ℕ} {row : DataRead} {c : DataCache} (h : Detached a row c) where
  Detached-heap :
      (j b : ℕ) (r : DataRead) (es : Map ℕ)
      → lookup j c.entries ≡ some b
      → NotIn a es
      → Detached a row (record c { heap = set c.heap b r; entries = es })
  Detached-heap j b r es e k = record {
    gone = k;
    content = get_elem?-set_ne c.heap b a r (All-lookup _ j b c.entries e h.gone) ∙ h.content;
  }

  Detached-queue : (now : ℕ) (valid : Duration) → Detached a row (queue now valid c).1
  unfolding queue
  Detached-queue now valid = elim (Bool-cases (leb c.max_entries (length c.entries))) [
    | inl full ↦ rw (full, queue) h
    | inr room ↦
        let inside : a < length c.heap = lt_of_get_elem? c.heap a h.content in
        rw (room, queue)
          (record {
            gone = All-insert _ _ (length c.heap) c.entries (omega arith) h.gone;
            content = get_elem?-append_left c.heap (data_read now valid ∷ []) a inside ∙ h.content;
          })
  ]

  Detached-begin_wait : (j : ℕ) → Detached a row (begin_wait j c).1
  Detached-begin_wait j =
      begin_wait_cases (Detached a row) j c h
        (record { gone = All-erase _ j c.entries h.gone; content = h.content })
        (λ b r e _. Detached-heap j b _ c.entries e h.gone)

  Detached-take_buffer :
      (b : ℕ) (buffer : List ℕ) → b ≢ a → Detached a row (take_buffer b buffer c).1
  unfolding take_buffer
  Detached-take_buffer b buffer n = elim (Option-cases (get_elem? c.heap b)) [
    | inl e ↦ rw (e, take_buffer) h
    | inr (r, e) ↦
        rw (e, take_buffer)
          (record { gone = h.gone; content = get_elem?-set_ne c.heap b a _ n ∙ h.content })
  ]

  Detached-swap_notify : (j : ℕ) (buffer : List ℕ) → Detached a row (swap_notify j buffer c).1
  unfolding swap_notify
  Detached-swap_notify j buffer = elim (Option-cases (lookup j c.entries)) [
    | inl e ↦ rw (e, swap_notify) h
    | inr (b, e) ↦ elim (Option-cases (get_elem? c.heap b)) [
      | inl e' ↦ rw (e, e', swap_notify) h
      | inr (r, e') ↦ elim (Bool-cases (is_waiting r.state)) [
        | inl s ↦
            rw (e, e', s, swap_notify) (Detached-heap j b _ _ e (All-erase _ j c.entries h.gone))
        | inr s ↦ rw (e, e', s, swap_notify) (Detached-heap j b _ _ e h.gone)
      ]
    ]
  ]

pub release_row-ne :
    (heap : List DataRead) (a b : ℕ) → b ≢ a → get_elem? (release_row heap b) a ≡ get_elem? heap a
unfolding release_row
release_row-ne heap a b n = elim (Option-cases (get_elem? heap b)) [
  | inl e ↦ rw (e, release_row)
  | inr (r, e) ↦ rw (e, release_row) (get_elem?-set_ne heap b a _ n)
]

pub release_all-ne :
    (m : Map ℕ) (heap : List DataRead) (a : ℕ)
    → NotIn a m
    → get_elem? (release_all m heap) a ≡ get_elem? heap a
unfolding release_all
release_all-ne [] heap a n = refl
release_all-ne ((k, b) ∷ m) heap a n =
    release_all-ne m (release_row heap b) a n.1 ∙ release_row-ne heap a b n.0

Detached-step :
    (a : ℕ) (row : DataRead) (c : DataCache) (o : Op)
    → Leaves a o
    → Detached a row c
    → Detached a row (step c o)
unfolding step
Detached-step a row c (queues now valid) l h = Detached-queue h now valid
Detached-step a row c (begins j) l h = Detached-begin_wait h j
Detached-step a row c (takes b buffer) l h = Detached-take_buffer h b buffer l
Detached-step a row c (swaps j buffer) l h = Detached-swap_notify h j buffer
Detached-step a row c (removes now) l h =
    unfold remove_obsolete in
    record { gone = All-keep_if _ _ c.entries h.gone; content = h.content }
Detached-step a row c clears l h =
    unfold clear in
    record { gone = tt; content = release_all-ne c.entries c.heap a h.gone ∙ h.content }

-- A row that has left the table keeps its content, whatever other threads do to the table.
pub Detached-run :
    (a : ℕ) (row : DataRead) (c : DataCache) (os : List Op)
    → All (Leaves a) os
    → Detached a row c
    → Detached a row (run os c)
unfolding run
Detached-run a row c [] l h = h
Detached-run a row c (o ∷ os) l h =
    Detached-run a row (step c o) os l.1 (Detached-step a row c o l.0 h)
