-- ===== src/Cache/Lost.antt =====
-- The two ways in which a wait ends with no response: `remove_obsolete` drops a row that is waited
-- on, and `clear` wakes the waiter with nothing in the buffer.
use radrpc.Types.{Duration}
use radrpc.Cache.{
  DataRead, DataCache, data_read, Op, removes, clears, swapped, is_valid, row_is_valid, step, run,
  queue, remove_obsolete, clear, release_all, release_row, wait,
}
use radrpc.Cache.Invariant.{NotIn, Distinct, WellFormed, id_counter-run-le}
use radrpc.Cache.Rows.{Held, Detached, Leaves}
use radrpc.Cache.Detached.{release_row-ne, release_all-ne}
use radrpc.Cache.Delivery.{Undisturbed, queue-run-Held, queue-counter, wait-Detached}
use radrpc.Prelude.{
  ℕ, ◌+◌, ◌^◌, ◌<◌, ◌≡◌, refl, sym, ◌∙◌, Bool, true, false, List, [], ◌∷◌, ◌++◌, some, length, All,
  All-lookup, Map, lookup, keep_if, get_elem?, get_elem?-set_self, lt_of_get_elem?, arith,
  Bool-cases, ◌==◌, inl, inr,
}

NotIn-keep_if :
    (p : ℕ → ℕ → Bool) (a : ℕ) (m : Map ℕ) → ((k : ℕ) → p k a ≡ false) → NotIn a (keep_if p m)
NotIn-keep_if p a [] f = tt
NotIn-keep_if p a ((k, v) ∷ m) f = elim (Bool-cases (p k v)) [
  | inl kept ↦
      rw kept ((λ (e : v ≡ a). let bad : p k v ≡ false = rw e (f k) in cc), NotIn-keep_if p a m f)
  | inr out ↦ rw out (NotIn-keep_if p a m f)
]

remove_obsolete-Detached :
    (id a t : ℕ) (row : DataRead) (c : DataCache)
    → is_valid t row ≡ false
    → Held id a row c
    → Detached a row (remove_obsolete t c)
unfolding remove_obsolete
remove_obsolete-Detached id a t row c old h = record {
  gone = NotIn-keep_if _ a c.entries (λ k. rw (h.content, row_is_valid) old);
  content = h.content;
}

-- A row that is waited on is removed like any other once it is not valid any more. Then the wait
-- ends with false and an empty buffer, and no later operation can change this, also not the
-- response itself.
pub wait-remove_obsolete :
    (c : DataCache) (now t : ℕ) (valid : Duration) (before during after : List Op) (buffer : List ℕ)
    → WellFormed c
    → length c.entries < c.max_entries
    → c.id_counter + (2 + length before + length during) < 2 ^ 64
    → Undisturbed c now valid before
    → Undisturbed c now valid during
    → is_valid t (data_read now valid) ≡ false
    → All (Leaves (length c.heap)) after
    → let (id, table) = queue now valid c in
      let (got, out, c') = wait id (during ++ removes t ∷ after) buffer (run before table) in
      (got ≡ false) × (out ≡ [])
unfolding step
wait-remove_obsolete c now t valid before during after buffer w space room q r old l =
    let (held, w') = queue-run-Held c now valid before w space (omega arith) q in
    wait-Detached held w' refl during
      (omega (
        arith,
        (queue-counter c now valid space (omega arith)).1,
        id_counter-run-le (queue now valid c).1 before,
      ))
      r (removes t) _ buffer after (λ d h v. remove_obsolete-Detached _ _ t _ d old h) l

release_row_self :
    (heap : List DataRead) (a : ℕ) (row : DataRead)
    → get_elem? heap a ≡ some row
    → get_elem? (release_row heap a) a ≡ some (record row { state = swapped })
unfolding release_row
release_row_self heap a row e =
    rw (e, release_row) (get_elem?-set_self heap a _ (lt_of_get_elem? heap a e))

release_all_self :
    (id a : ℕ) (row : DataRead) (m : Map ℕ) (heap : List DataRead)
    → Distinct m
    → lookup id m ≡ some a
    → get_elem? heap a ≡ some row
    → get_elem? (release_all m heap) a ≡ some (record row { state = swapped })
unfolding release_all
release_all_self id a row [] heap d e g = cc
release_all_self id a row ((k, b) ∷ m) heap d e g = elim (Bool-cases (k == id)) [
  | inl hit ↦
      let same : b ≡ a = ground arith in
      rw same
        (release_all-ne m (release_row heap a) a (rw same at d.0) ∙ release_row_self heap a row g)
  | inr miss ↦
      let rest : lookup id m ≡ some a = ground arith in
      release_all_self id a row m (release_row heap b) d.1 rest
        (release_row-ne heap a b (λ p. All-lookup _ id a m rest d.0 (sym p)) ∙ g)
]

clear-Detached :
    (id a : ℕ) (row : DataRead) (c : DataCache)
    → WellFormed c
    → Held id a row c
    → Detached a (record row { state = swapped }) (clear c)
unfolding clear
clear-Detached id a row c w h = record {
  gone = tt;
  content = release_all_self id a row c.entries c.heap w.distinct h.entry h.content;
}

-- `clear` wakes every waiter with true, though no response has come: the bytes are empty.
pub wait-clear :
    (c : DataCache) (now : ℕ) (valid : Duration) (before during after : List Op) (buffer : List ℕ)
    → WellFormed c
    → length c.entries < c.max_entries
    → c.id_counter + (2 + length before + length during) < 2 ^ 64
    → Undisturbed c now valid before
    → Undisturbed c now valid during
    → All (Leaves (length c.heap)) after
    → let (id, table) = queue now valid c in
      let (got, out, c') = wait id (during ++ clears ∷ after) buffer (run before table) in
      (got ≡ true) × (out ≡ [])
unfolding step
wait-clear c now valid before during after buffer w space room q r l =
    let (held, w') = queue-run-Held c now valid before w space (omega arith) q in
    wait-Detached held w' refl during
      (omega (
        arith,
        (queue-counter c now valid space (omega arith)).1,
        id_counter-run-le (queue now valid c).1 before,
      ))
      r clears _ buffer after (λ d h v. clear-Detached _ _ _ d v h) l
