-- ===== src/Cache/Sweep.antt =====
-- The loop of `data_cache::remove_obsolete` in include/radrpc/detail/data.hpp, which erases from the
-- map while it runs over it, against the filter that the rest of the model uses.
use mathlib.Core.List.{append_assoc}
use radrpc.Cache.{
  DataCache, Op, queues, begins, takes, swaps, removes, clears, step, run, queue, begin_wait,
  take_buffer, swap_notify, remove_obsolete, clear, data_cache, row_is_valid,
}
use radrpc.Prelude.{
  ℕ, zero, suc, ◌+◌, ◌%◌, ◌^◌, ◌≤◌, ◌<◌, ◌≡◌, refl, ap, sym, ◌∙◌, Bool, leb, Option, none, some,
  List, [], ◌∷◌, ◌++◌, length, All, All-mono, Map, insert, erase, keep_if, All-insert, All-erase,
  All-keep_if, arith, Bool-cases, inl, inr, if◌then◌else◌,
}

-- The entry that an iterator stands at: the first from the key `k` on.
at_or_after : ℕ → Map ℕ → Option (ℕ × ℕ)
at_or_after k [] = none
at_or_after k ((j, a) ∷ m) = if leb k j then some (j, a) else at_or_after k m

-- The iterator is moved on before its entry is erased.
sweep_from : (ℕ → ℕ → Bool) → ℕ → ℕ → Map ℕ → Map ℕ
unfolding at_or_after
sweep_from p zero k m = m
sweep_from p (suc n) k m = elim (at_or_after k m) [
  | none ↦ m
  | some (j, a) ↦ sweep_from p n (j + 1) (if p j a then m else erase j m)
]

-- One turn for each entry.
pub sweep : ℕ → DataCache → DataCache
unfolding sweep_from
sweep now c = record c {
  entries = sweep_from (row_is_valid now c.heap) (length c.entries) 0 c.entries;
}

abbrev From : ℕ → Map ℕ → Type 0
From k = All (λ e. k ≤ e.0)

abbrev Under : ℕ → Map ℕ → Type 0
Under k = All (λ e. e.0 < k)

-- The keys grow, as those of a `std::map` do.
abbrev Ascending : Map ℕ → Type 0
Ascending [] = Unit
Ascending ((k, a) ∷ m) = From (k + 1) m × Ascending m

at_or_after-found :
    (k j a : ℕ) (before rest : Map ℕ)
    → Under k before
    → k ≤ j
    → at_or_after k (before ++ (j, a) ∷ rest) ≡ some (j, a)
unfolding at_or_after
at_or_after-found k j a [] rest u h = ground arith
at_or_after-found k j a ((i, b) ∷ before) rest u h =
    ground (arith, at_or_after-found k j a before rest u.1 h, u.0)

at_or_after-end : (k : ℕ) (before : Map ℕ) → Under k before → at_or_after k (before ++ []) ≡ none
unfolding at_or_after
at_or_after-end k [] u = refl
at_or_after-end k ((i, b) ∷ before) u = ground (arith, at_or_after-end k before u.1, u.0)

erase-From : (j : ℕ) (m : Map ℕ) → From (j + 1) m → erase j m ≡ m
erase-From j [] f = refl
erase-From j ((i, b) ∷ m) f = ground (arith, erase-From j m f.1, f.0)

erase-append :
    (j a : ℕ) (before rest : Map ℕ)
    → Under j before
    → From (j + 1) rest
    → erase j (before ++ (j, a) ∷ rest) ≡ before ++ rest
erase-append j a [] rest u f = ground (arith, erase-From j rest f)
erase-append j a ((i, b) ∷ before) rest u f =
    ground (arith, erase-append j a before rest u.1 f, u.0)

Under-append :
    (k : ℕ) (before : Map ℕ) (j a : ℕ) → Under k before → j < k → Under k (before ++ (j, a) ∷ [])
Under-append k [] j a u h = (h, tt)
Under-append k ((i, b) ∷ before) j a u h = (u.0, Under-append k before j a u.1 h)

sweep_from-keep_if :
    (p : ℕ → ℕ → Bool) (n k : ℕ) (before rest : Map ℕ)
    → length rest ≤ n
    → Under k before
    → From k rest
    → Ascending rest
    → sweep_from p n k (before ++ rest) ≡ before ++ keep_if p rest
unfolding sweep_from
sweep_from-keep_if p zero k before [] l u f s = refl
sweep_from-keep_if p (suc n) k before [] l u f s = rw (at_or_after-end k before u, sweep_from) refl
sweep_from-keep_if p zero k before ((j, a) ∷ rest) l u f s = absurd (omega (arith, l))
sweep_from-keep_if p (suc n) k before ((j, a) ∷ rest) l u f s =
    let under : Under (j + 1) before =
      All-mono (λ e. e.0 < k) (λ e. e.0 < j + 1) (λ i b h. omega (arith, f.0)) before u in
    let below : Under j before =
      All-mono (λ e. e.0 < k) (λ e. e.0 < j) (λ i b h. omega (arith, f.0)) before u in
    let x = at_or_after-found k j a before rest u f.0 in
    elim (Bool-cases (p j a)) [
      | inl e ↦
          rw (x, e, sweep_from)
            (ap (sweep_from p n (j + 1)) (sym (append_assoc before ((j, a) ∷ []) rest))
              ∙ sweep_from-keep_if p n (j + 1) (before ++ (j, a) ∷ []) rest (omega arith)
                  (Under-append (j + 1) before j a under (omega arith)) s.0 s.1
              ∙ append_assoc before ((j, a) ∷ []) (keep_if p rest))
      | inr e ↦
          rw (x, e, sweep_from)
            (ap (sweep_from p n (j + 1)) (erase-append j a before rest below s.0)
              ∙ sweep_from-keep_if p n (j + 1) before rest (omega arith) under s.0 s.1)
    ]

Ascending-insert : (k a : ℕ) (m : Map ℕ) → Ascending m → Ascending (insert k a m)
Ascending-insert k a [] s = (tt, tt)
Ascending-insert k a ((i, b) ∷ m) s = ground (
  arith,
  Ascending-insert k a m s.1,
  All-insert (λ e. i + 1 ≤ e.0) k a m,
  λ (h : k < i).
      All-mono (λ e. i + 1 ≤ e.0) (λ e. k + 1 ≤ e.0) (λ j c g. omega (arith, h, g)) m s.0,
)

Ascending-erase : (k : ℕ) (m : Map ℕ) → Ascending m → Ascending (erase k m)
Ascending-erase k [] s = tt
Ascending-erase k ((i, b) ∷ m) s =
    ground (arith, Ascending-erase k m s.1, All-erase (λ e. i + 1 ≤ e.0) k m s.0)

Ascending-keep_if : (p : ℕ → ℕ → Bool) (m : Map ℕ) → Ascending m → Ascending (keep_if p m)
Ascending-keep_if p [] s = tt
Ascending-keep_if p ((i, b) ∷ m) s =
    ground (arith, Ascending-keep_if p m s.1, All-keep_if (λ e. i + 1 ≤ e.0) p m s.0)

step-Ascending : (c : DataCache) (o : Op) → Ascending c.entries → Ascending (step c o).entries
unfolding step queue begin_wait take_buffer swap_notify remove_obsolete clear
step-Ascending c (queues now valid) s =
    ground (arith, s, Ascending-insert ((c.id_counter + 1) % 2 ^ 64) (length c.heap) c.entries s)
step-Ascending c (begins id) s = ground (arith, s, Ascending-erase id c.entries s)
step-Ascending c (takes a buffer) s = ground (arith, s)
step-Ascending c (swaps id buffer) s = ground (arith, s, Ascending-erase id c.entries s)
step-Ascending c (removes now) s = Ascending-keep_if (row_is_valid now c.heap) c.entries s
step-Ascending c clears s = tt

run-Ascending : (os : List Op) (c : DataCache) → Ascending c.entries → Ascending (run os c).entries
unfolding run
run-Ascending [] c s = s
run-Ascending (o ∷ os) c s = run-Ascending os (step c o) (step-Ascending c o s)

From-zero : (m : Map ℕ) → From 0 m
From-zero [] = tt
From-zero ((i, b) ∷ m) = (omega arith, From-zero m)

-- In every table that a run of critical sections leaves, the loop that erases the rows that are not
-- valid while it runs over the table ends after one turn for each row, and leaves the rows that are
-- valid, in their order: the loop and the filter `remove_obsolete` are the same.
pub sweep-remove_obsolete :
    (max_entries now : ℕ) (os : List Op)
    → let c = run os (data_cache max_entries) in sweep now c ≡ remove_obsolete now c
unfolding sweep remove_obsolete data_cache
sweep-remove_obsolete max_entries now os =
    let c = run os (data_cache max_entries) in
    ap (λ m. record c { entries = m })
      (sweep_from-keep_if (row_is_valid now c.heap) (length c.entries) 0 [] c.entries (omega arith)
        tt (From-zero c.entries) (run-Ascending os (data_cache max_entries) tt))
