-- ===== src/Cache/Rows.antt =====
-- A row of the table, a row that has left it, and the operations that have nothing to do with a row.
use radrpc.Cache.{DataRead, DataCache, Op, queues, begins, takes, swaps, removes, clears}
use radrpc.Cache.Invariant.{NotIn, Distinct}
use radrpc.Prelude.{
  Bool, ℕ, ◌≡◌, ◌≢◌, sym, true, [], ◌∷◌, some, All-erase, All-lookup, Map, lookup, erase, get_elem?,
  arith, Bool-cases, ◌==◌, inl, inr,
}

-- Two ids have two rows.
pub lookup-ne :
    (j k b a : ℕ) (m : Map ℕ)
    → Distinct m
    → lookup j m ≡ some b
    → lookup k m ≡ some a
    → j ≢ k
    → b ≢ a
lookup-ne j k b a [] d p q n = cc
lookup-ne j k b a ((i, x) ∷ m) d p q n =
    ground
      (arith, lookup-ne j k b a m, All-lookup (λ e. e.1 ≢ x) j b m, All-lookup (λ e. e.1 ≢ x) k a m)

pub NotIn-erase : (id a : ℕ) (m : Map ℕ) → Distinct m → lookup id m ≡ some a → NotIn a (erase id m)
NotIn-erase id a [] d e = tt
NotIn-erase id a ((i, x) ∷ m) d e = elim (Bool-cases (i == id)) [
  | inl hit ↦ let same : x ≡ a = ground arith in rw hit (All-erase _ id m (rw same at d.0))
  | inr miss ↦
      let rest : lookup id m ≡ some a = ground arith in
      rw miss (λ p. All-lookup _ id a m rest d.0 (sym p), NotIn-erase id a m d.1 rest)
]

-- The table holds `row` at the address `a` under `id`.
pub record Held (id a : ℕ) (row : DataRead) (c : DataCache) : Type 0 where
  pub entry : lookup id c.entries ≡ some a
  pub content : get_elem? c.heap a ≡ some row

-- The row at `a` has left the table.
pub record Detached (a : ℕ) (row : DataRead) (c : DataCache) : Type 0 where
  pub gone : NotIn a c.entries
  pub content : get_elem? c.heap a ≡ some row

-- An operation that has nothing to do with the response `id`, whose row is at `a` and is still
-- valid at the times for which `alive` holds.
abbrev pub Quiet : ℕ → ℕ → (ℕ → Bool) → Op → Type 0
Quiet id a alive (queues now valid) = Unit
Quiet id a alive (begins j) = j ≢ id
Quiet id a alive (takes b buffer) = b ≢ a
Quiet id a alive (swaps j buffer) = j ≢ id
Quiet id a alive (removes now) = alive now ≡ true
Quiet id a alive clears = ⊥

-- An operation that does not take the buffer of the row at `a`.
abbrev pub Leaves : ℕ → Op → Type 0
Leaves a (takes b buffer) = b ≢ a
Leaves a _ = Unit
