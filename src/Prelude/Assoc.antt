-- ===== src/Prelude/Assoc.antt =====
-- Maps from numbers, as association lists. `insert` keeps the keys ascending, as `std::map` does.
use Prim.Native.Nat.{ℕ, suc, ◌≤◌}
use mathlib.Core.Path.{◌≡◌, refl}
use mathlib.Core.Bool.{Bool, true}
use mathlib.Core.List.{List, [], ◌∷◌}
use mathlib.Core.Option
use mathlib.Core.Option.{Option, none, some}
use native.Mathlib.Omega.{arith}
use radrpc.Prelude.Tests.{ltb, ◌==◌, if◌then◌else◌}
use radrpc.Prelude.Lists.{length, All}

abbrev pub Map {ℓ} : Type ℓ → Type ℓ
Map V = List (ℕ × V)

module _ {ℓ} {V : Type ℓ} where
  abbrev pub lookup : ℕ → Map V → Option V
  lookup k [] = none
  lookup k ((j, v) ∷ m) = if j == k then some v else lookup k m

  abbrev pub insert : ℕ → V → Map V → Map V
  insert k v [] = (k, v) ∷ []
  insert k v ((j, w) ∷ m) =
      if j == k then (k, v) ∷ m else if ltb k j then (k, v) ∷ (j, w) ∷ m else (j, w) ∷ insert k v m

  -- A map holds a key once, so this takes out one entry.
  abbrev pub erase : ℕ → Map V → Map V
  erase k [] = []
  erase k ((j, v) ∷ m) = if j == k then erase k m else (j, v) ∷ erase k m

  abbrev pub keep_if : (ℕ → V → Bool) → Map V → Map V
  keep_if p [] = []
  keep_if p ((j, v) ∷ m) = if p j v then (j, v) ∷ keep_if p m else keep_if p m

  abbrev pub adjust : ℕ → (V → V) → Map V → Map V
  adjust k f [] = []
  adjust k f ((j, v) ∷ m) = if j == k then (j, f v) ∷ adjust k f m else (j, v) ∷ adjust k f m

  pub length-adjust : (k : ℕ) (f : V → V) (m : Map V) → length (adjust k f m) ≡ length m
  length-adjust k f [] = refl
  length-adjust k f ((i, w) ∷ m) = ground (arith, length-adjust k f m)

  pub lookup-adjust :
      (k j : ℕ) (f : V → V) (m : Map V)
      → lookup j (adjust k f m) ≡ (if k == j then Option.map f (lookup j m) else lookup j m)
  lookup-adjust k j f [] = ground arith
  lookup-adjust k j f ((i, w) ∷ m) = ground (arith, lookup-adjust k j f m)

  pub lookup-insert :
      (k j : ℕ) (v : V) (m : Map V)
      → lookup j (insert k v m) ≡ (if k == j then some v else lookup j m)
  lookup-insert k j v [] = refl
  lookup-insert k j v ((i, w) ∷ m) = ground (arith, lookup-insert k j v m)

  pub lookup-erase :
      (k j : ℕ) (m : Map V) → lookup j (erase k m) ≡ (if k == j then none else lookup j m)
  lookup-erase k j [] = ground arith
  lookup-erase k j ((i, w) ∷ m) = ground (arith, lookup-erase k j m)

  pub length-insert-le : (k : ℕ) (v : V) (m : Map V) → length (insert k v m) ≤ suc (length m)
  length-insert-le k v [] = omega arith
  length-insert-le k v ((i, w) ∷ m) = ground (arith, length-insert-le k v m)

  pub length-erase-le : (k : ℕ) (m : Map V) → length (erase k m) ≤ length m
  length-erase-le k [] = omega arith
  length-erase-le k ((i, w) ∷ m) = ground (arith, length-erase-le k m)

  pub length-keep_if-le : (p : ℕ → V → Bool) (m : Map V) → length (keep_if p m) ≤ length m
  length-keep_if-le p [] = omega arith
  length-keep_if-le p ((i, w) ∷ m) = ground (arith, length-keep_if-le p m)

  pub lookup-keep_if :
      (p : ℕ → V → Bool) (k : ℕ) (v : V) (m : Map V)
      → lookup k m ≡ some v
      → p k v ≡ true
      → lookup k (keep_if p m) ≡ some v
  lookup-keep_if p k v [] e h = cc
  lookup-keep_if p k v ((i, w) ∷ m) e h = ground (arith, lookup-keep_if p k v m)

  module _ {κ} (P : ℕ × V → Type κ) where
    pub All-insert : (k : ℕ) (v : V) (m : Map V) → P (k, v) → All P m → All P (insert k v m)
    All-insert k v [] h a = (h, tt)
    All-insert k v ((i, w) ∷ m) h a = ground (arith, All-insert k v m h a.1)

    pub All-erase : (k : ℕ) (m : Map V) → All P m → All P (erase k m)
    All-erase k [] a = tt
    All-erase k ((i, w) ∷ m) a = ground (arith, All-erase k m a.1)

    pub All-keep_if : (p : ℕ → V → Bool) (m : Map V) → All P m → All P (keep_if p m)
    All-keep_if p [] a = tt
    All-keep_if p ((i, w) ∷ m) a = ground (arith, All-keep_if p m a.1)

    pub All-lookup : (k : ℕ) (v : V) (m : Map V) → lookup k m ≡ some v → All P m → P (k, v)
    All-lookup k v [] e a = cc
    All-lookup k v ((i, w) ∷ m) e a = ground (arith, All-lookup k v m)

pub All-mono {ℓ κ μ} :
    {V : Type ℓ} (P : ℕ × V → Type κ) (Q : ℕ × V → Type μ)
    → ((k : ℕ) (v : V) → P (k, v) → Q (k, v))
    → (m : Map V) → All P m
    → All Q m
All-mono P Q f [] a = tt
All-mono P Q f ((k, v) ∷ m) a = (f k v a.0, All-mono P Q f m a.1)
