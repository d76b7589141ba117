-- ===== src/Examples/Advanced/Numbers.antt =====
-- `std::to_string`, as examples/advanced uses it, writes the number.
use native.Mathlib.Nat.{pow-suc}
use radrpc.Examples.Advanced.{digits, to_string}
use radrpc.Prelude.{
  ℕ, zero, suc, ◌+◌, ◌-◌, ◌*◌, ◌/◌, ◌%◌, ◌^◌, ◌<◌, ◌≡◌, refl, List, [], ◌∷◌, ◌++◌, arith,
  Bool-cases, ltb, inl, inr,
}

-- The number that decimal digits stand for, behind those that were read before.
abbrev pub value_from : ℕ → List ℕ → ℕ
value_from acc [] = acc
value_from acc (d ∷ ds) = value_from (acc * 10 + (d - 48)) ds

value_from-append_end :
    (acc d : ℕ) (ds : List ℕ) → value_from acc (ds ++ d ∷ []) ≡ value_from acc ds * 10 + (d - 48)
value_from-append_end acc d [] = refl
value_from-append_end acc d (e ∷ ds) = value_from-append_end (acc * 10 + (e - 48)) d ds

value_from-digits : (fuel n : ℕ) → n < 10 ^ fuel → value_from 0 (digits fuel n) ≡ n
unfolding digits
value_from-digits zero n h = omega arith
value_from-digits (suc fuel) n h =
    let h' : n < 10 ^ fuel * 10 = rw (pow-suc) at h in
    elim (Bool-cases (ltb n 10)) [
      | inl small ↦ rw small (ground arith)
      | inr large ↦
          let ih = value_from-digits fuel (n / 10) (omega arith) in
          rw large (omega (arith, ih, value_from-append_end 0 (48 + n % 10) (digits fuel (n / 10))))
    ]

-- Twenty digits are enough for a session id.
pub value_from-to_string : (n : ℕ) → n < 2 ^ 64 → value_from 0 (to_string n) ≡ n
value_from-to_string n h = value_from-digits 20 n (omega arith)
