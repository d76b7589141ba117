-- ===== src/Tests/Table.antt =====
-- The table of expected responses.
use radrpc.Cache.{
  DataCache, data_cache, Op, queues, begins, swaps, removes, clears, queue, run, wait,
  remove_obsolete,
}
use radrpc.Cache.Invariant.{WellFormed, data_cache-WellFormed, run-WellFormed}
use radrpc.Cache.Delivery.{Undisturbed, wait-swap_notify, swap_notify-wait}
use radrpc.Cache.Sweep.{sweep, sweep-remove_obsolete}
use radrpc.Cache.Lost.{wait-remove_obsolete, wait-clear}
use radrpc.Types.{Duration}
use radrpc.Prelude.{ℕ, pos, ◌≡◌, refl, true, false, none, List, [], ◌∷◌, ◌++◌, lookup, arith}

abbrev table : DataCache
table = data_cache 500

abbrev two_seconds : Duration
two_seconds = pos 2_000_000_000

-- Another thread asks for a response of its own and gets it.
abbrev others : List Op
others = queues 5 two_seconds ∷ begins 2 ∷ swaps 2 (9 ∷ []) ∷ removes 1_000_000 ∷ []

abbrev id : ℕ
id = (queue 0 two_seconds table).0

id-one : id ≡ 1
unfolding queue data_cache
id-one = refl

others-Undisturbed : Undisturbed table 0 two_seconds others
unfolding queue data_cache
others-Undisturbed = (tt, (omega arith, (omega arith, (refl, tt))))

run-WellFormed_example : WellFormed (run others table)
unfolding data_cache
run-WellFormed_example = run-WellFormed table others (omega arith) (data_cache-WellFormed 500)

wait-swap_notify_example :
    let (got, out, c') =
      wait id
        (others ++ swaps id (1 ∷ 2 ∷ []) ∷ clears ∷ [])
        []
        (run others (queue 0 two_seconds table).1) in
    (got ≡ true) × (out ≡ 1 ∷ 2 ∷ [])
unfolding queue data_cache
wait-swap_notify_example =
    wait-swap_notify table 0 two_seconds others others (clears ∷ []) (1 ∷ 2 ∷ []) []
      (data_cache-WellFormed 500) (omega arith) (omega arith) others-Undisturbed others-Undisturbed
      (tt, tt)

swap_notify-wait_example :
    let (got, out, c') =
      wait id [] []
        (run (others ++ swaps id (1 ∷ 2 ∷ []) ∷ others) (queue 0 two_seconds table).1) in
    (got ≡ true) × (out ≡ 1 ∷ 2 ∷ []) × (lookup id c'.entries ≡ none)
unfolding queue data_cache
swap_notify-wait_example =
    swap_notify-wait table 0 two_seconds others others [] (1 ∷ 2 ∷ []) []
      (data_cache-WellFormed 500) (omega arith) (omega arith) others-Undisturbed others-Undisturbed

-- The response comes after the row has been removed, and is lost.
wait-remove_obsolete_example :
    let (got, out, c') =
      wait id
        ([] ++ removes 3_000_000_000 ∷ swaps id (1 ∷ []) ∷ [])
        []
        (run others (queue 0 two_seconds table).1) in
    (got ≡ false) × (out ≡ [])
unfolding queue data_cache
wait-remove_obsolete_example =
    wait-remove_obsolete table 0 3_000_000_000 two_seconds others [] (swaps id (1 ∷ []) ∷ []) []
      (data_cache-WellFormed 500) (omega arith) (omega arith) others-Undisturbed tt refl (tt, tt)

wait-clear_example :
    let (got, out, c') =
      wait id (others ++ clears ∷ []) [] (run others (queue 0 two_seconds table).1) in
    (got ≡ true) × (out ≡ [])
unfolding queue data_cache
wait-clear_example =
    wait-clear table 0 two_seconds others others [] [] (data_cache-WellFormed 500) (omega arith)
      (omega arith) others-Undisturbed others-Undisturbed tt

-- After three seconds one of two rows is not valid any more.
abbrev mixed : List Op
mixed = queues 5 two_seconds ∷ queues 2_000_000_000 two_seconds ∷ []

sweep-remove_obsolete_example :
    let c = run mixed (data_cache 500) in sweep 3_000_000_000 c ≡ remove_obsolete 3_000_000_000 c
sweep-remove_obsolete_example = sweep-remove_obsolete 500 3_000_000_000 mixed
