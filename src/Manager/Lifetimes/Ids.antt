-- ===== src/Manager/Lifetimes/Ids.antt =====
-- Lists of ids, each once, and what `get_session_ids` returns.
use radrpc.Manager.{is_in, exclude, get_session_ids}
use radrpc.Manager.Broadcast.{Unique}
use radrpc.Manager.Lifetimes.{World, is_established, Registered}
use radrpc.Prelude.{ℕ, ◌≡◌, refl, false, ◌||◌, ◌&&◌, not, ◌==◌, List, [], ◌∷◌, ◌++◌, lookup, arith}

pub is_in-exclude : (k j : ℕ) (ks : List ℕ) → is_in j (exclude k ks) ≡ not (k == j) && is_in j ks
is_in-exclude k j [] = ground arith
is_in-exclude k j (i ∷ ks) = ground (arith, is_in-exclude k j ks)

pub Unique-exclude : (k : ℕ) (ks : List ℕ) → Unique ks → Unique (exclude k ks)
Unique-exclude k [] u = tt
Unique-exclude k (i ∷ ks) u = ground (arith, Unique-exclude k ks u.1, is_in-exclude k i ks)

is_in-append : (k : ℕ) (xs ys : List ℕ) → is_in k (xs ++ ys) ≡ is_in k xs || is_in k ys
is_in-append k [] ys = refl
is_in-append k (x ∷ xs) ys = ground (arith, is_in-append k xs ys)

Unique-append :
    (xs ys : List ℕ)
    → Unique xs
    → Unique ys
    → ((k : ℕ) → is_in k xs && is_in k ys ≡ false)
    → Unique (xs ++ ys)
Unique-append [] ys u v apart = v
Unique-append (x ∷ xs) ys u v apart = (
  ground (arith, is_in-append x xs ys, apart x),
  Unique-append xs ys u.1 v (λ k. ground (arith, apart k)),
)

pub get_session_ids-Registered :
    (w : World)
    → Registered w
    → Unique (get_session_ids w.manager)
      × ((k : ℕ)
          → is_in k (get_session_ids w.manager) ≡ is_established (lookup k w.manager.sessions))
unfolding get_session_ids
get_session_ids-Registered w i = (
  Unique-append w.manager.plain_sessions w.manager.ssl_sessions i.plain_once i.ssl_once
      (λ k. ground (arith, i.plain k, i.ssl k)),
  λ k.
      ground
        (arith, is_in-append k w.manager.plain_sessions w.manager.ssl_sessions, i.plain k, i.ssl k),
)
