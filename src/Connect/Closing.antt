-- ===== src/Connect/Closing.antt =====
-- `close` of `session_connect` in include/radrpc/impl/client/client_session.hpp, with
-- `wait_weak_post` of include/radrpc/detail/operations.hpp. `others` is what the IO thread and other
-- threads do until the wait ends; the session is alive meanwhile, since its user holds it.

use radrpc.ClientSession.{ClientSession, Task, close_task}
use radrpc.ClientSession.Loop.{Event, run, post}
use radrpc.ClientSession.Writes.{Inv, Ensures}
use radrpc.Connect
use radrpc.Connect.{SessionConnect}
use radrpc.Prelude.{
  ◌<◌, ◌≡◌, refl, Bool, true, false, Option, none, some, List, length, get_elem?-append_end, ltb,
  arith, Bool-cases, inl, inr, if◌then◌else◌,
}
use radrpc.ClientSession.Closes.{runs, is_closing, run-is_closing}

-- `wait_weak_post`: whether the handler, which waits behind those that were posted before, has been
-- executed in time.
unfoldable pub wait_weak_post : Task → List Event → ClientSession → Option (Bool × ClientSession)
wait_weak_post t others s = elim (run others (post t s)) [
  | none ↦ none
  | some s' ↦ some (ltb (length s.posted) (runs others), s')
]

-- `close()`. A context that is stopped is restarted and run by the caller; otherwise the caller waits
-- for the IO thread, and only logs that the wait was in vain.
unfoldable pub close_wait : Bool → List Event → SessionConnect → Option SessionConnect
unfolding wait_weak_post
close_wait io_stopped others c =
    if c.close_initiated
    then some c
    else if io_stopped
    then elim (run others (post close_task c.base)) [
      | none ↦ none
      | some s ↦ some (record (Connect.close c) { base = s })
    ]
    else elim (wait_weak_post close_task others c.base) [
      | none ↦ none
      | some (executed, s) ↦ some (record (Connect.close c) { base = s })
    ]

-- `close` has returned: the stream was asked to close, unless the server had closed before, and a
-- further `close` does nothing.
pub Closed : Option SessionConnect → Type 0
Closed none = ⊥
Closed (some c) =
    (is_closing c.base ≡ true)
    × Inv c.base
    × ((io_stopped : Bool) (others : List Event) → close_wait io_stopped others c ≡ some c)

close-initiated :
    (c : SessionConnect) → c.close_initiated ≡ false → (Connect.close c).close_initiated ≡ true
unfolding Connect.close
close-initiated c n = ground arith

close_wait-again :
    (io_stopped : Bool) (others : List Event) (c : SessionConnect)
    → c.close_initiated ≡ true
    → close_wait io_stopped others c ≡ some c
unfolding close_wait
close_wait-again io_stopped others c e = rw (e, close_wait) refl

close-Closed :
    (c : SessionConnect) (s : ClientSession)
    → c.close_initiated ≡ false
    → is_closing s ≡ true
    → Inv s
    → Closed (some (record (Connect.close c) { base = s }))
unfolding Closed
close-Closed c s n h i = (
  h,
  i,
  λ io_stopped others.
      close_wait-again io_stopped others (record (Connect.close c) { base = s })
        (close-initiated c n),
)

ran-Closed :
    (c : SessionConnect) (r : Option ClientSession)
    → c.close_initiated ≡ false
    → Ensures (λ s. (is_closing s ≡ true) × Inv s) r
    → Closed (elim r [ none ↦ none | some s ↦ some (record (Connect.close c) { base = s }) ])
unfolding Closed
ran-Closed c none n h = h
ran-Closed c (some s) n (h, i) = close-Closed c s n h i

waited-Closed :
    (c : SessionConnect) (b : Bool) (r : Option ClientSession)
    → c.close_initiated ≡ false
    → Ensures (λ s. (is_closing s ≡ true) × Inv s) r
    → Closed
        (elim (elim r as (λ _. Option (Bool × ClientSession)) [
          | none ↦ none
          | some s ↦ some (b, s)
        ]) [ none ↦ none | some (executed, s) ↦ some (record (Connect.close c) { base = s }) ])
unfolding Closed
waited-Closed c b none n h = h
waited-Closed c b (some s) n (h, i) = close-Closed c s n h i

-- If the IO thread, or the caller on a stopped context, runs the handlers that were posted before and
-- one more, then `close` returns, and by then the stream was asked to close, unless the server had
-- closed before; a further `close` does nothing.
pub close_wait-Closed :
    (io_stopped : Bool) (others : List Event) (c : SessionConnect)
    → c.close_initiated ≡ false
    → Inv c.base
    → length c.base.posted < runs others
    → Closed (close_wait io_stopped others c)
unfolding close_wait wait_weak_post
close_wait-Closed io_stopped others c n i h =
    let s = post close_task c.base in
    let k : Ensures (λ t. (is_closing t ≡ true) × Inv t) (run others s) =
      run-is_closing others s (record { one_write = i.one_write; capped = i.capped })
        (inr (length c.base.posted, h, get_elem?-append_end c.base.posted close_task)) in
    elim (Bool-cases io_stopped) [
      | inl e ↦ rw (n, e, close_wait) (ran-Closed c (run others s) n k)
      | inr e ↦ rw (n, e, close_wait) (waited-Closed c _ (run others s) n k)
    ]
