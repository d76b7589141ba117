-- ===== src/Manager/Lifetimes/Messages.antt =====
-- The broadcast messages that are alive: the counter of the manager and what holds each message.
use radrpc.Types.{queue_send_max}
use radrpc.Manager.{
  Manager, add_session, remove_session, destroy_session, disconnect, chosen, count_alive, may_push,
  push_all, let_go,
}
use radrpc.Prelude.{
  true, ℕ, zero, suc, ◌<◌, ◌+◌, ◌-◌, ◌≡◌, sym, ◌∙◌, Bool, ◌==◌, leb, Option, some, List, [], ◌∷◌,
  ◌++◌, length, length-append, length-set, get_elem?, take, drop, arith, Bool-cases, Option-cases,
  inl, inr,
}
use radrpc.Manager.Lifetimes.{Counted}

length-remove :
    (xs : List ℕ) (i n : ℕ)
    → get_elem? xs i ≡ some n
    → length (take i xs ++ drop (suc i) xs) + 1 ≡ length xs
length-remove [] i n e = cc
length-remove (x ∷ xs) zero n e = omega arith
length-remove (x ∷ xs) (suc i) n e = omega (arith, length-remove xs i n e)

pub lets_go-Counted : (p b i : ℕ) (m : Manager) → Counted p b m → Counted p b (let_go i m)
unfolding let_go
lets_go-Counted p b i m c = elim (Option-cases (get_elem? m.messages i)) [
  | inl e ↦ rw (e, let_go) c
  | inr (n, e) ↦
      let less = length-remove m.messages i n e in
      elim (Bool-cases (leb n 1)) [
        | inl l ↦
            rw (e, l, let_go)
              (record { queued = omega (arith, less, c.queued); capped = omega (arith, c.capped) })
        | inr l ↦
            rw (e, l, let_go)
              (record {
                queued = c.queued ∙ sym (length-set m.messages i (n - 1));
                capped = c.capped;
              })
      ]
]

-- The test of the counter, in a thread that is not counted yet.
pub checks-Counted :
    (p threads : ℕ) (m : Manager)
    → p < threads
    → may_push m ≡ true
    → Counted p (queue_send_max + threads) m
    → Counted (p + 1) (queue_send_max + threads) m
unfolding may_push
checks-Counted p threads m free may c = record {
  queued = c.queued;
  capped = ground (arith, may, free);
}

pub pushes-Counted :
    (p q b call_id : ℕ) (send_bytes : List ℕ) (session_ids : Option (List ℕ)) (m : Manager)
    → q ≡ p + 1
    → Counted q b m
    → Counted p b (push_all call_id send_bytes session_ids m)
unfolding push_all
pushes-Counted p q b call_id send_bytes session_ids m e c =
    let plain = chosen session_ids m.plain_sessions in
    let ssl = chosen session_ids m.ssl_sessions in
    let n = count_alive plain m.sessions + count_alive ssl m.sessions in
    elim (Bool-cases (n == 0)) [
      | inl z ↦
          rw (z, push_all)
            (record { queued = omega (arith, c.queued); capped = omega (arith, c.capped, e) })
      | inr z ↦
          rw (z, push_all)
            (record {
              queued = omega (arith, c.queued, length-append m.messages (n ∷ []));
              capped = omega (arith, c.capped, e);
            })
    ]

pub destroys-Counted :
    (p b : ℕ) (ssl : Bool) (id : ℕ) (m : Manager)
    → Counted p b m
    → Counted p b (destroy_session ssl id m)
unfolding destroy_session remove_session disconnect
destroys-Counted p b ssl id m c = ground arith

pub accepts-Counted :
    (p b : ℕ) (ssl : Bool) (id : ℕ) (m : Manager)
    → Counted p b m
    → Counted p b (add_session ssl id m)
unfolding add_session
accepts-Counted p b ssl id m c = ground arith
