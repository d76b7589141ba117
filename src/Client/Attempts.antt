-- ===== src/Client/Attempts.antt =====
-- How many attempts the facade needs when its session has expired.
use radrpc.Client.{Session, Client, with_session, connect, send_attempt, delayed, send_from, send}
use radrpc.Prelude.{ℕ, suc, ◌≡◌, refl, Bool, true, false, some, List, ◌∙◌}

module _ {W : Type 0} (ops : Session W) (call_id : ℕ) (bytes : List ℕ) where
  missed_attempt :
      (c : Client W)
      → ops.locks c.session ≡ false
      → send_attempt ops call_id bytes c ≡ some (false, (connect ops c).1)
  unfolding send_attempt
  missed_attempt c gone = rw (gone, send_attempt) refl

  sent_attempt :
      (c : Client W)
      → ops.locks c.session ≡ true
      → (ops.sends call_id bytes c.session).0 ≡ false
      → send_attempt ops call_id bytes c
        ≡ some (true, with_session ops (ops.sends call_id bytes c.session).1 c)
  unfolding send_attempt
  sent_attempt c back fine = rw (back, fine, send_attempt) refl

  exit-delayed : (wait_first : Bool) (c : Client W) → (delayed ops wait_first c).m_exit ≡ c.m_exit
  exit-delayed true c = refl
  exit-delayed false c = refl

  send_from-missed :
      (n : ℕ) (wait_first : Bool) (c c' : Client W)
      → c.m_exit ≡ false
      → send_attempt ops call_id bytes (delayed ops wait_first c) ≡ some (false, c')
      → send_from ops (suc n) call_id bytes wait_first c ≡ send_from ops n call_id bytes true c'
  unfolding send_from
  send_from-missed n wait_first c c' stays e =
      let s = exit-delayed wait_first c ∙ stays in rw (s, send_from) (rw e refl)

  send_from-sent :
      (n : ℕ) (wait_first : Bool) (c c' : Client W)
      → c.m_exit ≡ false
      → send_attempt ops call_id bytes (delayed ops wait_first c) ≡ some (true, c')
      → send_from ops (suc n) call_id bytes wait_first c ≡ some (true, c')
  unfolding send_from
  send_from-sent n wait_first c c' stays e =
      let s = exit-delayed wait_first c ∙ stays in rw (s, send_from) (rw e refl)

  -- A facade whose session has expired uses its first attempt to connect: with one attempt `send`
  -- connects, does not send and returns false. With two, and if the session of that connection is there
  -- after the delay and sends, it returns true.
  pub send-expired :
      (c : Client W)
      → c.m_exit ≡ false
      → ops.locks c.session ≡ false
      → ops.locks (ops.sleeps (connect ops c).1.session) ≡ true
      → (ops.sends call_id bytes (ops.sleeps (connect ops c).1.session)).0 ≡ false
      → (connect ops c).1.m_exit ≡ false
      → let c1 = (connect ops c).1 in
        let w = ops.sleeps c1.session in
        (send ops 1 call_id bytes c ≡ some (false, c1))
        × (send ops 2 call_id bytes c
            ≡ some (true, with_session ops (ops.sends call_id bytes w).1 c1))
  unfolding send
  send-expired c stays gone back fine stays' =
      let c1 = (connect ops c).1 in
      let hit = sent_attempt (with_session ops (ops.sleeps c1.session) c1) back fine in
      let first = missed_attempt c gone in
      (
        send_from-missed 0 false c c1 stays first,
        send_from-missed 1 false c c1 stays first ∙ send_from-sent 0 true c1 _ stays' hit,
      )
