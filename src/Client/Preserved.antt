-- ===== src/Client/Preserved.antt =====
-- The facade of include/radrpc/client.hpp changes its session only by the operations of the interface: what
-- they preserve, its calls preserve, and one throws only if a destruction does not come in time.
use radrpc.Client.{
  Session, Client, with_session, construct_session, connect, connect_more, connect_attempts,
  disconnect, ping, send_attempt, delayed, send_from, send, recv_attempt, recv_from, send_recv,
}
use radrpc.Prelude.{
  ℕ, zero, suc, ◌≡◌, Bool, true, false, Option, none, some, List, [], arith, Bool-cases, inl, inr,
}

-- The operations of a session preserve `P`; `T` holds if a destruction does not come in time.
pub record Preserves {W : Type 0} (P : W → Type 0) (T : Type 0) (ops : Session W) : Type 0 where
  pub runs : (w : W) → P w → P (ops.runs w).1
  pub sends : (id : ℕ) (bytes : List ℕ) (w : W) → P w → P (ops.sends id bytes w).1
  pub send_recvs :
      (id : ℕ) (bytes result : List ℕ) (w : W) → P w → P (ops.send_recvs id bytes result w).2
  pub pings : (w : W) → P w → P (ops.pings w).1
  pub closes : (w : W) → P w → P (ops.closes w)
  pub destructs : (w : W) → P w → P (ops.destructs w).1
  pub sleeps : (w : W) → P w → P (ops.sleeps w)
  pub late : (w : W) → P w → (ops.destructs w).0 ≡ false → T

module _ {W : Type 0} (P : W → Type 0) (T : Type 0) where
  abbrev pub Holds : Client W → Type 0
  Holds c = P c.session

  -- A call leaves a session with `P`, or throws with `T`.
  abbrev pub After : Option (Client W) → Type 0
  After none = T
  After (some c) = Holds c

  abbrev pub Leaves {ℓ} : {A : Type ℓ} → Option (A × Client W) → Type 0
  Leaves none = T
  Leaves (some (a, c)) = Holds c

  module _ (ops : Session W) (pr : Preserves P T ops) where
    pub construct_session-Holds : (c : Client W) → Holds c → Holds (construct_session ops c).1
    unfolding construct_session
    construct_session-Holds c p = ground (arith, pr.runs c.session p)

    pub connect-Holds : (c : Client W) → Holds c → Holds (connect ops c).1
    unfolding connect
    connect-Holds c p = ground (arith, construct_session-Holds c p)

    pub disconnect-After : (c : Client W) → Holds c → After (disconnect ops c)
    unfolding disconnect
    disconnect-After c p = ground (
      arith,
      p,
      pr.closes c.session p,
      pr.destructs c.session p,
      pr.destructs (ops.closes c.session) (pr.closes c.session p),
      pr.late c.session p,
      pr.late (ops.closes c.session) (pr.closes c.session p),
    )

    pub ping-Holds : (c : Client W) → Holds c → Holds (ping ops c).1
    unfolding ping
    ping-Holds c p =
        let q = construct_session-Holds c p in
        ground (arith, p, q, pr.pings (construct_session ops c).1.session q)

    delayed-Holds : (wait_first : Bool) (c : Client W) → Holds c → Holds (delayed ops wait_first c)
    delayed-Holds wait_first c p = ground (arith, p, pr.sleeps c.session p)

    connect_more-Leaves : (n : ℕ) (c : Client W) → Holds c → Leaves (connect_more ops n c)
    unfolding connect_more
    connect_more-Leaves zero c p = p
    connect_more-Leaves (suc n) c p =
        let w = (ops.destructs c.session).1 in
        let q = pr.sleeps w (pr.destructs c.session p) in
        let c1 = with_session ops (ops.sleeps w) c in
        let q' = construct_session-Holds c1 q in
        ground
          (arith, pr.late c.session p, q', connect_more-Leaves n (construct_session ops c1).1 q')

    pub connect_attempts-Leaves :
        (n : ℕ) (c : Client W) → Holds c → Leaves (connect_attempts ops n c)
    unfolding connect_attempts
    connect_attempts-Leaves zero c p = p
    connect_attempts-Leaves (suc n) c p =
        let q = construct_session-Holds c p in
        ground (arith, p, q, connect_more-Leaves n (construct_session ops c).1 q)

    send_attempt-Leaves :
        (id : ℕ) (bytes : List ℕ) (c : Client W) → Holds c → Leaves (send_attempt ops id bytes c)
    unfolding send_attempt
    send_attempt-Leaves id bytes c p =
        let q = pr.sends id bytes c.session p in
        let sent = with_session ops (ops.sends id bytes c.session).1 c in
        ground (arith, q, connect-Holds c p, disconnect-After sent q)

    sent-Leaves :
        (n id : ℕ) (bytes : List ℕ)
        → ((c : Client W) → Holds c → Leaves (send_from ops n id bytes true c))
        → (r : Option (Bool × Client W)) → Leaves r
        → Leaves (elim r [
          | none ↦ none
          | some (true, c) ↦ some (true, c)
          | some (false, c) ↦ send_from ops n id bytes true c
        ])
    sent-Leaves n id bytes later none p = p
    sent-Leaves n id bytes later (some (true, c)) p = p
    sent-Leaves n id bytes later (some (false, c)) p = later c p

    send_from-Leaves :
        (n id : ℕ) (bytes : List ℕ) (wait_first : Bool) (c : Client W)
        → Holds c
        → Leaves (send_from ops n id bytes wait_first c)
    unfolding send_from
    send_from-Leaves zero id bytes wait_first c p = p
    send_from-Leaves (suc n) id bytes wait_first c p =
        let c1 = delayed ops wait_first c in
        let q = delayed-Holds wait_first c p in
        let later =
          sent-Leaves n id bytes (send_from-Leaves n id bytes true) (send_attempt ops id bytes c1)
            (send_attempt-Leaves id bytes c1 q) in
        elim (Bool-cases c1.m_exit) [ inl e ↦ rw (e) q | inr e ↦ rw (e) later ]

    pub send-Leaves :
        (n id : ℕ) (bytes : List ℕ) (c : Client W) → Holds c → Leaves (send ops n id bytes c)
    unfolding send
    send-Leaves n id bytes c p = send_from-Leaves n id bytes false c p

    -- What an attempt of `send_recv` leaves.
    abbrev Left : Option (List ℕ × Bool × Client W) → Type 0
    Left none = T
    Left (some (out, ok, c)) = Holds c

    recv_attempt-Left :
        (id : ℕ) (bytes result : List ℕ) (c : Client W)
        → Holds c
        → Left (recv_attempt ops id bytes result c)
    unfolding recv_attempt
    recv_attempt-Left id bytes result c p =
        let q = pr.send_recvs id bytes result c.session p in
        let sent = with_session ops (ops.send_recvs id bytes result c.session).2 c in
        ground (arith, q, connect-Holds c p, disconnect-After sent q)

    received-Leaves :
        (n id : ℕ) (bytes : List ℕ)
        → ((result : List ℕ) (c : Client W)
            → Holds c
            → Leaves (recv_from ops n id bytes result true c))
        → (r : Option (List ℕ × Bool × Client W)) → Left r
        → Leaves (elim r [
          | none ↦ none
          | some (out, true, c) ↦ some (out, c)
          | some (out, false, c) ↦ recv_from ops n id bytes out true c
        ])
    received-Leaves n id bytes later none p = p
    received-Leaves n id bytes later (some (out, true, c)) p = p
    received-Leaves n id bytes later (some (out, false, c)) p = later out c p

    recv_from-Leaves :
        (n id : ℕ) (bytes result : List ℕ) (wait_first : Bool) (c : Client W)
        → Holds c
        → Leaves (recv_from ops n id bytes result wait_first c)
    unfolding recv_from
    recv_from-Leaves zero id bytes result wait_first c p = p
    recv_from-Leaves (suc n) id bytes result wait_first c p =
        let c1 = delayed ops wait_first c in
        let q = delayed-Holds wait_first c p in
        let later =
          received-Leaves n id bytes (λ out. recv_from-Leaves n id bytes out true)
            (recv_attempt ops id bytes result c1) (recv_attempt-Left id bytes result c1 q) in
        elim (Bool-cases c1.m_exit) [ inl e ↦ rw (e) q | inr e ↦ rw (e) later ]

    pub send_recv-Leaves :
        (n id : ℕ) (bytes : List ℕ) (c : Client W) → Holds c → Leaves (send_recv ops n id bytes c)
    unfolding send_recv
    send_recv-Leaves n id bytes c p = recv_from-Leaves n id bytes [] false c p
