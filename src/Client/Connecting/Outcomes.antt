-- ===== src/Client/Connecting/Outcomes.antt =====
-- What changes the outcomes of the sessions to come, behind the facade of include/radrpc/client.hpp: only that
-- one is constructed.
use radrpc.Types.{ClientTimeout}
use radrpc.Connect.{SessionConnect}
use radrpc.Client.{Session}
use radrpc.Client.Connecting
use radrpc.Client.Connecting.{
  Outcome, next_outcome, later_outcomes, attempt, ran, wait_destruction, connecting,
}
use radrpc.Connect.Chain.{is_established}
use radrpc.Client.Connecting.Ending.{Waits, ending, closes, destructs}
use radrpc.Prelude.{ℕ, ◌≡◌, refl, Bool, true, false, Option, none, some, List, Map, arith}

-- What becomes of an established session does not change the outcomes of the sessions to come.
pub record Apart (rest : Session Connecting.World) : Type 0 where
  pub closes_apart : (w : Connecting.World) → (rest.closes w).outcomes ≡ w.outcomes
  pub destructs_apart : (w : Connecting.World) → (rest.destructs w).1.outcomes ≡ w.outcomes
  pub sleeps_apart : (w : Connecting.World) → (rest.sleeps w).outcomes ≡ w.outcomes

-- So it is with the program's own closing.
pub ending-Apart :
    (ws : Waits) (rest : Session Connecting.World)
    → ((w : Connecting.World) → (rest.sleeps w).outcomes ≡ w.outcomes)
    → Apart (ending ws rest)
unfolding closes destructs
ending-Apart ws rest sleeps = record {
  closes_apart = λ w. ground arith;
  destructs_apart = λ w. ground arith;
  sleeps_apart = sleeps;
}

abbrev pub is_up : Option SessionConnect → Bool
is_up none = false
is_up (some s) = is_established s.m_state

pub sends-outcomes :
    (timeouts : ClientTimeout) (id : ℕ) (bytes : List ℕ) (w : Connecting.World)
    → (Connecting.sends timeouts id bytes w).1.outcomes ≡ w.outcomes
unfolding Connecting.sends
sends-outcomes timeouts id bytes w = ground arith

pub send_recvs-outcomes :
    (timeouts : ClientTimeout) (id : ℕ) (bytes result : List ℕ) (w : Connecting.World)
    → (Connecting.send_recvs timeouts id bytes result w).2.outcomes ≡ w.outcomes
unfolding Connecting.send_recvs
send_recvs-outcomes timeouts id bytes result w = ground arith

pub pings-outcomes :
    (timeouts : ClientTimeout) (w : Connecting.World)
    → (Connecting.pings timeouts w).1.outcomes ≡ w.outcomes
unfolding Connecting.pings
pings-outcomes timeouts w = ground arith

module _ (rest : Session Connecting.World) (apart : Apart rest) where
  pub destructs-outcomes :
      (w : Connecting.World) → (wait_destruction rest.destructs w).1.outcomes ≡ w.outcomes
  unfolding wait_destruction
  destructs-outcomes w = ground (arith, apart.destructs_apart w)

  -- The facade waits in vain only for a session that is established.
  pub destructs-late :
      (w : Connecting.World)
      → (wait_destruction rest.destructs w).0 ≡ false
      → (is_up w.session ≡ true) × ((rest.destructs w).0 ≡ false)
  unfolding wait_destruction
  destructs-late w h = ground (arith, h)

  pub sleeps-outcomes :
      (is_ssl : Bool) (funcs : Map Bool) (timeouts : ClientTimeout) (w : Connecting.World)
      → ((connecting is_ssl funcs timeouts rest).sleeps w).outcomes ≡ w.outcomes
  sleeps-outcomes is_ssl funcs timeouts w = ground (arith, apart.sleeps_apart w)

ran-outcomes :
    (lingers : Bool) (w : Connecting.World) (s : Option SessionConnect)
    → (ran lingers w s).1.outcomes ≡ w.outcomes
ran-outcomes lingers w none = refl
ran-outcomes lingers w (some s) = refl

pub runs-outcomes :
    (is_ssl : Bool) (funcs : Map Bool) (w : Connecting.World)
    → (Connecting.runs is_ssl funcs w).1.outcomes ≡ later_outcomes w.outcomes
unfolding Connecting.runs
runs-outcomes is_ssl funcs w =
    let o = next_outcome w.outcomes in
    ran-outcomes o.lingers (record w { outcomes = later_outcomes w.outcomes })
      (attempt is_ssl funcs o)
