-- ===== src/Client/Calls.antt =====
-- Calls of the facade of include/radrpc/client.hpp, one after the other.
use radrpc.Client.{Session, Client, connect, connect_attempts, disconnect, ping, send, send_recv}
use radrpc.Client.Preserved.{
  Preserves, After, Leaves, connect-Holds, disconnect-After, ping-Holds, connect_attempts-Leaves,
  send-Leaves, send_recv-Leaves,
}
use radrpc.Prelude.{ℕ, Option, none, some, List, [], ◌∷◌}

-- A call of the facade, other than those that concern its handshakes.
pub data Call : Type 0 where
  connects disconnects pings : Call
  attempts : ℕ → Call
  sends send_recvs : ℕ → List ℕ → Call

abbrev pub drop_result {ℓ} : {A : Type ℓ} {W : Type 0} → Option (A × Client W) → Option (Client W)
drop_result none = none
drop_result (some (a, c)) = some c

-- A call, with the configured attempts: `none` if it throws.
pub step : {W : Type 0} → Session W → ℕ → Call → Client W → Option (Client W)
step ops send_attempts connects c = some (connect ops c).1
step ops send_attempts disconnects c = disconnect ops c
step ops send_attempts pings c = some (ping ops c).1
step ops send_attempts (attempts n) c = drop_result (connect_attempts ops n c)
step ops send_attempts (sends id bytes) c = drop_result (send ops send_attempts id bytes c)
step ops send_attempts (send_recvs id bytes) c =
    drop_result (send_recv ops send_attempts id bytes c)

pub run : {W : Type 0} → Session W → ℕ → List Call → Client W → Option (Client W)
run ops send_attempts [] c = some c
run ops send_attempts (call ∷ calls) c = elim (step ops send_attempts call c) [
  | none ↦ none
  | some c' ↦ run ops send_attempts calls c'
]

module _ {W : Type 0} (P : W → Type 0) (T : Type 0) (ops : Session W) (pr : Preserves P T ops)
    (n : ℕ) where
  drop_result-After :
      {A : Type 0} (r : Option (A × Client W)) → Leaves P T r → After P T (drop_result r)
  drop_result-After none p = p
  drop_result-After (some (a, c)) p = p

  step-After : (call : Call) (c : Client W) → P c.session → After P T (step ops n call c)
  unfolding step
  step-After connects c p = connect-Holds P T ops pr c p
  step-After disconnects c p = disconnect-After P T ops pr c p
  step-After pings c p = ping-Holds P T ops pr c p
  step-After (attempts m) c p = drop_result-After _ (connect_attempts-Leaves P T ops pr m c p)
  step-After (sends id bytes) c p = drop_result-After _ (send-Leaves P T ops pr n id bytes c p)
  step-After (send_recvs id bytes) c p =
      drop_result-After _ (send_recv-Leaves P T ops pr n id bytes c p)

  then-After :
      (calls : List Call)
      → ((c : Client W) → P c.session → After P T (run ops n calls c))
      → (r : Option (Client W)) → After P T r
      → After P T (elim r [ none ↦ none | some c ↦ run ops n calls c ])
  then-After calls later none p = p
  then-After calls later (some c) p = later c p

  -- What the operations of a session preserve, any calls preserve.
  pub run-After : (calls : List Call) (c : Client W) → P c.session → After P T (run ops n calls c)
  unfolding run
  run-After [] c p = p
  run-After (call ∷ calls) c p =
      then-After calls (run-After calls) (step ops n call c) (step-After call c p)
