-- ===== src/Client.antt =====
-- `client` of include/radrpc/client.hpp: the facade that owns at most one session and connects again
-- when it has expired. The session is behind an interface, which `session_connect` and the
-- thread that runs it fill: `W` is what the facade does not see.
pub mod Attempts
pub mod Connecting
pub mod Handshakes
pub mod Preserved
pub mod Calls
use radrpc.Prelude.{
  ℕ, zero, suc, ◌==◌, Bool, true, false, ◌||◌, not, Option, none, some, List, [], ◌∷◌, Map, lookup,
  insert, if◌then◌else◌,
}

-- `std::max(send_attempts, 1u)`, in the constructor
abbrev pub attempts_of : ℕ → ℕ
attempts_of zero = 1
attempts_of (suc n) = suc n

-- `runs` constructs a session and runs it: whether it is established. `locks` tells whether
-- `m_session.lock()` gives a session; `sends` and `send_recvs` are its operations, with whether they
-- set an error; `closes` closes it. `destructs` waits for its destruction, at most `deadlock_secs`:
-- whether it came. `sleeps` is what happens during a delay.
pub record Session (W : Type 0) : Type 0 where
  pub is_expired : W → Bool
  pub locks : W → Bool
  pub runs : W → Bool × W
  pub sends : ℕ → List ℕ → W → Bool × W
  pub send_recvs : ℕ → List ℕ → List ℕ → W → List ℕ × Bool × W
  pub pings : W → Bool × W
  pub closes : W → W
  pub destructs : W → Bool × W
  pub sleeps : W → W

pub record Client (W : Type 0) : Type 0 where
  pub session : W
  pub bound_funcs : Map Bool
  pub m_exit : Bool

-- The constructor: no session is there yet.
abbrev pub client : {W : Type 0} → W → Client W
client w = record { session = w; bound_funcs = []; m_exit = false }

module _ {W : Type 0} (ops : Session W) where
  abbrev pub with_session : W → Client W → Client W
  with_session w c = record c { session = w }

  unfoldable pub construct_session : Client W → Bool × Client W
  construct_session c =
      let (ok, w) = ops.runs c.session in
      if not (ops.is_expired c.session) then (true, c) else (ok, with_session w c)

  unfoldable pub connect : Client W → Bool × Client W
  unfolding construct_session
  connect c = if c.m_exit then (false, c) else construct_session c

  -- A failed wait for the destruction throws: `none`.
  unfoldable pub disconnect : Client W → Option (Client W)
  disconnect c =
      let w = if ops.locks c.session then ops.closes c.session else c.session in
      let (ok, w') = ops.destructs w in
      if c.m_exit then some c else if ok then some (with_session w' c) else none

  -- `~client()`: whether the session was destructed in time, which is only logged.
  unfoldable pub destroy : Client W → Bool × Client W
  destroy c =
      let w = if ops.locks c.session then ops.closes c.session else c.session in
      let (ok, w') = ops.destructs w in (ok, record (with_session w' c) { m_exit = true })

  -- The attempts of `connect(attempts, delay)` after the first.
  unfoldable pub connect_more : ℕ → Client W → Option (Bool × Client W)
  unfolding construct_session
  connect_more zero c = some (false, c)
  connect_more (suc n) c =
      let (destructed, w) = ops.destructs c.session in
      let (ok, c') = construct_session (with_session (ops.sleeps w) c) in
      let more = connect_more n c' in
      if not destructed then none else if ok then some (true, c') else more

  unfoldable pub connect_attempts : ℕ → Client W → Option (Bool × Client W)
  unfolding construct_session connect_more
  connect_attempts zero c = some (false, c)
  connect_attempts (suc n) c =
      let (ok, c') = construct_session c in
      let more = connect_more n c' in
      if c.m_exit then some (false, c) else if ok then some (true, c') else more

  unfoldable pub ping : Client W → Bool × Client W
  unfolding construct_session
  ping c =
      let (ok, c') = construct_session c in
      let (pong, w) = ops.pings c'.session in
      if c.m_exit
      then (false, c)
      else if not ok
      then (false, c')
      else if ops.locks c'.session
      then (pong, with_session w c')
      else (false, c')

  -- One attempt of `send`: whether it was successful. A session that cannot be locked is connected, and
  -- one that fails is closed.
  unfoldable pub send_attempt : ℕ → List ℕ → Client W → Option (Bool × Client W)
  unfolding disconnect connect
  send_attempt call_id bytes c =
      let (ec, w) = ops.sends call_id bytes c.session in
      if ops.locks c.session
      then if ec
        then elim (disconnect (with_session w c)) [ none ↦ none | some c' ↦ some (false, c') ]
        else some (true, with_session w c)
      else some (false, (connect c).1)

  abbrev pub delayed : Bool → Client W → Client W
  delayed wait_first c = if wait_first then with_session (ops.sleeps c.session) c else c

  -- The attempts that are left; `wait_first` for the delay before all but the first.
  unfoldable pub send_from : ℕ → ℕ → List ℕ → Bool → Client W → Option (Bool × Client W)
  send_from zero call_id bytes wait_first c = some (false, c)
  send_from (suc n) call_id bytes wait_first c =
      let c1 = delayed wait_first c in
      if c1.m_exit then some (false, c1) else elim (send_attempt call_id bytes c1) [
        | none ↦ none
        | some (true, c2) ↦ some (true, c2)
        | some (false, c2) ↦ send_from n call_id bytes true c2
      ]

  -- `send`, with the configured `send_attempts`
  unfoldable pub send : ℕ → ℕ → List ℕ → Client W → Option (Bool × Client W)
  unfolding send_from
  send send_attempts call_id bytes c = send_from send_attempts call_id bytes false c

  -- One attempt of `send_recv`: what it leaves in the result, and whether it was successful.
  unfoldable pub recv_attempt : ℕ → List ℕ → List ℕ → Client W → Option (List ℕ × Bool × Client W)
  unfolding disconnect connect
  recv_attempt call_id bytes result c =
      let (out, ec, w) = ops.send_recvs call_id bytes result c.session in
      if ops.locks c.session
      then if ec
        then elim (disconnect (with_session w c)) [ none ↦ none | some c' ↦ some (out, false, c') ]
        else some (out, true, with_session w c)
      else some (result, false, (connect c).1)

  unfoldable pub recv_from : ℕ → ℕ → List ℕ → List ℕ → Bool → Client W → Option (List ℕ × Client W)
  recv_from zero call_id bytes result wait_first c = some (result, c)
  recv_from (suc n) call_id bytes result wait_first c =
      let c1 = delayed wait_first c in
      if c1.m_exit then some (result, c1) else elim (recv_attempt call_id bytes result c1) [
        | none ↦ none
        | some (out, true, c2) ↦ some (out, c2)
        | some (out, false, c2) ↦ recv_from n call_id bytes out true c2
      ]

  -- `send_recv`, with the configured `send_attempts`, from an empty result
  unfoldable pub send_recv : ℕ → ℕ → List ℕ → Client W → Option (List ℕ × Client W)
  unfolding recv_from
  send_recv send_attempts call_id bytes c = recv_from send_attempts call_id bytes [] false c

  -- Binding while a session is there, or twice, throws: `none`.
  unfoldable pub listen_broadcast : ℕ → Bool → Client W → Option (Bool × Client W)
  listen_broadcast id callable c =
      if c.m_exit
      then some (false, c)
      else if not (ops.is_expired c.session)
      then none
      else elim (lookup id c.bound_funcs) [
        | some f ↦ none
        | none ↦ some (true, record c { bound_funcs = insert id callable c.bound_funcs })
      ]
