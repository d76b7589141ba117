-- ===== src/Manager/Counting.antt =====
-- What `connections()` counts.
use radrpc.Types.{queue_send_max}
use radrpc.Header.{io_header}
use radrpc.ServerSession.{ServerSession, DataPush}
use radrpc.ServerSession.Loop.{send}
use radrpc.Manager.{
  Manager, use_count, connections, set_subtract_refs, broadcast, send_all, chosen, count_alive,
}
use radrpc.Prelude.{
  ℕ, ◌+◌, ◌<◌, ◌≤◌, ◌≡◌, ◌≢◌, refl, ap, sym, ◌∙◌, false, Option, none, some, List, [], ◌∷◌, Map,
  length, length-append, length-adjust, leb, ◌==◌, arith, Bool-cases, inl, inr,
}

sub_refs_of : Option Manager → ℕ
sub_refs_of none = 0
sub_refs_of (some m) = m.sub_refs

set_subtract_refs-count :
    (m0 m1 : Manager) → set_subtract_refs m0 ≡ some m1 → m1.sub_refs ≡ use_count m0
unfolding set_subtract_refs sub_refs_of
set_subtract_refs-count m0 m1 e = elim (Bool-cases (m0.sub_refs == 0)) [
  | inl c ↦
      let e' : some (record m0 { sub_refs = use_count m0 }) ≡ some m1 =
        rw (c, set_subtract_refs) at e in
      sym (ap sub_refs_of e')
  | inr c ↦ let e' : none ≡ some m1 = rw (c, set_subtract_refs) at e in cc
]

-- After `set_subtract_refs` at a moment with no session and no message, and as long as nobody else
-- takes a reference, the connections are the sessions and the broadcast messages that are held.
pub set_subtract_refs-connections :
    (m0 m1 m : Manager)
    → set_subtract_refs m0 ≡ some m1
    → length m0.sessions ≡ 0
    → length m0.messages ≡ 0
    → m.sub_refs ≡ m1.sub_refs
    → m.others ≡ m0.others
    → connections m ≡ length m.sessions + length m.messages
unfolding connections use_count
set_subtract_refs-connections m0 m1 m e s0 z r o =
    let f : m1.sub_refs ≡ 1 + m0.others + length m0.sessions + length m0.messages =
      set_subtract_refs-count m0 m1 e in
    omega (arith, f, r, o, s0, z)

length-send_all :
    (d : DataPush) (ids : List ℕ) (sessions : Map ServerSession)
    → length (send_all d ids sessions) ≡ length sessions
unfolding send_all
length-send_all d [] sessions = refl
length-send_all d (id ∷ rest) sessions =
    length-send_all d rest _ ∙ length-adjust id (send d) sessions

-- A broadcast that reaches a session counts as one more connection, until it is written or dropped
-- everywhere: a server with one place left is full.
pub broadcast-connections :
    (call_id : ℕ) (send_bytes : List ℕ) (m : Manager)
    → m.msg_queued < queue_send_max
    → m.sub_refs ≤ use_count m
    → connections m ≢ 0
    → count_alive m.plain_sessions m.sessions + count_alive m.ssl_sessions m.sessions ≢ 0
    → let m' = broadcast call_id send_bytes none m in
      (connections m' ≡ connections m + 1) × (length m'.sessions ≡ length m.sessions)
unfolding broadcast chosen connections use_count
broadcast-connections call_id send_bytes m room subtracted some' reached =
    let ssl =
      send_all (record { header = io_header call_id 0; body = send_bytes }) m.ssl_sessions in
    let plain =
      send_all (record { header = io_header call_id 0; body = send_bytes }) m.plain_sessions in
    let same : length (ssl (plain m.sessions)) ≡ length m.sessions =
      length-send_all _ m.ssl_sessions _ ∙ length-send_all _ m.plain_sessions m.sessions in
    let n = count_alive m.plain_sessions m.sessions + count_alive m.ssl_sessions m.sessions in
    let a : leb queue_send_max m.msg_queued ≡ false = ground arith in
    let b : connections m == 0 ≡ false = ground arith in
    let c : n == 0 ≡ false = ground arith in
    rw (a, broadcast)
      (rw b (rw c (omega (arith, same, length-append m.messages (n ∷ []), subtracted), same)))
