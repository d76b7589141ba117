-- ===== src/Manager/Broadcast.antt =====
-- Who gets a broadcast message.
use radrpc.Types.{queue_send_max}
use radrpc.Header.{io_header}
use radrpc.ServerSession.{ServerSession, DataPush}
use radrpc.ServerSession.Loop.{send}
use radrpc.Manager.{
  Manager, is_in, include, connections, may_push, push_all, broadcast, send_all, count_alive,
  chosen, pick,
}
use mathlib.Core.Option
use radrpc.Prelude.{
  ℕ, ◌+◌, ◌<◌, ◌≢◌, leb, ◌≡◌, refl, ap, ◌∙◌, Bool, true, false, ◌||◌, ◌&&◌, Option, none, some,
  List, [], ◌∷◌, Map, lookup, adjust, lookup-adjust, ◌==◌, arith, Bool-cases, inl, inr,
  if◌then◌else◌,
}

-- Each id stands in the list once.
abbrev pub Unique : List ℕ → Type 0
Unique [] = Unit
Unique (k ∷ ks) = (is_in k ks ≡ false) × Unique ks

pub Unique-include : (k : ℕ) (ks : List ℕ) → Unique ks → Unique (include k ks)
Unique-include k ks u = ground arith

pub is_in-include : (k j : ℕ) (ks : List ℕ) → is_in j (include k ks) ≡ (k == j) || is_in j ks
is_in-include k j ks = ground arith

Unique-pick : (ids ks : List ℕ) → Unique (pick ids ks)
unfolding pick
Unique-pick [] ks = tt
Unique-pick (id ∷ rest) ks =
    ground (arith, Unique-include id (pick rest ks) (Unique-pick rest ks), Unique-pick rest ks)

is_in-pick : (k : ℕ) (ids ks : List ℕ) → is_in k (pick ids ks) ≡ is_in k ids && is_in k ks
unfolding pick
is_in-pick k [] ks = refl
is_in-pick k (id ∷ rest) ks =
    ground (arith, is_in-pick k rest ks, is_in-include id k (pick rest ks))

abbrev pub sent_if : Bool → DataPush → ServerSession → ServerSession
sent_if b d s = if b then send d s else s

lookup-send_all :
    (d : DataPush) (k : ℕ) (s : ServerSession) (ids : List ℕ) (sessions : Map ServerSession)
    → Unique ids
    → lookup k sessions ≡ some s
    → lookup k (send_all d ids sessions) ≡ some (sent_if (is_in k ids) d s)
unfolding send_all
lookup-send_all d k s [] sessions u e = e
lookup-send_all d k s (id ∷ rest) sessions u e = elim (Bool-cases (id == k)) [
  | inl t ↦
      let same : id ≡ k = ground arith in
      let e' : lookup k (adjust id (send d) sessions) ≡ some (send d s) =
        lookup-adjust id k (send d) sessions ∙ rw t (ap (Option.map (send d)) e) in
      let last : is_in k rest ≡ false = rw same at u.0 in
      lookup-send_all d k (send d s) rest (adjust id (send d) sessions) u.1 e' ∙ rw (last, t) refl
  | inr t ↦
      let e' : lookup k (adjust id (send d) sessions) ≡ some s =
        lookup-adjust id k (send d) sessions ∙ rw t e in
      lookup-send_all d k s rest (adjust id (send d) sessions) u.1 e' ∙ rw t refl
]

-- The ids that a broadcast is for: those given, or all.
abbrev pub is_addressed : Option (List ℕ) → ℕ → Bool
is_addressed none k = true
is_addressed (some ids) k = is_in k ids

chosen-Unique : (o : Option (List ℕ)) (ks : List ℕ) → Unique ks → Unique (chosen o ks)
unfolding chosen
chosen-Unique none ks u = u
chosen-Unique (some ids) ks u = Unique-pick ids ks

is_in-chosen :
    (k : ℕ) (o : Option (List ℕ)) (ks : List ℕ)
    → is_in k (chosen o ks) ≡ is_addressed o k && is_in k ks
unfolding chosen
is_in-chosen k none ks = refl
is_in-chosen k (some ids) ks = is_in-pick k ids ks

-- If the queue of messages has room and there is a connection, a broadcast posts its message to
-- a session, once, exactly if the session is registered and addressed, however often its id is
-- given; it does nothing to the others.
pub lookup-broadcast :
    (call_id : ℕ) (send_bytes : List ℕ) (session_ids : Option (List ℕ)) (m : Manager) (k : ℕ)
    (s : ServerSession)
    → m.msg_queued < queue_send_max
    → connections m ≢ 0
    → Unique m.plain_sessions
    → Unique m.ssl_sessions
    → is_in k m.plain_sessions && is_in k m.ssl_sessions ≡ false
    → lookup k m.sessions ≡ some s
    → lookup k (broadcast call_id send_bytes session_ids m).sessions
      ≡ some (
          sent_if
            (is_addressed session_ids k && (is_in k m.plain_sessions || is_in k m.ssl_sessions))
            (record { header = io_header call_id 0; body = send_bytes })
            s)
unfolding broadcast
lookup-broadcast call_id send_bytes session_ids m k s room some' up us apart e =
    let d : DataPush = record { header = io_header call_id 0; body = send_bytes } in
    let plain = chosen session_ids m.plain_sessions in
    let ssl = chosen session_ids m.ssl_sessions in
    let first =
      lookup-send_all d k s plain m.sessions (chosen-Unique session_ids m.plain_sessions up) e in
    let both =
      lookup-send_all d k (sent_if (is_in k plain) d s) ssl (send_all d plain m.sessions)
        (chosen-Unique session_ids m.ssl_sessions us) first in
    let n = count_alive plain m.sessions + count_alive ssl m.sessions in
    let a : leb queue_send_max m.msg_queued ≡ false = ground arith in
    let b : connections m == 0 ≡ false = ground arith in
    let final : some (sent_if (is_in k ssl) d (sent_if (is_in k plain) d s))
        ≡ some (
            sent_if
              (is_addressed session_ids k && (is_in k m.plain_sessions || is_in k m.ssl_sessions)) d
              s) =
      ground (
        arith,
        is_in-chosen k session_ids m.plain_sessions,
        is_in-chosen k session_ids m.ssl_sessions,
      ) in
    elim (Bool-cases (n == 0)) [
      | inl c ↦ rw (a, broadcast) (rw b (rw c (both ∙ final)))
      | inr c ↦ rw (a, broadcast) (rw b (rw c (both ∙ final)))
    ]

-- A `broadcast` that no other thread comes between is its tests and then the rest.
pub broadcast-push_all :
    (call_id : ℕ) (send_bytes : List ℕ) (session_ids : Option (List ℕ)) (m : Manager)
    → broadcast call_id send_bytes session_ids m
      ≡ (if may_push m then push_all call_id send_bytes session_ids m else m)
unfolding broadcast may_push
broadcast-push_all call_id send_bytes session_ids m = ground arith
