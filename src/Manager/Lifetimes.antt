-- ===== src/Manager/Lifetimes.antt =====
-- The manager over the lives of its sessions and messages: `server_session` and `session_accept` of
-- include/radrpc/impl/server/server_session.hpp construct, register and destroy sessions; broadcast
-- messages are queued and freed. Each call of the manager is one step, but `broadcast` is two: other
-- threads act between its tests and the rest.
pub mod Ids
pub mod Registry
pub mod Messages
pub mod Sessions
pub mod Invariant
pub mod Disconnects
use radrpc.Types.{SessionConfig, ServerConfig, queue_send_max}
use radrpc.Header.{io_header}
use radrpc.ServerSession.{ServerSession, DataPush, Handler}
use radrpc.ServerSession.Accept.{session_accept, on_accept, wait_timer}
use radrpc.ServerSession.Loop.{send}
use radrpc.ServerSession.Loop.{Event}
use radrpc.ServerSession
use radrpc.ServerSession.Sound.{Sound}
use radrpc.Manager.{
  Manager, session_manager, is_in, include, exclude, construct_session, add_session, remove_session,
  destroy_session, set_subtract_refs, connections, chosen, send_all, count_alive, may_push,
  push_all, on_msg_sent, let_go,
}
use radrpc.Manager.Broadcast.{Unique, Unique-include, is_in-include}
use radrpc.Prelude.{
  ℕ, zero, suc, ◌+◌, ◌-◌, ◌≤◌, ◌<◌, ◌≡◌, refl, ap, sym, ◌∙◌, Bool, true, false, ◌||◌, ◌&&◌, not,
  ◌==◌, leb, ltb, Option, none, some, List, [], ◌∷◌, ◌++◌, Map, lookup, insert, erase, adjust,
  lookup-insert, lookup-erase, lookup-adjust, length, length-append, get_elem?, set, take, drop,
  All, arith, Bool-cases, Option-cases, inl, inr, if◌then◌else◌,
}

-- `accepts` is the completion of the websocket handshake; `handles` is any event of the strand of a
-- session. `checks` and `pushes` are a `broadcast`.
pub data Call : Type 0 where
  constructs : Bool → ℕ → Map (Option Handler) → SessionConfig → ℕ → Call
  accepts : ℕ → Bool → ℕ → Call
  handles : ℕ → Event → Call
  destroys : ℕ → Call
  checks : Call
  pushes : ℕ → List ℕ → Option (List ℕ) → Call
  lets_go : ℕ → Call
  subtracts_refs : Call

-- `is_ssl` says of which type the stream at an address is. `threads` is how many threads call `broadcast`,
-- `passed` how many of them have made its tests and go on.
pub record World : Type 0 where
  pub manager : Manager
  pub is_ssl : ℕ → Bool
  pub threads : ℕ
  pub passed : ℕ

unfoldable pub construct : Bool → ℕ → Map (Option Handler) → SessionConfig → ℕ → World → World
construct ssl id funcs config bytes w = record w {
  manager = construct_session id (session_accept funcs config bytes) w.manager;
  is_ssl = λ j. if id == j then ssl else w.is_ssl j;
}

-- `on_accept`, in a session that is not established yet
unfoldable pub accept_at : ℕ → Bool → ℕ → World → World
accept_at id ec now w =
    let m = record w.manager { sessions = adjust id (on_accept false now) w.manager.sessions } in
    elim (lookup id w.manager.sessions) [
      | none ↦ w
      | some s ↦
          if ec || s.established then w else record w { manager = add_session (w.is_ssl id) id m }
    ]

-- A session handles an event; `none` is undefined behaviour.
unfoldable pub handle : ℕ → Event → World → Option World
handle id e w = elim (lookup id w.manager.sessions) [
  | none ↦ some w
  | some s ↦ elim (ServerSession.Loop.step e s) [
    | none ↦ none
    | some t ↦ some (record w {
      manager = record w.manager { sessions = adjust id (λ _. t) w.manager.sessions };
    })
  ]
]

-- Two sessions that are alive have two addresses.
unfoldable pub step : Call → World → Option World
unfolding construct accept_at
step (constructs ssl id funcs config bytes) w = elim (lookup id w.manager.sessions) [
  | none ↦ some (construct ssl id funcs config bytes w)
  | some s ↦ some w
]
step (accepts id ec now) w = some (accept_at id ec now w)
step (handles id e) w = handle id e w
step (destroys id) w = some (record w { manager = destroy_session (w.is_ssl id) id w.manager })
step checks w =
    some (
      if ltb w.passed w.threads && may_push w.manager
      then record w { passed = w.passed + 1 }
      else w)
step (pushes call_id send_bytes session_ids) w = some (
    if w.passed == 0 then w else record w {
      passed = w.passed - 1;
      manager = push_all call_id send_bytes session_ids w.manager;
    })
step (lets_go i) w = some (record w { manager = let_go i w.manager })
step subtracts_refs w = elim (set_subtract_refs w.manager) [
  | none ↦ some w
  | some m ↦ some (record w { manager = m })
]

unfoldable pub run : List Call → World → Option World
run [] w = some w
run (c ∷ cs) w = elim (step c w) [ none ↦ none | some w' ↦ run cs w' ]

abbrev pub new_world : ServerConfig → ℕ → ℕ → World
new_world cfg others threads = record {
  manager = session_manager cfg others;
  is_ssl = λ j. false;
  threads = threads;
  passed = 0;
}

abbrev pub is_established : Option ServerSession → Bool
is_established none = false
is_established (some s) = s.established

-- The registered ids are those of the sessions that are alive and established, each once, and each
-- under its own type of stream.
pub record Registered (w : World) : Type 0 where
  pub plain :
      (k : ℕ)
      → is_in k w.manager.plain_sessions
        ≡ is_established (lookup k w.manager.sessions) && not (w.is_ssl k)
  pub ssl :
      (k : ℕ)
      → is_in k w.manager.ssl_sessions ≡ is_established (lookup k w.manager.sessions) && w.is_ssl k
  pub plain_once : Unique w.manager.plain_sessions
  pub ssl_once : Unique w.manager.ssl_sessions

-- The counter counts the messages that are alive; with those of the threads that have `passed` its test it is
-- below a bound.
pub record Counted (passed bound : ℕ) (m : Manager) : Type 0 where
  pub queued : m.msg_queued ≡ length m.messages
  pub capped : m.msg_queued + passed < bound

-- Each session that is alive keeps its own invariant.
abbrev pub Sounds : Map ServerSession → Type 0
Sounds sessions = (k : ℕ) (s : ServerSession) → lookup k sessions ≡ some s → Sound s

-- The result exists, and the predicate holds of it.
abbrev pub Holds : (World → Type 0) → Option World → Type 0
Holds P none = ⊥
Holds P (some w) = P w
