-- ===== src/Manager.antt =====
-- `session_manager` of include/radrpc/impl/server/server_session.hpp: the sessions of a server, and
-- messages to many of them. Sessions and messages that are alive share the ownership of the manager,
-- which counts connections by its reference count.
pub mod Counting
pub mod Broadcast
pub mod Lifetimes
use radrpc.Types.{ServerConfig, queue_send_max}
use radrpc.Header.{IoHeader, io_header}
use radrpc.ServerSession.{ServerSession, DataPush}
use radrpc.ServerSession.Loop.{send}
use radrpc.Prelude.{
  ℕ, suc, ◌+◌, ◌-◌, ◌≡◌, Bool, true, false, ◌||◌, not, ◌==◌, leb, Option, none, some, List, [], ◌∷◌,
  ◌++◌, map, Map, lookup, insert, erase, adjust, length, get_elem?, set, take, drop, if◌then◌else◌,
}

-- A session is named by its id, the address of its stream. `plain_sessions` and `ssl_sessions` are
-- the registered ids, each once; their `weak_ptr` is expired once the session has left `sessions`.
-- `others` counts the references to the manager that no session and no message holds, `messages` the
-- recipients that still hold each broadcast message; it is freed with the last. `disconnected` are
-- the ids for which the handler `on_disconnect` was called, if one is bound.
pub record Manager : Type 0 where
  pub server_cfg : ServerConfig
  pub sub_refs : ℕ
  pub msg_queued : ℕ
  pub plain_sessions : List ℕ
  pub ssl_sessions : List ℕ
  pub sessions : Map ServerSession
  pub others : ℕ
  pub messages : List ℕ
  pub on_disconnect : Bool
  pub disconnected : List ℕ

abbrev pub is_in : ℕ → List ℕ → Bool
is_in k [] = false
is_in k (j ∷ js) = (j == k) || is_in k js

abbrev pub include : ℕ → List ℕ → List ℕ
include k ids = if is_in k ids then ids else k ∷ ids

abbrev pub exclude : ℕ → List ℕ → List ℕ
exclude k [] = []
exclude k (j ∷ js) = if j == k then exclude k js else j ∷ exclude k js

unfoldable pub session_manager : ServerConfig → ℕ → Manager
session_manager cfg others = record {
  server_cfg = cfg;
  sub_refs = 0;
  msg_queued = 0;
  plain_sessions = [];
  ssl_sessions = [];
  sessions = [];
  others = others;
  messages = [];
  on_disconnect = false;
  disconnected = [];
}

-- `shared_from_this().use_count()`, the temporary included
unfoldable pub use_count : Manager → ℕ
use_count m = 1 + m.others + length m.sessions + length m.messages

-- It may be called once only: `none` is the failed assertion.
unfoldable pub set_subtract_refs : Manager → Option Manager
unfolding use_count
set_subtract_refs m = if m.sub_refs == 0 then some (record m { sub_refs = use_count m }) else none

-- `max(use_count() - m_sub_refs, 0)`
unfoldable pub connections : Manager → ℕ
unfolding use_count
connections m = use_count m - m.sub_refs

unfoldable pub is_full : Manager → Bool
unfolding connections
is_full m = leb m.server_cfg.max_sessions (connections m)

-- The constructor of a session takes a reference to the manager, its destructor gives it back.
unfoldable pub construct_session : ℕ → ServerSession → Manager → Manager
construct_session id s m = record m { sessions = insert id s m.sessions }

unfoldable pub add_session : Bool → ℕ → Manager → Manager
add_session is_ssl id m =
    if is_ssl
    then record m { ssl_sessions = include id m.ssl_sessions }
    else record m { plain_sessions = include id m.plain_sessions }

unfoldable pub remove_session : Bool → ℕ → Manager → Manager
remove_session is_ssl id m =
    if is_ssl
    then record m { ssl_sessions = exclude id m.ssl_sessions }
    else record m { plain_sessions = exclude id m.plain_sessions }

-- `~server_session`
unfoldable pub disconnect : ℕ → Manager → Manager
disconnect id m = record m {
  disconnected = if m.on_disconnect then m.disconnected ++ id ∷ [] else m.disconnected;
}

-- `~session_accept`, then `~server_session`, which gives back its reference: only an established
-- session was registered, but each is told to `on_disconnect`.
unfoldable pub destroy_session : Bool → ℕ → Manager → Manager
unfolding remove_session disconnect
destroy_session is_ssl id m = elim (lookup id m.sessions) [
  | none ↦ m
  | some s ↦
      let m' = if s.established then remove_session is_ssl id m else m in
      disconnect id (record m' { sessions = erase id m.sessions })
]

unfoldable pub get_session_ids : Manager → List ℕ
get_session_ids m = m.plain_sessions ++ m.ssl_sessions

-- The copy of the registered sessions among the given ids.
unfoldable pub pick : List ℕ → List ℕ → List ℕ
pick [] registered = []
pick (id ∷ rest) registered =
    let picked = pick rest registered in if is_in id registered then include id picked else picked

unfoldable pub chosen : Option (List ℕ) → List ℕ → List ℕ
unfolding pick
chosen none registered = registered
chosen (some session_ids) registered = pick session_ids registered

-- `session->send(push_ptr)` to each that is alive
unfoldable pub send_all : DataPush → List ℕ → Map ServerSession → Map ServerSession
send_all d [] sessions = sessions
send_all d (id ∷ rest) sessions = send_all d rest (adjust id (send d) sessions)

-- How many of the ids are alive: each takes a reference to the message.
unfoldable pub count_alive : List ℕ → Map ServerSession → ℕ
count_alive [] sessions = 0
count_alive (id ∷ rest) sessions =
    let n = count_alive rest sessions in elim (lookup id sessions) [ none ↦ n | some s ↦ n + 1 ]

-- `on_msg_sent`, the deleter of the message
abbrev pub on_msg_sent : Manager → Manager
on_msg_sent m = record m { msg_queued = m.msg_queued - 1 }

-- `broadcast` from the construction of the message on: other threads may have changed the counter since
-- it was tested.
unfoldable pub push_all : ℕ → List ℕ → Option (List ℕ) → Manager → Manager
unfolding chosen send_all count_alive
push_all call_id send_bytes session_ids m =
    let push : DataPush = record { header = io_header call_id 0; body = send_bytes } in
    let plain = chosen session_ids m.plain_sessions in
    let ssl = chosen session_ids m.ssl_sessions in
    let n = count_alive plain m.sessions + count_alive ssl m.sessions in
    let sent = record m {
      msg_queued = m.msg_queued + 1;
      sessions = send_all push ssl (send_all push plain m.sessions);
    } in
    if n == 0 then on_msg_sent sent else record sent { messages = m.messages ++ n ∷ [] }

-- A call that no other thread comes between.
unfoldable pub broadcast : ℕ → List ℕ → Option (List ℕ) → Manager → Manager
unfolding connections push_all
broadcast call_id send_bytes session_ids m =
    if leb queue_send_max m.msg_queued
    then m
    else if connections m == 0
    then m
    else push_all call_id send_bytes session_ids m

-- The two tests with which `broadcast` begins, on their own: whether it goes on.
unfoldable pub may_push : Manager → Bool
unfolding connections
may_push m = not (leb queue_send_max m.msg_queued || connections m == 0)

-- A recipient lets go of the message at `i`; the last one frees it.
unfoldable pub let_go : ℕ → Manager → Manager
let_go i m = elim (get_elem? m.messages i) [
  | none ↦ m
  | some n ↦
      if leb n 1
      then on_msg_sent (record m { messages = take i m.messages ++ drop (suc i) m.messages })
      else record m { messages = set m.messages i (n - 1) }
]
