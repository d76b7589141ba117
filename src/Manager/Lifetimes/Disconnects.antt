-- ===== src/Manager/Lifetimes/Disconnects.antt =====
-- The handler that `bind_disconnect` of include/radrpc/server.hpp binds, over the lives of the sessions:
-- `~server_session` calls it.
use radrpc.Types.{ServerConfig}
use radrpc.Header.{io_header}
use radrpc.ServerSession
use radrpc.ServerSession.{ServerSession, DataPush}
use radrpc.ServerSession.Loop.{Event, send}
use radrpc.ServerSession.Accept.{session_accept, on_accept}
use radrpc.Manager.{
  Manager, session_manager, construct_session, add_session, remove_session, destroy_session,
  disconnect, chosen, send_all, may_push, push_all, let_go, set_subtract_refs,
}
use radrpc.Manager.Lifetimes.Invariant.{Kept, new_world-Kept, run-Kept}
use radrpc.Manager.Lifetimes.{
  Call, constructs, accepts, handles, destroys, checks, pushes, lets_go, subtracts_refs, World,
  construct, accept_at, handle, step, run, new_world, Holds,
}
use radrpc.Prelude.{
  ℕ, ◌+◌, ◌≡◌, refl, ap, ◌∙◌, Bool, true, false, ltb, ◌==◌, ◌&&◌, Option, none, some, List, [], ◌∷◌,
  ◌++◌, Map, lookup, adjust, lookup-insert, lookup-erase, arith, Bool-cases, Option-cases, inl, inr,
  if◌then◌else◌,
}

abbrev pub bound_world : ServerConfig → ℕ → ℕ → World
bound_world cfg others threads = record (new_world cfg others threads) {
  manager = record (session_manager cfg others) { on_disconnect = true };
}

-- The lives at one address: whether a session is alive there, and how many have ended.
pub record Lives : Type 0 where
  pub alive : Bool
  pub ended : ℕ

-- What a call does to the lives at `k`.
abbrev pub live : ℕ → Call → Lives → Lives
live k (constructs ssl id funcs config bytes) l = if id == k then record l { alive = true } else l
live k (destroys id) l =
    if (id == k) && l.alive then record { alive = false; ended = l.ended + 1 } else l
live k (accepts id ec now) l = l
live k (handles id e) l = l
live k checks l = l
live k (pushes call_id send_bytes session_ids) l = l
live k (lets_go i) l = l
live k subtracts_refs l = l

abbrev pub lives : ℕ → List Call → Lives → Lives
lives k [] l = l
lives k (c ∷ cs) l = lives k cs (live k c l)

abbrev pub unborn : Lives
unborn = record { alive = false; ended = 0 }

abbrev pub is_alive : Option ServerSession → Bool
is_alive none = false
is_alive (some s) = true

abbrev pub count_id : ℕ → List ℕ → ℕ
count_id k [] = 0
count_id k (j ∷ js) = if j == k then count_id k js + 1 else count_id k js

-- A manager whose handler is bound agrees with the lives at `k`.
pub record Tracks (k : ℕ) (l : Lives) (m : Manager) : Type 0 where
  pub bound : m.on_disconnect ≡ true
  pub alive : is_alive (lookup k m.sessions) ≡ l.alive
  pub told : count_id k m.disconnected ≡ l.ended

count_id-append_end :
    (k id : ℕ) (js : List ℕ)
    → count_id k (js ++ id ∷ []) ≡ (if id == k then count_id k js + 1 else count_id k js)
count_id-append_end k id [] = refl
count_id-append_end k id (j ∷ js) = ground (arith, count_id-append_end k id js)

alive-same :
    (id k : ℕ) (sessions : Map ServerSession)
    → id == k ≡ true
    → is_alive (lookup id sessions) ≡ is_alive (lookup k sessions)
alive-same id k sessions h =
    let q : id ≡ k = ground arith in ap (λ j. is_alive (lookup j sessions)) q

alive-adjust :
    (id k : ℕ) (f : ServerSession → ServerSession) (sessions : Map ServerSession)
    → is_alive (lookup k (adjust id f sessions)) ≡ is_alive (lookup k sessions)
alive-adjust id k f [] = refl
alive-adjust id k f ((j, s) ∷ m) = ground (arith, alive-adjust id k f m)

alive-send_all :
    (d : DataPush) (ids : List ℕ) (k : ℕ) (sessions : Map ServerSession)
    → is_alive (lookup k (send_all d ids sessions)) ≡ is_alive (lookup k sessions)
unfolding send_all
alive-send_all d [] k sessions = refl
alive-send_all d (id ∷ ids) k sessions =
    alive-send_all d ids k (adjust id (send d) sessions) ∙ alive-adjust id k (send d) sessions

destroys-Tracks :
    (ssl : Bool) (id k : ℕ) (l : Lives) (m : Manager)
    → Tracks k l m
    → Tracks k (live k (destroys id) l) (destroy_session ssl id m)
unfolding destroy_session disconnect remove_session
destroys-Tracks ssl id k l m t =
    let same : id == k ≡ true → is_alive (lookup id m.sessions) ≡ is_alive (lookup k m.sessions) =
      λ h. alive-same id k m.sessions h in
    record {
      bound = ground (arith, t.bound);
      alive = ground (arith, t.alive, same, lookup-erase id k m.sessions);
      told =
          ground (arith, t.told, t.alive, t.bound, same, count_id-append_end k id m.disconnected);
    }

pushes-Tracks :
    (call_id : ℕ) (send_bytes : List ℕ) (session_ids : Option (List ℕ)) (k : ℕ) (l : Lives)
    (m : Manager)
    → Tracks k l m
    → Tracks k l (push_all call_id send_bytes session_ids m)
unfolding push_all
pushes-Tracks call_id send_bytes session_ids k l m t =
    let d : DataPush = record { header = io_header call_id 0; body = send_bytes } in
    let plain = chosen session_ids m.plain_sessions in
    let ssl = chosen session_ids m.ssl_sessions in
    let same =
      alive-send_all d ssl k (send_all d plain m.sessions) ∙ alive-send_all d plain k m.sessions in
    record {
      bound = ground (arith, t.bound);
      alive = ground (arith, t.alive, same);
      told = ground (arith, t.told);
    }

accepts-Tracks :
    (id : ℕ) (ec : Bool) (now k : ℕ) (l : Lives) (w : World)
    → Tracks k l w.manager
    → Tracks k l (accept_at id ec now w).manager
unfolding accept_at add_session
accepts-Tracks id ec now k l w t = record {
  bound = ground (arith, t.bound);
  alive = ground (arith, t.alive, alive-adjust id k (on_accept false now) w.manager.sessions);
  told = ground (arith, t.told);
}

-- If there is a result, the predicate holds of it.
abbrev Partly : (World → Type 0) → Option World → Type 0
Partly P none = Unit
Partly P (some w) = P w

handles-Tracks :
    (id : ℕ) (e : Event) (k : ℕ) (l : Lives) (w : World)
    → Tracks k l w.manager
    → Partly (λ u. Tracks k l u.manager) (handle id e w)
unfolding handle
handles-Tracks id e k l w t = elim (Option-cases (lookup id w.manager.sessions)) [
  | inl a ↦ rw (a, handle) t
  | inr (s, a) ↦ elim (Option-cases (ServerSession.Loop.step e s)) [
    | inl b ↦ rw (a, b, handle) tt
    | inr (u, b) ↦
        rw (a, b, handle)
          (record {
            bound = t.bound;
            alive = alive-adjust id k (λ _. u) w.manager.sessions ∙ t.alive;
            told = t.told;
          })
  ]
]

step-Tracks :
    (c : Call) (k : ℕ) (l : Lives) (w : World)
    → Tracks k l w.manager
    → Partly (λ u. Tracks k (live k c l) u.manager) (step c w)
unfolding step construct construct_session set_subtract_refs let_go
step-Tracks (constructs ssl id funcs config bytes) k l w t =
    let same : id == k ≡ true
        → is_alive (lookup id w.manager.sessions) ≡ is_alive (lookup k w.manager.sessions) =
      λ h. alive-same id k w.manager.sessions h in
    elim (Option-cases (lookup id w.manager.sessions)) [
      | inl e ↦
          rw (e, step)
            (record {
              bound = t.bound;
              alive = ground (
                arith,
                lookup-insert id k (session_accept funcs config bytes) w.manager.sessions,
                t.alive,
              );
              told = ground (arith, t.told);
            })
      | inr (s, e) ↦
          let up : is_alive (lookup id w.manager.sessions) ≡ true = rw e refl in
          rw (e, step)
            (record {
              bound = t.bound;
              alive = ground (arith, same, up, t.alive);
              told = ground (arith, t.told);
            })
    ]
step-Tracks (accepts id ec now) k l w t = accepts-Tracks id ec now k l w t
step-Tracks (handles id e) k l w t = handles-Tracks id e k l w t
step-Tracks (destroys id) k l w t = destroys-Tracks (w.is_ssl id) id k l w.manager t
step-Tracks checks k l w t = elim (Bool-cases (ltb w.passed w.threads && may_push w.manager)) [
  | inl e ↦ rw (e, step) t
  | inr e ↦ rw (e, step) t
]
step-Tracks (pushes call_id send_bytes session_ids) k l w t = elim (Bool-cases (w.passed == 0)) [
  | inl e ↦ rw (e, step) t
  | inr e ↦ rw (e, step) (pushes-Tracks call_id send_bytes session_ids k l w.manager t)
]
step-Tracks (lets_go i) k l w t = record {
  bound = ground (arith, t.bound);
  alive = ground (arith, t.alive);
  told = ground (arith, t.told);
}
step-Tracks subtracts_refs k l w t = elim (Bool-cases (w.manager.sub_refs == 0)) [
  | inl e ↦ rw (e, step) (record { bound = t.bound; alive = t.alive; told = t.told })
  | inr e ↦ rw (e, step) t
]

run_next :
    (P Q : World → Type 0) (cs : List Call) (r : Option World)
    → ((u : World) → P u → Partly Q (run cs u))
    → Partly P r
    → Partly Q (elim r [ none ↦ none | some w ↦ run cs w ])
run_next P Q cs none f h = tt
run_next P Q cs (some u) f h = f u h

run-Tracks :
    (cs : List Call) (k : ℕ) (l : Lives) (w : World)
    → Tracks k l w.manager
    → Partly (λ u. Tracks k (lives k cs l) u.manager) (run cs w)
unfolding run
run-Tracks [] k l w t = t
run-Tracks (c ∷ cs) k l w t =
    run_next (λ u. Tracks k (live k c l) u.manager)
      (λ u. Tracks k (lives k cs (live k c l)) u.manager) cs (step c w)
      (run-Tracks cs k (live k c l)) (step-Tracks c k l w t)

Holds-all :
    (P : World → Type 0) (Q : ℕ → World → Type 0) (r : Option World)
    → Holds P r
    → ((k : ℕ) → Partly (Q k) r)
    → Holds (λ w. (k : ℕ) → Q k w) r
Holds-all P Q none h f = h
Holds-all P Q (some w) h f = f

-- In a server with a handler bound by `bind_disconnect`, after any calls: the sessions that are alive at an
-- address are as its lives say, and the handler has been called once for each session whose life has
-- ended there, established or not, and for no other.
pub run-lives :
    (cfg : ServerConfig) (others threads : ℕ) (cs : List Call)
    → Holds
        (λ w. (k : ℕ) → Tracks k (lives k cs unborn) w.manager)
        (run cs (bound_world cfg others threads))
unfolding session_manager
run-lives cfg others threads cs =
    Holds-all Kept (λ k w. Tracks k (lives k cs unborn) w.manager)
      (run cs (bound_world cfg others threads))
      (run-Kept cs (bound_world cfg others threads) (new_world-Kept cfg others threads true))
      (λ k.
        run-Tracks cs k unborn (bound_world cfg others threads)
          (record { bound = refl; alive = refl; told = refl }))
