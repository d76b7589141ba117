-- ===== src/Manager/Lifetimes/Invariant.antt =====
-- What holds of the manager after any calls.
use radrpc.Types.{ServerConfig, queue_send_max}
use radrpc.ServerSession
use radrpc.ServerSession.{ServerSession}
use radrpc.ServerSession.Loop.{Event}
use radrpc.ServerSession.Bounded.{Ensures}
use radrpc.ServerSession.Sound.{Sound, step-Sound}
use radrpc.Manager.{
  session_manager, is_in, construct_session, get_session_ids, set_subtract_refs, use_count,
  may_push,
}
use radrpc.Manager.Broadcast.{Unique}
use radrpc.Manager.Lifetimes.{
  Call, constructs, accepts, handles, destroys, checks, pushes, lets_go, subtracts_refs, World,
  construct, accept_at, handle, step, run, new_world, is_established, Registered, Counted, Sounds,
  Holds,
}
use radrpc.Manager.Lifetimes.Ids.{get_session_ids-Registered}
use radrpc.Manager.Lifetimes.Registry.{
  keeps-Registered, constructs-Registered, accepts-Registered, destroys-Registered,
  pushes-Registered, lets_go-Registered,
}
use radrpc.Manager.Lifetimes.Sessions.{
  Sounds-adjust, constructs-Sounds, accepts-Sounds, destroys-Sounds, pushes-Sounds, lets_go-Sounds,
}
use radrpc.Manager.Lifetimes.Messages.{
  accepts-Counted, destroys-Counted, checks-Counted, pushes-Counted, lets_go-Counted,
}
use radrpc.Prelude.{
  ℕ, ◌+◌, ◌-◌, ◌≡◌, ◌<◌, refl, Bool, true, false, ltb, ◌&&◌, ◌||◌, ◌==◌, Option, none, some, List,
  [], ◌∷◌, Map, lookup, adjust, lookup-adjust, arith, Bool-cases, Option-cases, inl, inr,
}

-- What holds of a server between two calls.
pub record Kept (w : World) : Type 0 where
  pub registered : Registered w
  pub counted : Counted w.passed (queue_send_max + w.threads) w.manager
  pub sound : Sounds w.manager.sessions

established_at :
    (id k : ℕ) (s t : ServerSession) (sessions : Map ServerSession)
    → lookup id sessions ≡ some s
    → t.established ≡ s.established
    → is_established (lookup k (adjust id (λ _. t) sessions)) ≡ is_established (lookup k sessions)
established_at id k s t sessions e f = elim (Bool-cases (id == k)) [
  | inl h ↦
      let same : id ≡ k = ground arith in
      let e' : lookup k sessions ≡ some s = rw same at e in
      rw (lookup-adjust id k (λ _. t) sessions) (rw h (rw e' f))
  | inr h ↦ rw (lookup-adjust id k (λ _. t) sessions) (rw h refl)
]

handled-Kept :
    (id : ℕ) (s : ServerSession) (w : World) (r : Option ServerSession)
    → Kept w
    → lookup id w.manager.sessions ≡ some s
    → Ensures (λ t. Sound t × (t.established ≡ s.established)) r
    → Holds Kept (elim r [
      | none ↦ none
      | some t ↦ some (record w {
        manager = record w.manager { sessions = adjust id (λ _. t) w.manager.sessions };
      })
    ])
handled-Kept id s w none i e h = h
handled-Kept id s w (some t) i e (g, f) = record {
  registered =
      keeps-Registered w (record w.manager { sessions = adjust id (λ _. t) w.manager.sessions })
        refl refl (λ k. established_at id k s t w.manager.sessions e f) i.registered;
  counted = record { queued = i.counted.queued; capped = i.counted.capped };
  sound = Sounds-adjust id (λ _. t) w.manager.sessions (λ u e' h. g) i.sound;
}

handles-Kept : (id : ℕ) (e : Event) (w : World) → Kept w → Holds Kept (handle id e w)
unfolding handle
handles-Kept id e w i = elim (Option-cases (lookup id w.manager.sessions)) [
  | inl a ↦ rw (a, handle) i
  | inr (s, a) ↦
      rw (a, handle)
        (handled-Kept id s w (ServerSession.Loop.step e s) i a (step-Sound e s (i.sound id s a)))
]

accepts_all-Counted :
    (id : ℕ) (ec : Bool) (now : ℕ) (w : World)
    → Counted w.passed (queue_send_max + w.threads) w.manager
    → let u = accept_at id ec now w in Counted u.passed (queue_send_max + u.threads) u.manager
unfolding accept_at
accepts_all-Counted id ec now w c = elim (Option-cases (lookup id w.manager.sessions)) [
  | inl e ↦ rw (e, accept_at) c
  | inr (s, e) ↦ elim (Bool-cases (ec || s.established)) [
    | inl f ↦ rw (e, f, accept_at) c
    | inr f ↦
        rw (e, f, accept_at)
          (accepts-Counted w.passed (queue_send_max + w.threads) (w.is_ssl id) id _
            (record { queued = c.queued; capped = c.capped }))
  ]
]

step-Kept : (c : Call) (w : World) → Kept w → Holds Kept (step c w)
unfolding step construct construct_session set_subtract_refs
step-Kept (constructs ssl id funcs config bytes) w i =
    elim (Option-cases (lookup id w.manager.sessions)) [
      | inl e ↦
          rw (e, step)
            (record {
              registered = constructs-Registered ssl id funcs config bytes w e i.registered;
              counted = record { queued = i.counted.queued; capped = i.counted.capped };
              sound = constructs-Sounds ssl id funcs config bytes w i.sound;
            })
      | inr (s, e) ↦ rw (e, step) i
    ]
step-Kept (accepts id ec now) w i = record {
  registered = accepts-Registered id ec now w i.registered;
  counted = accepts_all-Counted id ec now w i.counted;
  sound = accepts-Sounds id ec now w i.sound;
}
step-Kept (handles id e) w i = handles-Kept id e w i
step-Kept (destroys id) w i = record {
  registered = destroys-Registered id w i.registered;
  counted =
      destroys-Counted w.passed (queue_send_max + w.threads) (w.is_ssl id) id w.manager i.counted;
  sound = destroys-Sounds (w.is_ssl id) id w.manager i.sound;
}
step-Kept checks w i = elim (Bool-cases (ltb w.passed w.threads && may_push w.manager)) [
  | inl e ↦
      let free : w.passed < w.threads = ground (arith, e) in
      let may : may_push w.manager ≡ true = ground (arith, e) in
      rw (e, step)
        (record {
          registered = record {
            plain = i.registered.plain;
            ssl = i.registered.ssl;
            plain_once = i.registered.plain_once;
            ssl_once = i.registered.ssl_once;
          };
          counted = checks-Counted w.passed w.threads w.manager free may i.counted;
          sound = i.sound;
        })
  | inr e ↦ rw (e, step) i
]
step-Kept (pushes call_id send_bytes session_ids) w i = elim (Bool-cases (w.passed == 0)) [
  | inl e ↦ rw (e, step) i
  | inr e ↦
      let r = pushes-Registered call_id send_bytes session_ids w i.registered in
      rw (e, step)
        (record {
          registered = record {
            plain = r.plain;
            ssl = r.ssl;
            plain_once = r.plain_once;
            ssl_once = r.ssl_once;
          };
          counted =
              pushes-Counted (w.passed - 1) w.passed (queue_send_max + w.threads) call_id send_bytes
                session_ids w.manager (ground (arith, e)) i.counted;
          sound = pushes-Sounds call_id send_bytes session_ids w.manager i.sound;
        })
]
step-Kept (lets_go j) w i = record {
  registered = lets_go-Registered j w i.registered;
  counted = lets_go-Counted w.passed (queue_send_max + w.threads) j w.manager i.counted;
  sound = lets_go-Sounds j w.manager i.sound;
}
step-Kept subtracts_refs w i = elim (Bool-cases (w.manager.sub_refs == 0)) [
  | inl e ↦
      rw (e, step)
        (record {
          registered =
              keeps-Registered w (record w.manager { sub_refs = use_count w.manager }) refl refl
                (λ k. refl) i.registered;
          counted = record { queued = i.counted.queued; capped = i.counted.capped };
          sound = i.sound;
        })
  | inr e ↦ rw (e, step) i
]

run_bind :
    (P : World → Type 0) (cs : List Call) (r : Option World)
    → Holds (λ w. Holds P (run cs w)) r
    → Holds P (elim r [ none ↦ none | some w ↦ run cs w ])
run_bind P cs none h = h
run_bind P cs (some w) h = h

Holds-map :
    (P Q : World → Type 0) → ((w : World) → P w → Q w) → (r : Option World) → Holds P r → Holds Q r
Holds-map P Q f none h = h
Holds-map P Q f (some w) h = f w h

pub run-Kept : (cs : List Call) (w : World) → Kept w → Holds Kept (run cs w)
unfolding run
run-Kept [] w i = i
run-Kept (c ∷ cs) w i =
    run_bind Kept cs (step c w)
      (Holds-map Kept (λ u. Holds Kept (run cs u)) (run-Kept cs) (step c w) (step-Kept c w i))

pub new_world-Kept :
    (cfg : ServerConfig) (others threads : ℕ) (on_disconnect : Bool)
    → Kept (record (new_world cfg others threads) {
      manager = record (session_manager cfg others) { on_disconnect = on_disconnect };
    })
unfolding session_manager
new_world-Kept cfg others threads on_disconnect = record {
  registered = record { plain = λ k. refl; ssl = λ k. refl; plain_once = tt; ssl_once = tt };
  counted = record { queued = refl; capped = omega arith };
  sound = λ k s e. absurd (cc);
}

-- After any constructions, acceptances and destructions of sessions, events of their strands,
-- tests and rests of broadcasts, releases of messages and calls of `set_subtract_refs`: no session has used the front of
-- an empty queue, and each keeps its invariant; the registered ids are those of the sessions that are
-- alive and established, each once and under its own type of stream, and `get_session_ids` returns
-- these, each once; and the counter of messages is the number of those that are alive, and together with
-- the broadcasts that have passed its test it is less than the sum of the limit and the number of the
-- threads that broadcast.
pub run-Registered :
    (cfg : ServerConfig) (others threads : ℕ) (cs : List Call)
    → Holds
        (λ w.
          Kept w
          × Unique (get_session_ids w.manager)
          × ((k : ℕ)
              → is_in k (get_session_ids w.manager) ≡ is_established (lookup k w.manager.sessions)))
        (run cs (new_world cfg others threads))
unfolding session_manager
run-Registered cfg others threads cs =
    Holds-map Kept _
      (λ u j. let (once, same) = get_session_ids-Registered u j.registered in (j, once, same))
      (run cs (new_world cfg others threads))
      (run-Kept cs (new_world cfg others threads) (new_world-Kept cfg others threads false))
