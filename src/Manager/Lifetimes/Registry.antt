-- ===== src/Manager/Lifetimes/Registry.antt =====
-- The registered sessions of a manager: every call keeps them in step with the sessions that are alive.
use radrpc.Types.{SessionConfig}
use radrpc.Header.{io_header}
use radrpc.ServerSession.{ServerSession, DataPush, Handler}
use radrpc.ServerSession.Accept.{session_accept, on_accept, wait_timer}
use radrpc.ServerSession.Loop.{send}
use radrpc.Manager.{
  Manager, is_in, construct_session, add_session, remove_session, destroy_session, disconnect,
  chosen, send_all, count_alive, push_all, let_go,
}
use radrpc.Manager.Broadcast.{Unique, Unique-include, is_in-include}
use radrpc.Prelude.{
  ℕ, ◌+◌, ◌≡◌, refl, ap, sym, ◌∙◌, Bool, true, false, ◌||◌, ◌&&◌, not, ◌==◌, Option, none, some,
  List, [], ◌∷◌, Map, lookup, erase, adjust, lookup-insert, lookup-erase, lookup-adjust, arith,
  Bool-cases, Option-cases, inl, inr,
}
use radrpc.Manager.Lifetimes.{World, construct, accept_at, is_established, Registered}
use radrpc.Manager.Lifetimes.Ids.{is_in-exclude, Unique-exclude}

established-adjust :
    (id k : ℕ) (f : ServerSession → ServerSession) (sessions : Map ServerSession)
    → ((s : ServerSession) → (f s).established ≡ s.established)
    → is_established (lookup k (adjust id f sessions)) ≡ is_established (lookup k sessions)
established-adjust id k f [] h = refl
established-adjust id k f ((j, s) ∷ m) h = ground (arith, established-adjust id k f m h, h s)

established-send_all :
    (d : DataPush) (ids : List ℕ) (k : ℕ) (sessions : Map ServerSession)
    → is_established (lookup k (send_all d ids sessions)) ≡ is_established (lookup k sessions)
unfolding send_all
established-send_all d [] k sessions = refl
established-send_all d (id ∷ ids) k sessions =
    established-send_all d ids k (adjust id (send d) sessions)
    ∙ established-adjust id k (send d) sessions (λ s. unfold send in refl)

absent :
    (id k : ℕ) (sessions : Map ServerSession)
    → lookup id sessions ≡ none
    → (id == k) && is_established (lookup k sessions) ≡ false
absent id k sessions e = elim (Bool-cases (id == k)) [
  | inl t ↦
      let same : id ≡ k = ground arith in
      let e' : lookup k sessions ≡ none = rw same at e in rw (t, e') refl
  | inr t ↦ rw t refl
]

-- A change that leaves alone what is registered and which sessions are established.
pub keeps-Registered :
    (w : World) (m : Manager)
    → m.plain_sessions ≡ w.manager.plain_sessions
    → m.ssl_sessions ≡ w.manager.ssl_sessions
    → ((k : ℕ)
        → is_established (lookup k m.sessions) ≡ is_established (lookup k w.manager.sessions))
    → Registered w
    → Registered (record w { manager = m })
keeps-Registered w m p s e i = record {
  plain = λ k. rw (p, e k) (i.plain k);
  ssl = λ k. rw (s, e k) (i.ssl k);
  plain_once = rw p i.plain_once;
  ssl_once = rw s i.ssl_once;
}

pub constructs-Registered :
    (b : Bool) (id : ℕ) (funcs : Map (Option Handler)) (config : SessionConfig) (bytes : ℕ)
    (w : World)
    → lookup id w.manager.sessions ≡ none
    → Registered w
    → Registered (construct b id funcs config bytes w)
unfolding construct construct_session session_accept
constructs-Registered b id funcs config bytes w e i =
    let s = session_accept funcs config bytes in
    let fresh : (k : ℕ) → (id == k) && is_established (lookup k w.manager.sessions) ≡ false =
      λ k. absent id k w.manager.sessions e in
    record {
      plain = λ k. ground (arith, lookup-insert id k s w.manager.sessions, i.plain k, fresh k);
      ssl = λ k. ground (arith, lookup-insert id k s w.manager.sessions, i.ssl k, fresh k);
      plain_once = i.plain_once;
      ssl_once = i.ssl_once;
    }

established-on_accept : (now : ℕ) (s : ServerSession) → (on_accept false now s).established ≡ true
unfolding on_accept
established-on_accept now s = unfold wait_timer in ground arith

established-accept :
    (id k now : ℕ) (s : ServerSession) (sessions : Map ServerSession)
    → lookup id sessions ≡ some s
    → is_established (lookup k (adjust id (on_accept false now) sessions))
      ≡ (id == k) || is_established (lookup k sessions)
established-accept id k now s sessions e = elim (Bool-cases (id == k)) [
  | inl t ↦
      let same : id ≡ k = ground arith in
      let e' : lookup k sessions ≡ some s = rw same at e in
      rw (lookup-adjust id k (on_accept false now) sessions)
        (rw t (rw e' (established-on_accept now s)))
  | inr t ↦ rw (lookup-adjust id k (on_accept false now) sessions) (rw t refl)
]

-- The session at `id`, alive and not establisheds established and is registered.
adds-Registered :
    (id now : ℕ) (s : ServerSession) (w : World)
    → lookup id w.manager.sessions ≡ some s
    → s.established ≡ false
    → Registered w
    → Registered (record w {
      manager =
          add_session
            (w.is_ssl id)
            id
            (record w.manager { sessions = adjust id (on_accept false now) w.manager.sessions });
    })
unfolding add_session
adds-Registered id now s w e n i =
    let same : (k : ℕ) → id == k ≡ true → w.is_ssl k ≡ w.is_ssl id =
      λ k h. let q : id ≡ k = ground arith in ap w.is_ssl (sym q) in
    elim (Bool-cases (w.is_ssl id)) [
      | inl b ↦
          rw (b, add_session)
            (record {
              plain = λ k.
                  ground
                    (arith, established-accept id k now s w.manager.sessions e, i.plain k, same k);
              ssl = λ k. ground (
                arith,
                established-accept id k now s w.manager.sessions e,
                i.ssl k,
                same k,
                is_in-include id k w.manager.ssl_sessions,
              );
              plain_once = i.plain_once;
              ssl_once = Unique-include id w.manager.ssl_sessions i.ssl_once;
            })
      | inr b ↦
          rw (b, add_session)
            (record {
              plain = λ k. ground (
                arith,
                established-accept id k now s w.manager.sessions e,
                i.plain k,
                same k,
                is_in-include id k w.manager.plain_sessions,
              );
              ssl = λ k.
                  ground
                    (arith, established-accept id k now s w.manager.sessions e, i.ssl k, same k);
              plain_once = Unique-include id w.manager.plain_sessions i.plain_once;
              ssl_once = i.ssl_once;
            })
    ]

pub accepts-Registered :
    (id : ℕ) (ec : Bool) (now : ℕ) (w : World) → Registered w → Registered (accept_at id ec now w)
unfolding accept_at
accepts-Registered id ec now w i = elim (Option-cases (lookup id w.manager.sessions)) [
  | inl e ↦ rw (e, accept_at) i
  | inr (s, e) ↦ elim (Bool-cases (ec || s.established)) [
    | inl f ↦ rw (e, f, accept_at) i
    | inr f ↦ rw (e, f, accept_at) (adds-Registered id now s w e (ground arith) i)
  ]
]

erases-Registered :
    (id : ℕ) (w : World) (m : Manager)
    → ((k : ℕ) → is_in k m.plain_sessions ≡ not (id == k) && is_in k w.manager.plain_sessions)
    → ((k : ℕ) → is_in k m.ssl_sessions ≡ not (id == k) && is_in k w.manager.ssl_sessions)
    → Unique m.plain_sessions
    → Unique m.ssl_sessions
    → m.sessions ≡ erase id w.manager.sessions
    → Registered w
    → Registered (record w { manager = m })
erases-Registered id w m p s up us e i = record {
  plain = λ k. ground (arith, p k, i.plain k, lookup-erase id k w.manager.sessions, e);
  ssl = λ k. ground (arith, s k, i.ssl k, lookup-erase id k w.manager.sessions, e);
  plain_once = up;
  ssl_once = us;
}

removes-Registered :
    (id : ℕ) (told : List ℕ) (w : World)
    → Registered w
    → Registered (record w {
      manager = record (remove_session (w.is_ssl id) id w.manager) {
        sessions = erase id w.manager.sessions;
        disconnected = told;
      };
    })
unfolding remove_session
removes-Registered id told w i =
    let same : (k : ℕ) → id == k ≡ true → w.is_ssl k ≡ w.is_ssl id =
      λ k h. let q : id ≡ k = ground arith in ap w.is_ssl (sym q) in
    elim (Bool-cases (w.is_ssl id)) [
      | inl b ↦
          rw (b, remove_session)
            (erases-Registered id w _ (λ k. ground (arith, same k, i.plain k))
              (λ k. is_in-exclude id k w.manager.ssl_sessions) i.plain_once
              (Unique-exclude id w.manager.ssl_sessions i.ssl_once) refl i)
      | inr b ↦
          rw (b, remove_session)
            (erases-Registered id w _ (λ k. is_in-exclude id k w.manager.plain_sessions)
              (λ k. ground (arith, same k, i.ssl k))
              (Unique-exclude id w.manager.plain_sessions i.plain_once) i.ssl_once refl i)
    ]

pub destroys-Registered :
    (id : ℕ) (w : World)
    → Registered w
    → Registered (record w { manager = destroy_session (w.is_ssl id) id w.manager })
unfolding destroy_session disconnect
destroys-Registered id w i = elim (Option-cases (lookup id w.manager.sessions)) [
  | inl e ↦ rw (e, destroy_session) i
  | inr (s, e) ↦ elim (Bool-cases s.established) [
    | inl f ↦ rw (e, f, destroy_session) (removes-Registered id _ w i)
    | inr f ↦
        rw (e, f, destroy_session)
          (let off : (k : ℕ)
                → id == k ≡ true
                → is_established (lookup k w.manager.sessions) ≡ false =
              λ k h. let q : id ≡ k = ground arith in rw (sym q, e, f) refl in
            erases-Registered id w _ (λ k. ground (arith, off k, i.plain k))
              (λ k. ground (arith, off k, i.ssl k)) i.plain_once i.ssl_once refl i)
  ]
]

pub pushes-Registered :
    (call_id : ℕ) (send_bytes : List ℕ) (session_ids : Option (List ℕ)) (w : World)
    → Registered w
    → Registered (record w { manager = push_all call_id send_bytes session_ids w.manager })
unfolding push_all
pushes-Registered call_id send_bytes session_ids w i =
    let d : DataPush = record { header = io_header call_id 0; body = send_bytes } in
    let plain = chosen session_ids w.manager.plain_sessions in
    let ssl = chosen session_ids w.manager.ssl_sessions in
    let first = send_all d plain w.manager.sessions in
    let same : (k : ℕ)
        → is_established (lookup k (send_all d ssl first))
          ≡ is_established (lookup k w.manager.sessions) =
      λ k. established-send_all d ssl k first ∙ established-send_all d plain k w.manager.sessions in
    let n = count_alive plain w.manager.sessions + count_alive ssl w.manager.sessions in
    elim (Bool-cases (n == 0)) [
      | inl c ↦ rw (c, push_all) (keeps-Registered w _ refl refl same i)
      | inr c ↦ rw (c, push_all) (keeps-Registered w _ refl refl same i)
    ]

pub lets_go-Registered :
    (j : ℕ) (w : World) → Registered w → Registered (record w { manager = let_go j w.manager })
unfolding let_go
lets_go-Registered j w i = ground arith
