-- ===== src/Listener/Detecting.antt =====
-- The connections whose kind is being detected are not counted.
use radrpc.Types.{ServerMode, SessionConfig, mode_and, ssl_mode}
use radrpc.ServerSession.{ServerSession, Handler}
use radrpc.ServerSession.Accept.{session_accept}
use radrpc.Manager.{Manager, is_full, connections, use_count, construct_session, is_in}
use radrpc.Manager.Broadcast.{Unique}
use radrpc.Listener.{
  Listener, socket, on_accept, on_detect, handle_accept, place, complete_accept, complete_detect,
}
use radrpc.Prelude.{
  ℕ, suc, ◌+◌, ◌≤◌, ◌≡◌, refl, ap, ◌∙◌, true, false, ◌==◌, Option, none, List, [], ◌∷◌, Map, lookup,
  insert, lookup-insert, length, arith, Bool-cases, inl, inr,
}

length-insert-absent :
    (k : ℕ) (s : ServerSession) (m : Map ServerSession)
    → lookup k m ≡ none
    → length (insert k s m) ≡ length m + 1
length-insert-absent k s [] e = omega arith
length-insert-absent k s ((j, t) ∷ m) e = ground (arith, length-insert-absent k s m)

module _ (funcs : Map (Option Handler)) (config : SessionConfig) where
  -- As many connections are accepted as there are addresses.
  pub accept_all : List ℕ → Listener → Listener
  accept_all [] l = l
  accept_all (id ∷ ids) l =
      accept_all ids (complete_accept none (socket false) id funcs config l.accepting l)

  -- Each of them turns out to begin with an SSL handshake.
  pub detect_all : ServerMode → List ℕ → Listener → Listener
  detect_all mode [] l = l
  detect_all mode (id ∷ ids) l =
      detect_all mode ids (complete_detect mode false true id funcs config 0 l.detecting l)

  -- `k` more connections are being detected; all else is as before.
  record Waits (k : ℕ) (l l' : Listener) : Type 0 where
    same_manager : l'.manager ≡ l.manager
    more : l'.detecting ≡ l.detecting + k
    same_accepting : l'.accepting ≡ l.accepting
    same_ssl : l'.with_ssl ≡ l.with_ssl
    same_open : l'.is_open ≡ l.is_open

  accept_one :
      (id n : ℕ) (l : Listener)
      → l.accepting ≡ suc n
      → l.with_ssl ≡ true
      → l.is_open ≡ true
      → is_full l.manager ≡ false
      → Waits 1 l (complete_accept none (socket false) id funcs config l.accepting l)
  unfolding complete_accept on_accept place handle_accept
  accept_one id n l e s o f =
      rw (e, complete_accept)
        (rw (s, f, o)
          (record {
            same_manager = refl;
            more = refl;
            same_accepting = omega arith;
            same_ssl = refl;
            same_open = refl;
          }))

  accept_all-Waits :
      (ids : List ℕ) (n : ℕ) (l : Listener)
      → l.accepting ≡ suc n
      → l.with_ssl ≡ true
      → l.is_open ≡ true
      → is_full l.manager ≡ false
      → Waits (length ids) l (accept_all ids l)
  unfolding accept_all
  accept_all-Waits [] n l e s o f = record {
    same_manager = refl;
    more = omega arith;
    same_accepting = refl;
    same_ssl = refl;
    same_open = refl;
  }
  accept_all-Waits (id ∷ ids) n l e s o f =
      let l1 = complete_accept none (socket false) id funcs config l.accepting l in
      let w = accept_one id n l e s o f in
      let v =
        accept_all-Waits ids n l1 (w.same_accepting ∙ e) (w.same_ssl ∙ s) (w.same_open ∙ o)
          (ap is_full w.same_manager ∙ f) in
      record {
        same_manager = v.same_manager ∙ w.same_manager;
        more = omega (arith, v.more, w.more);
        same_accepting = v.same_accepting ∙ w.same_accepting;
        same_ssl = v.same_ssl ∙ w.same_ssl;
        same_open = v.same_open ∙ w.same_open;
      }

  detect_one :
      (mode : ServerMode) (id n : ℕ) (l : Listener)
      → l.detecting ≡ suc n
      → mode_and mode ssl_mode ≡ true
      → complete_detect mode false true id funcs config 0 l.detecting l ≡ record l {
        detecting = n;
        manager = construct_session id (session_accept funcs config 0) l.manager;
      }
  unfolding complete_detect on_detect place
  detect_one mode id n l e h = rw (e, complete_detect) (rw h refl)

  -- The sessions at these addresses are constructed.
  construct_all : List ℕ → Manager → Manager
  construct_all [] m = m
  construct_all (id ∷ ids) m =
      construct_all ids (construct_session id (session_accept funcs config 0) m)

  detect_all-construct_all :
      (mode : ServerMode) (ids : List ℕ) (n : ℕ) (l : Listener)
      → l.detecting ≡ n + length ids
      → mode_and mode ssl_mode ≡ true
      → (detect_all mode ids l).manager ≡ construct_all ids l.manager
  unfolding detect_all construct_all
  detect_all-construct_all mode [] n l e h = refl
  detect_all-construct_all mode (id ∷ ids) n l e h =
      let d = detect_one mode id (n + length ids) l (omega (arith, e)) h in
      rw (d, detect_all) (detect_all-construct_all mode ids n _ refl h)

  -- The manager has `k` more sessions; all else that `connections` looks at is as before.
  record Grown (k : ℕ) (m m' : Manager) : Type 0 where
    longer : length m'.sessions ≡ length m.sessions + k
    same_refs : m'.sub_refs ≡ m.sub_refs
    same_others : m'.others ≡ m.others
    same_messages : m'.messages ≡ m.messages
    same_cfg : m'.server_cfg ≡ m.server_cfg

  construct_all-Grown :
      (ids : List ℕ) (m : Manager)
      → Unique ids
      → ((k : ℕ) → is_in k ids ≡ true → lookup k m.sessions ≡ none)
      → Grown (length ids) m (construct_all ids m)
  unfolding construct_all construct_session
  construct_all-Grown [] m u fresh = record {
    longer = omega arith;
    same_refs = refl;
    same_others = refl;
    same_messages = refl;
    same_cfg = refl;
  }
  construct_all-Grown (id ∷ ids) m u fresh =
      let s = session_accept funcs config 0 in
      let still : (k : ℕ) → is_in k ids ≡ true → lookup k (insert id s m.sessions) ≡ none = λ k h.
        elim (Bool-cases (id == k)) [
          | inl t ↦ let q : id ≡ k = ground arith in let b = rw q at u.0 in cc
          | inr t ↦ lookup-insert id k s m.sessions ∙ rw t (fresh k (rw (t, h) refl))
        ] in
      let g = construct_all-Grown ids (construct_session id s m) u.1 still in
      let first = length-insert-absent id s m.sessions (fresh id (ground arith)) in
      record {
        longer = omega (arith, g.longer, first);
        same_refs = g.same_refs;
        same_others = g.same_others;
        same_messages = g.same_messages;
        same_cfg = g.same_cfg;
      }

  Grown-connections :
      (k : ℕ) (m m' : Manager)
      → m.sub_refs ≤ use_count m
      → Grown k m m'
      → connections m' ≡ connections m + k
  unfolding connections use_count
  Grown-connections k m m' c g =
      omega (arith, g.longer, g.same_refs, g.same_others, ap length g.same_messages)

  -- With an SSL context, a listener whose manager is not full takes any number of connections, since
  -- a connection whose kind is being detected does not count: if all of them then begin with an SSL
  -- handshake, and the mode allows it, each becomes a session, however small `max_sessions` is.
  pub detect_all-connections :
      (mode : ServerMode) (ids : List ℕ) (n : ℕ) (l : Listener)
      → mode_and mode ssl_mode ≡ true
      → l.with_ssl ≡ true
      → l.is_open ≡ true
      → l.accepting ≡ suc n
      → is_full l.manager ≡ false
      → l.manager.sub_refs ≤ use_count l.manager
      → Unique ids
      → ((k : ℕ) → is_in k ids ≡ true → lookup k l.manager.sessions ≡ none)
      → let l' = detect_all mode ids (accept_all ids l) in
        (connections l'.manager ≡ connections l.manager + length ids)
        × (l'.manager.server_cfg ≡ l.manager.server_cfg)
  detect_all-connections mode ids n l h s o e f c u fresh =
      let w = accept_all-Waits ids n l e s o f in
      let d =
        detect_all-construct_all mode ids l.detecting (accept_all ids l) w.more h
        ∙ ap (construct_all ids) w.same_manager in
      let g = construct_all-Grown ids l.manager u fresh in
      (
        ap connections d
            ∙ Grown-connections (length ids) l.manager (construct_all ids l.manager) c g,
        ap (λ m. m.server_cfg) d ∙ g.same_cfg,
      )
