-- ===== src/Manager/Lifetimes/Sessions.antt =====
-- Every session that is alive keeps its own invariant, whatever the manager does.
use mathlib.Core.Option
use radrpc.Types.{SessionConfig}
use radrpc.Header.{io_header}
use radrpc.ServerSession.{ServerSession, DataPush, Handler}
use radrpc.ServerSession.Accept.{session_accept, on_accept}
use radrpc.ServerSession.Loop.{send}
use radrpc.ServerSession.Sound.{Sound, send-Sound, session_accept-Sound, on_accept-Sound}
use radrpc.Manager.{
  Manager, construct_session, add_session, destroy_session, disconnect, chosen, send_all,
  count_alive, push_all, let_go,
}
use radrpc.Manager.Lifetimes.{World, construct, accept_at, Sounds}
use radrpc.Prelude.{
  ℕ, ◌+◌, ◌≡◌, sym, ◌∙◌, Bool, false, ◌||◌, ◌==◌, leb, Option, some, List, [], ◌∷◌, Map, lookup,
  erase, adjust, lookup-insert, lookup-erase, lookup-adjust, arith, get_elem?, Bool-cases,
  Option-cases, inl, inr,
}

pub Sounds-adjust :
    (id : ℕ) (f : ServerSession → ServerSession) (sessions : Map ServerSession)
    → ((s : ServerSession) → lookup id sessions ≡ some s → Sound s → Sound (f s))
    → Sounds sessions
    → Sounds (adjust id f sessions)
Sounds-adjust id f sessions g i k t e = elim (Bool-cases (id == k)) [
  | inl h ↦
      let same : id ≡ k = ground arith in
      let e' : Option.map f (lookup k sessions) ≡ some t =
        rw (lookup-adjust id k f sessions, h) at e in
      elim (Option-cases (lookup k sessions)) [
        | inl a ↦ absurd (let b = rw a at e' in cc)
        | inr (s, a) ↦
            let e'' : some (f s) ≡ some t = rw a at e' in
            let b : f s ≡ t = cc in rw (sym b) (g s (rw same a) (i k s a))
      ]
  | inr h ↦ i k t (rw (lookup-adjust id k f sessions, h) at e)
]

pub constructs-Sounds :
    (b : Bool) (id : ℕ) (funcs : Map (Option Handler)) (config : SessionConfig) (bytes : ℕ)
    (w : World)
    → Sounds w.manager.sessions
    → Sounds (construct b id funcs config bytes w).manager.sessions
unfolding construct construct_session
constructs-Sounds b id funcs config bytes w i k t e =
    let s = session_accept funcs config bytes in
    elim (Bool-cases (id == k)) [
      | inl h ↦
          let e' : some s ≡ some t = rw (lookup-insert id k s w.manager.sessions, h) at e in
          let q : s ≡ t = cc in rw (sym q) (session_accept-Sound funcs config bytes)
      | inr h ↦ i k t (rw (lookup-insert id k s w.manager.sessions, h) at e)
    ]

erase-Sounds :
    (id : ℕ) (sessions : Map ServerSession) → Sounds sessions → Sounds (erase id sessions)
erase-Sounds id sessions i k t e = elim (Bool-cases (id == k)) [
  | inl h ↦ absurd (let e' = rw (lookup-erase id k sessions, h) at e in cc)
  | inr h ↦ i k t (rw (lookup-erase id k sessions, h) at e)
]

send_all-Sounds :
    (d : DataPush) (ids : List ℕ) (sessions : Map ServerSession)
    → Sounds sessions
    → Sounds (send_all d ids sessions)
unfolding send_all
send_all-Sounds d [] sessions i = i
send_all-Sounds d (id ∷ ids) sessions i =
    send_all-Sounds d ids (adjust id (send d) sessions)
      (Sounds-adjust id (send d) sessions (λ s e. send-Sound d s) i)

pub accepts-Sounds :
    (id : ℕ) (ec : Bool) (now : ℕ) (w : World)
    → Sounds w.manager.sessions
    → Sounds (accept_at id ec now w).manager.sessions
unfolding accept_at add_session
accepts-Sounds id ec now w i = elim (Option-cases (lookup id w.manager.sessions)) [
  | inl e ↦ rw (e, accept_at) i
  | inr (s, e) ↦ elim (Bool-cases (ec || s.established)) [
    | inl f ↦ rw (e, f, accept_at) i
    | inr f ↦
        let down : s.established ≡ false = ground arith in
        let j : Sounds (adjust id (on_accept false now) w.manager.sessions) =
          Sounds-adjust id (on_accept false now) w.manager.sessions
            (λ u e' h.
              let q : some s ≡ some u = sym e ∙ e' in
              let same : s ≡ u = cc in on_accept-Sound now u h (rw same at down))
            i in
        rw (e, f, accept_at)
          (elim (Bool-cases (w.is_ssl id)) [
            | inl b ↦ rw (b, add_session) j
            | inr b ↦ rw (b, add_session) j
          ])
  ]
]

pub destroys-Sounds :
    (ssl : Bool) (id : ℕ) (m : Manager)
    → Sounds m.sessions
    → Sounds (destroy_session ssl id m).sessions
unfolding destroy_session disconnect
destroys-Sounds ssl id m i = elim (Option-cases (lookup id m.sessions)) [
  | inl e ↦ rw (e, destroy_session) i
  | inr (s, e) ↦ rw (e, destroy_session) (erase-Sounds id m.sessions i)
]

pub pushes-Sounds :
    (call_id : ℕ) (send_bytes : List ℕ) (session_ids : Option (List ℕ)) (m : Manager)
    → Sounds m.sessions
    → Sounds (push_all call_id send_bytes session_ids m).sessions
unfolding push_all
pushes-Sounds call_id send_bytes session_ids m i =
    let d : DataPush = record { header = io_header call_id 0; body = send_bytes } in
    let plain = chosen session_ids m.plain_sessions in
    let ssl = chosen session_ids m.ssl_sessions in
    let j = send_all-Sounds d ssl _ (send_all-Sounds d plain m.sessions i) in
    let n = count_alive plain m.sessions + count_alive ssl m.sessions in
    elim (Bool-cases (n == 0)) [ inl c ↦ rw (c, push_all) (j) | inr c ↦ rw (c, push_all) (j) ]

pub lets_go-Sounds : (j : ℕ) (m : Manager) → Sounds m.sessions → Sounds (let_go j m).sessions
unfolding let_go
lets_go-Sounds j m i = elim (Option-cases (get_elem? m.messages j)) [
  | inl e ↦ rw (e, let_go) i
  | inr (n, e) ↦ elim (Bool-cases (leb n 1)) [
    | inl l ↦ rw (e, l, let_go) i
    | inr l ↦ rw (e, l, let_go) i
  ]
]
