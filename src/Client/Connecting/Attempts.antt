-- ===== src/Client/Connecting/Attempts.antt =====
-- `connect(attempts, delay)` of the facade, with `session_connect` behind it.
use radrpc.Client.{Session, Client, with_session, connect_attempts, connect_more, construct_session}
use radrpc.Client.Connecting.{
  Outcome, World, next_outcome, later_outcomes, attempt, ran, runs, wait_destruction, connecting,
}
use radrpc.Types.{ClientTimeout}
use radrpc.ClientSession.{client_session}
use radrpc.Connect.{SessionConnect}
use radrpc.Connect.Chain.{is_established, Ensures, Told, run-complete_all}
use radrpc.Prelude.{
  ℕ, zero, suc, ◌≡◌, refl, sym, ap, ◌∙◌, Bool, true, false, ◌||◌, ◌&&◌, not, Option, none, some,
  List, [], ◌∷◌, Map, arith, Bool-cases, Option-cases, inl, inr, if◌then◌else◌,
}

-- No operation of the session ends with an error.
abbrev pub succeeds : Bool → Outcome → Bool
succeeds is_ssl o = not (o.resolve || o.connect || (is_ssl && o.ssl_handshake) || o.handshake)

-- One of the first `n` sessions connects.
abbrev pub one_succeeds : Bool → ℕ → List Outcome → Bool
one_succeeds is_ssl n [] = false
one_succeeds is_ssl zero (o ∷ os) = false
one_succeeds is_ssl (suc n) (o ∷ os) = succeeds is_ssl o || one_succeeds is_ssl n os

-- The sessions that are left when the first that connects is used up, or the first `n`.
abbrev pub after_success : Bool → ℕ → List Outcome → List Outcome
after_success is_ssl n [] = []
after_success is_ssl zero (o ∷ os) = o ∷ os
after_success is_ssl (suc n) (o ∷ os) = if succeeds is_ssl o then os else after_success is_ssl n os

-- The session, if any, that failed to connect is only held by the IO thread.
abbrev pub Idle : World → Type 0
Idle w = (s : SessionConnect) → w.session ≡ some s → is_established s.m_state ≡ false

module _ (is_ssl : Bool) (funcs : Map Bool) (timeouts : ClientTimeout) (rest : Session World) where
  abbrev pub ops : Session World
  ops = connecting is_ssl funcs timeouts rest

  -- `connect` has returned `ok`, as the sessions told, and has used no more of them than it needed. After
  -- success the facade has the session, which is established and reads.
  pub record Connected (n : ℕ) (os : List Outcome) (ok : Bool) (w : World) : Type 0 where
    pub result : ok ≡ one_succeeds is_ssl n os
    pub left : w.outcomes ≡ after_success is_ssl n os
    pub session : ok ≡ true → Ensures (Told true (client_session funcs)) w.session

  abbrev pub Ends : ℕ → List Outcome → Option (Bool × Client World) → Type 0
  Ends n os none = ⊥
  Ends n os (some (ok, c)) = Connected n os ok c.session

  pub attempt-Told :
      (o : Outcome)
      → Ensures (Told (succeeds is_ssl o) (client_session funcs)) (attempt is_ssl funcs o)
  unfolding attempt
  attempt-Told o =
      let e3 = if is_ssl then o.ssl_handshake else o.handshake in
      let same : not (o.resolve || o.connect || e3 || (is_ssl && o.handshake)) ≡ succeeds is_ssl o =
        ground arith in
      rw (sym same)
        (run-complete_all is_ssl (client_session funcs) o.resolve o.connect e3 o.handshake)

  -- A session that has been run.
  record Ran (ok : Bool) (os : List Outcome) (r : Bool × World) : Type 0 where
    told : r.0 ≡ ok
    later : r.1.outcomes ≡ os
    held : ok ≡ true → Ensures (Told true (client_session funcs)) r.1.session
    idle : ok ≡ false → Idle r.1

  ran-Ran :
      (lingers ok : Bool) (w : World) (r : Option SessionConnect)
      → Ensures (Told ok (client_session funcs)) r
      → Ran ok w.outcomes (ran lingers w r)
  ran-Ran lingers ok w none t = absurd t
  ran-Ran lingers true w (some s) t =
      rw t.state (record { told = refl; later = refl; held = λ y. t; idle = λ n. absurd cc })
  ran-Ran true false w (some s) t = rw t.state (record {
    told = refl;
    later = refl;
    held = λ y. absurd cc;
    idle = λ n u e. let q : s ≡ u = cc in rw (sym q) t.state;
  })
  ran-Ran false false w (some s) t =
      rw t.state
        (record { told = refl; later = refl; held = λ y. absurd cc; idle = λ n u e. absurd cc })

  -- Waiting for the destruction of an idle session, and the delay, leave only the outcomes.
  gone : World → World
  gone w = record w { session = none }

  wait_destruction-Idle : (w : World) → Idle w → wait_destruction rest.destructs w ≡ (true, gone w)
  unfolding wait_destruction gone
  wait_destruction-Idle w i = elim (Option-cases w.session) [
    | inl e ↦ rw (e, wait_destruction) (ap (λ x. (true, record w { session = x })) e)
    | inr (s, e) ↦ rw (e, i s e, wait_destruction) refl
  ]

  construct_session-gone :
      (c : Client World)
      → c.session.session ≡ none
      → construct_session ops c
        ≡ ((runs is_ssl funcs c.session).0, with_session ops (runs is_ssl funcs c.session).1 c)
  unfolding construct_session
  construct_session-gone c e = rw (e, construct_session) refl

  Ends-zero : (c : Client World) → Ends 0 c.session.outcomes (some (false, c))
  Ends-zero c = go c.session.outcomes c refl
    where
      go :
          (os : List Outcome) (c : Client World)
          → c.session.outcomes ≡ os
          → Ends 0 os (some (false, c))
      go [] c e = record { result = refl; left = e; session = λ y. absurd cc }
      go (o ∷ os) c e = record { result = refl; left = e; session = λ y. absurd cc }

  -- After a failure, what the later attempts end with.
  Ends-later :
      (n : ℕ) (o : Outcome) (os : List Outcome) (r : Option (Bool × Client World))
      → succeeds is_ssl o ≡ false
      → Ends n os r
      → Ends (suc n) (o ∷ os) r
  Ends-later n o os none f h = h
  Ends-later n o os (some (ok, c)) f h = record {
    result = rw f h.result;
    left = rw f h.left;
    session = h.session;
  }

  Ends-empty : (n : ℕ) (r : Option (Bool × Client World)) → Ends n [] r → Ends (suc n) [] r
  Ends-empty n none h = h
  Ends-empty n (some (ok, c)) h = record { result = h.result; left = h.left; session = h.session }

  Retries : ℕ → Type 0
  Retries n = (c : Client World) → Idle c.session → Ends n c.session.outcomes (connect_more ops n c)

  -- A session has been run, and the others are if it has failed.
  first-Ends :
      (n : ℕ) (os : List Outcome) (c : Client World) (r : Bool × World)
      → Ran (succeeds is_ssl (next_outcome os)) (later_outcomes os) r
      → Retries n
      → Ends (suc n) os (
          if r.0
          then some (true, with_session ops r.1 c)
          else connect_more ops n (with_session ops r.1 c))
  unfolding Retries
  first-Ends n [] c r ran more =
      let h : Ends n [] (connect_more ops n (with_session ops r.1 c)) =
        rw (sym ran.later) (more (with_session ops r.1 c) (ran.idle refl)) in
      rw ran.told (Ends-empty n _ h)
  first-Ends n (o ∷ os) c r ran more = elim (Bool-cases (succeeds is_ssl o)) [
    | inl y ↦
        rw (ran.told, y)
          (record { result = rw y refl; left = rw y ran.later; session = λ q. ran.held y })
    | inr f ↦
        let h : Ends n os (connect_more ops n (with_session ops r.1 c)) =
          rw (sym ran.later) (more (with_session ops r.1 c) (ran.idle f)) in
        rw (ran.told, f) (Ends-later n o os _ f h)
  ]

  runs-next :
      (w : World)
      → Ran
          (succeeds is_ssl (next_outcome w.outcomes))
          (later_outcomes w.outcomes)
          (runs is_ssl funcs w)
  unfolding runs
  runs-next w =
      ran-Ran (next_outcome w.outcomes).lingers (succeeds is_ssl (next_outcome w.outcomes))
        (record w { outcomes = later_outcomes w.outcomes })
        (attempt is_ssl funcs (next_outcome w.outcomes)) (attempt-Told (next_outcome w.outcomes))

  connect_more-Retries : (n : ℕ) → Retries n
  unfolding connect_more Retries gone
  connect_more-Retries zero c i = Ends-zero c
  connect_more-Retries (suc n) c i =
      let c1 = with_session ops (gone c.session) c in
      rw (wait_destruction-Idle c.session i) (
        first-Ends n c.session.outcomes c1 (runs is_ssl funcs (gone c.session))
          (runs-next (gone c.session)) (connect_more-Retries n))

  connect_attempts-run :
      (n : ℕ) (c : Client World)
      → c.m_exit ≡ false
      → c.session.session ≡ none
      → let r = runs is_ssl funcs c.session in
        connect_attempts ops (suc n) c ≡ (
          if r.0
          then some (true, with_session ops r.1 c)
          else connect_more ops n (with_session ops r.1 c))
  unfolding connect_attempts
  connect_attempts-run n c stays e =
      let all : Bool × Client World → Option (Bool × Client World) =
        λ x. if x.0 then some (true, x.1) else connect_more ops n x.1 in
      ap (λ exits. if exits then some (false, c) else all (construct_session ops c)) stays
      ∙ ap all (construct_session-gone c e)

  -- A facade without a session, that does not exit, always returns from
  -- `connect(attempts, delay)`: true exactly if one of the first `attempts` sessions connects
  -- without an error. It constructs no session after that, and it does not matter whether the IO
  -- thread still holds one that failed. On success it has that session, whose `run` was told true,
  -- which is established and reads.
  pub connect_attempts-Connected :
      (attempts : ℕ) (c : Client World)
      → c.m_exit ≡ false
      → c.session.session ≡ none
      → Ends attempts c.session.outcomes (connect_attempts ops attempts c)
  unfolding connect_attempts
  connect_attempts-Connected zero c stays e = Ends-zero c
  connect_attempts-Connected (suc n) c stays e = rw (connect_attempts-run n c stays e) (
      first-Ends n c.session.outcomes c (runs is_ssl funcs c.session) (runs-next c.session)
        (connect_more-Retries n))
