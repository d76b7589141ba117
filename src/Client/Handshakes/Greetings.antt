-- ===== src/Client/Handshakes/Greetings.antt =====
-- The handshakes that are due of the sessions of a facade, by what their operations before it do.
use radrpc.Handshake.{Fields, decorate}
use mathlib.Core.List.{append_assoc, append-nil}
use radrpc.Connect
use radrpc.Client.Connecting.{Outcome, next_outcome, later_outcomes}
use radrpc.Client.Handshakes.{greets}
use radrpc.Prelude.{
  ◌≡◌, refl, ap, sym, ◌∙◌, Bool, true, false, not, ◌||◌, ◌&&◌, List, [], ◌∷◌, ◌++◌, Map, arith,
  if◌then◌else◌, Bool-cases, inl, inr,
}

-- What the operations before the handshake have to do for a session to send it: none of them fails.
abbrev pub reaches : Bool → Outcome → Bool
reaches is_ssl o = not (o.resolve || o.connect || (is_ssl && o.ssl_handshake))

reaches_cases :
    (is_ssl : Bool) (funcs : Map Bool) (r c s h l : Bool)
    → let o : Outcome = record {
      resolve = r;
      connect = c;
      ssl_handshake = s;
      handshake = h;
      lingers = l;
    } in
      greets is_ssl funcs o ≡ reaches is_ssl o
unfolding greets Connect.run Connect.complete_all Connect.complete Connect.on_resolve
    Connect.set_callback Connect.on_connect Connect.ssl_handshake Connect.on_ssl_handshake
reaches_cases true funcs true c s h l = refl
reaches_cases false funcs true c s h l = refl
reaches_cases true funcs false true s h l = refl
reaches_cases false funcs false true s h l = refl
reaches_cases true funcs false false true h l = refl
reaches_cases true funcs false false false h l = refl
reaches_cases false funcs false false s h l = refl

-- The chain of operations gets as far as `async_handshake` exactly then.
pub greets-reaches :
    (is_ssl : Bool) (funcs : Map Bool) (o : Outcome) → greets is_ssl funcs o ≡ reaches is_ssl o
greets-reaches is_ssl funcs o =
    reaches_cases is_ssl funcs o.resolve o.connect o.ssl_handshake o.handshake o.lingers

module _ {H : Type 0} (fs : Fields H) (base : H) (is_ssl : Bool) where
  -- The handshakes of sessions with these outcomes: one from each that gets that far.
  unfoldable pub greetings : H → List Outcome → List H
  greetings req [] = []
  greetings req (o ∷ os) =
      let later = greetings req os in
      if reaches is_ssl o then decorate fs req base ∷ later else later

  greetings-append :
      (req : H) (used : List Outcome) (o : Outcome)
      → greetings req (used ++ o ∷ []) ≡ (
          if reaches is_ssl o
          then greetings req used ++ decorate fs req base ∷ []
          else greetings req used)
  unfolding greetings
  greetings-append req [] o = ground arith
  greetings-append req (p ∷ used) o = ground (arith, greetings-append req used o)

  -- Since the outcomes were `os` and the requests `before`, the outcomes `used` have been used up, and their
  -- sessions have sent the requests after `before`.
  pub record Used (req : H) (os left : List Outcome) (before requests : List H) : Type 0 where
    pub used : List Outcome
    pub outcomes_are : os ≡ used ++ left
    pub requests_are : requests ≡ before ++ greetings req used

  -- A session is constructed.
  pub next-Used :
      (req : H) (os left : List Outcome) (before requests : List H)
      → Used req os left before requests
      → Used req os (later_outcomes left) before (
          if reaches is_ssl (next_outcome left)
          then requests ++ decorate fs req base ∷ []
          else requests)
  next-Used req os [] before requests u = u
  next-Used req os (o ∷ left) before requests u = record {
    used = u.used ++ o ∷ [];
    outcomes_are = u.outcomes_are ∙ sym (append_assoc u.used (o ∷ []) left);
    requests_are = elim (Bool-cases (reaches is_ssl o)) [
      | inl e ↦
          rw (greetings-append req u.used o, e)
            (ap (λ rs. rs ++ decorate fs req base ∷ []) u.requests_are
              ∙ append_assoc before (greetings req u.used) (decorate fs req base ∷ []))
      | inr e ↦ rw (greetings-append req u.used o, e) u.requests_are
    ];
  }

  -- What a session with the first of the outcomes sends.
  pub first-Used : (req : H) (os : List Outcome) (before : List H) → Used req os os before before
  unfolding greetings
  first-Used req os before = record {
    used = [];
    outcomes_are = refl;
    requests_are = sym (append-nil before);
  }
