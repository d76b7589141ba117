-- ===== src/Examples/Advanced/Admission.antt =====
-- Which clients the server of examples/advanced admits.
use Prim.Native.String.{String}
use text.Mathlib.Text.{◌==◌ as str_eq}
use text.Mathlib.TextEquality.{eq_iff}
use radrpc.Types.{SessionConfig}
use radrpc.Handshake.{Fields, Lawful, decorate}
use radrpc.Handshake.Decorated.{find-decorate}
use radrpc.ServerSession.{Handler}
use radrpc.ServerSession.Accept.{session_accept, inspect}
use radrpc.ServerSession.Establish.{Ends, establish, Established, establish-Established}
use radrpc.Examples.Advanced.{accepted_config, on_accept, bound_accept, client_handshake}
use radrpc.Prelude.{
  ℕ, ◌≡◌, ◌≢◌, refl, ap, ◌∙◌, Bool, true, false, ◌&&◌, not, ◌==◌, Option, none, some, [], ◌∷◌, ◌++◌,
  Map, arith, if◌then◌else◌, Bool-cases, inl, inr,
}

abbrev pub is_some : Option String → Bool
is_some none = false
is_some (some v) = true

abbrev pub is_key : Option String → Bool
is_key none = false
is_key (some v) = str_eq v "xxxxxxxxxx"

-- The request says which agent the client is, and has the key.
abbrev pub has_key : {H : Type 0} → Fields H → H → Bool
has_key fs req = is_some (fs.find "User-Agent" req) && is_key (fs.find "key" req)

module _ {H : Type 0} (fs : Fields H) where
  inspect-bound_accept :
      (req : H) (config : SessionConfig)
      → inspect (bound_accept fs req) config
        ≡ (has_key fs req, if has_key fs req then accepted_config else config)
  unfolding inspect on_accept
  inspect-bound_accept req config = ground arith

  -- What becomes of a session with this request, if the operations end as they do.
  abbrev pub Admitted : Bool → Ends → SessionConfig → Map (Option Handler) → ℕ → H → Type 0
  Admitted ok e config funcs bytes req =
      let greeted = not e.read_ec && (e.left == 0) && ok in
      Established greeted (greeted && not e.accept_ec) (if ok then accepted_config else config)
        (establish (bound_accept fs req) false e (session_accept funcs config bytes))

  admits :
      (req : H) (ok : Bool) (e : Ends) (config : SessionConfig) (funcs : Map (Option Handler))
      (bytes : ℕ)
      → has_key fs req ≡ ok
      → Admitted ok e config funcs bytes req
  admits req ok e config funcs bytes h = rw h at (
      rw (inspect-bound_accept req config) at
        (establish-Established (bound_accept fs req) false e funcs config bytes))

  module _ (laws : Lawful fs) (apart : fs.same "key" "User-Agent" ≡ false)
      (apart' : fs.same "User-Agent" "key" ≡ false) where
    each-client_handshake :
        fs.each (client_handshake fs) ≡ ("User-Agent", "radrpc-client") ∷ ("key", "xxxxxxxxxx") ∷ []
    each-client_handshake =
        let first = fs.insert "User-Agent" "radrpc-client" fs.empty in
        let no_key : fs.find "key" first ≡ none =
          laws.find-insert "User-Agent" "key" "radrpc-client" fs.empty
          ∙ rw apart' (laws.find-empty "key") in
        laws.each-insert "key" "xxxxxxxxxx" first no_key
        ∙ ap (λ fields. fields ++ ("key", "xxxxxxxxxx") ∷ [])
            (laws.each-insert "User-Agent" "radrpc-client" fs.empty (laws.find-empty "User-Agent")
              ∙ ap (λ fields. fields ++ ("User-Agent", "radrpc-client") ∷ []) laws.each-empty)

    find-client_handshake :
        (req : H)
        → fs.find "key" req ≡ none
        → has_key fs (decorate fs (client_handshake fs) req) ≡ true
    find-client_handshake req n =
        let agent = find-decorate fs laws "User-Agent" (client_handshake fs) req in
        let key = find-decorate fs laws "key" (client_handshake fs) req in
        rw (agent, key, each-client_handshake)
          (ground (arith, laws.same_refl "User-Agent", laws.same_refl "key"))

    no_key : (o : Option String) → o ≢ some "xxxxxxxxxx" → is_key o ≡ false
    no_key none h = refl
    no_key (some v) h = elim (Bool-cases (str_eq v "xxxxxxxxxx")) [
      | inl e ↦ absurd (h (ap (λ u. some u) ((eq_iff v "xxxxxxxxxx").0 e)))
      | inr e ↦ e
    ]

    -- The server of examples/advanced admits the client of examples/advanced, if the handshake that Beast
    -- makes has no field "key" by itself: a session that has read the decorated request is asked to
    -- accept, is established, registered and reads, with the limits that `on_accept` sets, exactly if no
    -- operation fails. A session that has read a request with another key, or none, is never asked to
    -- accept and never established.
    pub client_handshake-Admitted :
        (e : Ends) (config : SessionConfig) (funcs : Map (Option Handler)) (bytes : ℕ)
        (req other : H)
        → fs.find "key" req ≡ none
        → fs.find "key" other ≢ some "xxxxxxxxxx"
        → Admitted true e config funcs bytes (decorate fs (client_handshake fs) req)
          × Admitted false e config funcs bytes other
    client_handshake-Admitted e config funcs bytes req other n wrong = (
      admits (decorate fs (client_handshake fs) req) true e config funcs bytes
          (find-client_handshake req n),
      admits other false e config funcs bytes
          (rw (no_key (fs.find "key" other) wrong) (ground arith)),
    )
