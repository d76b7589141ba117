-- ===== src/Connect/Chain.antt =====
-- The chain of operations that connects a session: the thread that waits in `run` is told its end,
-- once and truly.
use radrpc.Types.{ConnectionState, established}
use radrpc.ClientSession
use radrpc.ClientSession.{ClientSession}
use radrpc.Connect.{
  SessionConnect, session_connect, set_callback, on_resolve, on_connect, ssl_handshake,
  on_ssl_handshake, on_handshake, run, complete, complete_all,
}
use radrpc.Prelude.{
  ◌≡◌, refl, Bool, true, false, ◌||◌, ◌&&◌, not, Option, none, some, [], ◌∷◌, if◌then◌else◌,
}

abbrev pub is_established : ConnectionState → Bool
is_established established = true
is_established _ = false

abbrev pub Ensures : (SessionConnect → Type 0) → Option SessionConnect → Type 0
Ensures P none = ⊥
Ensures P (some s) = P s

-- The thread that waits has been told `ok`, which is whether the session is established; and then it
-- reads.
pub record Told (ok : Bool) (base : ClientSession) (t : SessionConnect) : Type 0 where
  pub callback : t.run_callback ≡ some ok
  pub state : is_established t.m_state ≡ ok
  pub reads : t.base ≡ (if ok then ClientSession.read base else base)

-- `run` of a new session, with the errors of the operations in their order, ends with the promise set
-- once: to true exactly if none of them failed, three without SSL and four with it. The session is then
-- established and has started to read; otherwise neither.
pub run-complete_all :
    (is_ssl : Bool) (base : ClientSession) (e1 e2 e3 e4 : Bool)
    → Ensures
        (Told (not (e1 || e2 || e3 || (is_ssl && e4))) base)
        (complete_all (e1 ∷ e2 ∷ e3 ∷ e4 ∷ []) (run (session_connect is_ssl base)).1)
unfolding run complete complete_all set_callback on_resolve on_connect ssl_handshake
    on_ssl_handshake on_handshake
run-complete_all is_ssl base true e2 e3 e4 = record { callback = refl; state = refl; reads = refl }
run-complete_all is_ssl base false true e3 e4 = record {
  callback = refl;
  state = refl;
  reads = refl;
}
run-complete_all true base false false true e4 = record {
  callback = refl;
  state = refl;
  reads = refl;
}
run-complete_all true base false false false true = record {
  callback = refl;
  state = refl;
  reads = refl;
}
run-complete_all true base false false false false = record {
  callback = refl;
  state = refl;
  reads = refl;
}
run-complete_all false base false false true e4 = record {
  callback = refl;
  state = refl;
  reads = refl;
}
run-complete_all false base false false false e4 = record {
  callback = refl;
  state = refl;
  reads = refl;
}
