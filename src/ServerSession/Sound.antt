-- ===== src/ServerSession/Sound.antt =====
-- A server session over its whole life: before its acceptance it neither reads nor waits, after it
-- the invariant holds, and only its acceptance establishes it.
use radrpc.Types.{SessionConfig}
use radrpc.ServerSession.{
  ServerSession, DataPush, Handler, read, start, add_session, async_read, async_wait,
}
use radrpc.ServerSession.Accept.{session_accept, on_accept, wait_timer}
use radrpc.ServerSession.Loop.{Event, step, send}
use radrpc.Operations.{duration_eq}
use radrpc.Types.{duration_zero}
use radrpc.ServerSession.Bounded.{Bounded, Inv, Ensures, closes-append}
use radrpc.ServerSession.Invariant.{step-Inv}
use radrpc.Prelude.{
  ℕ, ◌≡◌, true, false, not, Option, none, some, [], ◌∷◌, ◌++◌, Map, arith, Bool-cases, inl, inr,
}
use radrpc.ServerSession.Frames.{Same, Ensures-map, Idle, step-established, step-Idle}

pub record Sound (s : ServerSession) : Type 0 where
  pub inv : Inv s
  pub idle : s.established ≡ false → Idle s

both :
    (P Q : ServerSession → Type 0) (r : Option ServerSession)
    → Ensures P r
    → Ensures Q r
    → Ensures (λ s. P s × Q s) r
both P Q none p q = p
both P Q (some s) p q = (p, q)

-- A step of a session that is sound has a result, which is sound, and as established as before.
pub step-Sound :
    (e : Event) (s : ServerSession)
    → Sound s
    → Ensures (λ t. Sound t × (t.established ≡ s.established)) (step e s)
step-Sound e s i =
    let k = both Inv (Same s) (step e s) (step-Inv e s i.inv) (step-established e s i.inv) in
    elim (Bool-cases s.established) [
      | inl up ↦
          Ensures-map (λ t. Inv t × Same s t) (λ t. Sound t × Same s t)
            (λ t (j, f). (record { inv = j; idle = λ down. cc }, f)) (step e s) k
      | inr down ↦
          Ensures-map (λ t. (Inv t × Same s t) × Idle t) (λ t. Sound t × Same s t)
            (λ t ((j, f), h). (record { inv = j; idle = λ _. h }, f)) (step e s)
            (both (λ t. Inv t × Same s t) Idle (step e s) k (step-Idle e s i.inv (i.idle down)))
    ]

pub send-Sound : (d : DataPush) (s : ServerSession) → Sound s → Sound (send d s)
unfolding send
send-Sound d s i = record {
  inv = record {
    one_write = i.inv.one_write;
    capped = i.inv.capped;
    few_reads = i.inv.few_reads;
    few_waits = i.inv.few_waits;
    one_close = i.inv.one_close;
  };
  idle = i.idle;
}

pub session_accept-Sound :
    (funcs : Map (Option Handler)) (config : SessionConfig) (bytes : ℕ)
    → Sound (session_accept funcs config bytes)
unfolding session_accept
session_accept-Sound funcs config bytes = ground arith

reads-Inv : (s : ServerSession) → Bounded 0 1 s → Inv (read (start add_session s))
unfolding read
reads-Inv s i = record {
  one_write = i.one_write;
  capped = i.capped;
  few_reads = omega (arith, i.few_reads);
  few_waits = i.few_waits;
  one_close = omega (
    arith,
    i.one_close,
    closes-append s.started (add_session ∷ []),
    closes-append (s.started ++ add_session ∷ []) (async_read ∷ []),
  );
}

waits-Bounded : (now : ℕ) (s : ServerSession) → Bounded 0 0 s → Bounded 0 1 (wait_timer now s)
unfolding wait_timer
waits-Bounded now s i = record {
  one_write = i.one_write;
  capped = i.capped;
  few_reads = i.few_reads;
  few_waits = omega (arith, i.few_waits);
  one_close = omega (arith, i.one_close, closes-append s.started (async_wait ∷ []));
}

-- A sound session that is not established yet is sound after its acceptance.
pub on_accept-Sound :
    (now : ℕ) (s : ServerSession) → Sound s → s.established ≡ false → Sound (on_accept false now s)
unfolding on_accept
on_accept-Sound now s i down =
    let s1 = record s { established = true } in
    let (reads_none, waits_none) = i.idle down in
    let b : Bounded 0 0 s1 = record {
      one_write = i.inv.one_write;
      capped = i.inv.capped;
      few_reads = omega (arith, reads_none);
      few_waits = omega (arith, waits_none);
      one_close = i.inv.one_close;
    } in
    let b' : Bounded 0 1 s1 = record {
      one_write = i.inv.one_write;
      capped = i.inv.capped;
      few_reads = omega (arith, reads_none);
      few_waits = omega (arith, waits_none);
      one_close = i.inv.one_close;
    } in
    elim (Bool-cases (not (duration_eq s.config.ping_delay duration_zero))) [
      | inl e ↦
          rw (e, on_accept)
            (record {
              inv = reads-Inv (wait_timer now s1) (waits-Bounded now s1 b);
              idle = λ h. unfold wait_timer read in cc;
            })
      | inr e ↦ rw (e, on_accept) (record { inv = reads-Inv s1 b'; idle = λ h. unfold read in cc })
    ]
