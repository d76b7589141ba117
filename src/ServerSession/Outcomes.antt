-- ===== src/ServerSession/Outcomes.antt =====
-- The ways in which `handle_send`, `on_write` and `call_function` can end, so that proofs about
-- them have one case for each.
use radrpc.Types.{queue_send_max}
use radrpc.Header.{packet}
use radrpc.ServerSession.{
  ServerSession, DataPush, async_write, handle_send, write, on_write, pop_write, is_closed, start,
  close_session,
}
use radrpc.Prelude.{
  ℕ, ◌+◌, ◌≡◌, ◌≢◌, ◌⊎◌, refl, ap, Bool, true, false, ◌||◌, Option, some, List, [], ◌∷◌, ◌++◌,
  length, length-append, arith, Bool-cases, leb, ltb, inl, inr,
}

abbrev pub pushed : DataPush → ServerSession → ServerSession
pushed d s = record s { queue = s.queue ++ d ∷ [] }

abbrev pub writing : DataPush → ServerSession → ServerSession
writing d s = start (async_write (packet d.header d.body)) (record s { writes = s.writes + 1 })

abbrev pub is_full : ServerSession → Bool
is_full s = leb queue_send_max (length s.queue)

-- A message is refused by a closed session and by a full queue; otherwise it is queued, and also
-- written if the queue was empty.
pub data Sent (d : DataPush) (s : ServerSession) (r : Option ServerSession) : Type 0 where
  refused : is_closed s || is_full s ≡ true → r ≡ some s → Sent d s r
  queued : is_closed s || is_full s ≡ false → s.queue ≢ [] → r ≡ some (pushed d s) → Sent d s r
  issued :
      is_closed s || is_full s ≡ false
      → s.queue ≡ []
      → r ≡ some (writing d (record s { queue = d ∷ [] }))
      → Sent d s r

list_cases : (es : List DataPush) → (es ≡ []) ⊎ (es ≢ [])
list_cases [] = inl refl
list_cases (e ∷ es) = inr (λ p. cc)

is_writing-pushed :
    (es : List DataPush) (d : DataPush) → es ≢ [] → ltb 1 (length (es ++ d ∷ [])) ≡ true
is_writing-pushed [] d h = absurd (h refl)
is_writing-pushed (e ∷ es) d h = ground (arith, length-append es (d ∷ []))

pub handle_send-Sent : (d : DataPush) (s : ServerSession) → Sent d s (handle_send d s)
unfolding handle_send write
handle_send-Sent d s = elim (Bool-cases (is_closed s)) [
  | inl c ↦ refused (rw c) (rw (c, handle_send))
  | inr c ↦ elim (Bool-cases (is_full s)) [
    | inl f ↦ refused (rw (c, f)) (rw (c, f, handle_send))
    | inr f ↦ elim (list_cases s.queue) [
      | inl e ↦ issued (rw (c, f)) e (rw (c, f, handle_send) (rw e refl))
      | inr e ↦ queued (rw (c, f)) e (rw (c, f, is_writing-pushed s.queue d e, handle_send))
    ]
  ]
]

-- The condition under which a completed write ends the session.
abbrev pub is_failed : Bool → ServerSession → Bool
is_failed ec s = ec || s.m_close || s.close_received || s.read_error

abbrev pub fail_writes : ℕ → ServerSession → ServerSession
fail_writes now s = close_session now (record s { write_error = true; queue = [] })

-- A completed write fails, or pops the first message; if there are more, the next is written.
pub data Wrote (ec : Bool) (now : ℕ) (ds : List DataPush) (s : ServerSession)
    (r : Option ServerSession) : Type 0 where
  dropped : is_failed ec s ≡ true → r ≡ some (fail_writes now s) → Wrote ec now ds s r
  last : is_failed ec s ≡ false → ds ≡ [] → r ≡ some (record s { queue = [] }) → Wrote ec now ds s r
  next :
      (x : DataPush) (xs : List DataPush)
      → is_failed ec s ≡ false
      → ds ≡ x ∷ xs
      → r ≡ some (writing x (record s { queue = x ∷ xs }))
      → Wrote ec now ds s r

pub on_write-Wrote :
    (ec : Bool) (now : ℕ) (d : DataPush) (ds : List DataPush) (s : ServerSession)
    → s.queue ≡ d ∷ ds
    → Wrote ec now ds s (on_write ec now s)
unfolding on_write pop_write write
on_write-Wrote ec now d [] s e = elim (Bool-cases (is_failed ec s)) [
  | inl f ↦ dropped f (rw (f, on_write))
  | inr f ↦ last f refl (rw (f, on_write) (ap (λ q. pop_write q s) e))
]
on_write-Wrote ec now d (x ∷ xs) s e = elim (Bool-cases (is_failed ec s)) [
  | inl f ↦ dropped f (rw (f, on_write))
  | inr f ↦ next x xs f refl (rw (f, on_write) (ap (λ q. pop_write q s) e))
]
