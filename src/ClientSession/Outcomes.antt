-- ===== src/ClientSession/Outcomes.antt =====
-- The ways in which `handle_send` and `on_write` can end, so that proofs about them have one case
-- for each.
use radrpc.Header.{packet}
use radrpc.SendQueue
use radrpc.SendQueue.{DataSend, DataQueue, Promise, data_send}
use radrpc.ClientSession.{
  ClientSession, async_write, handle_send, write, on_write, is_closed, start, next_write,
  fail_writes,
}
use radrpc.Prelude.{
  ℕ, ◌+◌, ◌≡◌, ◌≢◌, ◌⊎◌, refl, ap, Bool, true, false, ◌||◌, Option, some, List, [], ◌∷◌, ◌++◌,
  length, length-append, arith, Bool-cases, leb, inl, inr,
}

-- The session with the message `d` at the end of its queue.
abbrev pub pushed : DataSend → ClientSession → ClientSession
pushed d s = record s { queue = record s.queue { entries = s.queue.entries ++ d ∷ [] } }

-- The session that hands `d` to the stream.
abbrev pub writing : DataSend → ClientSession → ClientSession
writing d s = start (async_write (packet d.header d.body)) (record s { writes = s.writes + 1 })

abbrev pub is_full : ClientSession → Bool
is_full s = leb s.queue.max_entries (length s.queue.entries)

-- A message is refused by a closed session and by a full queue; otherwise it is queued, and also
-- written if the queue was empty.
pub data Sent (d : DataSend) (s : ClientSession) (r : Option ClientSession) : Type 0 where
  refused : is_closed s || is_full s ≡ true → r ≡ some s → Sent d s r
  queued :
      is_closed s || is_full s ≡ false → s.queue.entries ≢ [] → r ≡ some (pushed d s) → Sent d s r
  issued :
      is_closed s || is_full s ≡ false
      → s.queue.entries ≡ []
      → r ≡ some (writing d (pushed d s))
      → Sent d s r

is_writing-pushed :
    (es : List DataSend) (d : DataSend) (m : ℕ)
    → es ≢ []
    → SendQueue.is_writing (record { max_entries = m; entries = es ++ d ∷ [] }) ≡ true
unfolding SendQueue.is_writing
is_writing-pushed [] d m h = absurd (h refl)
is_writing-pushed (e ∷ es) d m h = ground (arith, length-append es (d ∷ []))

is_writing-alone :
    (es : List DataSend) (d : DataSend) (m : ℕ)
    → es ≡ []
    → SendQueue.is_writing (record { max_entries = m; entries = es ++ d ∷ [] }) ≡ false
unfolding SendQueue.is_writing
is_writing-alone [] d m h = refl
is_writing-alone (e ∷ es) d m h = cc

front-alone :
    (es : List DataSend) (d : DataSend) (m : ℕ)
    → es ≡ []
    → SendQueue.front (record { max_entries = m; entries = es ++ d ∷ [] }) ≡ some d
unfolding SendQueue.front
front-alone [] d m h = refl
front-alone (e ∷ es) d m h = cc

list_cases : (es : List DataSend) → (es ≡ []) ⊎ (es ≢ [])
list_cases [] = inl refl
list_cases (e ∷ es) = inr (λ p. cc)

pub handle_send-Sent :
    (call_id result_id callback : ℕ) (body : List ℕ) (s : ClientSession)
    → Sent
        (data_send call_id result_id callback body)
        s
        (handle_send call_id result_id callback body s)
unfolding handle_send SendQueue.queue
handle_send-Sent call_id result_id callback body s = elim (Bool-cases (is_closed s)) [
  | inl c ↦ refused (rw c) (rw (c, handle_send))
  | inr c ↦ elim (Bool-cases (is_full s)) [
    | inl f ↦ refused (rw (c, f)) (rw (c, f, handle_send))
    | inr f ↦
        let d = data_send call_id result_id callback body in
        elim (list_cases s.queue.entries) [
          | inl e ↦ issued (rw (c, f)) e (
              rw (c, f, is_writing-alone s.queue.entries d s.queue.max_entries e, handle_send)
                (rw (front-alone s.queue.entries d s.queue.max_entries e, write)))
          | inr e ↦
              queued (rw (c, f)) e
                (rw (c, f, is_writing-pushed s.queue.entries d s.queue.max_entries e, handle_send))
        ]
  ]
]

-- The session with the first message of its queue popped and its sender told.
abbrev pub popped : DataSend → List DataSend → ClientSession → ClientSession
popped d ds s = record s {
  queue = record s.queue { entries = ds };
  promises = SendQueue.set_value d.result_callback true s.promises;
}

-- The condition under which a completed write ends the session.
abbrev pub is_failed : Bool → ClientSession → Bool
is_failed ec s = ec || s.m_close || s.close_received || s.read_error

-- A completed write fails, or pops the message `d`; if there are more, the next is written.
pub data Wrote (ec : Bool) (d : DataSend) (ds : List DataSend) (s : ClientSession)
    (r : Option ClientSession) : Type 0 where
  failed : is_failed ec s ≡ true → r ≡ some (fail_writes s) → Wrote ec d ds s r
  last : is_failed ec s ≡ false → ds ≡ [] → r ≡ some (popped d ds s) → Wrote ec d ds s r
  next :
      (x : DataSend) (xs : List DataSend)
      → is_failed ec s ≡ false
      → ds ≡ x ∷ xs
      → r ≡ some (writing x (popped d ds s))
      → Wrote ec d ds s r

written_next :
    (d : DataSend) (ds : List DataSend) (s : ClientSession)
    → s.queue.entries ≡ d ∷ ds
    → next_write (SendQueue.write_next s.queue s.promises) s
      ≡ next_write (SendQueue.pop_written (d ∷ ds) s.queue s.promises) s
unfolding SendQueue.write_next
written_next d ds s e = ap (λ es. next_write (SendQueue.pop_written es s.queue s.promises) s) e

pub on_write-Wrote :
    (ec : Bool) (d : DataSend) (ds : List DataSend) (s : ClientSession)
    → s.queue.entries ≡ d ∷ ds
    → Wrote ec d ds s (on_write ec s)
unfolding on_write SendQueue.write_next SendQueue.front
on_write-Wrote ec d [] s e = elim (Bool-cases (is_failed ec s)) [
  | inl f ↦ failed f (rw (f, on_write))
  | inr f ↦ last f refl (rw (f, on_write) (written_next d [] s e))
]
on_write-Wrote ec d (x ∷ xs) s e = elim (Bool-cases (is_failed ec s)) [
  | inl f ↦ failed f (rw (f, on_write))
  | inr f ↦ next x xs f refl (rw (f, on_write) (written_next d (x ∷ xs) s e))
]
