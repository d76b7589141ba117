-- ===== src/ClientSession/Responses.antt =====
-- Where a received message goes: to a broadcast handler or to the table of responses.

use radrpc.Header.{IoHeader, packet, split_packet}
use radrpc.Header.Codec.{Fits, split_packet-packet}
use radrpc.Cache
use radrpc.ClientSession.{ClientSession, async_read, calls, on_read, dispatch, read, finish_read}
use radrpc.ClientSession.Calls.{double}
use radrpc.Prelude.{
  ℕ, ◌^◌, ◌≤◌, ◌<◌, ◌≡◌, refl, ap, ◌∙◌, pos, true, false, none, some, List, [], ◌∷◌, ◌++◌, lookup,
  arith,
}

module _ (now : ℕ) (h : IoHeader) (body : List ℕ) (s : ClientSession) (fits : Fits h)
    (message : s.read_buffer ≡ packet h body) (open' : s.close_received ≡ false) where
  parsed : split_packet s.read_buffer ≡ some (h, body)
  parsed = ap split_packet message ∙ split_packet-packet h body fits

  -- A message whose call id has no broadcast handler is given to the table of responses under its
  -- result id. Then old rows are removed, the buffer is emptied and the next read is started.
  pub on_read-response :
      lookup h.call_id s.bound_funcs ≡ none
      → let t = on_read false now s in
        (t.cache ≡ Cache.remove_obsolete now (Cache.swap_notify h.result_id body s.cache).1)
        × (t.started ≡ s.started ++ async_read ∷ [])
        × (t.read_buffer ≡ [])
  unfolding on_read dispatch read finish_read
  on_read-response unbound = rw (open', on_read) (rw (parsed, unbound, dispatch) (refl, refl, refl))

  -- A message whose call id has a broadcast handler goes to that handler alone, also if it is the
  -- response to a request: the table of responses only loses its old rows.
  pub on_read-broadcast :
      lookup h.call_id s.bound_funcs ≡ some true
      → let t = on_read false now s in
        (t.cache ≡ Cache.remove_obsolete now s.cache)
        × (t.started ≡ (s.started ++ calls h.call_id body ∷ []) ++ async_read ∷ [])
        × (t.read_buffer ≡ [])
  unfolding on_read dispatch read finish_read
  on_read-broadcast bound = rw (open', on_read) (rw (parsed, bound, dispatch) (refl, refl, refl))

-- A response timeout of 2 ^ 62 nanoseconds or more, as the default `duration::max()`, overflows when
-- `send_recv` doubles it: the row that it queues is never valid, so that the next
-- `remove_obsolete` removes it.
pub double-never_valid :
    (n now t : ℕ)
    → 2 ^ 62 ≤ n
    → n < 2 ^ 63
    → Cache.is_valid t (Cache.data_read now (double (pos n))) ≡ false
unfolding double
double-never_valid n now t lo hi = ground arith
