-- ===== src/Operations/OneShot.antt =====
-- A timeout that a thread sets holds for its next call, and only for that one.
use radrpc.Types.{Duration, duration_max, duration_zero}
use radrpc.Operations.{
  Tls, duration_eq, send_timeout, response_timeout, use_send_timeout, use_response_timeout,
}
use radrpc.Prelude.{◌≡◌, false, refl}

-- A send timeout that is neither `duration::max()` nor zero is what the next `send` waits for; the
-- one after waits for the configured value again. The response timeout is not touched.
pub send_timeout-use_send_timeout :
    (timeout configured : Duration) (t : Tls)
    → duration_eq timeout duration_max ≡ false
    → duration_eq timeout duration_zero ≡ false
    → let t1 = (send_timeout timeout t).1 in
      let (first, t2) = use_send_timeout configured t1 in
      let (second, t3) = use_send_timeout configured t2 in
      (first ≡ timeout) × (second ≡ configured) × (t3.tls_response_timeout ≡ t.tls_response_timeout)
unfolding send_timeout use_send_timeout
send_timeout-use_send_timeout timeout configured t m z = rw (m, z) (refl, refl, refl)

-- The same of the response timeout, for `send_recv` and `ping`.
pub response_timeout-use_response_timeout :
    (timeout configured : Duration) (t : Tls)
    → duration_eq timeout duration_max ≡ false
    → duration_eq timeout duration_zero ≡ false
    → let t1 = (response_timeout timeout t).1 in
      let (first, t2) = use_response_timeout configured t1 in
      let (second, t3) = use_response_timeout configured t2 in
      (first ≡ timeout) × (second ≡ configured) × (t3.tls_send_timeout ≡ t.tls_send_timeout)
unfolding response_timeout use_response_timeout
response_timeout-use_response_timeout timeout configured t m z = rw (m, z) (refl, refl, refl)
