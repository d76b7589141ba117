-- ===== src/Operations.antt =====
-- The thread-local timeouts of include/radrpc/detail/operations.hpp. Each thread has its own `Tls`;
-- both values start as zero.
pub mod OneShot
use radrpc.Types.{Duration, duration_max, duration_zero}
use radrpc.Prelude.{pos, negsuc, Bool, false, ◌==◌, if◌then◌else◌}

pub record Tls : Type 0 where
  pub tls_send_timeout : Duration
  pub tls_response_timeout : Duration

abbrev pub fresh_tls : Tls
fresh_tls = record { tls_send_timeout = duration_zero; tls_response_timeout = duration_zero }

abbrev pub duration_eq : Duration → Duration → Bool
duration_eq (pos m) (pos n) = m == n
duration_eq (negsuc m) (negsuc n) = m == n
duration_eq _ _ = false

-- `send_timeout(timeout)`: the default argument `duration::max()` reads, any other value writes.
unfoldable pub send_timeout : Duration → Tls → Duration × Tls
send_timeout timeout t =
    if duration_eq timeout duration_max
    then (t.tls_send_timeout, t)
    else (duration_zero, record t { tls_send_timeout = timeout })

-- `response_timeout(timeout)`, in the same way
unfoldable pub response_timeout : Duration → Tls → Duration × Tls
response_timeout timeout t =
    if duration_eq timeout duration_max
    then (t.tls_response_timeout, t)
    else (duration_zero, record t { tls_response_timeout = timeout })

-- What `ping`, `send` and `send_recv` do with it: the thread's value, or the configured one if that
-- is zero. The value is used once: it is zero afterwards.
unfoldable pub use_send_timeout : Duration → Tls → Duration × Tls
unfolding send_timeout
use_send_timeout configured t =
    let own = (send_timeout duration_max t).0 in
    (if duration_eq own duration_zero then configured else own, (send_timeout duration_zero t).1)

unfoldable pub use_response_timeout : Duration → Tls → Duration × Tls
unfolding response_timeout
use_response_timeout configured t =
    let own = (response_timeout duration_max t).0 in
    (
      if duration_eq own duration_zero then configured else own,
      (response_timeout duration_zero t).1,
    )
