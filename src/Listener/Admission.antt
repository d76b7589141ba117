-- ===== src/Listener/Admission.antt =====
-- Which connections become sessions.
use radrpc.Types.{queue_send_max}
use radrpc.Manager.{Manager, is_full, connections, use_count, broadcast, count_alive}
use radrpc.Manager.Counting.{broadcast-connections}
use radrpc.Listener.{rejected, socket, on_accept}
use radrpc.Prelude.{ℕ, ◌+◌, ◌≤◌, ◌<◌, ◌≡◌, ◌≢◌, ap, Bool, true, none, List, Option, arith, length}

-- With as many connections as `max_sessions`, the listener rejects each accepted connection, and
-- accepts the next one.
pub on_accept-full :
    (with_ssl ec : Bool) (on_listen : Option Bool) (m : Manager)
    → m.server_cfg.max_sessions ≤ connections m
    → on_accept with_ssl on_listen m (socket ec) ≡ (rejected, true)
unfolding on_accept is_full
on_accept-full with_ssl ec on_listen m h = ground arith

same_config :
    (call_id : ℕ) (send_bytes : List ℕ) (m : Manager)
    → (broadcast call_id send_bytes none m).server_cfg ≡ m.server_cfg
unfolding broadcast
same_config call_id send_bytes m = ground arith

-- A server with one place left rejects each connection after a broadcast that reaches a session, though
-- no session was added.
pub on_accept-broadcast :
    (with_ssl ec : Bool) (on_listen : Option Bool) (call_id : ℕ) (send_bytes : List ℕ) (m : Manager)
    → m.msg_queued < queue_send_max
    → m.sub_refs ≤ use_count m
    → connections m ≢ 0
    → count_alive m.plain_sessions m.sessions + count_alive m.ssl_sessions m.sessions ≢ 0
    → connections m + 1 ≡ m.server_cfg.max_sessions
    → let m' = broadcast call_id send_bytes none m in
      (on_accept with_ssl on_listen m' (socket ec) ≡ (rejected, true))
      × (length m'.sessions ≡ length m.sessions)
on_accept-broadcast with_ssl ec on_listen call_id send_bytes m room subtracted some' reached left =
    let (more, same) = broadcast-connections call_id send_bytes m room subtracted some' reached in
    let cfg = ap (λ c. c.max_sessions) (same_config call_id send_bytes m) in
    (
      on_accept-full with_ssl ec on_listen (broadcast call_id send_bytes none m)
          (omega (arith, cfg, more, left)),
      same,
    )
