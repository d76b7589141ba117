-- ===== src/Types.antt =====
-- include/radrpc/config.hpp and include/radrpc/types.hpp: limits, states, flags, configurations.
-- A duration is the count of the nanoseconds of `std::chrono::steady_clock`, a signed 64-bit number.
use Prim.Native.Nat.{bit_or, bit_and}
use radrpc.Prelude.{ℕ, ◌-◌, ◌^◌, ◌%◌, ℤ, pos, Bool, not, ◌==◌}

abbrev pub Duration : Type 0
Duration = ℤ

-- `std::numeric_limits<int64_t>::max()` nanoseconds
abbrev pub duration_max : Duration
duration_max = pos (2 ^ 63 - 1)

abbrev pub duration_zero : Duration
duration_zero = pos 0

abbrev pub ns_per_ms : ℕ
ns_per_ms = 1_000_000

abbrev pub deadlock_secs : ℕ
deadlock_secs = 30

abbrev pub io_timeout_secs : ℕ
io_timeout_secs = 5

abbrev pub queue_send_max : ℕ
queue_send_max = 500

abbrev pub queue_recv_max : ℕ
queue_recv_max = 500

-- `sizeof(detail::io_header)`, the packed struct of detail/data.hpp
abbrev pub header_size : ℕ
header_size = 16

pub data ConnectionState : Type 0 where
  unconnected accept resolve connect ssl_handshake read_handshake handshake established :
      ConnectionState

-- The flags of `enum class server_mode : unsigned char`, by their bits.
abbrev pub ServerMode : Type 0
ServerMode = ℕ

abbrev pub plain_mode : ServerMode
plain_mode = 1

abbrev pub ssl_mode : ServerMode
ssl_mode = 2

unfoldable pub mode_or : ServerMode → ServerMode → ServerMode
mode_or lhs rhs = bit_or lhs rhs % 256

unfoldable pub mode_and : ServerMode → ServerMode → Bool
mode_and lhs rhs = not (bit_and lhs rhs == 0)

pub record ClientConfig : Type 0 where
  pub max_read_bytes : ℕ
  pub send_attempts : ℕ
  pub send_attempt_delay : Duration

pub record ClientTimeout : Type 0 where
  pub handshake_timeout : Duration
  pub send_timeout : Duration
  pub response_timeout : Duration

-- `client_timeout()`
abbrev pub default_client_timeout : ClientTimeout
default_client_timeout = record {
  handshake_timeout = duration_max;
  send_timeout = duration_max;
  response_timeout = duration_max;
}

pub record ServerConfig : Type 0 where
  pub workers : ℕ
  pub max_sessions : ℕ
  pub max_handshake_bytes : ℕ
  pub mode : ServerMode

pub record SessionConfig : Type 0 where
  pub max_transfer_bytes : ℕ
  pub ping_delay : Duration
