-- ===== src/Header.antt =====
-- `io_header` of include/radrpc/detail/data.hpp, and how sessions lay it on the wire and read it
-- back: a packed struct of 16 bytes before the body. The hosts are little-endian, as on x86.
pub mod Codec
pub mod Inverse
use radrpc.Types.{header_size}
use radrpc.Prelude.{
  ℕ, zero, suc, ◌+◌, ◌*◌, ◌/◌, ◌%◌, Option, none, some, List, [], ◌∷◌, ◌++◌, leb, length, take,
  drop, if◌then◌else◌,
}

pub record IoHeader : Type 0 where
  pub call_id : ℕ  -- uint32_t
  pub pad0 : ℕ  -- uint32_t
  pub result_id : ℕ  -- uint64_t

-- the constructor `io_header(p_call_id, p_result_id)`
abbrev pub io_header : ℕ → ℕ → IoHeader
io_header call_id result_id = record { call_id = call_id; pad0 = 0; result_id = result_id }

-- the bytes of a number of `width` bytes, the lowest first
unfoldable pub to_bytes : ℕ → ℕ → List ℕ
to_bytes zero n = []
to_bytes (suc width) n = (n % 256) ∷ to_bytes width (n / 256)

unfoldable pub of_bytes : List ℕ → ℕ
of_bytes [] = 0
of_bytes (b ∷ bs) = b + 256 * of_bytes bs

-- `buffer(reinterpret_cast<char *>(&header), sizeof(io_header))`
unfoldable pub encode : IoHeader → List ℕ
encode h = to_bytes 4 h.call_id ++ to_bytes 4 h.pad0 ++ to_bytes 8 h.result_id

-- The two buffers of an `async_write`: the header, then the body.
unfoldable pub packet : IoHeader → List ℕ → List ℕ
packet h body = encode h ++ body

-- `*reinterpret_cast<const io_header *>(data)`
unfoldable pub decode : List ℕ → IoHeader
decode bytes = record {
  call_id = of_bytes (take 4 bytes);
  pad0 = of_bytes (take 4 (drop 4 bytes));
  result_id = of_bytes (take 8 (drop 8 bytes));
}

-- The read handlers' test of the size, the header, and `consume(sizeof(io_header))`.
unfoldable pub split_packet : List ℕ → Option (IoHeader × List ℕ)
split_packet bytes =
    if leb header_size (length bytes) then some (decode bytes, drop header_size bytes) else none
