-- ===== src/Tests/Wire.antt =====
-- A message on the wire.
use radrpc.Header.{IoHeader, io_header, to_bytes, encode, packet, split_packet}
use radrpc.Header.Codec.{Fits}
use radrpc.Header.Inverse.{split_packet-eq_some}
use radrpc.Prelude.{ℕ, ◌≡◌, refl, some, List, [], ◌∷◌, ◌↔◌, arith}

abbrev request : IoHeader
request = io_header 258 1

request_bytes :
    packet request (7 ∷ []) ≡ 2 ∷ 1 ∷ 0 ∷ 0 ∷ 0 ∷ 0 ∷ 0 ∷ 0 ∷ 1 ∷ 0 ∷ 0 ∷ 0 ∷ 0 ∷ 0 ∷ 0 ∷ 0 ∷ 7 ∷ []
unfolding packet encode to_bytes
request_bytes = refl

-- a frame that no session writes, since the padding is not 0
abbrev odd_header : IoHeader
odd_header = record { call_id = 258; pad0 = 117440512; result_id = 1 }

abbrev odd_bytes : List ℕ
odd_bytes = 2 ∷ 1 ∷ 0 ∷ 0 ∷ 0 ∷ 0 ∷ 0 ∷ 7 ∷ 1 ∷ 0 ∷ 0 ∷ 0 ∷ 0 ∷ 0 ∷ 0 ∷ 0 ∷ 9 ∷ []

split_packet-eq_some_example :
    (split_packet odd_bytes ≡ some (odd_header, 9 ∷ []))
    ↔ (Fits odd_header × (packet odd_header (9 ∷ []) ≡ odd_bytes))
split_packet-eq_some_example = split_packet-eq_some odd_bytes odd_header (9 ∷ []) (omega arith)
