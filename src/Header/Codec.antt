-- ===== src/Header/Codec.antt =====
-- What is written of a header and a body is read back as them.
use radrpc.Types.{header_size}
use native.Mathlib.Nat.{pow-suc}
use radrpc.Header.{IoHeader, to_bytes, of_bytes, encode, packet, decode, split_packet}
use radrpc.Prelude.{
  ℕ, zero, suc, ◌*◌, ◌/◌, ◌^◌, ◌<◌, ◌≡◌, refl, ap, none, some, List, length, ◌↔◌, arith,
}

length-to_bytes : (w n : ℕ) → length (to_bytes w n) ≡ w
unfolding to_bytes
length-to_bytes zero n = refl
length-to_bytes (suc w) n = ap suc (length-to_bytes w _)

of_bytes-to_bytes : (w n : ℕ) → n < 256 ^ w → of_bytes (to_bytes w n) ≡ n
unfolding to_bytes of_bytes
of_bytes-to_bytes zero n h = omega arith
of_bytes-to_bytes (suc w) n h =
    let h' : n < 256 ^ w * 256 = rw (pow-suc) at h in
    omega (arith, of_bytes-to_bytes w (n / 256) (omega arith))

-- The fields are in the range of their C++ types.
pub record Fits (h : IoHeader) : Type 0 where
  pub call_id_fits : h.call_id < 2 ^ 32
  pub pad0_fits : h.pad0 < 2 ^ 32
  pub result_id_fits : h.result_id < 2 ^ 64

decode-packet : (h : IoHeader) (body : List ℕ) → Fits h → decode (packet h body) ≡ h
unfolding packet encode decode to_bytes
decode-packet h body f = λ i. record {
  call_id = of_bytes-to_bytes 4 h.call_id f.call_id_fits i;
  pad0 = of_bytes-to_bytes 4 h.pad0 f.pad0_fits i;
  result_id = of_bytes-to_bytes 8 h.result_id f.result_id_fits i;
}

-- A message is read back as the header and the body that it was written from, for every header
-- whose fields are in range.
pub split_packet-packet :
    (h : IoHeader) (body : List ℕ) → Fits h → split_packet (packet h body) ≡ some (h, body)
unfolding split_packet packet encode to_bytes
split_packet-packet h body f = rw (decode-packet h body f) (ground arith)

-- A frame is refused exactly if it is shorter than a header.
pub split_packet-eq_none :
    (bytes : List ℕ) → (split_packet bytes ≡ none) ↔ (length bytes < header_size)
unfolding split_packet
split_packet-eq_none bytes = ground arith
