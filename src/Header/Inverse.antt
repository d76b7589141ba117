-- ===== src/Header/Inverse.antt =====
-- `io_header` of include/radrpc/detail/data.hpp the other way round: from the bytes of a frame to the
-- message that they are the packet of.
use radrpc.Header.{IoHeader, to_bytes, of_bytes, encode, packet, decode, split_packet}
use radrpc.Header.Codec.{Fits, split_packet-packet}
use mathlib.Core.List.{append_assoc}
use native.Mathlib.Nat.{pow-suc}
use radrpc.Prelude.{
  ℕ, zero, suc, ◌+◌, ◌*◌, ◌/◌, ◌%◌, ◌^◌, ◌<◌, ◌≤◌, ◌≡◌, refl, ap, sym, ◌∙◌, some, List, [], ◌∷◌,
  length, take, drop, All, length-take, All-take, length-drop, All-drop, take-append-drop,
  drop-drop, ◌↔◌, arith,
}

-- a byte
abbrev pub IsByte : ℕ → Type 0
IsByte b = b < 256

of_bytes-fits : (w : ℕ) (bs : List ℕ) → length bs ≡ w → All IsByte bs → of_bytes bs < 256 ^ w
unfolding of_bytes
of_bytes-fits zero [] e a = omega arith
of_bytes-fits zero (b ∷ bs) e a = omega (arith, e)
of_bytes-fits (suc w) [] e a = omega (arith, e)
of_bytes-fits (suc w) (b ∷ bs) e a =
    rw (pow-suc) (omega (arith, of_bytes-fits w bs (omega (arith, e)) a.1, a.0))

to_bytes-of_bytes :
    (w : ℕ) (bs : List ℕ) → length bs ≡ w → All IsByte bs → to_bytes w (of_bytes bs) ≡ bs
unfolding to_bytes of_bytes
to_bytes-of_bytes zero [] e a = refl
to_bytes-of_bytes zero (b ∷ bs) e a = absurd (omega (arith, e))
to_bytes-of_bytes (suc w) [] e a = absurd (omega (arith, e))
to_bytes-of_bytes (suc w) (b ∷ bs) e a =
    let low : (b + 256 * of_bytes bs) % 256 ≡ b = omega (arith, a.0) in
    let high : (b + 256 * of_bytes bs) / 256 ≡ of_bytes bs = omega (arith, a.0) in
    let rest : to_bytes w (of_bytes bs) ≡ bs = to_bytes-of_bytes w bs (omega (arith, e)) a.1 in
    cc (low, high, rest)

-- The `width` bytes of a number, read and written again.
to_bytes-take :
    (width : ℕ) (bytes : List ℕ)
    → width ≤ length bytes
    → All IsByte bytes
    → to_bytes width (of_bytes (take width bytes)) ≡ take width bytes
to_bytes-take width bytes h a =
    to_bytes-of_bytes width (take width bytes) (length-take width bytes h)
      (All-take IsByte width bytes a)

of_bytes-take-fits :
    (width : ℕ) (bytes : List ℕ)
    → width ≤ length bytes
    → All IsByte bytes
    → of_bytes (take width bytes) < 256 ^ width
of_bytes-take-fits width bytes h a =
    of_bytes-fits width (take width bytes) (length-take width bytes h)
      (All-take IsByte width bytes a)

module _ (bytes : List ℕ) (long : 16 ≤ length bytes) (a : All IsByte bytes) where
  rest : (n : ℕ) → n ≤ 8 → 8 ≤ length (drop n bytes)
  rest n h = omega (arith, length-drop n bytes (omega (arith, long, h)), long, h)

  decode-Fits : Fits (decode bytes)
  unfolding decode
  decode-Fits = record {
    call_id_fits = of_bytes-take-fits 4 bytes (omega (arith, long)) a;
    pad0_fits =
        of_bytes-take-fits 4 (drop 4 bytes) (omega (arith, rest 4 (omega arith)))
          (All-drop IsByte 4 bytes a);
    result_id_fits =
        of_bytes-take-fits 8 (drop 8 bytes) (omega (arith, rest 8 (omega arith)))
          (All-drop IsByte 8 bytes a);
  }

  packet-decode : packet (decode bytes) (drop 16 bytes) ≡ bytes
  unfolding packet encode decode
  packet-decode =
      simp
        (
          to_bytes-take 4 bytes (omega (arith, long)) a,
          to_bytes-take 4 (drop 4 bytes) (omega (arith, rest 4 (omega arith)))
              (All-drop IsByte 4 bytes a),
          to_bytes-take 8 (drop 8 bytes) (rest 8 (omega arith)) (All-drop IsByte 8 bytes a),
          append_assoc,
        )
        (cc (
          take-append-drop 4 bytes,
          take-append-drop 4 (drop 4 bytes),
          take-append-drop 8 (drop 8 bytes),
          drop-drop 4 4 8 bytes (omega arith),
          drop-drop 8 8 16 bytes (omega arith),
        ))

split_packet-parts :
    (bytes : List ℕ) (h : IoHeader) (body : List ℕ)
    → split_packet bytes ≡ some (h, body)
    → (16 ≤ length bytes) × (decode bytes ≡ h) × (drop 16 bytes ≡ body)
unfolding split_packet
split_packet-parts bytes h body e = ground (arith, e)

accepted :
    (bytes : List ℕ) (h : IoHeader) (body : List ℕ)
    → All IsByte bytes
    → split_packet bytes ≡ some (h, body)
    → Fits h × (packet h body ≡ bytes)
accepted bytes h body a e =
    let (long, header, rest_is) = split_packet-parts bytes h body e in
    rw (sym header, sym rest_is) (decode-Fits bytes long a, packet-decode bytes long a)

-- A frame whose elements are bytes is read as a header and a body exactly if the fields of the header
-- are in range and the frame is the packet of that header and that body.
pub split_packet-eq_some :
    (bytes : List ℕ) (h : IoHeader) (body : List ℕ)
    → All IsByte bytes
    → (split_packet bytes ≡ some (h, body)) ↔ (Fits h × (packet h body ≡ bytes))
split_packet-eq_some bytes h body a =
    (accepted bytes h body a, λ (f, e). ap split_packet (sym e) ∙ split_packet-packet h body f)
