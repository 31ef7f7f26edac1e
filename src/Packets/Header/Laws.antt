-- ===== src/Packets/Header/Laws.antt =====
-- `pack` and `unpack` of a fixed header, one after the other.
use paho_mqtt_golang.Base.{
  ℕ, ◌+◌, ◌≤◌, ◌<◌, ◌≡◌, refl, ◌∷◌, ◌++◌, Bytes, length, All, IsByte, arith,
}
use paho_mqtt_golang.Packets.Result.{
  Result, ok, err, panic, got, failed, Decoded, invalid_packet_length,
}
use paho_mqtt_golang.Packets.Codec.{encode_length, decode_length}
use paho_mqtt_golang.Packets.Codec.Length.{
  encode_length_bound, encode_length_total, encode_length_refuses, decode_length-encode_length,
  decode_length_takes,
}
use paho_mqtt_golang.Packets.Header.{FixedHeader, type_and_flags, pack, split_flags, unpack}
use paho_mqtt_golang.Packets.Header.Bits.{
  split_flags-type_and_flags, type_and_flags-split_flags, split_flags_ranges,
}

-- The fields that have a place on the wire fit it.
pub record IsHeader (fh : FixedHeader) : Type 0 where
  pub four_bits : fh.message_type < 16
  pub two_bits : fh.qos < 4
  pub sendable : fh.remaining_length ≤ 268435455

pub pack_sendable :
    (fh : FixedHeader)
    → fh.remaining_length ≤ 268435455
    → (header : Bytes) × (pack fh ≡ ok header) × (2 ≤ length header) × (length header ≤ 5)
unfolding pack
pack_sendable fh h =
    let (l, e, lo, hi) = encode_length_total fh.remaining_length h in
    (
      type_and_flags fh.message_type fh.dup fh.qos fh.retain ∷ l,
      rw (e, pack),
      omega (arith, lo),
      omega (arith, hi),
    )

-- What `pack` writes: the first byte and the encoded length, two to five bytes.
pub pack_shape :
    (fh : FixedHeader)
    → IsHeader fh
    → (l : Bytes) × (pack fh ≡ ok (type_and_flags fh.message_type fh.dup fh.qos fh.retain ∷ l))
      × (encode_length fh.remaining_length ≡ ok l)
      × (1 ≤ length l)
      × (length l ≤ 4)
unfolding pack
pack_shape fh h =
    let (l, e, lo, hi) = encode_length_total fh.remaining_length h.sendable in
    (l, rw (e, pack), e, lo, hi)

pack_inv :
    (fh : FixedHeader) (first : ℕ) (l : Bytes)
    → pack fh ≡ ok (first ∷ l)
    → (first ≡ type_and_flags fh.message_type fh.dup fh.qos fh.retain)
      × (encode_length fh.remaining_length ≡ ok l)
unfolding pack
pack_inv fh first l e = ground arith

-- Where `pack` succeeds, it wrote a first byte, and the length is one that can be sent.
pub pack_ok :
    (fh : FixedHeader) (header : Bytes)
    → pack fh ≡ ok header
    → (l : Bytes) × (header ≡ type_and_flags fh.message_type fh.dup fh.qos fh.retain ∷ l)
      × (fh.remaining_length ≤ 268435455)
pack_ok fh header e = go (encode_length fh.remaining_length) refl
  where
    go :
        (r : Result Bytes)
        → encode_length fh.remaining_length ≡ r
        → (l : Bytes) × (header ≡ type_and_flags fh.message_type fh.dup fh.qos fh.retain ∷ l)
          × (fh.remaining_length ≤ 268435455)
    go (ok l) h = (l, unfold pack in ground arith, omega (arith, encode_length_bound _ l h))
    go (err x) h = unfold pack in ground arith
    go panic h = unfold pack in ground arith

-- `unpack` on the bytes that `pack` wrote gives the header back, and leaves what follows.
pub unpack-pack :
    (fh : FixedHeader) (first : ℕ) (l rest : Bytes)
    → IsHeader fh
    → pack fh ≡ ok (first ∷ l)
    → unpack first (l ++ rest) ≡ got fh rest
unfolding unpack
unpack-pack fh first l rest h e = ground (
  arith,
  pack_inv fh first l e,
  decode_length-encode_length fh.remaining_length l rest (pack_inv fh first l e).1,
  split_flags-type_and_flags fh.message_type fh.qos fh.remaining_length fh.dup fh.retain h.four_bits
      h.two_bits,
)

-- A header with a length that the protocol does not allow is refused.
pub pack_refuses :
    (fh : FixedHeader) → 268435455 < fh.remaining_length → pack fh ≡ err invalid_packet_length
unfolding pack
pack_refuses fh h = rw (encode_length_refuses fh.remaining_length h, pack)

unpack_inv :
    (first : ℕ) (r rest : Bytes) (fh : FixedHeader)
    → unpack first r ≡ got fh rest
    → (l : ℕ) × (decode_length r ≡ got l rest) × (fh ≡ split_flags first l)
unfolding unpack
unpack_inv first r rest fh e = go (decode_length r) refl e
  where
    go :
        (d : Decoded ℕ)
        → decode_length r ≡ d
        → (elim d [ got a r' ↦ got (split_flags first a) r' | failed x ↦ failed x ]) ≡ got fh rest
        → (l : ℕ) × (decode_length r ≡ got l rest) × (fh ≡ split_flags first l)
    go (got a r') h e = (a, cc, cc)
    go (failed x) h e = cc

-- Whatever is read as a header can be written again: its fields fit, and its first byte is kept.
pub pack-unpack :
    (first : ℕ) (r rest : Bytes) (fh : FixedHeader)
    → first < 256
    → All IsByte r
    → unpack first r ≡ got fh rest
    → IsHeader fh
      × (type_and_flags fh.message_type fh.dup fh.qos fh.retain ≡ first)
      × (length rest < length r)
      × (length r ≤ length rest + 4)
unfolding split_flags
pack-unpack first r rest fh hb bytes e =
    let (l, h, at) = unpack_inv first r rest fh e in
    let (small, shorter, near) = decode_length_takes r l rest bytes h in
    let (four, two) = split_flags_ranges first l hb in
    rw at (
      record { four_bits = four; two_bits = two; sendable = small },
      type_and_flags-split_flags first l hb,
      shorter,
      near,
    )
