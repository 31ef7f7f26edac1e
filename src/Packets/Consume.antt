-- ===== src/Packets/Consume.antt =====
-- packets/packets.go: every packet that `ReadPacket` returns has taken bytes from the stream.
use paho_mqtt_golang.Base.{
  suc, Bool, if◌then◌else◌, ℕ, ◌+◌, ◌*◌, ◌^◌, ◌%◌, ◌≤◌, ◌<◌, ◌-◌, ◌≡◌, refl, inl, inr, Bytes,
  Option, none, some, [], ◌∷◌, length, length-drop, bit_or, bit_and, arith, true, false, Bool-cases,
  leb, ◌==◌,
}
use paho_mqtt_golang.Packets.Result.{
  Error, Decoded, got, failed, eof, failed_to_read_expected_data, unsupported_packet_type,
}
use paho_mqtt_golang.Packets.Codec.{read_full, decode_length, decode_length_loop}
use paho_mqtt_golang.Packets.Header
use paho_mqtt_golang.Packets.Header.{FixedHeader, split_flags}
use paho_mqtt_golang.Packets.Packet.{ControlPacket, new_control_packet_with_header}
use paho_mqtt_golang.Packets.Unpack.{Outcome, unpacked, stopped, unpack}
use paho_mqtt_golang.Packets.Read.{
  ReadResult, no_packet, packet, read_packet, read_header, read_with_header, read_body,
  head_or_zero,
}

-- What a reader leaves is no longer than `n`.
abbrev Shrinks {ℓ} : {A : Type ℓ} → ℕ → Decoded A → Type 0
Shrinks n (got a rest) = length rest ≤ n
Shrinks n (failed e) = Unit

abbrev Leaves : ℕ → ReadResult → Type 0
Leaves n (packet cp e rest) = length rest ≤ n
Leaves n (no_packet e) = Unit

-- A reader, and what goes on with its value.
Leaves-elim :
    {A : Type 0} (n : ℕ) (d : Decoded A) (f : A → Bytes → ReadResult)
    → Shrinks n d
    → ((a : A) (r : Bytes) → length r ≤ n → Leaves n (f a r))
    → Leaves n (elim d [ got a r ↦ f a r | failed e ↦ no_packet e ])
Leaves-elim n (got a rest) f s k = k a rest s
Leaves-elim n (failed e) f s k = tt

read_full-Shrinks : (n : ℕ) (r : Bytes) → Shrinks (length r - n) (read_full n r)
unfolding read_full
read_full-Shrinks n [] = ground arith
read_full-Shrinks n (b ∷ r) = ground (arith, length-drop n (b ∷ r))

Shrinks-weaker : {A : Type 0} (n m : ℕ) (d : Decoded A) → n ≤ m → Shrinks n d → Shrinks m d
Shrinks-weaker n m (got a rest) le s = omega arith
Shrinks-weaker n m (failed e) le s = tt

decode_length_loop-Shrinks :
    (r : Bytes) (acc k : ℕ) → Shrinks (length r) (decode_length_loop acc k r)
unfolding decode_length_loop
decode_length_loop-Shrinks [] acc k = tt
decode_length_loop-Shrinks (d ∷ r) acc k =
    let more = decode_length_loop-Shrinks r (bit_or acc (bit_and d 127 * 2 ^ k % 2 ^ 32)) (k + 7) in
    elim (Bool-cases (bit_and d 128 == 0)) [
      | inl last ↦ rw last (omega arith)
      | inr goes_on ↦ elim (Bool-cases (leb 27 (k + 7))) [
        | inl long ↦ rw (goes_on, long) tt
        | inr short ↦
            rw (goes_on, short) (Shrinks-weaker (length r) (suc (length r)) _ (omega arith) more)
      ]
    ]

unpack-Shrinks : (b : ℕ) (r : Bytes) → Shrinks (length r) (Header.unpack b r)
unfolding Header.unpack decode_length
unpack-Shrinks b r = go (decode_length_loop 0 0 r) (decode_length_loop-Shrinks r 0 0)
  where
    go :
        (d : Decoded ℕ)
        → Shrinks (length r) d
        → Shrinks (length r) (elim d [ got l r' ↦ got (split_flags b l) r' | failed e ↦ failed e ])
    go (got l r') s = s
    go (failed x) s = tt

-- The packet of a body, where the body has its length.
Leaves-unpacked :
    (n : ℕ) (o : Outcome ControlPacket) (r : Bytes)
    → length r ≤ n
    → Leaves n
        (elim o [ unpacked (cp, x) ↦ packet cp none r | stopped e cp ↦ packet cp (some e) r ])
Leaves-unpacked n (unpacked x) r le = le
Leaves-unpacked n (stopped e cp) r le = le

Leaves-if :
    (n : ℕ) (b : Bool) (x : ReadResult) (e : Error)
    → Leaves n x
    → Leaves n (if b then x else no_packet e)
Leaves-if n true x e l = l
Leaves-if n false x e l = tt

read_body-Leaves :
    (fh : FixedHeader) (cp : ControlPacket) (r : Bytes) → Leaves (length r) (read_body fh cp r)
unfolding read_body
read_body-Leaves fh cp r =
    Leaves-elim (length r) (read_full fh.remaining_length r) _
      (Shrinks-weaker (length r - fh.remaining_length) (length r) _ (omega arith)
        (read_full-Shrinks fh.remaining_length r))
      (λ b r' le.
        Leaves-if (length r) (length b == fh.remaining_length) _ failed_to_read_expected_data
          (Leaves-unpacked (length r) (unpack cp b) r' le))

read_with_header-Leaves : (fh : FixedHeader) (r : Bytes) → Leaves (length r) (read_with_header fh r)
unfolding read_with_header
read_with_header-Leaves fh r = go (new_control_packet_with_header fh)
  where
    go :
        (o : Option ControlPacket)
        → Leaves (length r) (elim o [
          | some cp ↦ read_body fh cp r
          | none ↦ no_packet (unsupported_packet_type fh.message_type)
        ])
    go (some cp) = read_body-Leaves fh cp r
    go none = tt

Leaves-weaker : (n m : ℕ) (x : ReadResult) → n ≤ m → Leaves n x → Leaves m x
Leaves-weaker n m (packet cp e rest) le l = omega arith
Leaves-weaker n m (no_packet e) le l = tt

read_header-Leaves : (b : ℕ) (r : Bytes) → Leaves (length r) (read_header b r)
unfolding read_header
read_header-Leaves b r =
    Leaves-elim (length r) (Header.unpack b r) _ (unpack-Shrinks b r)
      (λ fh r' le. Leaves-weaker (length r') (length r) _ le (read_with_header-Leaves fh r'))

read_packet-Leaves : (r : Bytes) → Leaves (length r - 1) (read_packet r)
unfolding read_packet
read_packet-Leaves r =
    Leaves-elim (length r - 1) (read_full 1 r) _ (read_full-Shrinks 1 r) (λ b r' le.
      Leaves-weaker (length r') (length r - 1) _ le (read_header-Leaves (head_or_zero b) r'))

-- Nothing is read from a stream that has ended.
pub read_packet-nil : read_packet [] ≡ no_packet eof
unfolding read_packet read_full
read_packet-nil = refl

-- Where `ReadPacket` returns a packet, with an error or without, it has taken at least one byte.
pub read_packet_shrinks :
    (r : Bytes) (cp : ControlPacket) (e : Option Error) (rest : Bytes)
    → read_packet r ≡ packet cp e rest
    → length rest < length r
read_packet_shrinks [] cp e rest h = ground (arith, read_packet-nil)
read_packet_shrinks (b ∷ r) cp e rest h =
    let l = read_packet-Leaves (b ∷ r) in
    let left : Leaves (suc (length r) - 1) (packet cp e rest) = rw h at l in omega (arith, left)
