-- ===== src/Packets/RoundTrip/Frame.antt =====
-- A header and a body of its length, as `ReadPacket` meets them.
use paho_mqtt_golang.Base.{
  ℕ, ◌≤◌, ◌<◌, ◌≡◌, refl, ap, [], ◌∷◌, ◌++◌, append_assoc, Bytes, none, some, length,
  take-length_append, drop-length_append, length-append, arith,
}
use paho_mqtt_golang.Packets.Result.{Result, ok, err, panic, got}
use paho_mqtt_golang.Packets.Codec.{read_full}
use paho_mqtt_golang.Packets.Header.{FixedHeader, pack, type_and_flags, followed_by}
use paho_mqtt_golang.Packets.Header.Laws.{IsHeader, pack_ok, unpack-pack}
use paho_mqtt_golang.Packets.Packet.{ControlPacket, new_control_packet_with_header}
use paho_mqtt_golang.Packets.Unpack.{unpacked, unpack}
use paho_mqtt_golang.Packets.Read.{packet, read_packet}

pub read_full-append : (xs r : Bytes) → read_full (length xs) (xs ++ r) ≡ got xs r
unfolding read_full
read_full-append xs r =
    ground (arith, length-append xs r, take-length_append xs r, drop-length_append xs r)

-- A frame is read as the packet that its body unpacks to.
pub read_packet-frame :
    (fh : FixedHeader) (cp cp' : ControlPacket) (first : ℕ) (l body left rest : Bytes)
    → IsHeader fh
    → pack fh ≡ ok (first ∷ l)
    → length body ≡ fh.remaining_length
    → new_control_packet_with_header fh ≡ some cp
    → unpack cp body ≡ unpacked (cp', left)
    → read_packet ((first ∷ l) ++ (body ++ rest)) ≡ packet cp' none rest
unfolding read_packet
read_packet-frame fh cp cp' first l body left rest h packed size new un = ground (
  arith,
  read_full-append (first ∷ []) (l ++ (body ++ rest)),
  unpack-pack fh first l (body ++ rest) h packed,
  read_full-append body rest,
)

-- What a successful `Write` handed to the writer: a packed header and the body.
written_inv :
    (fh : FixedHeader) (body bytes : Bytes)
    → followed_by (pack fh) body ≡ ok bytes
    → (first : ℕ) × (l : Bytes) × (pack fh ≡ ok (first ∷ l))
      × (bytes ≡ (first ∷ l) ++ body)
      × (fh.remaining_length ≤ 268435455)
written_inv fh body bytes e = go (pack fh) refl e
  where
    go :
        (r : Result Bytes)
        → pack fh ≡ r
        → followed_by r body ≡ ok bytes
        → (first : ℕ) × (l : Bytes) × (pack fh ≡ ok (first ∷ l))
          × (bytes ≡ (first ∷ l) ++ body)
          × (fh.remaining_length ≤ 268435455)
    go (ok header) h e =
        let (l, shape, small) = pack_ok fh header h in
        (
          type_and_flags fh.message_type fh.dup fh.qos fh.retain,
          l,
          cc (h, shape),
          cc (e, ap (λ x. x ++ body) shape),
          small,
        )
    go (err x) h e = cc
    go panic h e = cc

-- A written frame is read as the packet that its body unpacks to.
pub read_packet-written :
    (fh : FixedHeader) (cp cp' : ControlPacket) (body bytes left rest : Bytes)
    → fh.message_type < 16
    → fh.qos < 4
    → followed_by (pack fh) body ≡ ok bytes
    → length body ≡ fh.remaining_length
    → new_control_packet_with_header fh ≡ some cp
    → unpack cp body ≡ unpacked (cp', left)
    → read_packet (bytes ++ rest) ≡ packet cp' none rest
read_packet-written fh cp cp' body bytes left rest ht hq e size new un =
    let (first, l, packed, shape, small) = written_inv fh body bytes e in
    rw (shape, append_assoc (first ∷ l) body rest)
      (read_packet-frame fh cp cp' first l body left rest
        (record { four_bits = ht; two_bits = hq; sendable = small }) packed size new un)
