-- ===== src/Packets/Typed.antt =====
-- packets/packets.go: the Go type of a packet that `ReadPacket` returns is the one that its header names.
mod Steps
mod Topics
mod Bodies
use paho_mqtt_golang.Base.{
  ℕ, zero, ◌-◌, ◌≡◌, refl, sym, inl, inr, Bytes, Bool, true, false, Bool-cases, Option, none, some,
  if◌then◌else◌, ◌==◌, length, arith, ap, ◌∙◌,
}
use paho_mqtt_golang.Packets.Result.{
  Error, Decoded, got, failed, unsupported_packet_type, failed_to_read_expected_data,
}
use paho_mqtt_golang.Packets.Codec.{read, read_full}
use paho_mqtt_golang.Packets.Header
use paho_mqtt_golang.Packets.Header.{FixedHeader}
use paho_mqtt_golang.Packets.Packet.{
  ControlPacket, connect, new_control_packet_with_header, packet_type, header_of, empty_connect,
}
use paho_mqtt_golang.Packets.Unpack.{Outcome, unpacked, stopped, ◌>>=◌, unpack}
use paho_mqtt_golang.Packets.Read.{
  ReadResult, no_packet, packet, read_packet, read_header, read_with_header, read_body,
  head_or_zero,
}
use Bodies.{IsOf, unpack-Keeps}
use paho_mqtt_golang.Packets.Typed.Steps.{Keeps}

abbrev Tagged : FixedHeader → Option ControlPacket → Type 0
Tagged fh none = Unit
Tagged fh (some cp) = IsOf fh fh.message_type cp

-- One test of the type number.
Tagged-if :
    (fh : FixedHeader) (k : ℕ) (cp : ControlPacket) (more : Option ControlPacket)
    → IsOf fh k cp
    → Tagged fh more
    → Tagged fh (if fh.message_type == k then some cp else more)
Tagged-if fh k cp more (typed, headed) rest = elim (Bool-cases (fh.message_type == k)) [
  | inl same ↦
      let eq : fh.message_type ≡ k = ground (arith, same) in rw same (typed ∙ sym eq, headed)
  | inr other ↦ rw other rest
]

new_control_packet-Tagged : (fh : FixedHeader) → Tagged fh (new_control_packet_with_header fh)
unfolding new_control_packet_with_header packet_type header_of empty_connect
new_control_packet-Tagged fh =
    Tagged-if fh 1 _ _ (refl, refl)
      (Tagged-if fh 2 _ _ (refl, refl)
        (Tagged-if fh 14 _ _ (refl, refl)
          (Tagged-if fh 3 _ _ (refl, refl)
            (Tagged-if fh 4 _ _ (refl, refl)
              (Tagged-if fh 5 _ _ (refl, refl)
                (Tagged-if fh 6 _ _ (refl, refl)
                  (Tagged-if fh 7 _ _ (refl, refl)
                    (Tagged-if fh 8 _ _ (refl, refl)
                      (Tagged-if fh 9 _ _ (refl, refl)
                        (Tagged-if fh 10 _ _ (refl, refl)
                          (Tagged-if fh 11 _ _ (refl, refl)
                            (Tagged-if fh 12 _ _ (refl, refl)
                              (Tagged-if fh 13 _ _ (refl, refl) (tt))))))))))))))

abbrev IsTyped : ReadResult → Type 0
IsTyped (no_packet e) = Unit
IsTyped (packet cp e rest) = packet_type cp ≡ (header_of cp).message_type

IsTyped-unpacked :
    (fh : FixedHeader) (o : Outcome ControlPacket) (r : Bytes)
    → Keeps (IsOf fh fh.message_type) o
    → IsTyped (elim o [ unpacked (cp, x) ↦ packet cp none r | stopped e cp ↦ packet cp (some e) r ])
IsTyped-unpacked fh (unpacked x) r (typed, headed) = typed ∙ ap (λ h. h.message_type) (sym headed)
IsTyped-unpacked fh (stopped e cp) r (typed, headed) = typed ∙ ap (λ h. h.message_type) (sym headed)

read_body-IsTyped :
    (fh : FixedHeader) (cp : ControlPacket) (r : Bytes)
    → IsOf fh fh.message_type cp
    → IsTyped (read_body fh cp r)
unfolding read_body
read_body-IsTyped fh cp r (typed, headed) = go (read_full fh.remaining_length r)
  where
    sized :
        (b : Bool) (x : ReadResult)
        → IsTyped x
        → IsTyped (if b then x else no_packet failed_to_read_expected_data)
    sized true x t = t
    sized false x t = tt

    go :
        (d : Decoded Bytes)
        → IsTyped (elim d [
          | got b r' ↦
              if length b == fh.remaining_length
              then (elim (unpack cp b) [
                | unpacked (cp', x) ↦ packet cp' none r'
                | stopped e cp' ↦ packet cp' (some e) r'
              ])
              else no_packet failed_to_read_expected_data
          | failed e ↦ no_packet e
        ])
    go (got b r') =
        let kept = unpack-Keeps fh cp b headed in
        sized (length b == fh.remaining_length) _
          (IsTyped-unpacked fh (unpack cp b) r' (rw typed at kept))
    go (failed e) = tt

read_with_header-IsTyped : (fh : FixedHeader) (r : Bytes) → IsTyped (read_with_header fh r)
unfolding read_with_header
read_with_header-IsTyped fh r =
    go (new_control_packet_with_header fh) (new_control_packet-Tagged fh)
  where
    go :
        (o : Option ControlPacket)
        → Tagged fh o
        → IsTyped (elim o [
          | some cp ↦ read_body fh cp r
          | none ↦ no_packet (unsupported_packet_type fh.message_type)
        ])
    go (some cp) t = read_body-IsTyped fh cp r t
    go none t = tt

read_header-IsTyped : (b : ℕ) (r : Bytes) → IsTyped (read_header b r)
unfolding read_header
read_header-IsTyped b r = go (Header.unpack b r)
  where
    go :
        (d : Decoded FixedHeader)
        → IsTyped (elim d [ got fh r' ↦ read_with_header fh r' | failed e ↦ no_packet e ])
    go (got fh r') = read_with_header-IsTyped fh r'
    go (failed e) = tt

read_packet-IsTyped : (r : Bytes) → IsTyped (read_packet r)
unfolding read_packet
read_packet-IsTyped r = go (read_full 1 r)
  where
    go :
        (d : Decoded Bytes)
        → IsTyped (elim d [ got b r' ↦ read_header (head_or_zero b) r' | failed e ↦ no_packet e ])
    go (got b r') = read_header-IsTyped (head_or_zero b) r'
    go (failed e) = tt

-- Whatever the bytes: a packet that `ReadPacket` returns, with an error or without, has the Go type
-- that the type number of its own header names, so that the type switches of the program and a test
-- of the header agree.
pub read_packet_typed :
    (r : Bytes) (cp : ControlPacket) (e : Option Error) (rest : Bytes)
    → read_packet r ≡ packet cp e rest
    → packet_type cp ≡ (header_of cp).message_type
read_packet_typed r cp e rest h = let t = read_packet-IsTyped r in rw h at t
