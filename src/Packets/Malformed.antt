-- ===== src/Packets/Malformed.antt =====
-- What the readers do with bodies that are cut short or empty.
use paho_mqtt_golang.Base.{
  ℕ, zero, suc, ◌≤◌, ◌<◌, ◌≡◌, refl, [], ◌∷◌, Bytes, Option-cases, inl, inr, Option, some, none,
  ◌⊎◌, arith,
}
use paho_mqtt_golang.Packets.Result.{Error, Decoded, got, failed, eof}
use paho_mqtt_golang.Packets.Codec.{
  read_full, decode_length, decode_length_loop, decode_uint16, decode_string, decode_bytes,
  decode_byte, read,
}
use paho_mqtt_golang.Packets.Header.{FixedHeader, split_flags}
use paho_mqtt_golang.Packets.Header
use paho_mqtt_golang.Packets.Packet.{
  ControlPacket, connect, connack, publish, puback, pubrec, pubrel, pubcomp, subscribe, suback,
  unsubscribe, unsuback, pingreq, pingresp, disconnect, header_of, empty_connect, UnsubscribePacket,
  new_control_packet_with_header, packet_type,
}
use paho_mqtt_golang.Packets.Unpack.{
  Outcome, unpacked, stopped, unpack, unpack_connect, unpack_connack, unpack_publish, unpack_ack,
  unpack_subscribe, unpack_suback, unpack_unsubscribe, unsubscribe_loop,
}
use paho_mqtt_golang.Packets.Read.{ReadResult, packet, no_packet, read_packet}

abbrev Ends : Outcome UnsubscribePacket → Type 0
Ends o = (u : UnsubscribePacket) × (r : Bytes) × (o ≡ unpacked (u, r))

-- One round ends with no error if the rounds behind it do.
unsubscribe_round :
    (fuel : ℕ) (u : UnsubscribePacket) (b : Bytes) (d : Decoded Bytes)
    → decode_string b ≡ d
    → ((u : UnsubscribePacket) (b : Bytes) → Ends (unsubscribe_loop fuel (u, b)))
    → Ends (unsubscribe_loop (suc fuel) (u, b))
unfolding unsubscribe_loop
unsubscribe_round fuel u b (got [] r) e more = (u, r, rw (e, unsubscribe_loop))
unsubscribe_round fuel u b (got (x ∷ t) r) e more = rw (e, unsubscribe_loop) (more _ r)
unsubscribe_round fuel u b (failed x) e more = (u, [], rw (e, unsubscribe_loop))

unsubscribe_loop-Ends :
    (fuel : ℕ) (u : UnsubscribePacket) (b : Bytes) → Ends (unsubscribe_loop fuel (u, b))
unsubscribe_loop-Ends zero u b = (u, [], unfold unsubscribe_loop in refl)
unsubscribe_loop-Ends (suc fuel) u b =
    unsubscribe_round fuel u b (decode_string b) refl (unsubscribe_loop-Ends fuel)

-- An UNSUBSCRIBE with a byte of body is accepted whatever the body holds: the errors of its topics
-- are dropped.
pub unpack_unsubscribe_accepts :
    (u : UnsubscribePacket) (x : ℕ) (b : Bytes)
    → (u' : UnsubscribePacket) × (r : Bytes) × (unpack_unsubscribe (u, x ∷ b) ≡ unpacked (u', r))
unfolding unpack_unsubscribe decode_uint16 read
unpack_unsubscribe_accepts u x b = unsubscribe_loop-Ends _ _ _

-- The error that comes back beside a packet.
abbrev pub error_beside_packet : ReadResult → Option Error
error_beside_packet (packet cp e r) = e
error_beside_packet (no_packet e) = none

abbrev outcome_error : Outcome ControlPacket → Option Error
outcome_error (stopped e cp) = some e
outcome_error (unpacked s) = none

unpack_nil : (cp : ControlPacket) → packet_type cp < 12 → outcome_error (unpack cp []) ≡ some eof
unfolding unpack packet_type unpack_connect unpack_connack unpack_publish unpack_ack
    unpack_subscribe unpack_suback unpack_unsubscribe decode_string decode_bytes decode_uint16
    decode_byte read
unpack_nil (connect p) h = refl
unpack_nil (connack p) h = refl
unpack_nil (publish p) h = refl
unpack_nil (puback p) h = refl
unpack_nil (pubrec p) h = refl
unpack_nil (pubrel p) h = refl
unpack_nil (pubcomp p) h = refl
unpack_nil (subscribe p) h = refl
unpack_nil (suback p) h = refl
unpack_nil (unsubscribe p) h = refl
unpack_nil (unsuback p) h = refl
unpack_nil (pingreq p) h = absurd (omega arith)
unpack_nil (pingresp p) h = absurd (omega arith)
unpack_nil (disconnect p) h = absurd (omega arith)

-- The packet of a known type has that type.
pub new_control_packet_with_header_typed :
    (fh : FixedHeader) (cp : ControlPacket)
    → new_control_packet_with_header fh ≡ some cp
    → (packet_type cp ≡ fh.message_type) × (header_of cp ≡ fh)
unfolding new_control_packet_with_header packet_type header_of empty_connect
new_control_packet_with_header_typed fh cp h = ground arith

-- A type is known exactly from 1 to 14.
new_control_packet_with_header-none :
    (fh : FixedHeader)
    → new_control_packet_with_header fh ≡ none
    → (fh.message_type ≡ 0) ⊎ (14 < fh.message_type)
unfolding new_control_packet_with_header
new_control_packet_with_header-none fh h = ground arith

unpack_short_header :
    (b : ℕ) (rest : Bytes) → Header.unpack b (0 ∷ rest) ≡ got (split_flags b 0) rest
unfolding Header.unpack decode_length decode_length_loop
unpack_short_header b rest = refl

-- Where the first byte is of one of the types 1 to 11, which have a body, and the remaining length
-- is 0, `ReadPacket` returns a packet and an error at once.
pub read_packet-empty_body :
    (b : ℕ) (rest : Bytes)
    → 16 ≤ b
    → b < 192
    → error_beside_packet (read_packet (b ∷ 0 ∷ rest)) ≡ some eof
unfolding read_packet read_full split_flags
read_packet-empty_body b rest lo hi =
    elim (Option-cases (new_control_packet_with_header (split_flags b 0))) [
      | inl missing ↦
          absurd (omega (arith, new_control_packet_with_header-none (split_flags b 0) missing))
      | inr (cp, made) ↦ ground (
        arith,
        unpack_short_header b rest,
        new_control_packet_with_header_typed (split_flags b 0) cp made,
        unpack_nil cp,
      )
    ]
