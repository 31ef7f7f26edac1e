-- ===== src/Packets/Read.antt =====
-- packets/packets.go, ReadPacket: one control packet from a stream.
use paho_mqtt_golang.Base.{ℕ, ◌∷◌, Bytes, Option, none, some, if◌then◌else◌, ◌==◌, length, []}
use paho_mqtt_golang.Packets.Result.{
  Error, got, failed, failed_to_read_expected_data, unsupported_packet_type,
}
use paho_mqtt_golang.Packets.Codec.{read_full}
use paho_mqtt_golang.Packets.Header
use paho_mqtt_golang.Packets.Header.{FixedHeader}
use paho_mqtt_golang.Packets.Packet.{ControlPacket, new_control_packet_with_header}
use paho_mqtt_golang.Packets.Unpack.{unpacked, stopped, unpack}

-- `no_packet` is a nil packet with an error. `packet` is a packet with the error of its `Unpack`, if
-- any, and what the stream still holds.
pub data ReadResult : Type 0 where
  no_packet : Error → ReadResult
  packet : ControlPacket → Option Error → Bytes → ReadResult

abbrev unpack_body : ControlPacket → Bytes → Bytes → ReadResult
unpack_body cp packet_bytes r = elim (unpack cp packet_bytes) [
  | unpacked (cp', _) ↦ packet cp' none r
  | stopped e cp' ↦ packet cp' (some e) r
]

unfoldable pub read_body : FixedHeader → ControlPacket → Bytes → ReadResult
read_body fh cp r = elim (read_full fh.remaining_length r) [
  | got packet_bytes r' ↦
      if length packet_bytes == fh.remaining_length
      then unpack_body cp packet_bytes r'
      else no_packet failed_to_read_expected_data
  | failed e ↦ no_packet e
]

unfoldable pub read_with_header : FixedHeader → Bytes → ReadResult
unfolding read_body
read_with_header fh r = elim (new_control_packet_with_header fh) [
  | some cp ↦ read_body fh cp r
  | none ↦ no_packet (unsupported_packet_type fh.message_type)
]

abbrev pub head_or_zero : Bytes → ℕ
head_or_zero [] = 0
head_or_zero (b ∷ _) = b

unfoldable pub read_header : ℕ → Bytes → ReadResult
unfolding read_with_header
read_header b r = elim (Header.unpack b r) [
  | got fh r' ↦ read_with_header fh r'
  | failed e ↦ no_packet e
]

unfoldable pub read_packet : Bytes → ReadResult
unfolding read_header
read_packet r = elim (read_full 1 r) [
  | got b r' ↦ read_header (head_or_zero b) r'
  | failed e ↦ no_packet e
]
