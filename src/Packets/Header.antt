-- ===== src/Packets/Header.antt =====
-- packets/packets.go, the fixed header of a control packet: FixedHeader, pack and unpack.
pub mod Bits
pub mod Laws
use paho_mqtt_golang.Base.{ℕ, ◌*◌, ◌/◌, ◌%◌, bit_and, bit_or, ◌∷◌, ◌++◌, Bytes, Bool, ltb}
use paho_mqtt_golang.Packets.Result.{Result, ok, err, panic, Reader, ◌>>=◌, return}
use paho_mqtt_golang.Packets.Codec.{bool_to_byte, encode_length, decode_length}

pub record FixedHeader : Type 0 where
  pub message_type : ℕ
  pub dup : Bool
  pub qos : ℕ
  pub retain : Bool
  pub remaining_length : ℕ

-- `packet.Write(body)` on the buffer that `pack` returned, unless it failed.
abbrev pub followed_by : Result Bytes → Bytes → Result Bytes
followed_by (ok packet) body = ok (packet ++ body)
followed_by (err e) body = err e
followed_by panic body = panic

-- The first byte; its fields are bytes, so a shift drops what leaves the byte.
unfoldable pub type_and_flags : ℕ → Bool → ℕ → Bool → ℕ
unfolding bool_to_byte
type_and_flags message_type dup qos retain =
    bit_or (bit_or (bit_or (message_type * 16 % 256) (bool_to_byte dup * 8)) (qos * 2 % 256))
      (bool_to_byte retain)

unfoldable pub pack : FixedHeader → Result Bytes
pack fh =
    let first = type_and_flags fh.message_type fh.dup fh.qos fh.retain in
    elim (encode_length fh.remaining_length) [
      | ok l ↦ ok (first ∷ l)
      | err e ↦ err e
      | panic ↦ panic
    ]

-- The fields of the first byte, over a length that is still to be read.
unfoldable pub split_flags : ℕ → ℕ → FixedHeader
split_flags byte remaining_length = record {
  message_type = byte / 16;
  dup = ltb 0 (bit_and (byte / 8) 0x01);
  qos = bit_and (byte / 2) 0x03;
  retain = ltb 0 (bit_and byte 0x01);
  remaining_length = remaining_length;
}

unfoldable pub unpack : ℕ → Reader FixedHeader
unpack byte = do l ← decode_length; return (split_flags byte l)
