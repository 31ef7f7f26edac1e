-- ===== src/Packets/RoundTrip/Small.antt =====
-- The packets of a fixed size, and SUBACK.
use paho_mqtt_golang.Base.{
  ℕ, ◌<◌, ◌≡◌, refl, sym, ap, ◌∙◌, [], ◌∷◌, ◌++◌, append-nil, Bytes, Bool, true, false, none, some,
  arith,
}
use paho_mqtt_golang.Packets.Result.{ok}
use paho_mqtt_golang.Packets.Codec.{encode_uint16, bool_to_byte, decode_byte, read, fill}
use paho_mqtt_golang.Packets.Codec.Fields.{decode_uint16-encode_uint16, decode_uint16_all}
use paho_mqtt_golang.Packets.Header.{FixedHeader, pack}
use paho_mqtt_golang.Packets.Packet.{
  ControlPacket, AckPacket, HeaderPacket, new_control_packet_with_header, empty_ack,
}
use paho_mqtt_golang.Packets.Write.{sized, write_ack}
use paho_mqtt_golang.Packets.Unpack.{
  unpacked, unpack, unpack_ack, unpack_connack, unpack_suback, outcome_map,
}
use paho_mqtt_golang.Packets.Read.{packet, read_packet}
use paho_mqtt_golang.Packets.RoundTrip.Frame.{read_packet-written}

-- The header of a packet of type `t` that can be written.
pub record IsHeaderOf (t : ℕ) (fh : FixedHeader) : Type 0 where
  pub typed : fh.message_type ≡ t
  pub two_bits : fh.qos < 4

unpack_ack-encode_uint16 :
    (fh : FixedHeader) (n : ℕ)
    → n < 65536
    → unpack_ack (empty_ack fh, encode_uint16 n)
      ≡ unpacked (record { fixed_header = fh; message_id = n }, [])
unfolding unpack_ack
unpack_ack-encode_uint16 fh n h = ground (arith, decode_uint16_all n h)

-- The five packets that carry a message id alone, each with its constructor `c`.
module _ (c : AckPacket → ControlPacket) (p : AckPacket) (bytes rest : Bytes) where
  pub read_packet-ack :
      p.message_id < 65536
      → p.fixed_header.message_type < 16
      → p.fixed_header.qos < 4
      → (write_ack p).1 ≡ ok bytes
      → new_control_packet_with_header (write_ack p).0.fixed_header
        ≡ some (c (empty_ack (write_ack p).0.fixed_header))
      → ((b : Bytes)
          → unpack (c (empty_ack (write_ack p).0.fixed_header)) b
            ≡ outcome_map c (unpack_ack (empty_ack (write_ack p).0.fixed_header, b)))
      → read_packet (bytes ++ rest) ≡ packet (c (write_ack p).0) none rest
  unfolding write_ack
  read_packet-ack small ht hq e new un =
      let fh = sized p.fixed_header 2 in
      read_packet-written fh (c (empty_ack fh)) _ (encode_uint16 p.message_id) bytes [] rest ht hq e
        (unfold encode_uint16 in refl) new
        (un (encode_uint16 p.message_id)
          ∙ ap (outcome_map c) (unpack_ack-encode_uint16 fh p.message_id small))

module _ (p : HeaderPacket) (c : HeaderPacket → ControlPacket) (bytes rest : Bytes) where
  pub read_packet-header :
      p.fixed_header.message_type < 16
      → p.fixed_header.qos < 4
      → p.fixed_header.remaining_length ≡ 0
      → pack p.fixed_header ≡ ok bytes
      → new_control_packet_with_header p.fixed_header ≡ some (c p)
      → unpack (c p) [] ≡ unpacked (c p, [])
      → read_packet (bytes ++ rest) ≡ packet (c p) none rest
  read_packet-header ht hq size e new un =
      read_packet-written p.fixed_header (c p) (c p) [] bytes [] rest ht hq
        (ground (arith, append-nil bytes)) (sym size) new un

-- CONNACK: the acknowledge flags hold the session bit alone.
pub unpack_connack-body :
    (fh : FixedHeader) (sp : Bool) (rc : ℕ)
    → unpack_connack (
      record { fixed_header = fh; session_present = false; return_code = 0 },
      bool_to_byte sp ∷ rc ∷ [],
    )
      ≡ unpacked (record { fixed_header = fh; session_present = sp; return_code = rc }, [])
unfolding unpack_connack bool_to_byte decode_byte read fill
unpack_connack-body fh true rc = refl
unpack_connack-body fh false rc = refl

pub unpack_suback-body :
    (fh : FixedHeader) (n : ℕ) (codes : Bytes)
    → n < 65536
    → unpack_suback
        (record { fixed_header = fh; message_id = 0; return_codes = [] }, encode_uint16 n ++ codes)
      ≡ unpacked (record { fixed_header = fh; message_id = n; return_codes = codes }, [])
unfolding unpack_suback
unpack_suback-body fh n codes h = ground (arith, decode_uint16-encode_uint16 n codes h)
