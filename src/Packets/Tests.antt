-- ===== src/Packets/Tests.antt =====
-- The codec on small packets.
use paho_mqtt_golang.Base.{◌≡◌, refl, [], ◌∷◌, ◌++◌, Bytes, true, false, none, arith, codes}
use paho_mqtt_golang.Packets.Result.{ok, got}
use paho_mqtt_golang.Packets.Codec.{
  encode_length, decode_length, decode_length_loop, encode_bytes, encode_uint16, truncate,
  encode_string, bool_to_byte,
}
use paho_mqtt_golang.Packets.Codec.Length.{
  digits, encode_length-digits, decode_length-encode_length,
}
use paho_mqtt_golang.Packets.Header.{FixedHeader, pack, type_and_flags, split_flags}
use paho_mqtt_golang.Packets.Header
use paho_mqtt_golang.Packets.Header.Laws.{IsHeader, unpack-pack}
use paho_mqtt_golang.Packets.Packet.{PublishPacket, publish}
use paho_mqtt_golang.Packets.Write.{write, write_publish, publish_body}
use paho_mqtt_golang.Packets.Read.{packet, read_packet}
use paho_mqtt_golang.Packets.Packet.{packet_type, header_of}
use paho_mqtt_golang.Packets.Typed.{read_packet_typed}
use paho_mqtt_golang.Packets.RoundTrip.{IsWritable, read_packet-write}

abbrev hello : PublishPacket
hello = record {
  fixed_header = record {
    message_type = 3;
    dup = false;
    qos = 1;
    retain = true;
    remaining_length = 0;
  };
  topic_name = codes "a/b";
  message_id = 258;
  payload = codes "hi";
}

abbrev hello_bytes : Bytes
hello_bytes = 51 ∷ 9 ∷ 0 ∷ 3 ∷ 97 ∷ 47 ∷ 98 ∷ 1 ∷ 2 ∷ 104 ∷ 105 ∷ []

encode_length-321 : encode_length 321 ≡ ok (193 ∷ 2 ∷ [])
unfolding digits
encode_length-321 = encode_length-digits 321 (omega arith)

encode_length-9 : encode_length 9 ≡ ok (9 ∷ [])
unfolding digits
encode_length-9 = encode_length-digits 9 (omega arith)

write-hello : (write (publish hello)).1 ≡ ok hello_bytes
unfolding write write_publish publish_body encode_string encode_bytes encode_uint16 truncate pack
    type_and_flags bool_to_byte
write-hello = ground (arith, encode_length-9)

hello-IsWritable : IsWritable (publish hello)
hello-IsWritable =
    (record { typed = refl; two_bits = omega arith }, omega arith, omega arith, λ e. cc)

read_packet-write_example :
    read_packet (hello_bytes ++ (192 ∷ [])) ≡ packet (write (publish hello)).0 none (192 ∷ [])
read_packet-write_example =
    read_packet-write (publish hello) hello_bytes (192 ∷ []) hello-IsWritable write-hello

decode_length-encode_length_example : decode_length ((193 ∷ 2 ∷ []) ++ (7 ∷ [])) ≡ got 321 (7 ∷ [])
decode_length-encode_length_example =
    decode_length-encode_length 321 (193 ∷ 2 ∷ []) (7 ∷ []) encode_length-321

decode_length-321 : decode_length (193 ∷ 2 ∷ []) ≡ got 321 []
unfolding decode_length decode_length_loop
decode_length-321 = ground arith

abbrev plain : FixedHeader
plain = record { message_type = 3; dup = true; qos = 2; retain = false; remaining_length = 321 }

plain-IsHeader : IsHeader plain
plain-IsHeader = record { four_bits = omega arith; two_bits = omega arith; sendable = omega arith }

pack-plain : pack plain ≡ ok (60 ∷ 193 ∷ 2 ∷ [])
unfolding pack type_and_flags bool_to_byte
pack-plain = rw (encode_length-321, pack) refl

unpack-plain : Header.unpack 60 (193 ∷ 2 ∷ []) ≡ got plain []
unfolding split_flags
unpack-plain = unpack-pack plain 60 (193 ∷ 2 ∷ []) [] plain-IsHeader pack-plain

read_packet_typed_example :
    packet_type (write (publish hello)).0 ≡ (header_of (write (publish hello)).0).message_type
read_packet_typed_example =
    read_packet_typed (hello_bytes ++ []) (write (publish hello)).0 none []
      (read_packet-write (publish hello) hello_bytes [] hello-IsWritable write-hello)
