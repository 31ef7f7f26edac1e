-- ===== src/Net/Handshake/Tests.antt =====
-- A CONNECT of a clean session and its CONNACK.
use paho_mqtt_golang.Base.{◌≡◌, refl, [], ◌∷◌, ◌++◌, Bytes, codes, true, none, some, arith}
use paho_mqtt_golang.Base.Assoc.{nat_eq, bytes_eq}
use paho_mqtt_golang.Packets.Result.{ok}
use paho_mqtt_golang.Packets.Packet.{
  ConnackPacket, ConnectPacket, connect, connack, plain_header, empty_connect,
}
use paho_mqtt_golang.Packets.Write.{write}
use paho_mqtt_golang.Packets.Codec.{
  encode_string, encode_bytes, encode_uint16, truncate, bool_to_byte,
}
use paho_mqtt_golang.Packets.Header.{pack, type_and_flags}
use paho_mqtt_golang.Packets.Codec.Length.{encode_length-digits, digits}
use paho_mqtt_golang.Packets.Read.{packet, read_packet}
use paho_mqtt_golang.Net.Handshake.{none_at_all, connect_mqtt, connect_mqtt-write, with_protocol}
use paho_mqtt_golang.Packets.RoundTrip.{IsWritable}
use paho_mqtt_golang.Packets.Write.{write_connect, connect_body, connect_flags, write_connack}

abbrev asks : ConnectPacket
asks = record (empty_connect (plain_header 1 0)) {
  client_identifier = codes "c";
  clean_session = true;
}

abbrev asks_bytes : Bytes
asks_bytes = 16 ∷ 13 ∷ 0 ∷ 4 ∷ (codes "MQTT" ++ (4 ∷ 2 ∷ 0 ∷ 0 ∷ 0 ∷ 1 ∷ 99 ∷ []))

abbrev accepts : ConnackPacket
accepts = record { fixed_header = plain_header 2 0; session_present = true; return_code = 0 }

asks-write : (write (connect (with_protocol 4 asks))).1 ≡ ok asks_bytes
unfolding write write_connect connect_body connect_flags encode_string encode_bytes encode_uint16
    truncate pack type_and_flags bool_to_byte digits with_protocol empty_connect
asks-write = ground (arith, encode_length-digits 13 (omega arith))

accepts-write : (write (connack accepts)).1 ≡ ok (32 ∷ 2 ∷ 1 ∷ 0 ∷ [])
unfolding write write_connack pack type_and_flags bool_to_byte digits
accepts-write = ground (arith, encode_length-digits 2 (omega arith))

asks-IsWritable : IsWritable (connect (with_protocol 4 asks))
unfolding with_protocol empty_connect
asks-IsWritable = (
  record { typed = refl; two_bits = omega arith },
  record {
    name_fits = omega arith;
    will_qos_fits = omega arith;
    not_reserved = refl;
    keepalive_fits = omega arith;
    identifier_fits = omega arith;
    will_topic_fits = omega arith;
    will_message_fits = omega arith;
    username_fits = omega arith;
    password_fits = omega arith;
    no_will = λ h. (refl, refl);
    no_username = λ h. refl;
    no_password = λ h. refl;
  },
)

connect_mqtt-write_example :
    (connect_mqtt none asks 4 ((32 ∷ 2 ∷ 1 ∷ 0 ∷ []) ++ (208 ∷ []))
      ≡ some (asks_bytes, record { code = 0; session_present = true; trouble = none_at_all }))
    × (read_packet (asks_bytes ++ []) ≡ packet (write (connect (with_protocol 4 asks))).0 none [])
connect_mqtt-write_example =
    connect_mqtt-write asks 4 asks_bytes (32 ∷ 2 ∷ 1 ∷ 0 ∷ []) (208 ∷ []) [] accepts asks-IsWritable
      asks-write (record { typed = refl; two_bits = omega arith }) accepts-write
