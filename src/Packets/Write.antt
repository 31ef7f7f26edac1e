-- ===== src/Packets/Write.antt =====
-- packets/: the methods `Write`. A `Write` sets the remaining length of its packet and hands all
-- bytes to the writer in one call, or returns an error and hands it none. A packet is given back
-- as `Write` leaves it, with the bytes handed over.
use paho_mqtt_golang.Base.{
  ℕ, ◌+◌, ◌*◌, ◌%◌, bit_or, List, [], ◌∷◌, ◌++◌, Bytes, Bool, if◌then◌else◌, ltb, length,
}
use paho_mqtt_golang.Packets.Result.{Result, ok, err, panic}
use paho_mqtt_golang.Packets.Codec.{bool_to_byte, encode_uint16, encode_string, encode_bytes}
use paho_mqtt_golang.Packets.Header.{FixedHeader, pack, followed_by}
use paho_mqtt_golang.Packets.Packet.{
  ConnectPacket, ConnackPacket, PublishPacket, AckPacket, SubscribePacket, SubackPacket,
  UnsubscribePacket, HeaderPacket, ControlPacket, connect, connack, publish, puback, pubrec, pubrel,
  pubcomp, subscribe, suback, unsubscribe, unsuback, pingreq, pingresp, disconnect,
}

abbrev pub sized : FixedHeader → ℕ → FixedHeader
sized fh n = record fh { remaining_length = n }

-- CleanSession<<1 | WillFlag<<2 | WillQos<<3 | WillRetain<<5 | PasswordFlag<<6 | UsernameFlag<<7
unfoldable pub connect_flags : Bool → Bool → ℕ → Bool → Bool → Bool → ℕ
unfolding bool_to_byte
connect_flags clean_session will_flag will_qos will_retain password_flag username_flag =
    bit_or
      (bit_or
        (bit_or
          (bit_or (bit_or (bool_to_byte clean_session * 2) (bool_to_byte will_flag * 4))
            (will_qos * 8 % 256))
          (bool_to_byte will_retain * 32))
        (bool_to_byte password_flag * 64))
      (bool_to_byte username_flag * 128)

unfoldable pub connect_body : ConnectPacket → Bytes
connect_body c =
    encode_string c.protocol_name
    ++ (c.protocol_version
        ∷ connect_flags c.clean_session c.will_flag c.will_qos c.will_retain c.password_flag
            c.username_flag
        ∷ (encode_uint16 c.keepalive
            ++ (encode_string c.client_identifier
                ++ ((if c.will_flag
                      then encode_string c.will_topic ++ encode_bytes c.will_message
                      else [])
                    ++ ((if c.username_flag then encode_string c.username else [])
                        ++ (if c.password_flag then encode_bytes c.password else []))))))

unfoldable pub write_connect : ConnectPacket → ConnectPacket × Result Bytes
write_connect c =
    let body = connect_body c in
    let fh = sized c.fixed_header (length body) in
    (record c { fixed_header = fh }, followed_by (pack fh) body)

unfoldable pub write_connack : ConnackPacket → ConnackPacket × Result Bytes
write_connack ca =
    let body = bool_to_byte ca.session_present ∷ ca.return_code ∷ [] in
    let fh = sized ca.fixed_header 2 in
    (record ca { fixed_header = fh }, followed_by (pack fh) body)

unfoldable pub publish_body : PublishPacket → Bytes
publish_body p =
    encode_string p.topic_name
    ++ (if ltb 0 p.fixed_header.qos then encode_uint16 p.message_id else [])

unfoldable pub write_publish : PublishPacket → PublishPacket × Result Bytes
write_publish p =
    let body = publish_body p in
    let fh = sized p.fixed_header (length body + length p.payload) in
    (record p { fixed_header = fh }, followed_by (followed_by (pack fh) body) p.payload)

-- PUBACK, PUBREC, PUBREL, PUBCOMP and UNSUBACK are written alike.
unfoldable pub write_ack : AckPacket → AckPacket × Result Bytes
write_ack pa =
    let fh = sized pa.fixed_header 2 in
    (record pa { fixed_header = fh }, followed_by (pack fh) (encode_uint16 pa.message_id))

abbrev pub write_puback : AckPacket → AckPacket × Result Bytes
write_puback = write_ack

abbrev pub write_pubrec : AckPacket → AckPacket × Result Bytes
write_pubrec = write_ack

abbrev pub write_pubrel : AckPacket → AckPacket × Result Bytes
write_pubrel = write_ack

abbrev pub write_pubcomp : AckPacket → AckPacket × Result Bytes
write_pubcomp = write_ack

abbrev pub write_unsuback : AckPacket → AckPacket × Result Bytes
write_unsuback = write_ack

-- The loop over `s.Topics` indexes `s.Qoss`, and panics where that is shorter.
unfoldable pub subscribe_topics : List Bytes → Bytes → Result Bytes
subscribe_topics [] qoss = ok []
subscribe_topics (topic ∷ topics) [] = panic
subscribe_topics (topic ∷ topics) (qos ∷ qoss) = elim (subscribe_topics topics qoss) [
  | ok more ↦ ok (encode_string topic ++ (qos ∷ more))
  | err e ↦ err e
  | panic ↦ panic
]

unfoldable pub write_subscribe : SubscribePacket → SubscribePacket × Result Bytes
write_subscribe s = elim (subscribe_topics s.topics s.qoss) [
  | ok topics ↦
      let body = encode_uint16 s.message_id ++ topics in
      let fh = sized s.fixed_header (length body) in
      (record s { fixed_header = fh }, followed_by (pack fh) body)
  | err e ↦ (s, err e)
  | panic ↦ (s, panic)
]

unfoldable pub write_suback : SubackPacket → SubackPacket × Result Bytes
write_suback sa =
    let body = encode_uint16 sa.message_id ++ sa.return_codes in
    let fh = sized sa.fixed_header (length body) in
    (record sa { fixed_header = fh }, followed_by (pack fh) body)

unfoldable pub unsubscribe_topics : List Bytes → Bytes
unsubscribe_topics [] = []
unsubscribe_topics (topic ∷ topics) = encode_string topic ++ unsubscribe_topics topics

unfoldable pub write_unsubscribe : UnsubscribePacket → UnsubscribePacket × Result Bytes
write_unsubscribe u =
    let body = encode_uint16 u.message_id ++ unsubscribe_topics u.topics in
    let fh = sized u.fixed_header (length body) in
    (record u { fixed_header = fh }, followed_by (pack fh) body)

-- PINGREQ, PINGRESP and DISCONNECT do not set the remaining length, which stays as it was.
unfoldable pub write_header : HeaderPacket → HeaderPacket × Result Bytes
write_header p = (p, pack p.fixed_header)

abbrev pub write_pingreq : HeaderPacket → HeaderPacket × Result Bytes
write_pingreq = write_header

abbrev pub write_pingresp : HeaderPacket → HeaderPacket × Result Bytes
write_pingresp = write_header

abbrev pub write_disconnect : HeaderPacket → HeaderPacket × Result Bytes
write_disconnect = write_header

abbrev as_packet :
    {P : Type 0} → (P → ControlPacket) → P × Result Bytes → ControlPacket × Result Bytes
as_packet c (p, r) = (c p, r)

-- The method `Write` of the interface.
unfoldable pub write : ControlPacket → ControlPacket × Result Bytes
write (connect p) = as_packet connect (write_connect p)
write (connack p) = as_packet connack (write_connack p)
write (publish p) = as_packet publish (write_publish p)
write (puback p) = as_packet puback (write_puback p)
write (pubrec p) = as_packet pubrec (write_pubrec p)
write (pubrel p) = as_packet pubrel (write_pubrel p)
write (pubcomp p) = as_packet pubcomp (write_pubcomp p)
write (subscribe p) = as_packet subscribe (write_subscribe p)
write (suback p) = as_packet suback (write_suback p)
write (unsubscribe p) = as_packet unsubscribe (write_unsubscribe p)
write (unsuback p) = as_packet unsuback (write_unsuback p)
write (pingreq p) = as_packet pingreq (write_pingreq p)
write (pingresp p) = as_packet pingresp (write_pingresp p)
write (disconnect p) = as_packet disconnect (write_disconnect p)
