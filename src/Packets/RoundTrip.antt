-- ===== src/Packets/RoundTrip.antt =====
-- `ReadPacket` on what `Write` wrote, for the fourteen packet types.
mod Frame
mod Small
mod Topics
mod Connect
use paho_mqtt_golang.Base.{
  ℕ, ◌+◌, ◌<◌, ◌≡◌, refl, ap, [], ◌∷◌, ◌++◌, Bytes, false, Bool-cases, inl, inr, none, length,
  length-append, All, arith, ltb, append-nil, append_assoc,
}
use paho_mqtt_golang.Packets.Result.{ok}
use paho_mqtt_golang.Packets.Codec.{encode_uint16, encode_string, bool_to_byte}
use paho_mqtt_golang.Packets.Codec.Fields.{length-encode_uint16}
use paho_mqtt_golang.Packets.Header.{pack, followed_by}
use paho_mqtt_golang.Packets.Packet.{
  ControlPacket, ConnectPacket, ConnackPacket, PublishPacket, SubscribePacket, SubackPacket,
  UnsubscribePacket, connect, connack, publish, puback, pubrec, pubrel, pubcomp, subscribe, suback,
  unsubscribe, unsuback, pingreq, pingresp, disconnect, new_control_packet_with_header,
  empty_connect,
}
use paho_mqtt_golang.Packets.Write.{
  sized, write, write_ack, write_connack, write_connect, write_publish, write_subscribe,
  write_suback, write_unsubscribe, write_header, connect_body, publish_body, unsubscribe_topics,
  subscribe_topics,
}
use paho_mqtt_golang.Packets.Unpack.{unpacked, unpack, unpack_header, unpack_publish, outcome_map}
use paho_mqtt_golang.Packets.Totality.{followed_by_twice}
use paho_mqtt_golang.Packets.Read.{packet, read_packet}
use Frame.{read_packet-written}
pub use Small.{IsHeaderOf}
use Small.{read_packet-ack, read_packet-header, unpack_connack-body, unpack_suback-body}
pub use Topics.{IsTopic, subscribe_bytes}
use Topics.{
  subscribe_topics_lem, unpack_publish-body, unpack_publish-body_plain, unpack_subscribe-body,
  unpack_unsubscribe-body, length-encode_string,
}
pub use Connect.{IsConnect}
use Connect.{unpack_connect-body}

-- The packets whose fields have a place on the wire: the header is one of the type, numbers and
-- texts fit their fields, and nothing is set that is not sent.
abbrev pub IsWritable : ControlPacket → Type 0
IsWritable (connect c) = IsHeaderOf 1 c.fixed_header × IsConnect c
IsWritable (connack p) = IsHeaderOf 2 p.fixed_header
IsWritable (publish p) =
    IsHeaderOf 3 p.fixed_header
    × IsTopic p.topic_name
    × (p.message_id < 65536)
    × (ltb 0 p.fixed_header.qos ≡ false → p.message_id ≡ 0)
IsWritable (puback p) = IsHeaderOf 4 p.fixed_header × (p.message_id < 65536)
IsWritable (pubrec p) = IsHeaderOf 5 p.fixed_header × (p.message_id < 65536)
IsWritable (pubrel p) = IsHeaderOf 6 p.fixed_header × (p.message_id < 65536)
IsWritable (pubcomp p) = IsHeaderOf 7 p.fixed_header × (p.message_id < 65536)
IsWritable (subscribe p) =
    IsHeaderOf 8 p.fixed_header
    × (p.message_id < 65536)
    × All IsTopic p.topics
    × (length p.topics ≡ length p.qoss)
IsWritable (suback p) = IsHeaderOf 9 p.fixed_header × (p.message_id < 65536)
IsWritable (unsubscribe p) =
    IsHeaderOf 10 p.fixed_header
    × (p.message_id < 65536)
    × All (λ t. IsTopic t × (0 < length t)) p.topics
IsWritable (unsuback p) = IsHeaderOf 11 p.fixed_header × (p.message_id < 65536)
IsWritable (pingreq p) = IsHeaderOf 12 p.fixed_header × (p.fixed_header.remaining_length ≡ 0)
IsWritable (pingresp p) = IsHeaderOf 13 p.fixed_header × (p.fixed_header.remaining_length ≡ 0)
IsWritable (disconnect p) = IsHeaderOf 14 p.fixed_header × (p.fixed_header.remaining_length ≡ 0)

read_packet-connect :
    (c : ConnectPacket) (bytes rest : Bytes)
    → IsWritable (connect c)
    → (write (connect c)).1 ≡ ok bytes
    → read_packet (bytes ++ rest) ≡ packet (write (connect c)).0 none rest
unfolding write unpack new_control_packet_with_header write_connect
read_packet-connect c bytes rest h e =
    let fh = sized c.fixed_header (length (connect_body c)) in
    read_packet-written fh (connect (empty_connect fh)) _ (connect_body c) bytes [] rest
      (omega (arith, h.0)) h.0.two_bits e refl (ground (arith, h.0.typed))
      (ap (outcome_map connect) (unpack_connect-body c fh h.1))

read_packet-connack :
    (p : ConnackPacket) (bytes rest : Bytes)
    → IsWritable (connack p)
    → (write (connack p)).1 ≡ ok bytes
    → read_packet (bytes ++ rest) ≡ packet (write (connack p)).0 none rest
unfolding write unpack new_control_packet_with_header write_connack
read_packet-connack p bytes rest h e =
    let fh = sized p.fixed_header 2 in
    read_packet-written fh
      (connack (record { fixed_header = fh; session_present = false; return_code = 0 })) _
      (bool_to_byte p.session_present ∷ p.return_code ∷ []) bytes [] rest (omega arith) h.two_bits e
      refl (ground (arith, h.typed))
      (ap (outcome_map connack) (unpack_connack-body fh p.session_present p.return_code))

-- What the body of PUBLISH unpacks to, with QoS 0 and with a QoS above it.
unpack_publish-written :
    (p : PublishPacket) (n : ℕ)
    → IsWritable (publish p)
    → n ≡ length (publish_body p) + length p.payload
    → unpack_publish (
      record {
        fixed_header = sized p.fixed_header n;
        topic_name = [];
        message_id = 0;
        payload = [];
      },
      publish_body p ++ p.payload,
    )
      ≡ unpacked (record p { fixed_header = sized p.fixed_header n }, [])
unfolding publish_body
unpack_publish-written p n h size = elim (Bool-cases (ltb 0 p.fixed_header.qos)) [
  | inl on ↦ ground (
    arith,
    append_assoc (encode_string p.topic_name) (encode_uint16 p.message_id) p.payload,
    length-append (encode_string p.topic_name) (encode_uint16 p.message_id),
    length-encode_string p.topic_name h.1,
    length-encode_uint16 p.message_id,
    unpack_publish-body (sized p.fixed_header n) p.topic_name p.payload p.message_id h.1 h.2 on,
  )
  | inr off ↦ ground (
    arith,
    append-nil (encode_string p.topic_name),
    length-encode_string p.topic_name h.1,
    h.3 off,
    unpack_publish-body_plain (sized p.fixed_header n) p.topic_name p.payload h.1 off,
  )
]

read_packet-publish :
    (p : PublishPacket) (bytes rest : Bytes)
    → IsWritable (publish p)
    → (write (publish p)).1 ≡ ok bytes
    → read_packet (bytes ++ rest) ≡ packet (write (publish p)).0 none rest
unfolding write unpack new_control_packet_with_header write_publish
read_packet-publish p bytes rest h e =
    let n = length (publish_body p) + length p.payload in
    let fh = sized p.fixed_header n in
    read_packet-written fh
      (publish (record { fixed_header = fh; topic_name = []; message_id = 0; payload = [] })) _
      (publish_body p ++ p.payload) bytes [] rest (omega (arith, h.0)) h.0.two_bits
      (ground (arith, followed_by_twice (pack fh) (publish_body p) p.payload))
      (length-append (publish_body p) p.payload) (ground (arith, h.0.typed))
      (ap (outcome_map publish) (unpack_publish-written p n h refl))

read_packet-subscribe :
    (s : SubscribePacket) (bytes rest : Bytes)
    → IsWritable (subscribe s)
    → (write (subscribe s)).1 ≡ ok bytes
    → read_packet (bytes ++ rest) ≡ packet (write (subscribe s)).0 none rest
unfolding write unpack new_control_packet_with_header write_subscribe
read_packet-subscribe s bytes rest h e =
    let topics = subscribe_bytes s.topics s.qoss in
    let body = encode_uint16 s.message_id ++ topics in
    let fh = sized s.fixed_header (length body) in
    let done : subscribe_topics s.topics s.qoss ≡ ok topics =
      subscribe_topics_lem s.topics s.qoss h.3 in
    let sent : followed_by (pack fh) body ≡ ok bytes = ground (arith, done) in
    let shape : (write (subscribe s)).0 ≡ subscribe (record s { fixed_header = fh }) =
      ground (arith, done) in
    rw shape (
      read_packet-written fh
        (subscribe (record { fixed_header = fh; message_id = 0; topics = []; qoss = [] })) _ body
        bytes [] rest (omega (arith, h.0)) h.0.two_bits sent refl (ground (arith, h.0.typed))
        (ap (outcome_map subscribe) (
          unpack_subscribe-body fh s.message_id s.topics s.qoss h.1 h.2 h.3 (
            omega (
              arith,
              length-append (encode_uint16 s.message_id) topics,
              length-encode_uint16 s.message_id,
            )))))

read_packet-suback :
    (p : SubackPacket) (bytes rest : Bytes)
    → IsWritable (suback p)
    → (write (suback p)).1 ≡ ok bytes
    → read_packet (bytes ++ rest) ≡ packet (write (suback p)).0 none rest
unfolding write unpack new_control_packet_with_header write_suback
read_packet-suback p bytes rest h e =
    let body = encode_uint16 p.message_id ++ p.return_codes in
    let fh = sized p.fixed_header (length body) in
    read_packet-written fh
      (suback (record { fixed_header = fh; message_id = 0; return_codes = [] })) _ body bytes []
      rest (omega (arith, h.0)) h.0.two_bits e refl (ground (arith, h.0.typed))
      (ap (outcome_map suback) (unpack_suback-body fh p.message_id p.return_codes h.1))

read_packet-unsubscribe :
    (p : UnsubscribePacket) (bytes rest : Bytes)
    → IsWritable (unsubscribe p)
    → (write (unsubscribe p)).1 ≡ ok bytes
    → read_packet (bytes ++ rest) ≡ packet (write (unsubscribe p)).0 none rest
unfolding write unpack new_control_packet_with_header write_unsubscribe
read_packet-unsubscribe p bytes rest h e =
    let body = encode_uint16 p.message_id ++ unsubscribe_topics p.topics in
    let fh = sized p.fixed_header (length body) in
    read_packet-written fh (unsubscribe (record { fixed_header = fh; message_id = 0; topics = [] }))
      _ body bytes [] rest (omega (arith, h.0)) h.0.two_bits e refl (ground (arith, h.0.typed))
      (ap (outcome_map unsubscribe) (unpack_unsubscribe-body fh p.message_id p.topics h.1 h.2))

-- For every packet whose fields fit the wire and that sets nothing that is not sent, if `Write`
-- reports no error: `ReadPacket` on the bytes that it handed over, and more behind them, returns the
-- packet with all fields as `Write` left them, no error, and leaves what is behind.
pub read_packet-write :
    (p : ControlPacket) (bytes rest : Bytes)
    → IsWritable p
    → (write p).1 ≡ ok bytes
    → read_packet (bytes ++ rest) ≡ packet (write p).0 none rest
unfolding write write_ack unpack unpack_header new_control_packet_with_header write_header
read_packet-write (connect c) bytes rest h e = read_packet-connect c bytes rest h e
read_packet-write (connack p) bytes rest h e = read_packet-connack p bytes rest h e
read_packet-write (publish p) bytes rest h e = read_packet-publish p bytes rest h e
read_packet-write (puback p) bytes rest h e =
    read_packet-ack puback p bytes rest h.1 (omega (arith, h.0)) h.0.two_bits e
      (ground (arith, h.0.typed)) (λ b. refl)
read_packet-write (pubrec p) bytes rest h e =
    read_packet-ack pubrec p bytes rest h.1 (omega (arith, h.0)) h.0.two_bits e
      (ground (arith, h.0.typed)) (λ b. refl)
read_packet-write (pubrel p) bytes rest h e =
    read_packet-ack pubrel p bytes rest h.1 (omega (arith, h.0)) h.0.two_bits e
      (ground (arith, h.0.typed)) (λ b. refl)
read_packet-write (pubcomp p) bytes rest h e =
    read_packet-ack pubcomp p bytes rest h.1 (omega (arith, h.0)) h.0.two_bits e
      (ground (arith, h.0.typed)) (λ b. refl)
read_packet-write (subscribe s) bytes rest h e = read_packet-subscribe s bytes rest h e
read_packet-write (suback p) bytes rest h e = read_packet-suback p bytes rest h e
read_packet-write (unsubscribe p) bytes rest h e = read_packet-unsubscribe p bytes rest h e
read_packet-write (unsuback p) bytes rest h e =
    read_packet-ack unsuback p bytes rest h.1 (omega (arith, h.0)) h.0.two_bits e
      (ground (arith, h.0.typed)) (λ b. refl)
read_packet-write (pingreq p) bytes rest h e =
    read_packet-header p pingreq bytes rest (omega (arith, h.0)) h.0.two_bits h.1 e
      (ground (arith, h.0.typed)) refl
read_packet-write (pingresp p) bytes rest h e =
    read_packet-header p pingresp bytes rest (omega (arith, h.0)) h.0.two_bits h.1 e
      (ground (arith, h.0.typed)) refl
read_packet-write (disconnect p) bytes rest h e =
    read_packet-header p disconnect bytes rest (omega (arith, h.0)) h.0.two_bits h.1 e
      (ground (arith, h.0.typed)) refl
