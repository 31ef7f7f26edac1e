-- ===== src/Packets/Totality.antt =====
-- When a `Write` succeeds, and when it refuses.
use paho_mqtt_golang.Base.{
  ◌+◌, ◌≤◌, ◌<◌, ◌≡◌, refl, sym, ap, ◌∙◌, List, [], ◌∷◌, ◌++◌, append_assoc, append-nil, Bytes,
  length, length-append, arith,
}
use paho_mqtt_golang.Packets.Result.{Result, ok, err, panic, invalid_packet_length}
use paho_mqtt_golang.Packets.Codec.{encode_uint16, encode_string}
use paho_mqtt_golang.Packets.Codec.Fields.{length-encode_uint16}
use paho_mqtt_golang.Packets.Header.{FixedHeader, pack, followed_by}
use paho_mqtt_golang.Packets.Header.Laws.{pack_sendable, pack_refuses}
use paho_mqtt_golang.Packets.Packet.{
  ControlPacket, SubscribePacket, connect, connack, publish, puback, pubrec, pubrel, pubcomp,
  subscribe, suback, unsubscribe, unsuback, pingreq, pingresp, disconnect, header_of,
}
use paho_mqtt_golang.Packets.Write.{
  sized, write, write_ack, write_connack, write_connect, write_publish, write_subscribe,
  subscribe_topics, write_suback, write_unsubscribe, write_header, connect_body, publish_body,
}

abbrev Sent : FixedHeader → Result Bytes → Type 0
Sent fh r = (bytes : Bytes) × (r ≡ ok bytes) × (length bytes ≤ fh.remaining_length + 5)

Sent-followed_by :
    (fh : FixedHeader) (body : Bytes)
    → fh.remaining_length ≤ 268435455
    → length body ≡ fh.remaining_length
    → Sent fh (followed_by (pack fh) body)
Sent-followed_by fh body h size =
    let (header, e, lo, hi) = pack_sendable fh h in
    (header ++ body, rw e, omega (arith, length-append header body))

-- No index out of range: every topic of a SUBSCRIBE has its QoS.
abbrev pub IsIndexed : ControlPacket → Type 0
IsIndexed (subscribe s) = length s.topics ≤ length s.qoss
IsIndexed _ = Unit

-- The remaining length is that of no body.
abbrev pub IsSized : ControlPacket → Type 0
IsSized (pingreq p) = p.fixed_header.remaining_length ≡ 0
IsSized (pingresp p) = p.fixed_header.remaining_length ≡ 0
IsSized (disconnect p) = p.fixed_header.remaining_length ≡ 0
IsSized _ = Unit

subscribe_topics_ok :
    (ts : List Bytes) (qs : Bytes)
    → length ts ≤ length qs
    → (body : Bytes) × (subscribe_topics ts qs ≡ ok body)
unfolding subscribe_topics
subscribe_topics_ok [] qs h = ([], refl)
subscribe_topics_ok (t ∷ ts) [] h = absurd (omega arith)
subscribe_topics_ok (t ∷ ts) (q ∷ qs) h =
    let (body, e) = subscribe_topics_ok ts qs (omega arith) in
    (encode_string t ++ (q ∷ body), rw (e, subscribe_topics))

-- A packed header and a body of the length that the header states.
abbrev Framed : ControlPacket × Result Bytes → Type 0
Framed (p, r) =
    (body : Bytes) × (r ≡ followed_by (pack (header_of p)) body)
    × (length body ≡ (header_of p).remaining_length)

followed_by_nil : (r : Result Bytes) → r ≡ followed_by r []
followed_by_nil (ok x) = ap ok (sym (append-nil x))
followed_by_nil (err x) = refl
followed_by_nil panic = refl

pub followed_by_twice :
    (r : Result Bytes) (a b : Bytes) → followed_by (followed_by r a) b ≡ followed_by r (a ++ b)
followed_by_twice (ok x) a b = ap ok (append_assoc x a b)
followed_by_twice (err x) a b = refl
followed_by_twice panic a b = refl

write_subscribe-Framed :
    (s : SubscribePacket) → IsIndexed (subscribe s) → Framed (write (subscribe s))
unfolding write write_subscribe header_of
write_subscribe-Framed s i =
    let (topics, e) = subscribe_topics_ok s.topics s.qoss i in
    let fact : write_subscribe s ≡ (
      record s {
        fixed_header = sized s.fixed_header (length (encode_uint16 s.message_id ++ topics));
      },
      followed_by (pack (sized s.fixed_header (length (encode_uint16 s.message_id ++ topics))))
          (encode_uint16 s.message_id ++ topics),
    ) =
      rw (e, write_subscribe) in
    (encode_uint16 s.message_id ++ topics, ground (arith, fact), ground (arith, fact))

write-Framed : (p : ControlPacket) → IsIndexed p → IsSized p → Framed (write p)
unfolding write write_connect write_connack write_publish write_ack write_suback write_unsubscribe
    write_header header_of
write-Framed (connect c) i z = (connect_body c, refl, refl)
write-Framed (connack p) i z = (_, refl, refl)
write-Framed (publish p) i z = (
  publish_body p ++ p.payload,
  followed_by_twice _ (publish_body p) p.payload,
  length-append (publish_body p) p.payload,
)
write-Framed (puback p) i z = (encode_uint16 p.message_id, refl, length-encode_uint16 p.message_id)
write-Framed (pubrec p) i z = (encode_uint16 p.message_id, refl, length-encode_uint16 p.message_id)
write-Framed (pubrel p) i z = (encode_uint16 p.message_id, refl, length-encode_uint16 p.message_id)
write-Framed (pubcomp p) i z = (encode_uint16 p.message_id, refl, length-encode_uint16 p.message_id)
write-Framed (subscribe s) i z = write_subscribe-Framed s i
write-Framed (suback p) i z = (_, refl, refl)
write-Framed (unsubscribe p) i z = (_, refl, refl)
write-Framed (unsuback p) i z =
    (encode_uint16 p.message_id, refl, length-encode_uint16 p.message_id)
write-Framed (pingreq p) i z = ([], followed_by_nil (pack p.fixed_header), sym z)
write-Framed (pingresp p) i z = ([], followed_by_nil (pack p.fixed_header), sym z)
write-Framed (disconnect p) i z = ([], followed_by_nil (pack p.fixed_header), sym z)

-- For a packet with a QoS for each topic of a SUBSCRIBE, and a remaining length of 0 if it is one
-- without a body: where the remaining length that `Write` sets is at most 268435455, `Write`
-- succeeds, and the bytes that it hands over are at most five more than that length.
pub write_sent :
    (p : ControlPacket)
    → IsIndexed p
    → IsSized p
    → (header_of (write p).0).remaining_length ≤ 268435455
    → (bytes : Bytes) × ((write p).1 ≡ ok bytes)
      × (length bytes ≤ (header_of (write p).0).remaining_length + 5)
write_sent p i z h =
    let (body, shape, size) = write-Framed p i z in
    rw shape (Sent-followed_by (header_of (write p).0) body h size)

-- For a packet with a QoS for each topic of a SUBSCRIBE, and a remaining length of 0 if it is one
-- without a body: where the remaining length that `Write` sets is more than 268435455, nothing is
-- handed over, and the error says that the length is invalid.
pub write_refused :
    (p : ControlPacket)
    → IsIndexed p
    → IsSized p
    → 268435455 < (header_of (write p).0).remaining_length
    → (write p).1 ≡ err invalid_packet_length
write_refused p i z h =
    let (body, shape, size) = write-Framed p i z in
    shape ∙ ap (λ r. followed_by r body) (pack_refuses (header_of (write p).0) h)
