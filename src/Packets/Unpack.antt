-- ===== src/Packets/Unpack.antt =====
-- packets/: the methods `Unpack`, which read the body of a packet behind its fixed header from a
-- bytes.Buffer. A packet is given back as `Unpack` leaves it, also where it returns an error.
mod Steps
pub use Steps.{Outcome, unpacked, stopped, attempt, assign, ◌>>=◌}
use paho_mqtt_golang.Base.{
  ℕ, zero, suc, ◌+◌, ◌-◌, ◌/◌, bit_and, [], ◌∷◌, ◌++◌, Bytes, Bool, true, false, if◌then◌else◌, ltb,
  length, replicate,
}
use paho_mqtt_golang.Packets.Result.{got, failed, payload_length_negative}
use paho_mqtt_golang.Packets.Codec.{read, decode_byte, decode_uint16, decode_string, decode_bytes}
use paho_mqtt_golang.Packets.Packet.{
  ConnectPacket, ConnackPacket, PublishPacket, AckPacket, SubscribePacket, SubackPacket,
  UnsubscribePacket, HeaderPacket, ControlPacket, connect, connack, publish, puback, pubrec, pubrel,
  pubcomp, subscribe, suback, unsubscribe, unsuback, pingreq, pingresp, disconnect,
}

-- `mask & (options >> k) > 0` and the like on the flags of CONNECT.
abbrev pub flag : ℕ → ℕ → Bool
flag options shift = ltb 0 (bit_and 1 (options / shift))

unfoldable pub with_flags : ConnectPacket → ℕ → ConnectPacket
with_flags c options = record c {
  reserved_bit = bit_and 1 options;
  clean_session = flag options 2;
  will_flag = flag options 4;
  will_qos = bit_and 3 (options / 8);
  will_retain = flag options 32;
  password_flag = flag options 64;
  username_flag = flag options 128;
}

unfoldable pub unpack_will : ConnectPacket × Bytes → Outcome ConnectPacket
unpack_will (c, b) =
    if c.will_flag
    then (do
      s ← assign [] decode_string (λ (c : ConnectPacket) v. record c { will_topic = v }) (c, b)
      assign [] decode_bytes (λ (c : ConnectPacket) v. record c { will_message = v }) s)
    else unpacked (c, b)

unfoldable pub unpack_username : ConnectPacket × Bytes → Outcome ConnectPacket
unpack_username (c, b) =
    if c.username_flag
    then assign [] decode_string (λ (c : ConnectPacket) v. record c { username = v }) (c, b)
    else unpacked (c, b)

unfoldable pub unpack_password : ConnectPacket × Bytes → Outcome ConnectPacket
unpack_password (c, b) =
    if c.password_flag
    then assign [] decode_bytes (λ (c : ConnectPacket) v. record c { password = v }) (c, b)
    else unpacked (c, b)

unfoldable pub unpack_options : ConnectPacket × Bytes → Outcome ConnectPacket
unpack_options (c, b) = attempt decode_byte (c, b) (λ options r. unpacked (with_flags c options, r))

unfoldable pub unpack_connect : ConnectPacket × Bytes → Outcome ConnectPacket
unpack_connect s = do
  s ← assign [] decode_string (λ (c : ConnectPacket) v. record c { protocol_name = v }) s
  s ← assign 0 decode_byte (λ (c : ConnectPacket) v. record c { protocol_version = v }) s
  s ← unpack_options s
  s ← assign 0 decode_uint16 (λ (c : ConnectPacket) v. record c { keepalive = v }) s
  s ← assign [] decode_string (λ (c : ConnectPacket) v. record c { client_identifier = v }) s
  s ← unpack_will s
  s ← unpack_username s
  unpack_password s

unfoldable pub unpack_connack : ConnackPacket × Bytes → Outcome ConnackPacket
unpack_connack (ca, b) =
    attempt decode_byte (ca, b)
      (λ flags r.
        assign 0 decode_byte (λ (ca : ConnackPacket) v. record ca { return_code = v })
          (record ca { session_present = ltb 0 (bit_and 1 flags) }, r))

-- The rest of the body is the payload; `used` is what the topic and the message id took.
unfoldable pub unpack_payload : ℕ → PublishPacket × Bytes → Outcome PublishPacket
unpack_payload used (p, b) =
    let n = p.fixed_header.remaining_length in
    if ltb n used
    then stopped payload_length_negative p
    else assign (replicate (n - used) 0) (read (n - used))
        (λ (p : PublishPacket) v. record p { payload = v }) (p, b)

unfoldable pub unpack_message_id : PublishPacket × Bytes → Outcome PublishPacket
unfolding unpack_payload
unpack_message_id (p, b) =
    if ltb 0 p.fixed_header.qos
    then (do
      s ← assign 0 decode_uint16 (λ (p : PublishPacket) v. record p { message_id = v }) (p, b)
      unpack_payload (length p.topic_name + 4) s)
    else unpack_payload (length p.topic_name + 2) (p, b)

unfoldable pub unpack_publish : PublishPacket × Bytes → Outcome PublishPacket
unfolding unpack_message_id
unpack_publish s = do
  s ← assign [] decode_string (λ (p : PublishPacket) v. record p { topic_name = v }) s
  unpack_message_id s

-- PUBACK, PUBREC, PUBREL, PUBCOMP and UNSUBACK are read alike.
unfoldable pub unpack_ack : AckPacket × Bytes → Outcome AckPacket
unpack_ack = assign 0 decode_uint16 (λ (p : AckPacket) v. record p { message_id = v })

abbrev pub unpack_puback : AckPacket × Bytes → Outcome AckPacket
unpack_puback = unpack_ack

abbrev pub unpack_pubrec : AckPacket × Bytes → Outcome AckPacket
unpack_pubrec = unpack_ack

abbrev pub unpack_pubrel : AckPacket × Bytes → Outcome AckPacket
unpack_pubrel = unpack_ack

abbrev pub unpack_pubcomp : AckPacket × Bytes → Outcome AckPacket
unpack_pubcomp = unpack_ack

abbrev pub unpack_unsuback : AckPacket × Bytes → Outcome AckPacket
unpack_unsuback = unpack_ack

-- The loop `for payloadLength > 0`. `left` is `payloadLength`, or 0 where that is negative, and
-- falls by three at least in a round, so that many rounds of fuel are enough.
unfoldable pub subscribe_loop : ℕ → ℕ → SubscribePacket × Bytes → Outcome SubscribePacket
subscribe_loop zero left s = unpacked s
subscribe_loop (suc fuel) zero s = unpacked s
subscribe_loop (suc fuel) (suc left) s = attempt decode_string s (λ topic b.
    attempt decode_byte (record (s.0) { topics = s.0.topics ++ (topic ∷ []) }, b)
      (λ qos b.
        subscribe_loop fuel (suc left - (2 + length topic + 1))
          (record (s.0) { topics = s.0.topics ++ (topic ∷ []); qoss = s.0.qoss ++ (qos ∷ []) }, b)))

unfoldable pub unpack_subscribe : SubscribePacket × Bytes → Outcome SubscribePacket
unpack_subscribe s = do
  s ← assign 0 decode_uint16 (λ (p : SubscribePacket) v. record p { message_id = v }) s
  subscribe_loop (s.0.fixed_header.remaining_length - 2) (s.0.fixed_header.remaining_length - 2) s

-- `qosBuffer.ReadFrom(b)` takes all that is left.
unfoldable pub unpack_suback : SubackPacket × Bytes → Outcome SubackPacket
unpack_suback s = do
  (sa, b) ← assign 0 decode_uint16 (λ (p : SubackPacket) v. record p { message_id = v }) s
  unpacked (record sa { return_codes = b }, [])

abbrev pub is_empty : Bytes → Bool
is_empty [] = true
is_empty (_ ∷ _) = false

-- The loop ends on the empty topic and on an error, which then is no error of `Unpack`: the `err` of
-- the loop hides the outer one. A failing decode leaves an empty buffer. A round with a topic takes
-- a byte at least, so the length of the buffer is fuel enough.
unfoldable pub unsubscribe_loop : ℕ → UnsubscribePacket × Bytes → Outcome UnsubscribePacket
unsubscribe_loop zero (u, b) = unpacked (u, [])
unsubscribe_loop (suc fuel) (u, b) = elim (decode_string b) [
  | got topic r ↦
      let more = unsubscribe_loop fuel (record u { topics = u.topics ++ (topic ∷ []) }, r) in
      if is_empty topic then unpacked (u, r) else more
  | failed e ↦ unpacked (u, [])
]

unfoldable pub unpack_unsubscribe : UnsubscribePacket × Bytes → Outcome UnsubscribePacket
unpack_unsubscribe s = do
  s ← assign 0 decode_uint16 (λ (p : UnsubscribePacket) v. record p { message_id = v }) s
  unsubscribe_loop (length s.1) s

-- PINGREQ, PINGRESP and DISCONNECT have no body.
unfoldable pub unpack_header : HeaderPacket × Bytes → Outcome HeaderPacket
unpack_header s = unpacked s

abbrev pub unpack_pingreq : HeaderPacket × Bytes → Outcome HeaderPacket
unpack_pingreq = unpack_header

abbrev pub unpack_pingresp : HeaderPacket × Bytes → Outcome HeaderPacket
unpack_pingresp = unpack_header

abbrev pub unpack_disconnect : HeaderPacket × Bytes → Outcome HeaderPacket
unpack_disconnect = unpack_header

abbrev pub outcome_map : {P : Type 0} → (P → ControlPacket) → Outcome P → Outcome ControlPacket
outcome_map c (unpacked (p, b)) = unpacked (c p, b)
outcome_map c (stopped e p) = stopped e (c p)

-- The method `Unpack` of the interface.
unfoldable pub unpack : ControlPacket → Bytes → Outcome ControlPacket
unpack (connect p) b = outcome_map connect (unpack_connect (p, b))
unpack (connack p) b = outcome_map connack (unpack_connack (p, b))
unpack (publish p) b = outcome_map publish (unpack_publish (p, b))
unpack (puback p) b = outcome_map puback (unpack_puback (p, b))
unpack (pubrec p) b = outcome_map pubrec (unpack_pubrec (p, b))
unpack (pubrel p) b = outcome_map pubrel (unpack_pubrel (p, b))
unpack (pubcomp p) b = outcome_map pubcomp (unpack_pubcomp (p, b))
unpack (subscribe p) b = outcome_map subscribe (unpack_subscribe (p, b))
unpack (suback p) b = outcome_map suback (unpack_suback (p, b))
unpack (unsubscribe p) b = outcome_map unsubscribe (unpack_unsubscribe (p, b))
unpack (unsuback p) b = outcome_map unsuback (unpack_unsuback (p, b))
unpack (pingreq p) b = outcome_map pingreq (unpack_pingreq (p, b))
unpack (pingresp p) b = outcome_map pingresp (unpack_pingresp (p, b))
unpack (disconnect p) b = outcome_map disconnect (unpack_disconnect (p, b))
