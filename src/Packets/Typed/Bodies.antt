-- ===== src/Packets/Typed/Bodies.antt =====
-- packets/: an `Unpack` keeps the fixed header and the Go type of its packet.
use paho_mqtt_golang.Base.{ℕ, ◌+◌, ◌-◌, ◌≡◌, refl, [], Bytes, length, ltb, replicate, bit_and}
use paho_mqtt_golang.Packets.Result.{payload_length_negative}
use paho_mqtt_golang.Packets.Codec.{read, decode_byte, decode_uint16, decode_string, decode_bytes}
use paho_mqtt_golang.Packets.Header.{FixedHeader}
use paho_mqtt_golang.Packets.Packet.{
  ConnectPacket, ConnackPacket, PublishPacket, AckPacket, SubackPacket, ControlPacket, connect,
  connack, publish, puback, pubrec, pubrel, pubcomp, subscribe, suback, unsubscribe, unsuback,
  pingreq, pingresp, disconnect, packet_type, header_of,
}
use paho_mqtt_golang.Packets.Unpack.{
  Outcome, unpacked, stopped, outcome_map, unpack, unpack_connect, unpack_connack, unpack_publish,
  unpack_ack, unpack_suback, unpack_header, unpack_will, unpack_username, unpack_password,
  unpack_options, with_flags, unpack_payload, unpack_message_id,
}
use paho_mqtt_golang.Packets.Typed.Steps.{Keeps, Keeps-bind, Keeps-attempt, Keeps-assign, Keeps-if}
use paho_mqtt_golang.Packets.Typed.Topics.{
  SubscribeAt, UnsubscribeAt, unpack_subscribe-Keeps, unpack_unsubscribe-Keeps,
}

module _ (fh : FixedHeader) where
  abbrev ConnectAt : ConnectPacket → Type 0
  ConnectAt p = p.fixed_header ≡ fh

  abbrev PublishAt : PublishPacket → Type 0
  PublishAt p = p.fixed_header ≡ fh

  unpack_will-Keeps : (s : ConnectPacket × Bytes) → ConnectAt s.0 → Keeps ConnectAt (unpack_will s)
  unfolding unpack_will
  unpack_will-Keeps s h =
      Keeps-if ConnectAt s.0.will_flag _ (unpacked s)
        (Keeps-bind ConnectAt _ _
          (Keeps-assign ConnectAt [] decode_string
            (λ (p : ConnectPacket) v. record p { will_topic = v }) s (λ p a e. e) h)
          (λ s' h'.
            (Keeps-assign ConnectAt [] decode_bytes
              (λ (p : ConnectPacket) v. record p { will_message = v }) s' (λ p a e. e) h')))
        h

  unpack_connect-Keeps :
      (s : ConnectPacket × Bytes) → ConnectAt s.0 → Keeps ConnectAt (unpack_connect s)
  unfolding unpack_connect unpack_options unpack_username unpack_password with_flags
  unpack_connect-Keeps s h =
      Keeps-bind ConnectAt _ _
        (Keeps-assign ConnectAt [] decode_string
          (λ (p : ConnectPacket) v. record p { protocol_name = v }) s (λ p a e. e) h)
        (λ s h.
          Keeps-bind ConnectAt _ _
            (Keeps-assign ConnectAt 0 decode_byte
              (λ (p : ConnectPacket) v. record p { protocol_version = v }) s (λ p a e. e) h)
            (λ s h.
              Keeps-bind ConnectAt _ _ (Keeps-attempt ConnectAt decode_byte s _ h (λ a r. h))
                (λ s h.
                  Keeps-bind ConnectAt _ _
                    (Keeps-assign ConnectAt 0 decode_uint16
                      (λ (p : ConnectPacket) v. record p { keepalive = v }) s (λ p a e. e) h)
                    (λ s h.
                      Keeps-bind ConnectAt _ _
                        (Keeps-assign ConnectAt [] decode_string
                          (λ (p : ConnectPacket) v. record p { client_identifier = v }) s
                          (λ p a e. e) h)
                        (λ s h. Keeps-bind ConnectAt _ _ (unpack_will-Keeps s h) (λ s h.
                          Keeps-bind ConnectAt _ _
                            (Keeps-if ConnectAt s.0.username_flag _ (unpacked s)
                              (Keeps-assign ConnectAt [] decode_string
                                (λ (p : ConnectPacket) v. record p { username = v }) s (λ p a e. e)
                                h)
                              h)
                            (λ s h.
                              Keeps-if ConnectAt s.0.password_flag _ (unpacked s)
                                (Keeps-assign ConnectAt [] decode_bytes
                                  (λ (p : ConnectPacket) v. record p { password = v }) s
                                  (λ p a e. e) h)
                                h)))))))

  unpack_payload-Keeps :
      (used : ℕ) (s : PublishPacket × Bytes)
      → PublishAt s.0
      → Keeps PublishAt (unpack_payload used s)
  unfolding unpack_payload
  unpack_payload-Keeps used s h =
      let n = s.0.fixed_header.remaining_length in
      Keeps-if PublishAt (ltb n used) (stopped payload_length_negative s.0) _ h (
        Keeps-assign PublishAt (replicate (n - used) 0) (read (n - used))
          (λ (p : PublishPacket) v. record p { payload = v }) s (λ p a e. e) h)

  unpack_publish-Keeps :
      (s : PublishPacket × Bytes) → PublishAt s.0 → Keeps PublishAt (unpack_publish s)
  unfolding unpack_publish unpack_message_id
  unpack_publish-Keeps s h =
      Keeps-bind PublishAt _ _
        (Keeps-assign PublishAt [] decode_string
          (λ (p : PublishPacket) v. record p { topic_name = v }) s (λ p a e. e) h)
        (λ s h.
          Keeps-if PublishAt (ltb 0 s.0.fixed_header.qos) _
            (unpack_payload (length s.0.topic_name + 2) s)
            (Keeps-bind PublishAt _ _
              (Keeps-assign PublishAt 0 decode_uint16
                (λ (p : PublishPacket) v. record p { message_id = v }) s (λ p a e. e) h)
              (λ s' h'. unpack_payload-Keeps (length s.0.topic_name + 4) s' h'))
            (unpack_payload-Keeps (length s.0.topic_name + 2) s h))

  abbrev AckAt : AckPacket → Type 0
  AckAt p = p.fixed_header ≡ fh

  abbrev ConnackAt : ConnackPacket → Type 0
  ConnackAt p = p.fixed_header ≡ fh

  abbrev SubackAt : SubackPacket → Type 0
  SubackAt p = p.fixed_header ≡ fh

  unpack_ack-Keeps : (s : AckPacket × Bytes) → AckAt s.0 → Keeps AckAt (unpack_ack s)
  unfolding unpack_ack
  unpack_ack-Keeps s h =
      Keeps-assign AckAt 0 decode_uint16 (λ (p : AckPacket) v. record p { message_id = v }) s
        (λ p a e. e) h

  unpack_connack-Keeps :
      (s : ConnackPacket × Bytes) → ConnackAt s.0 → Keeps ConnackAt (unpack_connack s)
  unfolding unpack_connack
  unpack_connack-Keeps s h = Keeps-attempt ConnackAt decode_byte s _ h (λ flags r.
      Keeps-assign ConnackAt 0 decode_byte (λ (p : ConnackPacket) v. record p { return_code = v })
        (record (s.0) { session_present = ltb 0 (bit_and 1 flags) }, r) (λ p a e. e) h)

  unpack_suback-Keeps : (s : SubackPacket × Bytes) → SubackAt s.0 → Keeps SubackAt (unpack_suback s)
  unfolding unpack_suback
  unpack_suback-Keeps s h =
      Keeps-bind SubackAt _ _
        (Keeps-assign SubackAt 0 decode_uint16 (λ (p : SubackPacket) v. record p { message_id = v })
          s (λ p a e. e) h)
        (λ s h. h)

  -- The packet has the type number `t`, and the header.
  abbrev pub IsOf : ℕ → ControlPacket → Type 0
  IsOf t cp = (packet_type cp ≡ t) × (header_of cp ≡ fh)

  Keeps-outcome_map :
      {P : Type 0} (c : P → ControlPacket) (q : P → Type 0) (t : ℕ) (o : Outcome P)
      → ((p : P) → q p → IsOf t (c p))
      → Keeps q o
      → Keeps (IsOf t) (outcome_map c o)
  Keeps-outcome_map c q t (unpacked (p, b)) f h = f p h
  Keeps-outcome_map c q t (stopped e p) f h = f p h

  pub unpack-Keeps :
      (cp : ControlPacket) (b : Bytes)
      → header_of cp ≡ fh
      → Keeps (IsOf (packet_type cp)) (unpack cp b)
  unfolding unpack packet_type header_of unpack_header
  unpack-Keeps (connect p) b h =
      Keeps-outcome_map connect ConnectAt 1 _ (λ p e. (refl, e)) (unpack_connect-Keeps (p, b) h)
  unpack-Keeps (connack p) b h =
      Keeps-outcome_map connack ConnackAt 2 _ (λ p e. (refl, e)) (unpack_connack-Keeps (p, b) h)
  unpack-Keeps (publish p) b h =
      Keeps-outcome_map publish PublishAt 3 _ (λ p e. (refl, e)) (unpack_publish-Keeps (p, b) h)
  unpack-Keeps (puback p) b h =
      Keeps-outcome_map puback AckAt 4 _ (λ p e. (refl, e)) (unpack_ack-Keeps (p, b) h)
  unpack-Keeps (pubrec p) b h =
      Keeps-outcome_map pubrec AckAt 5 _ (λ p e. (refl, e)) (unpack_ack-Keeps (p, b) h)
  unpack-Keeps (pubrel p) b h =
      Keeps-outcome_map pubrel AckAt 6 _ (λ p e. (refl, e)) (unpack_ack-Keeps (p, b) h)
  unpack-Keeps (pubcomp p) b h =
      Keeps-outcome_map pubcomp AckAt 7 _ (λ p e. (refl, e)) (unpack_ack-Keeps (p, b) h)
  unpack-Keeps (subscribe p) b h =
      Keeps-outcome_map subscribe (SubscribeAt fh) 8 _ (λ p e. (refl, e))
        (unpack_subscribe-Keeps fh (p, b) h)
  unpack-Keeps (suback p) b h =
      Keeps-outcome_map suback SubackAt 9 _ (λ p e. (refl, e)) (unpack_suback-Keeps (p, b) h)
  unpack-Keeps (unsubscribe p) b h =
      Keeps-outcome_map unsubscribe (UnsubscribeAt fh) 10 _ (λ p e. (refl, e))
        (unpack_unsubscribe-Keeps fh (p, b) h)
  unpack-Keeps (unsuback p) b h =
      Keeps-outcome_map unsuback AckAt 11 _ (λ p e. (refl, e)) (unpack_ack-Keeps (p, b) h)
  unpack-Keeps (pingreq p) b h = (refl, h)
  unpack-Keeps (pingresp p) b h = (refl, h)
  unpack-Keeps (disconnect p) b h = (refl, h)
