-- ===== src/Packets/Typed/Topics.antt =====
-- packets/: `Unpack` of SUBSCRIBE and UNSUBSCRIBE keeps the fixed header.
use paho_mqtt_golang.Base.{ℕ, suc, zero, ◌+◌, ◌-◌, ◌≡◌, [], ◌∷◌, ◌++◌, Bytes, if◌then◌else◌, length}
use paho_mqtt_golang.Packets.Result.{Decoded, got, failed}
use paho_mqtt_golang.Packets.Codec.{decode_byte, decode_uint16, decode_string}
use paho_mqtt_golang.Packets.Header.{FixedHeader}
use paho_mqtt_golang.Packets.Packet.{SubscribePacket, UnsubscribePacket}
use paho_mqtt_golang.Packets.Unpack.{
  unpacked, unpack_subscribe, unpack_unsubscribe, subscribe_loop, unsubscribe_loop, is_empty,
}
use paho_mqtt_golang.Packets.Typed.Steps.{Keeps, Keeps-bind, Keeps-attempt, Keeps-assign, Keeps-if}

module _ (fh : FixedHeader) where
  abbrev pub SubscribeAt : SubscribePacket → Type 0
  SubscribeAt p = p.fixed_header ≡ fh

  abbrev pub UnsubscribeAt : UnsubscribePacket → Type 0
  UnsubscribeAt p = p.fixed_header ≡ fh

  subscribe_loop-Keeps :
      (fuel left : ℕ) (s : SubscribePacket × Bytes)
      → SubscribeAt s.0
      → Keeps SubscribeAt (subscribe_loop fuel left s)
  unfolding subscribe_loop
  subscribe_loop-Keeps zero left s h = h
  subscribe_loop-Keeps (suc fuel) zero s h = h
  subscribe_loop-Keeps (suc fuel) (suc left) s h =
      Keeps-attempt SubscribeAt decode_string s _ h (λ topic b.
        Keeps-attempt SubscribeAt decode_byte
          (record (s.0) { topics = s.0.topics ++ (topic ∷ []) }, b) _ h
          (λ qos b. subscribe_loop-Keeps fuel (suc left - (2 + length topic + 1)) _ h))

  pub unpack_subscribe-Keeps :
      (s : SubscribePacket × Bytes) → SubscribeAt s.0 → Keeps SubscribeAt (unpack_subscribe s)
  unfolding unpack_subscribe
  unpack_subscribe-Keeps s h =
      Keeps-bind SubscribeAt _ _
        (Keeps-assign SubscribeAt 0 decode_uint16
          (λ (p : SubscribePacket) v. record p { message_id = v }) s (λ p a e. e) h)
        (λ s h.
          subscribe_loop-Keeps (s.0.fixed_header.remaining_length - 2)
            (s.0.fixed_header.remaining_length - 2) s h)

  unsubscribe_loop-Keeps :
      (fuel : ℕ) (s : UnsubscribePacket × Bytes)
      → UnsubscribeAt s.0
      → Keeps UnsubscribeAt (unsubscribe_loop fuel s)
  unfolding unsubscribe_loop
  unsubscribe_loop-Keeps zero s h = h
  unsubscribe_loop-Keeps (suc fuel) (u, b) h =
      go (decode_string b) (λ topic r.
        unsubscribe_loop-Keeps fuel (record u { topics = u.topics ++ (topic ∷ []) }, r) h)
    where
      go :
          (x : Decoded Bytes)
          → ((topic r : Bytes)
              → Keeps UnsubscribeAt
                  (unsubscribe_loop fuel (record u { topics = u.topics ++ (topic ∷ []) }, r)))
          → Keeps UnsubscribeAt (elim x [
            | got topic r ↦
                if is_empty topic
                then unpacked (u, r)
                else unsubscribe_loop fuel (record u { topics = u.topics ++ (topic ∷ []) }, r)
            | failed e ↦ unpacked (u, [])
          ])
      go (got topic r) k = Keeps-if UnsubscribeAt (is_empty topic) (unpacked (u, r)) _ h (k topic r)
      go (failed e) k = h

  pub unpack_unsubscribe-Keeps :
      (s : UnsubscribePacket × Bytes)
      → UnsubscribeAt s.0
      → Keeps UnsubscribeAt (unpack_unsubscribe s)
  unfolding unpack_unsubscribe
  unpack_unsubscribe-Keeps s h =
      Keeps-bind UnsubscribeAt _ _
        (Keeps-assign UnsubscribeAt 0 decode_uint16
          (λ (p : UnsubscribePacket) v. record p { message_id = v }) s (λ p a e. e) h)
        (λ s h. unsubscribe_loop-Keeps (length s.1) s h)
