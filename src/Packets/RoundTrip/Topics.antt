-- ===== src/Packets/RoundTrip/Topics.antt =====
-- PUBLISH, SUBSCRIBE and UNSUBSCRIBE: bodies with topics.
use paho_mqtt_golang.Base.{
  ℕ, zero, suc, ◌+◌, ◌-◌, ◌≤◌, ◌<◌, ◌≡◌, refl, List, [], ◌∷◌, ◌++◌, append-nil, append_assoc, Bytes,
  true, false, length, length-append, All, arith, ltb,
}
use paho_mqtt_golang.Packets.Result.{ok, got}
use paho_mqtt_golang.Packets.Codec.{encode_uint16, read, encode_string}
use paho_mqtt_golang.Packets.Codec.Fields.{
  decode_byte-cons, decode_string-nil, decode_uint16-encode_uint16, decode_string_short,
  read-append, length-encode_bytes,
}
use paho_mqtt_golang.Packets.Header.{FixedHeader}
use paho_mqtt_golang.Packets.Packet.{SubscribePacket, UnsubscribePacket}
use paho_mqtt_golang.Packets.Write.{subscribe_topics, unsubscribe_topics}
use paho_mqtt_golang.Packets.Unpack.{
  unpacked, unpack_publish, unpack_subscribe, subscribe_loop, unpack_unsubscribe, unsubscribe_loop,
}

abbrev pub IsTopic : Bytes → Type 0
IsTopic t = length t ≤ 65535

pub length-encode_string : (t : Bytes) → IsTopic t → length (encode_string t) ≡ length t + 2
unfolding encode_string
length-encode_string t h = length-encode_bytes t h

read_all : (xs : Bytes) (n : ℕ) → n ≡ length xs → read n xs ≡ got xs []
read_all xs n e = rw e (rw append-nil at (read-append xs []))

-- With QoS 0 no message id is written, and none is read.
pub unpack_publish-body :
    (fh : FixedHeader) (topic payload : Bytes) (n : ℕ)
    → IsTopic topic
    → n < 65536
    → ltb 0 fh.qos ≡ true
    → fh.remaining_length ≡ length topic + 4 + length payload
    → unpack_publish (
      record { fixed_header = fh; topic_name = []; message_id = 0; payload = [] },
      encode_string topic ++ (encode_uint16 n ++ payload),
    )
      ≡ unpacked
          (record { fixed_header = fh; topic_name = topic; message_id = n; payload = payload }, [])
unfolding unpack_publish
unpack_publish-body fh topic payload n ht hn qos size = ground (
  arith,
  decode_string_short topic (encode_uint16 n ++ payload) ht,
  decode_uint16-encode_uint16 n payload hn,
  read_all payload (fh.remaining_length - (length topic + 4)) (omega arith),
)

pub unpack_publish-body_plain :
    (fh : FixedHeader) (topic payload : Bytes)
    → IsTopic topic
    → ltb 0 fh.qos ≡ false
    → fh.remaining_length ≡ length topic + 2 + length payload
    → unpack_publish (
      record { fixed_header = fh; topic_name = []; message_id = 0; payload = [] },
      encode_string topic ++ payload,
    )
      ≡ unpacked
          (record { fixed_header = fh; topic_name = topic; message_id = 0; payload = payload }, [])
unfolding unpack_publish
unpack_publish-body_plain fh topic payload ht qos size = ground (
  arith,
  decode_string_short topic payload ht,
  read_all payload (fh.remaining_length - (length topic + 2)) (omega arith),
)

-- The body of SUBSCRIBE behind the message id, where every topic has its QoS.
abbrev pub subscribe_bytes : List Bytes → Bytes → Bytes
subscribe_bytes (t ∷ ts) (q ∷ qs) = encode_string t ++ (q ∷ subscribe_bytes ts qs)
subscribe_bytes _ _ = []

pub subscribe_topics_lem :
    (ts : List Bytes) (qs : Bytes)
    → length ts ≡ length qs
    → subscribe_topics ts qs ≡ ok (subscribe_bytes ts qs)
unfolding subscribe_topics
subscribe_topics_lem [] [] h = refl
subscribe_topics_lem [] (q ∷ qs) h = absurd (omega arith)
subscribe_topics_lem (t ∷ ts) [] h = absurd (omega arith)
subscribe_topics_lem (t ∷ ts) (q ∷ qs) h = ground (arith, subscribe_topics_lem ts qs (omega arith))

subscribe_loop_step :
    (fuel left q : ℕ) (t b : Bytes) (s : SubscribePacket)
    → IsTopic t
    → subscribe_loop (suc fuel) (suc left) (s, encode_string t ++ (q ∷ b))
      ≡ subscribe_loop fuel
          (suc left - (2 + length t + 1))
          (record s { topics = s.topics ++ (t ∷ []); qoss = s.qoss ++ (q ∷ []) }, b)
unfolding subscribe_loop
subscribe_loop_step fuel left q t b s h =
    ground (arith, decode_string_short t (q ∷ b) h, decode_byte-cons q b)

length-topic_bytes :
    (t b : Bytes) → IsTopic t → length (encode_string t ++ b) ≡ 2 + length t + length b
length-topic_bytes t b h =
    omega (arith, length-append (encode_string t) b, length-encode_string t h)

subscribe_loop_end :
    (fuel : ℕ) (s : SubscribePacket)
    → subscribe_loop fuel 0 (s, [])
      ≡ unpacked (record s { topics = s.topics ++ []; qoss = s.qoss ++ [] }, [])
unfolding subscribe_loop
subscribe_loop_end zero s = ground (arith, append-nil s.topics, append-nil s.qoss)
subscribe_loop_end (suc fuel) s = ground (arith, append-nil s.topics, append-nil s.qoss)

-- The loop reads back the topics, where `left` is what they take.
pub subscribe_loop-topics :
    (ts : List Bytes) (qs : Bytes) (fuel left : ℕ) (s : SubscribePacket)
    → All IsTopic ts
    → length ts ≡ length qs
    → left ≡ length (subscribe_bytes ts qs)
    → left ≤ fuel
    → subscribe_loop fuel left (s, subscribe_bytes ts qs)
      ≡ unpacked (record s { topics = s.topics ++ ts; qoss = s.qoss ++ qs }, [])
subscribe_loop-topics [] [] fuel left s ht same e hf = rw e (subscribe_loop_end fuel s)
subscribe_loop-topics [] (q ∷ qs) fuel left s ht same e hf = absurd (omega arith)
subscribe_loop-topics (t ∷ ts) [] fuel left s ht same e hf = absurd (omega arith)
subscribe_loop-topics (t ∷ ts) (q ∷ qs) fuel zero s ht same e hf =
    absurd (omega (arith, length-topic_bytes t (q ∷ subscribe_bytes ts qs) ht.0))
subscribe_loop-topics (t ∷ ts) (q ∷ qs) zero (suc left) s ht same e hf = absurd (omega arith)
subscribe_loop-topics (t ∷ ts) (q ∷ qs) (suc fuel) (suc left) s ht same e hf =
    let size = length-topic_bytes t (q ∷ subscribe_bytes ts qs) ht.0 in
    ground (
      arith,
      subscribe_loop_step fuel left q t (subscribe_bytes ts qs) s ht.0,
      subscribe_loop-topics ts qs fuel (suc left - (2 + length t + 1))
          (record s { topics = s.topics ++ (t ∷ []); qoss = s.qoss ++ (q ∷ []) }) ht.1 (omega arith)
          (omega (arith, size)) (omega arith),
      append_assoc s.topics (t ∷ []) ts,
      append_assoc s.qoss (q ∷ []) qs,
    )

unsubscribe_loop_step :
    (fuel : ℕ) (t b : Bytes) (u : UnsubscribePacket)
    → IsTopic t
    → 0 < length t
    → unsubscribe_loop (suc fuel) (u, encode_string t ++ b)
      ≡ unsubscribe_loop fuel (record u { topics = u.topics ++ (t ∷ []) }, b)
unfolding unsubscribe_loop
unsubscribe_loop_step fuel [] b u h pos = absurd (omega arith)
unsubscribe_loop_step fuel (x ∷ t) b u h pos = ground (arith, decode_string_short (x ∷ t) b h)

unsubscribe_loop-topics :
    (topics : List Bytes) (fuel : ℕ) (u : UnsubscribePacket)
    → All (λ t. IsTopic t × (0 < length t)) topics
    → length (unsubscribe_topics topics) ≤ fuel
    → unsubscribe_loop fuel (u, unsubscribe_topics topics)
      ≡ unpacked (record u { topics = u.topics ++ topics }, [])
unfolding unsubscribe_topics
unsubscribe_loop-topics [] zero u ht hf =
    unfold unsubscribe_loop in ground (arith, append-nil u.topics)
unsubscribe_loop-topics [] (suc fuel) u ht hf =
    unfold unsubscribe_loop in ground (arith, append-nil u.topics, decode_string-nil)
unsubscribe_loop-topics (t ∷ ts) zero u ht hf =
    absurd (omega (arith, length-topic_bytes t (unsubscribe_topics ts) ht.0.0))
unsubscribe_loop-topics (t ∷ ts) (suc fuel) u ht hf =
    let size = length-topic_bytes t (unsubscribe_topics ts) ht.0.0 in
    ground (
      arith,
      unsubscribe_loop_step fuel t (unsubscribe_topics ts) u ht.0.0 ht.0.1,
      unsubscribe_loop-topics ts fuel (record u { topics = u.topics ++ (t ∷ []) }) ht.1
          (omega (arith, size)),
      append_assoc u.topics (t ∷ []) ts,
    )

pub unpack_subscribe-body :
    (fh : FixedHeader) (n : ℕ) (ts : List Bytes) (qs : Bytes)
    → n < 65536
    → All IsTopic ts
    → length ts ≡ length qs
    → fh.remaining_length ≡ 2 + length (subscribe_bytes ts qs)
    → unpack_subscribe (
      record { fixed_header = fh; message_id = 0; topics = []; qoss = [] },
      encode_uint16 n ++ subscribe_bytes ts qs,
    )
      ≡ unpacked (record { fixed_header = fh; message_id = n; topics = ts; qoss = qs }, [])
unfolding unpack_subscribe
unpack_subscribe-body fh n ts qs hn ht same size = ground (
  arith,
  decode_uint16-encode_uint16 n (subscribe_bytes ts qs) hn,
  subscribe_loop-topics ts qs (fh.remaining_length - 2) (fh.remaining_length - 2)
      (record { fixed_header = fh; message_id = n; topics = []; qoss = [] }) ht same (omega arith)
      (omega arith),
)

pub unpack_unsubscribe-body :
    (fh : FixedHeader) (n : ℕ) (ts : List Bytes)
    → n < 65536
    → All (λ t. IsTopic t × (0 < length t)) ts
    → unpack_unsubscribe (
      record { fixed_header = fh; message_id = 0; topics = [] },
      encode_uint16 n ++ unsubscribe_topics ts,
    )
      ≡ unpacked (record { fixed_header = fh; message_id = n; topics = ts }, [])
unfolding unpack_unsubscribe
unpack_unsubscribe-body fh n ts hn ht = ground (
  arith,
  decode_uint16-encode_uint16 n (unsubscribe_topics ts) hn,
  unsubscribe_loop-topics ts (length (unsubscribe_topics ts))
      (record { fixed_header = fh; message_id = n; topics = [] }) ht (omega arith),
)
