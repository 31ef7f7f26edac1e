-- ===== src/Net/Exchange/Received.antt =====
-- net.go, startIncomingComms with ackFunc: the exchanges in which this side receives.
use paho_mqtt_golang.Base.{
  ℕ, ◌≤◌, ◌≡◌, refl, ap, ◌∙◌, inl, inr, [], ◌∷◌, Bytes, true, none, some, if◌then◌else◌, arith,
  str_eq, str_eq_self,
}
use paho_mqtt_golang.Base.Assoc.{nat_eq}
use paho_mqtt_golang.Packets.Header.{FixedHeader}
use paho_mqtt_golang.Packets.Packet.{
  ControlPacket, AckPacket, PublishPacket, details, packet_type, publish, puback, pubrec, pubrel,
  pubcomp,
}
use paho_mqtt_golang.Store.{StoreOps, inbound_key_from_mid, persist_outbound, persist_inbound}
use paho_mqtt_golang.Store.Keys.{mid_from_key_lem}
use paho_mqtt_golang.Store.Laws.{StoreView, StoreLaws}
use paho_mqtt_golang.Store.Persist.{
  IsReceived, inbound_request-IsReceived, outbound_request-IsAnswer,
}
use paho_mqtt_golang.Net.{Comms, new_ack, update_last_received}
use paho_mqtt_golang.Net.Incoming.{received, outbound, incoming_pub, handle_message, handle_network}
use paho_mqtt_golang.Net.Outgoing.{ack_func}

module _ {S : Type 0} (s : StoreOps S) (v : StoreView S) (laws : StoreLaws s v) where
  -- A packet that must be answered is kept, and then its type decides.
  handle_network-IsReceived :
      (now : ℕ) (m : ControlPacket) (c : Comms S)
      → IsReceived m
      → handle_network s now (received m) c
        ≡ handle_message s m (
            update_last_received now (record c {
              persist = s.put (inbound_key_from_mid (details m).message_id) m c.persist;
            }))
  unfolding handle_network persist_inbound
  handle_network-IsReceived now m c r = rw (inbound_request-IsReceived m r) refl

  handle_message-pubrel :
      (m : AckPacket) (c : Comms S) (st : S)
      → s.del (inbound_key_from_mid m.message_id) c.persist ≡ some st
      → handle_message s (pubrel m) c
        ≡ some (
          record c { persist = st },
          outbound (record { p = pubcomp (new_ack 7 m.message_id); t = none }) ∷ [],
        )
  unfolding handle_message persist_outbound details packet_type
  handle_message-pubrel m c st done =
      rw
        (
          outbound_request-IsAnswer (pubcomp (new_ack 7 m.message_id)) (refl, inr refl),
          details,
          done,
        )
        refl

  -- A PUBLISH with QoS 2 arrives, is acknowledged, and is released: what is stored and sent.
  abbrev pub IsReceivedOnce : ℕ → PublishPacket → FixedHeader → ℕ → Comms S → Type 0
  IsReceivedOnce now m fh later c =
      let rel = pubrel (record { fixed_header = fh; message_id = m.message_id }) in
      let key = inbound_key_from_mid m.message_id in
      (c1 : Comms S) × (c2 : Comms S) × (handle_network s now (received (publish m)) c
        ≡ some (c1, incoming_pub m ∷ []))
      × (s.get key c1.persist ≡ some (some (publish m)))
      × (ack_func s m c1 ≡ some (c1, record { p = pubrec (new_ack 5 m.message_id); t = none } ∷ []))
      × (handle_network s later (received rel) c1
          ≡ some (c2, outbound (record { p = pubcomp (new_ack 7 m.message_id); t = none }) ∷ []))
      × (s.get key c2.persist ≡ some none)
      × (c2.ids ≡ c.ids)
      × ((j : Bytes)
          → v.contents c2.persist j ≡ (if str_eq key j then none else v.contents c.persist j))

  -- With an open store that keeps the laws: a PUBLISH with QoS 2 and a 16-bit id is passed on once
  -- and kept under the inbound key of its id; its acknowledgement is the PUBREC of the id; the
  -- PUBREL of the id, with QoS 1 in its header, is answered by the PUBCOMP of the id and passes
  -- nothing on, and then the key is gone. No message id and no other key of the store is touched.
  pub exactly_once_received :
      (now later : ℕ) (m : PublishPacket) (fh : FixedHeader) (c : Comms S)
      → m.fixed_header.qos ≡ 2
      → m.message_id ≤ 65535
      → fh.qos ≡ 1
      → v.is_open c.persist ≡ true
      → IsReceivedOnce now m fh later c
  unfolding handle_message details packet_type update_last_received ack_func persist_outbound
  exactly_once_received now later m fh c two fits one o =
      let rel = pubrel (record { fixed_header = fh; message_id = m.message_id }) in
      let key = inbound_key_from_mid m.message_id in
      let known = (mid_from_key_lem m.message_id fits).0 in
      let st1 = s.put key (publish m) c.persist in
      let st2 = s.put key rel st1 in
      let put1 = laws.put_law c.persist key key (publish m) o in
      let put2 = laws.put_law st1 key key rel put1.0 in
      let (st3, done, open_after, at) = laws.del_law st2 key m.message_id put2.0 known in
      let c1 = update_last_received now (record c { persist = st1 }) in
      let c2 = update_last_received later (record c1 { persist = st2 }) in
      (
        c1,
        record c2 { persist = st3 },
        handle_network-IsReceived now (publish m) c (inl (refl, inr two)),
        laws.get_law st1 key m.message_id put1.0 known
            ∙ ap some (put1.1 ∙ rw (str_eq_self key) refl),
        rw two refl,
        handle_network-IsReceived later rel c1 (inr (refl, one))
            ∙ handle_message-pubrel (record { fixed_header = fh; message_id = m.message_id }) c2 st3
                done,
        laws.get_law st3 key m.message_id open_after known
            ∙ ap some (at key ∙ rw (str_eq_self key) refl),
        refl,
        λ j. ground (
          arith,
          at j,
          (laws.put_law st1 key j rel put1.0).1,
          (laws.put_law c.persist key j (publish m) o).1,
        ),
      )

  ack_func-puback :
      (m : PublishPacket) (c : Comms S) (st : S)
      → m.fixed_header.qos ≡ 1
      → s.del (inbound_key_from_mid m.message_id) c.persist ≡ some st
      → ack_func s m c
        ≡ some (
          record c { persist = st },
          record { p = puback (new_ack 4 m.message_id); t = none } ∷ [],
        )
  unfolding ack_func persist_outbound details packet_type
  ack_func-puback m c st one done =
      let ack = outbound_request-IsAnswer (puback (new_ack 4 m.message_id)) (refl, inl refl) in
      rw (one, ack, done) refl

  -- A PUBLISH with QoS 1 arrives and is acknowledged: what is stored and sent.
  abbrev pub IsReceivedAtLeastOnce : ℕ → PublishPacket → Comms S → Type 0
  IsReceivedAtLeastOnce now m c =
      let key = inbound_key_from_mid m.message_id in
      (c1 : Comms S) × (c2 : Comms S) × (handle_network s now (received (publish m)) c
        ≡ some (c1, incoming_pub m ∷ []))
      × (s.get key c1.persist ≡ some (some (publish m)))
      × (ack_func s m c1 ≡ some (c2, record { p = puback (new_ack 4 m.message_id); t = none } ∷ []))
      × (s.get key c2.persist ≡ some none)
      × (c2.ids ≡ c.ids)
      × ((j : Bytes)
          → v.contents c2.persist j ≡ (if str_eq key j then none else v.contents c.persist j))

  -- With an open store that keeps the laws: a PUBLISH with QoS 1 and a 16-bit id is passed on and
  -- kept under the inbound key of its id until it is acknowledged, which sends the PUBACK of the id;
  -- then the key is gone. No message id and no other key of the store is touched.
  pub at_least_once_received :
      (now : ℕ) (m : PublishPacket) (c : Comms S)
      → m.fixed_header.qos ≡ 1
      → m.message_id ≤ 65535
      → v.is_open c.persist ≡ true
      → IsReceivedAtLeastOnce now m c
  unfolding handle_message details packet_type update_last_received ack_func persist_outbound
  at_least_once_received now m c one fits o =
      let key = inbound_key_from_mid m.message_id in
      let known = (mid_from_key_lem m.message_id fits).0 in
      let st1 = s.put key (publish m) c.persist in
      let put1 = laws.put_law c.persist key key (publish m) o in
      let (st2, done, open_after, at) = laws.del_law st1 key m.message_id put1.0 known in
      let c1 = update_last_received now (record c { persist = st1 }) in
      (
        c1,
        record c1 { persist = st2 },
        handle_network-IsReceived now (publish m) c (inl (refl, inl one)),
        laws.get_law st1 key m.message_id put1.0 known
            ∙ ap some (put1.1 ∙ rw (str_eq_self key) refl),
        ack_func-puback m c1 st2 one done,
        laws.get_law st2 key m.message_id open_after known
            ∙ ap some (at key ∙ rw (str_eq_self key) refl),
        refl,
        λ j. ground (arith, at j, (laws.put_law c.persist key j (publish m) o).1),
      )
