-- ===== src/Store/Persist.antt =====
-- persistInbound and persistOutbound over any store with the laws of Store.Laws.
use paho_mqtt_golang.Base.{
  ℕ, ◌≡◌, ◌≤◌, ◌⊎◌, refl, ap, ◌∙◌, Bytes, true, Option, none, some, if◌then◌else◌, str_eq,
  str_eq_self, arith,
}
use paho_mqtt_golang.Packets.Packet.{ControlPacket, details, packet_type}
use paho_mqtt_golang.Store.{
  StoreOps, inbound_key_from_mid, outbound_key_from_mid, mid_from_key, store, remove,
  outbound_request, inbound_request, run_request, persist_outbound, persist_inbound,
}
use paho_mqtt_golang.Store.Keys.{mid_from_key_lem}
use paho_mqtt_golang.Store.Laws.{StoreView, StoreLaws}

-- A packet that ends the exchange of its id: PUBACK, PUBCOMP, SUBACK or UNSUBACK, with QoS 0 in its
-- header.
abbrev pub IsFinal : ControlPacket → Type 0
IsFinal m =
    ((details m).qos ≡ 0)
    × ((packet_type m ≡ 4) ⊎ (packet_type m ≡ 7) ⊎ (packet_type m ≡ 9) ⊎ (packet_type m ≡ 11))

-- A message that waits for one: PUBLISH with QoS 1 or 2, or SUBSCRIBE, UNSUBSCRIBE or PUBREL with QoS 1.
abbrev pub IsPending : ControlPacket → Type 0
IsPending m =
    ((packet_type m ≡ 3) × (((details m).qos ≡ 1) ⊎ ((details m).qos ≡ 2)))
    ⊎ (((packet_type m ≡ 6) ⊎ (packet_type m ≡ 8) ⊎ (packet_type m ≡ 10)) × ((details m).qos ≡ 1))

pub outbound_request-IsPending :
    (m : ControlPacket)
    → IsPending m
    → outbound_request m ≡ store (outbound_key_from_mid (details m).message_id)
unfolding outbound_request
outbound_request-IsPending m p = ground arith

pub inbound_request-IsFinal :
    (m : ControlPacket)
    → IsFinal m
    → inbound_request m ≡ remove (outbound_key_from_mid (details m).message_id)
unfolding inbound_request
inbound_request-IsFinal m f = ground arith

-- What this side sends to end an exchange: PUBACK or PUBCOMP.
abbrev pub IsAnswer : ControlPacket → Type 0
IsAnswer m = ((details m).qos ≡ 0) × ((packet_type m ≡ 4) ⊎ (packet_type m ≡ 7))

-- What is kept until it is answered: PUBLISH with QoS 1 or 2, or PUBREL with QoS 1.
abbrev pub IsReceived : ControlPacket → Type 0
IsReceived m =
    ((packet_type m ≡ 3) × (((details m).qos ≡ 1) ⊎ ((details m).qos ≡ 2)))
    ⊎ ((packet_type m ≡ 6) × ((details m).qos ≡ 1))

pub inbound_request-IsReceived :
    (m : ControlPacket)
    → IsReceived m
    → inbound_request m ≡ store (inbound_key_from_mid (details m).message_id)
unfolding inbound_request
inbound_request-IsReceived m p = ground arith

pub outbound_request-IsAnswer :
    (m : ControlPacket)
    → IsAnswer m
    → outbound_request m ≡ remove (inbound_key_from_mid (details m).message_id)
unfolding outbound_request
outbound_request-IsAnswer m f = ground arith

module _ {S : Type 0} (s : StoreOps S) (v : StoreView S) (laws : StoreLaws s v) where
  -- One message put under a key, then the key deleted: the packet is there between, and after both
  -- the store is as it was but for the key.
  abbrev pub KeptUntil : Bytes → Bytes → ControlPacket → S → Option S → (S → Option S) → Type 0
  KeptUntil key other m st begun ended =
      (st' : S) × (st'' : S) × (begun ≡ some st')
      × (s.get key st' ≡ some (some m))
      × (ended st' ≡ some st'')
      × (s.get key st'' ≡ some none)
      × (v.contents st'' other ≡ (if str_eq key other then none else v.contents st other))

  kept_until_lem :
      (st : S) (key other : Bytes) (id : ℕ) (m a : ControlPacket)
      → v.is_open st ≡ true
      → mid_from_key key ≡ some id
      → KeptUntil key other m st (run_request s (store key) m st) (run_request s (remove key) a)
  kept_until_lem st key other id m a o k =
      let put = laws.put_law st key key m o in
      let (st'', done, open_after, at) = laws.del_law (s.put key m st) key id put.0 k in
      (
        s.put key m st,
        st'',
        refl,
        laws.get_law (s.put key m st) key id put.0 k ∙ ap some (put.1 ∙ rw (str_eq_self key) refl),
        done,
        laws.get_law st'' key id open_after k ∙ ap some (at key ∙ rw (str_eq_self key) refl),
        ground (arith, at other, (laws.put_law st key other m o).1),
      )

  -- In an open store that keeps the laws, a message with a 16-bit id that waits for an answer
  -- (PUBLISH with QoS 1 or 2, SUBSCRIBE, UNSUBSCRIBE, PUBREL) is under the outbound key of its id
  -- once it is sent; once the PUBACK, PUBCOMP, SUBACK or UNSUBACK of the id arrives it is gone, and
  -- no other key is touched.
  pub persist_outbound-IsPending :
      (st : S) (other : Bytes) (m a : ControlPacket)
      → v.is_open st ≡ true
      → (details m).message_id ≤ 65535
      → (details a).message_id ≡ (details m).message_id
      → IsPending m
      → IsFinal a
      → KeptUntil
          (outbound_key_from_mid (details m).message_id)
          other
          m
          st
          (persist_outbound s m st)
          (persist_inbound s a)
  unfolding persist_outbound persist_inbound
  persist_outbound-IsPending st other m a o fits same p f =
      let key = outbound_key_from_mid (details m).message_id in
      let gone : inbound_request a ≡ remove key =
        inbound_request-IsFinal a f ∙ ap (λ i. remove (outbound_key_from_mid i)) same in
      rw (outbound_request-IsPending m p, gone)
        (kept_until_lem st key other (details m).message_id m a o
          (mid_from_key_lem (details m).message_id fits).1)

  -- In an open store that keeps the laws, a message with a 16-bit id that must be answered (PUBLISH
  -- with QoS 1 or 2, PUBREL) is under the inbound key of its id once it arrives; once this side
  -- sends the PUBACK or PUBCOMP of the id it is gone, and no other key is touched.
  pub persist_inbound-IsReceived :
      (st : S) (other : Bytes) (m a : ControlPacket)
      → v.is_open st ≡ true
      → (details m).message_id ≤ 65535
      → (details a).message_id ≡ (details m).message_id
      → IsReceived m
      → IsAnswer a
      → KeptUntil
          (inbound_key_from_mid (details m).message_id)
          other
          m
          st
          (persist_inbound s m st)
          (persist_outbound s a)
  unfolding persist_outbound persist_inbound
  persist_inbound-IsReceived st other m a o fits same p f =
      let key = inbound_key_from_mid (details m).message_id in
      let gone : outbound_request a ≡ remove key =
        outbound_request-IsAnswer a f ∙ ap (λ i. remove (inbound_key_from_mid i)) same in
      rw (inbound_request-IsReceived m p, gone)
        (kept_until_lem st key other (details m).message_id m a o
          (mid_from_key_lem (details m).message_id fits).0)
