-- ===== src/Net/Exchange.antt =====
-- net.go, startIncomingComms: the exchanges of MQTT that this side has begun.
pub mod Received
use paho_mqtt_golang.Base.{
  ℕ, ◌≤◌, ◌≡◌, refl, ◌∙◌, List, [], ◌∷◌, Bytes, Bool, true, false, Option, none, some,
  if◌then◌else◌, ◌==◌, arith, str_eq,
}
use paho_mqtt_golang.Base.Assoc.{lookup, nat_eq}
use paho_mqtt_golang.Packets.Packet.{
  ControlPacket, AckPacket, details, packet_type, publish, puback, pubrec, pubrel, pubcomp,
  unsuback,
}
use paho_mqtt_golang.Token.{Token, flow_complete}
use paho_mqtt_golang.MessageIds.{MessageIds, token_ref, dummy, get_token, free_id, update}
use paho_mqtt_golang.MessageIds.Laws.{get_token-free_id}
use paho_mqtt_golang.Store.{
  StoreOps, outbound_key_from_mid, persist_inbound, remove, store, inbound_request,
  outbound_request,
}
use paho_mqtt_golang.Store.Keys.{mid_from_key_lem}
use paho_mqtt_golang.Store.Laws.{StoreView, StoreLaws}
use paho_mqtt_golang.Net.{
  Comms, new_ack, on_token, on_found, complete_and_free, update_last_received,
}
use paho_mqtt_golang.Net.Incoming.{
  received, IncomingComms, outbound, handle_message, handle_network,
}

-- The packets that end an exchange of this side, other than SUBACK.
pub data Ending : Type 0 where
  ends_publish ends_release ends_unsubscribe : Ending

abbrev pub ending : Ending → AckPacket → ControlPacket
ending ends_publish p = puback p
ending ends_release p = pubcomp p
ending ends_unsubscribe p = unsuback p

-- The reference is the one that an id leads to.
abbrev pub found_at : ℕ → Option ℕ → Bool
found_at r none = false
found_at r (some ref) = ref == r

-- The id is free, its token has completed, and nothing else has changed.
abbrev pub IsConcluded : ℕ → MessageIds → MessageIds → Type 0
IsConcluded id old new =
    ((j : ℕ) → get_token j new ≡ (if id == j then dummy j else get_token j old))
    × ((r : ℕ)
        → new.tokens r ≡ (
            if found_at r (lookup id old.index)
            then flow_complete (old.tokens r)
            else old.tokens r))

on_found-get_token :
    (f : Token → Token) (id : ℕ) (mids : MessageIds)
    → (((on_found f (get_token id mids) mids).index ≡ mids.index)
        × ((r : ℕ)
            → (on_found f (get_token id mids) mids).tokens r
              ≡ (if found_at r (lookup id mids.index) then f (mids.tokens r) else mids.tokens r)))
unfolding get_token on_token update
on_found-get_token f id mids = go (lookup id mids.index)
  where
    go :
        (o : Option ℕ)
        → ((on_found f (elim o [ some ref ↦ token_ref ref | none ↦ dummy id ]) mids).index
            ≡ mids.index)
          × ((r : ℕ)
              → (on_found f (elim o [ some ref ↦ token_ref ref | none ↦ dummy id ]) mids).tokens r
                ≡ (if found_at r o then f (mids.tokens r) else mids.tokens r))
    go none = (refl, λ r. refl)
    go (some ref) = (refl, λ r. refl)

module _ {S : Type 0} where
  pub complete_and_free-IsConcluded :
      (id : ℕ) (c : Comms S) → IsConcluded id c.ids (complete_and_free id c).ids
  unfolding complete_and_free free_id get_token
  complete_and_free-IsConcluded id c =
      let (same, tokens) = on_found-get_token flow_complete id c.ids in
      (
        λ j.
            get_token-free_id id j (on_found flow_complete (get_token id c.ids) c.ids)
            ∙ rw (same, get_token) refl,
        tokens,
      )

  persist-complete_and_free : (id : ℕ) (c : Comms S) → (complete_and_free id c).persist ≡ c.persist
  unfolding complete_and_free
  persist-complete_and_free id c = refl

module _ {S : Type 0} (s : StoreOps S) (v : StoreView S) (laws : StoreLaws s v) where
  -- The id has ended: its token has completed, it is free, and its key is gone from the store, which
  -- is open and else as it was. Nothing is sent.
  abbrev pub IsEnded : ℕ → Comms S → Option (Comms S × List IncomingComms) → Type 0
  IsEnded id c outcome =
      (c' : Comms S) × (outcome ≡ some (c', []))
      × IsConcluded id c.ids c'.ids
      × (v.is_open c'.persist ≡ true)
      × ((j : Bytes)
          → v.contents c'.persist j
            ≡ (if str_eq (outbound_key_from_mid id) j then none else v.contents c.persist j))

  inbound_request-ending :
      (e : Ending) (p : AckPacket)
      → p.fixed_header.qos ≡ 0
      → inbound_request (ending e p) ≡ remove (outbound_key_from_mid p.message_id)
  unfolding inbound_request details packet_type
  inbound_request-ending ends_publish p h = ground arith
  inbound_request-ending ends_release p h = ground arith
  inbound_request-ending ends_unsubscribe p h = ground arith

  handle_message-ending :
      (e : Ending) (p : AckPacket) (c : Comms S)
      → handle_message s (ending e p) c ≡ some (complete_and_free p.message_id c, [])
  unfolding handle_message
  handle_message-ending ends_publish p c = refl
  handle_message-ending ends_release p c = refl
  handle_message-ending ends_unsubscribe p c = refl

  -- With an open store that keeps the laws: a PUBACK, PUBCOMP or UNSUBACK with QoS 0 in its header
  -- and a 16-bit id ends the exchange of the id. The token that waits for the id completes, and no
  -- other token changes; the id is free, and every other id leads to what it led to; the packet that
  -- was kept for the id is gone from the store, and no other key is touched; nothing is sent.
  pub handle_network-ending :
      (e : Ending) (p : AckPacket) (now : ℕ) (c : Comms S)
      → p.fixed_header.qos ≡ 0
      → p.message_id ≤ 65535
      → v.is_open c.persist ≡ true
      → IsEnded p.message_id c (handle_network s now (received (ending e p)) c)
  unfolding handle_network persist_inbound update_last_received
  handle_network-ending e p now c q fits o =
      let key = outbound_key_from_mid p.message_id in
      let (st', done, open_after, at) =
        laws.del_law c.persist key p.message_id o (mid_from_key_lem p.message_id fits).1 in
      let c1 = update_last_received now (record c { persist = st' }) in
      (
        complete_and_free p.message_id c1,
        rw (inbound_request-ending e p q, done) (handle_message-ending e p c1),
        complete_and_free-IsConcluded p.message_id c1,
        rw (persist-complete_and_free p.message_id c1) open_after,
        λ j. rw (persist-complete_and_free p.message_id c1) (at j),
      )

module _ {S : Type 0} (s : StoreOps S) where
  -- A PUBREC with QoS 0 in its header is answered by the PUBREL of its id, which is not put into
  -- the store, although persistOutbound would put it under the outbound key of the id: store and
  -- ids are as they were.
  pub handle_network-pubrec :
      (now : ℕ) (m : AckPacket) (c : Comms S)
      → m.fixed_header.qos ≡ 0
      → (c' : Comms S) × (handle_network s now (received (pubrec m)) c
          ≡ some (c', outbound (record { p = pubrel (new_ack 6 m.message_id); t = none }) ∷ []))
        × (c'.persist ≡ c.persist)
        × (c'.ids ≡ c.ids)
        × (outbound_request (pubrel (new_ack 6 m.message_id))
            ≡ store (outbound_key_from_mid m.message_id))
  unfolding handle_network persist_inbound inbound_request outbound_request handle_message details
      packet_type update_last_received
  handle_network-pubrec now m c zero_qos =
      (update_last_received now c, rw zero_qos refl, refl, refl, refl)
