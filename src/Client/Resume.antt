-- ===== src/Client/Resume.antt =====
-- client.go, reserveStoredPublishIDs and resume: what a client does with the messages of its store.
pub mod Laws
pub mod Unsubscribe
pub mod Pubrec
mod Tests
use paho_mqtt_golang.Base.{
  ℕ, zero, suc, ◌+◌, List, [], ◌∷◌, ◌++◌, Bytes, Bool, true, false, not, Option, none, some,
  if◌then◌else◌, ◌==◌,
}
use paho_mqtt_golang.Packets.Packet.{
  ControlPacket, PublishPacket, SubscribePacket, publish, pubrel, subscribe, unsubscribe,
}
use paho_mqtt_golang.Token.{publish_token, subscribe_token, unsubscribe_token, place_holder_token}
use paho_mqtt_golang.MessageIds.{claim_id}
use paho_mqtt_golang.Store.{StoreOps, is_key_outbound}
use paho_mqtt_golang.Client.{Client, with_token, make_token, set_message_id}
use paho_mqtt_golang.Client.Subscribe.{set_subs}

-- A client and the inbound messages that were passed back to it.
pub record Resuming (S : Type 0) : Type 0 where
  pub client : Client S
  pub ibound : List ControlPacket

-- How one step of the loop ends: it goes on, it returns as the stop channel is closed, or it panics.
pub data Turn (S : Type 0) : Type 0 where
  goes_on : Resuming S → Turn S
  stopped : Resuming S → Turn S
  panicked : Turn S

-- `p.Dup = true` for a QoS above 0.
unfoldable pub mark_dup : PublishPacket → PublishPacket
mark_dup p =
    if p.fixed_header.qos == 0
    then p
    else record p { fixed_header = record p.fixed_header { dup = true } }

module _ {S : Type 0} where
  abbrev pub claim : ℕ → ℕ → Client S → Client S
  claim token id c = record c { comms = record c.comms { ids = claim_id token id c.comms.ids } }

  abbrev pub with_client : Client S → Resuming S → Resuming S
  with_client c r = record r { client = c }

  -- A send on a channel, unless the stop channel is closed first.
  abbrev pub send_unless : Bool → Resuming S → Resuming S → Turn S
  send_unless stop before after = if stop then stopped before else goes_on after

  abbrev pub on_obound_p : ControlPacket → Option ℕ → Client S → Client S
  on_obound_p m t c = record c { obound_p = c.obound_p ++ (record { p = m; t = t } ∷ []) }

  abbrev pub on_obound : ControlPacket → Option ℕ → Client S → Client S
  on_obound m t c = record c { obound = c.obound ++ (record { p = m; t = t } ∷ []) }

  module _ (s : StoreOps S) where
    abbrev pub delete_key : Bytes → Resuming S → Turn S
    delete_key key r = elim (s.del key r.client.comms.persist) [
      | none ↦ panicked
      | some st ↦
          let c = r.client in
          goes_on (with_client (record c { comms = record c.comms { persist = st } }) r)
    ]

    abbrev pub resume_subscribe : Bool → SubscribePacket → ℕ → Resuming S → Turn S
    resume_subscribe stop sub id r =
        let (token, c) = make_token subscribe_token r.client in
        let c' =
          claim token id
            (with_token (set_subs sub.topics) token (with_token (set_message_id id) token c)) in
        send_unless stop (with_client c' r)
          (with_client (on_obound_p (subscribe sub) (some token) c') r)

    -- The token gets no message id, and the id of the packet is not claimed for it.
    abbrev pub resume_unsubscribe : Bool → ControlPacket → Resuming S → Turn S
    resume_unsubscribe stop m r =
        let (token, c) = make_token unsubscribe_token r.client in
        send_unless stop (with_client c r) (with_client (on_obound_p m (some token) c) r)

    -- DUP is set in the packet that `Get` gave.
    abbrev pub resume_publish : Bool → Bytes → PublishPacket → ℕ → Resuming S → Turn S
    resume_publish stop key p id r =
        let st = s.touch key (publish (mark_dup p)) r.client.comms.persist in
        let marked = record r.client { comms = record r.client.comms { persist = st } } in
        let (token, c) = make_token publish_token marked in
        let c' = claim token id (with_token (set_message_id id) token c) in
        send_unless stop (with_client c' r)
          (with_client (on_obound (publish (mark_dup p)) (some token) c') r)

    unfoldable pub resume_outbound : Bool → Bool → Bytes → ControlPacket → Resuming S → Turn S
    resume_outbound subscription stop key (subscribe sub) r =
        if subscription then resume_subscribe stop sub sub.message_id r else delete_key key r
    resume_outbound subscription stop key (unsubscribe p) r =
        if subscription then resume_unsubscribe stop (unsubscribe p) r else delete_key key r
    resume_outbound subscription stop key (pubrel p) r =
        send_unless stop r (with_client (on_obound_p (pubrel p) none r.client) r)
    resume_outbound subscription stop key (publish p) r = resume_publish stop key p p.message_id r
    resume_outbound subscription stop key _ r = delete_key key r

    unfoldable pub resume_inbound : Bool → Bytes → ControlPacket → Resuming S → Turn S
    resume_inbound stop key (pubrel p) r =
        send_unless stop r (record r { ibound = r.ibound ++ (pubrel p ∷ []) })
    resume_inbound stop key _ r = delete_key key r

    -- One key; `stop` says whether the stop channel is closed before the send is taken.
    unfoldable pub resume_key : Bool → Bool → Bytes → Resuming S → Turn S
    resume_key subscription stop key r = elim (s.get key r.client.comms.persist) [
      | none ↦ panicked
      | some none ↦ goes_on r
      | some (some m) ↦ elim (is_key_outbound key) [
        | none ↦ panicked
        | some true ↦ resume_outbound subscription stop key m r
        | some false ↦ resume_inbound stop key m r
      ]
    ]

    -- The loop over the keys; the stop channel is closed before the key with the number `stop_at`.
    unfoldable pub resume_keys : Bool → Option ℕ → List Bytes → Resuming S → Turn S
    resume_keys subscription stop_at [] r = goes_on r
    resume_keys subscription none (key ∷ keys) r = elim (resume_key subscription false key r) [
      | goes_on r' ↦ resume_keys subscription none keys r'
      | stopped r' ↦ stopped r'
      | panicked ↦ panicked
    ]
    resume_keys subscription (some zero) (key ∷ keys) r =
        elim (resume_key subscription true key r) [
          | goes_on r' ↦ resume_keys subscription (some zero) keys r'
          | stopped r' ↦ stopped r'
          | panicked ↦ panicked
        ]
    resume_keys subscription (some (suc n)) (key ∷ keys) r =
        elim (resume_key subscription false key r) [
          | goes_on r' ↦ resume_keys subscription (some n) keys r'
          | stopped r' ↦ stopped r'
          | panicked ↦ panicked
        ]

    unfoldable pub resume : Bool → Option ℕ → Client S → Turn S
    resume subscription stop_at c =
        resume_keys subscription stop_at (s.all c.comms.persist)
          (record { client = c; ibound = [] })

    abbrev pub reserve_packet : ControlPacket → Client S → Client S
    reserve_packet (publish p) c =
        let (token, c') = make_token place_holder_token c in claim token p.message_id c'
    reserve_packet _ c = c

    unfoldable pub reserve_keys : List Bytes → Client S → Option (Client S)
    reserve_keys [] c = some c
    reserve_keys (key ∷ keys) c = elim (s.get key c.comms.persist) [
      | none ↦ none
      | some none ↦ reserve_keys keys c
      | some (some m) ↦ reserve_keys keys (reserve_packet m c)
    ]

    -- A placeholder takes the id of each PUBLISH of the store.
    unfoldable pub reserve_stored_publish_ids : Client S → Option (Client S)
    reserve_stored_publish_ids c =
        if not c.options.clean_session then reserve_keys (s.all c.comms.persist) c else some c
