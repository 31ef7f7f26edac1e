-- ===== src/Client/Delivery/Published.antt =====
-- client.go and net.go: a message with QoS 1 from the call of Publish on.
use paho_mqtt_golang.Base.{ℕ, ◌≡◌, [], ◌∷◌, ◌++◌, Bytes, Bool, true, none, some}
use paho_mqtt_golang.Base.Assoc.{nat_eq}
use paho_mqtt_golang.Packets.Header.{FixedHeader}
use paho_mqtt_golang.Packets.Packet.{publish, puback}
use paho_mqtt_golang.MessageIds.{get_token}
use paho_mqtt_golang.Store.{StoreOps, outbound_key_from_mid}
use paho_mqtt_golang.Store.Laws.{StoreView, StoreLaws}
use paho_mqtt_golang.Client.{Client, Looks}
use paho_mqtt_golang.Client.Publish.{Payload, new_publish, publish_message}
use paho_mqtt_golang.Net.{Comms, PacketAndToken}
use paho_mqtt_golang.Net.Incoming.{received, handle_network}
use paho_mqtt_golang.Net.Outgoing.{handle_obound}

module _ {S : Type 0} (s : StoreOps S) (v : StoreView S) (laws : StoreLaws s v) where
  -- What Publish, the outgoing loop and the PUBACK do to a message.
  abbrev pub IsPublished :
      Looks → Bytes → Bool → Payload → Bytes → Client S → ℕ → ℕ → FixedHeader → Type 0
  IsPublished looks topic retained payload bytes c now later fh =
      (id : ℕ) × (c1 : Client S) × (c2 : Comms S) × (c3 : Comms S) × (let p =
          publish (record (new_publish topic 1 retained bytes) { message_id = id }) in
        let sent : PacketAndToken = record { p = p; t = some c.next_token } in
        (publish_message s looks true topic 1 retained payload c ≡ some (c.next_token, c1))
        × (c1.obound ≡ c.obound ++ (sent ∷ []))
        × (s.get (outbound_key_from_mid id) c1.comms.persist ≡ some (some p))
        × (handle_obound now none sent c1.comms ≡ some (c2, []))
        × (handle_network s later
              (received (puback (record { fixed_header = fh; message_id = id }))) c2
            ≡ some (c3, []))
        × ((c3.ids.tokens c.next_token).complete ≡ true)
        × ((j : ℕ) → get_token j c3.ids ≡ get_token j c.comms.ids)
        × (s.get (outbound_key_from_mid id) c3.persist ≡ some none))
