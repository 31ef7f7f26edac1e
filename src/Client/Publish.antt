-- ===== src/Client/Publish.antt =====
-- client.go, Publish.
pub mod Laws
pub mod Dropped
use paho_mqtt_golang.Base.{
  ℕ, ◌+◌, [], ◌∷◌, ◌++◌, Bytes, Bool, true, false, not, ◌&&◌, Option, none, some, if◌then◌else◌,
  ◌==◌,
}
use paho_mqtt_golang.Packets.Packet.{PublishPacket, publish, plain_header}
use paho_mqtt_golang.Token.{
  publish_token, not_connected, unknown_payload_type, broken_by_timeout, flow_complete,
}
use paho_mqtt_golang.Store.{StoreOps}
use paho_mqtt_golang.Status.{Status}
use paho_mqtt_golang.Net.{PacketAndToken}
use paho_mqtt_golang.Client.{
  Client, Looks, Returns, is_connected, is_reconnecting, with_token, make_token, give_up, with_id,
  only_stored, persist_if,
}

-- The types of a payload that are taken, and any other.
pub data Payload : Type 0 where
  text slice buffer : Bytes → Payload
  other_type : Payload

unfoldable pub payload_bytes : Payload → Option Bytes
payload_bytes (text p) = some p
payload_bytes (slice p) = some p
payload_bytes (buffer p) = some p
payload_bytes other_type = none

unfoldable pub new_publish : Bytes → ℕ → Bool → Bytes → PublishPacket
new_publish topic qos retained payload = record {
  fixed_header = record (plain_header 3 0) { qos = qos; retain = retained };
  topic_name = topic;
  message_id = 0;
  payload = payload;
}

module _ {S : Type 0} where
  -- The select on the channel obound and the timer; `taken` says which it was.
  abbrev pub offer_publish : Bool → PublishPacket → ℕ → Client S → Returns S
  offer_publish true pub_msg token c =
      let sent : PacketAndToken = record { p = publish pub_msg; t = some token } in
      some (token, record c { obound = c.obound ++ (sent ∷ []) })
  offer_publish false pub_msg token c = give_up broken_by_timeout token c

  -- A client without a connection only stores.
  unfoldable pub send_publish : Status → Bool → PublishPacket → ℕ → Client S → Returns S
  send_publish status taken pub_msg token c =
      if only_stored status then some (token, c) else offer_publish taken pub_msg token c

module _ {S : Type 0} (s : StoreOps S) where
  abbrev pub and_send : Status → Bool → PublishPacket → ℕ → Option (Client S) → Returns S
  and_send status taken pub_msg token none = none
  and_send status taken pub_msg token (some c) = send_publish status taken pub_msg token c

  unfoldable pub store_and_send : Status → Bool → PublishPacket → ℕ → Client S → Returns S
  store_and_send status taken pub_msg token c =
      and_send status taken pub_msg token (persist_if s true (publish pub_msg) c)

  -- With a message id if the QoS is above 0.
  unfoldable pub publish_packet : Status → Bool → PublishPacket → ℕ → Client S → Returns S
  publish_packet status taken pub_msg token c =
      if pub_msg.fixed_header.qos == 0
      then store_and_send status taken pub_msg token c
      else with_id token c
          (λ m_id c'. store_and_send status taken (record pub_msg { message_id = m_id }) token c')

  unfoldable pub publish_message : Looks → Bool → Bytes → ℕ → Bool → Payload → Client S → Returns S
  publish_message looks taken topic qos retained payload c =
      let (token, c') = make_token publish_token c in
      if not (is_connected c.options looks.at_entry)
      then give_up not_connected token c'
      else if is_reconnecting looks.at_gate.status && qos == 0
      then some (token, with_token flow_complete token c')
      else elim (payload_bytes payload) [
        | none ↦ give_up unknown_payload_type token c'
        | some bytes ↦
            publish_packet looks.at_send.status taken (new_publish topic qos retained bytes) token
              c'
      ]
