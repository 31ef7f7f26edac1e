-- ===== src/Client/Publish/Dropped.antt =====
-- client.go, Publish: the paths that drop a message.
use paho_mqtt_golang.Base.{
  ℕ, ◌≡◌, refl, Bytes, Bool, true, false, not, ◌&&◌, Option, none, some, if◌then◌else◌, ◌==◌, arith,
}
use paho_mqtt_golang.Base.Assoc.{nat_eq}
use paho_mqtt_golang.Token.{
  TokenError, publish_token, fresh, not_connected, unknown_payload_type, flow_complete, set_error,
  has_base,
}
use paho_mqtt_golang.MessageIds.{update}
use paho_mqtt_golang.Store.{StoreOps}
use paho_mqtt_golang.Net.{on_token}
use paho_mqtt_golang.Client.{
  Client, Looks, Returns, is_connected, is_reconnecting, with_token, make_token, give_up,
}
use paho_mqtt_golang.Client.Publish.{
  new_publish, publish_packet, publish_message, payload_bytes, Payload,
}

-- Why Publish returns at once, with the error that its token has, if any.
abbrev pub early : Bool → Bool → Option Bytes → Option (Option TokenError)
early up dropped payload =
    if not up
    then some (some not_connected)
    else if dropped
    then some none
    else elim payload [ none ↦ some (some unknown_payload_type) | some bytes ↦ none ]

module _ {S : Type 0} where
  -- The token has completed with the error, if there is one, and nothing else has happened.
  abbrev pub IsDropped : Option TokenError → Client S → Returns S → Type 0
  IsDropped e c outcome =
      (c' : Client S) × (outcome ≡ some (c.next_token, c'))
      × (c'.comms.ids.tokens c.next_token
          ≡ record (fresh publish_token) { complete = true; error = e })
      × (c'.comms.persist ≡ c.comms.persist)
      × (c'.comms.ids.index ≡ c.comms.ids.index)
      × (c'.obound ≡ c.obound)

  -- Where the client is not connected and will not be, where it reconnects and the QoS is 0, and
  -- where the type of the payload is unknown: the token that Publish returns has completed, with an
  -- error in the first and the last case and without one in the second, and in none of them is the
  -- message stored or sent or an id taken.
  pub publish_message-IsDropped :
      (s : StoreOps S) (looks : Looks) (taken : Bool) (topic : Bytes) (qos : ℕ) (retained : Bool)
      (payload : Payload) (c : Client S) (e : Option TokenError)
      → early
          (is_connected c.options looks.at_entry)
          (is_reconnecting looks.at_gate.status && qos == 0)
          (payload_bytes payload)
        ≡ some e
      → IsDropped e c (publish_message s looks taken topic qos retained payload c)
  unfolding publish_message on_token update set_error flow_complete has_base
  publish_message-IsDropped s looks taken topic qos retained payload c e h =
      go (is_connected c.options looks.at_entry) (is_reconnecting looks.at_gate.status && qos == 0)
        (payload_bytes payload) h
    where
      go :
          (up dropped : Bool) (bytes : Option Bytes)
          → early up dropped bytes ≡ some e
          → IsDropped e c (
              let (token, c') = make_token publish_token c in
              if not up
              then give_up not_connected token c'
              else if dropped
              then some (token, with_token flow_complete token c')
              else elim bytes [
                | none ↦ give_up unknown_payload_type token c'
                | some b ↦
                    publish_packet s looks.at_send.status taken
                      (new_publish topic qos retained b)
                      token
                      c'
              ])
      go false d b h = (_, refl, ground (arith, h), refl, refl, refl)
      go true true b h = (_, refl, ground (arith, h), refl, refl, refl)
      go true false none h = (_, refl, ground (arith, h), refl, refl, refl)
      go true false (some b) h = absurd (ground arith)
