-- ===== src/Net/Incoming.antt =====
-- net.go, startIncomingComms and startIncoming: what is read off the connection, and what each packet
-- does.
use paho_mqtt_golang.Base.{
  ℕ, zero, suc, List, [], ◌∷◌, ◌++◌, Bytes, Bool, true, false, ◌&&◌, Option, none, some,
  if◌then◌else◌,
}
use paho_mqtt_golang.Base.Assoc.{insert, bytes_eq}
use paho_mqtt_golang.Packets.Result.{Error, eof, unexpected_eof}
use paho_mqtt_golang.Packets.Packet.{
  ControlPacket, PublishPacket, SubackPacket, publish, puback, pubrec, pubrel, pubcomp, suback,
  unsuback, pingresp,
}
use paho_mqtt_golang.Packets.Read.{no_packet, packet, read_packet}
use paho_mqtt_golang.Token.{Token, TokenKind, subscribe_token}
use paho_mqtt_golang.MessageIds.{MessageIds, Found, token_ref, dummy, get_token}
use paho_mqtt_golang.Store.{StoreOps}
use paho_mqtt_golang.Net.{
  Comms, PacketAndToken, new_ack, on_token, complete_and_free, ping_resp_received,
  update_last_received, comms_inbound, comms_outbound,
}

-- What startIncoming sends on its channel: a packet or an error.
pub data Inbound : Type 0 where
  received : ControlPacket → Inbound
  read_error : Error → Inbound

-- An error of the connection itself, which is another one where the client has closed it.
abbrev pub is_end : Error → Bool
is_end eof = true
is_end unexpected_eof = true
is_end _ = false

-- The loop of startIncoming, on the bytes that arrive before the connection ends. `closed` says that
-- this side has closed it, an error that is not reported. `none` is an end of the fuel.
unfoldable pub start_incoming : Bool → ℕ → Bytes → Option (List Inbound)
start_incoming closed zero r = none
start_incoming closed (suc fuel) r = elim (read_packet r) [
  | no_packet e ↦ some (if closed && is_end e then [] else read_error e ∷ [])
  | packet cp (some e) rest ↦ some (read_error e ∷ [])
  | packet cp none rest ↦ elim (start_incoming closed fuel rest) [
    | some more ↦ some (received cp ∷ more)
    | none ↦ none
  ]
]

-- What startIncomingComms sends on its channel.
pub data IncomingComms : Type 0 where
  comms_error : Error → IncomingComms
  outbound : PacketAndToken → IncomingComms
  incoming_pub : PublishPacket → IncomingComms

-- A branch of the select: a message of the store, or one of the network at a time.
pub data Arrival : Type 0 where
  from_store : ControlPacket → Arrival
  from_network : ℕ → Inbound → Arrival

-- The loop over the return codes of a SUBACK. `none` is the panic of `t.subs[i]` out of range.
unfoldable pub grant : Bytes → List Bytes → List (Bytes × ℕ) → Option (List (Bytes × ℕ))
grant [] subs result = some result
grant (qos ∷ codes) [] result = none
grant (qos ∷ codes) (topic ∷ subs) result = grant codes subs (insert topic qos result)

abbrev pub set_result : List (Bytes × ℕ) → Token → Token
set_result result t = record t { sub_result = result }

abbrev pub granted_to : ℕ → MessageIds → Option (List (Bytes × ℕ)) → Option MessageIds
granted_to ref mids none = none
granted_to ref mids (some result) = some (on_token (set_result result) ref mids)

abbrev pub is_subscribe : TokenKind → Bool
is_subscribe subscribe_token = true
is_subscribe _ = false

-- Only a SubscribeToken takes the return codes.
unfoldable pub take_codes : Bytes → Found → MessageIds → Option MessageIds
take_codes codes (dummy id) mids = some mids
take_codes codes (token_ref ref) mids =
    let t = mids.tokens ref in
    if is_subscribe t.kind then granted_to ref mids (grant codes t.subs t.sub_result) else some mids

module _ {S : Type 0} where
  abbrev pub completed : ℕ → Comms S → Option MessageIds → Option (Comms S)
  completed id c none = none
  completed id c (some mids) = some (complete_and_free id (record c { ids = mids }))

  unfoldable pub handle_suback : SubackPacket → Comms S → Option (Comms S)
  handle_suback m c =
      completed m.message_id c (take_codes m.return_codes (get_token m.message_id c.ids) c.ids)

  abbrev pub quietly : Option (Comms S) → Option (Comms S × List IncomingComms)
  quietly none = none
  quietly (some c) = some (c, [])

  abbrev pub sending : ControlPacket → Option (Comms S) → Option (Comms S × List IncomingComms)
  sending p none = none
  sending p (some c) = some (c, outbound (record { p = p; t = none }) ∷ [])

  module _ (s : StoreOps S) where
    -- The switch over the type of the message.
    unfoldable pub handle_message : ControlPacket → Comms S → Option (Comms S × List IncomingComms)
    unfolding handle_suback
    handle_message (pingresp m) c = some (ping_resp_received c, [])
    handle_message (suback m) c = quietly (handle_suback m c)
    handle_message (unsuback m) c = some (complete_and_free m.message_id c, [])
    handle_message (publish m) c = some (c, incoming_pub m ∷ [])
    handle_message (puback m) c = some (complete_and_free m.message_id c, [])
    handle_message (pubrec m) c = sending (pubrel (new_ack 6 m.message_id)) (some c)
    handle_message (pubrel m) c =
        let pc = pubcomp (new_ack 7 m.message_id) in sending pc (comms_outbound s pc c)
    handle_message (pubcomp m) c = some (complete_and_free m.message_id c, [])
    handle_message _ c = some (c, [])

    abbrev pub handle_some :
        ControlPacket → Option (Comms S) → Option (Comms S × List IncomingComms)
    handle_some m none = none
    handle_some m (some c) = handle_message m c

    abbrev pub received_at : ℕ → Option (Comms S) → Option (Comms S)
    received_at now none = none
    received_at now (some c) = some (update_last_received now c)

    -- A packet or an error that startIncoming sends.
    unfoldable pub handle_network : ℕ → Inbound → Comms S → Option (Comms S × List IncomingComms)
    handle_network now (read_error e) c = some (c, comms_error e ∷ [])
    handle_network now (received m) c = handle_some m (received_at now (comms_inbound s m c))

    unfoldable pub handle_arrival : Arrival → Comms S → Option (Comms S × List IncomingComms)
    handle_arrival (from_store m) c = handle_message m c
    handle_arrival (from_network now i) c = handle_network now i c

    abbrev pub followed :
        List IncomingComms
        → Option (Comms S × List IncomingComms)
        → Option (Comms S × List IncomingComms)
    followed out none = none
    followed out (some (c, more)) = some (c, out ++ more)

    -- The loop of startIncomingComms, in the order in which the select takes the arrivals.
    unfoldable pub start_incoming_comms :
        List Arrival → Comms S → Option (Comms S × List IncomingComms)
    start_incoming_comms [] c = some (c, [])
    start_incoming_comms (a ∷ rest) c = elim (handle_arrival a c) [
      | none ↦ none
      | some (c', out) ↦ followed out (start_incoming_comms rest c')
    ]
