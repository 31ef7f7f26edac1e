-- ===== src/Net/Tests.antt =====
-- The network loops on a connection with one message and one subscription.
use paho_mqtt_golang.Base.{
  ℕ, suc, ◌≡◌, refl, List, [], ◌∷◌, ◌++◌, Bytes, codes, true, false, none, some, if◌then◌else◌,
  ◌==◌, length, map, arith,
}
use paho_mqtt_golang.Base.Assoc.{lookup, nat_eq, bytes_eq}
use paho_mqtt_golang.Packets.Result.{ok}
use paho_mqtt_golang.Packets.Packet.{
  PublishPacket, SubackPacket, AckPacket, publish, puback, suback, plain_header,
}
use paho_mqtt_golang.Packets.Write.{write, write_ack, write_publish, publish_body}
use paho_mqtt_golang.Packets.Codec.{
  encode_string, encode_bytes, encode_uint16, truncate, bool_to_byte,
}
use paho_mqtt_golang.Packets.Header.{pack, type_and_flags}
use paho_mqtt_golang.Packets.Codec.Length.{encode_length-digits, digits}
use paho_mqtt_golang.Token.{Token, fresh, publish_token, subscribe_token}
use paho_mqtt_golang.Store.Memory.{MemoryStore, memory_ops}
use paho_mqtt_golang.Store.Memory.Refines.{memory_view, memory_ops-StoreLaws}
use paho_mqtt_golang.Net.{Comms, PacketAndToken}
use paho_mqtt_golang.Net.Incoming.{
  Inbound, received, start_incoming, from_network, from_store, Arrival, handle_arrival,
  handle_message, handle_network, start_incoming_comms, incoming_pub,
}
use paho_mqtt_golang.Net.Outgoing.{Departure, obound, oboundp, from_incoming, start_outgoing_comms}
use paho_mqtt_golang.Net.Outgoing.Wire.{
  start_incoming-start_outgoing_comms, whole_packets, no_parts,
}
use paho_mqtt_golang.Net.Stream.{start_incoming_ends, arrives, at_end}
use paho_mqtt_golang.Net.Exchange.{ends_publish, IsEnded, handle_network-ending}
use paho_mqtt_golang.Net.Exchange.Received.{IsReceivedOnce, exactly_once_received}
use paho_mqtt_golang.Net.Invariant.{Evolves, start_incoming_comms-Evolves}
use paho_mqtt_golang.Base.{All}
use paho_mqtt_golang.Packets.RoundTrip.{IsWritable}
use paho_mqtt_golang.Token.{closed_network_connection, other_error}
use paho_mqtt_golang.Net.{update_last_sent}
use paho_mqtt_golang.Net.Outgoing.{
  Fault, handle_departure, handle_obound, handle_oboundp, handle_from_incoming, write_to, sent,
  not_sent,
}
use paho_mqtt_golang.Net.Suback.{handle_network-suback_panics}

-- Token 0 publishes with the id 1, token 1 subscribes to one topic with the id 2.
abbrev tokens : ℕ → Token
tokens r =
    if r == 1 then record (fresh subscribe_token) { subs = codes "t" ∷ [] } else fresh publish_token

abbrev busy : Comms MemoryStore
busy = record {
  ids = record { index = (1, 0) ∷ (2, 1) ∷ []; last_issued_id = 2; tokens = tokens };
  persist = record { messages = []; opened = true };
  keep_alive = 30;
  ping_outstanding = false;
  last_received = 0;
  last_sent = 0;
  wire = [];
  conn_closed = false;
}

abbrev acked : AckPacket
acked = record { fixed_header = plain_header 4 0; message_id = 1 }

abbrev message : PublishPacket
message = record {
  fixed_header = plain_header 3 2;
  topic_name = codes "t";
  message_id = 7;
  payload = codes "hi";
}

abbrev sent_ack : PacketAndToken
sent_ack = record { p = puback acked; t = none }

abbrev refused : Fault
refused = record { error = closed_network_connection; taken = 0 }

abbrev cut_short : Fault
cut_short = record { error = other_error 1; taken = 1 }

-- A message, a packet of which nothing is written, an acknowledgement, and a packet that is cut short.
abbrev departures : List Departure
departures =
    obound 5 none (record { p = publish message; t = some 0 })
    ∷ oboundp 6 (some refused) sent_ack
    ∷ from_incoming 7 none sent_ack
    ∷ from_incoming 8 (some cut_short) sent_ack
    ∷ []

abbrev message_bytes : Bytes
message_bytes = 52 ∷ 7 ∷ 0 ∷ 1 ∷ 116 ∷ 0 ∷ 7 ∷ codes "hi"

abbrev wire_bytes : Bytes
wire_bytes = message_bytes ++ (64 ∷ 2 ∷ 0 ∷ 1 ∷ 64 ∷ [])

abbrev after_departures : Comms MemoryStore
after_departures = record busy { wire = wire_bytes; last_sent = 7 }

handle_network-ending_example :
    IsEnded memory_ops memory_view memory_ops-StoreLaws 1 busy
      (handle_network memory_ops 9 (received (puback acked)) busy)
handle_network-ending_example =
    handle_network-ending memory_ops memory_view memory_ops-StoreLaws ends_publish acked 9 busy refl
      (omega arith) refl

exactly_once_received_example :
    IsReceivedOnce memory_ops memory_view memory_ops-StoreLaws 9 message (plain_header 6 1) 10 busy
exactly_once_received_example =
    exactly_once_received memory_ops memory_view memory_ops-StoreLaws 9 10 message
      (plain_header 6 1) busy refl (omega arith) refl refl

puback_bytes : (write (puback acked)).1 ≡ ok (64 ∷ 2 ∷ 0 ∷ 1 ∷ [])
unfolding write write_ack encode_uint16 pack type_and_flags bool_to_byte digits
puback_bytes = ground (arith, encode_length-digits 2 (omega arith))

publish_bytes : (write (publish message)).1 ≡ ok message_bytes
unfolding write write_publish publish_body encode_string encode_bytes encode_uint16 truncate pack
    type_and_flags bool_to_byte digits
publish_bytes = ground (arith, encode_length-digits 7 (omega arith))

start_outgoing_comms-departures :
    start_outgoing_comms departures busy
    ≡ some (after_departures, closed_network_connection ∷ other_error 1 ∷ [])
unfolding start_outgoing_comms handle_departure handle_obound handle_oboundp handle_from_incoming
    write_to update_last_sent
start_outgoing_comms-departures =
    let w1 : write_to none (publish message) ≡ sent message_bytes =
      rw (write_to, publish_bytes) refl in
    let w2 : write_to none (puback acked) ≡ sent (64 ∷ 2 ∷ 0 ∷ 1 ∷ []) =
      rw (write_to, puback_bytes) refl in
    let w3 : write_to (some refused) (puback acked) ≡ not_sent closed_network_connection [] =
      rw (write_to, puback_bytes) refl in
    let w4 : write_to (some cut_short) (puback acked) ≡ not_sent (other_error 1) (64 ∷ []) =
      rw (write_to, puback_bytes) refl in
    ground (arith, w1, w2, w3, w4)

sent-IsWritable : All IsWritable (whole_packets departures)
unfolding write_to
sent-IsWritable =
    rw (publish_bytes, puback_bytes)
      (
        (record { typed = refl; two_bits = omega arith }, omega arith, omega arith, λ e. cc),
        ((record { typed = refl; two_bits = omega arith }, omega arith), tt),
      )

start_incoming-start_outgoing_comms_example :
    (l : List Inbound) × (start_incoming false (suc (length wire_bytes)) wire_bytes
      ≡ some (map arrives (whole_packets departures) ++ l))
    × (no_parts departures ≡ true → l ≡ at_end false)
start_incoming-start_outgoing_comms_example =
    start_incoming-start_outgoing_comms departures busy after_departures
      (closed_network_connection ∷ other_error 1 ∷ []) false refl start_outgoing_comms-departures
      sent-IsWritable

start_incoming_ends_example : (l : List Inbound) × (start_incoming false 15 wire_bytes ≡ some l)
start_incoming_ends_example = start_incoming_ends false 15 wire_bytes (omega arith)

-- A SUBACK with two codes for the one topic of token 1.
abbrev two_codes : SubackPacket
two_codes = record { fixed_header = plain_header 9 0; message_id = 2; return_codes = 0 ∷ 1 ∷ [] }

handle_network-suback_panics_example :
    handle_network memory_ops 9 (received (suback two_codes)) busy ≡ none
unfolding lookup
handle_network-suback_panics_example =
    handle_network-suback_panics memory_ops 9 1 two_codes busy refl refl (omega arith)

-- The acknowledgement, and then the message that is to be passed on.
abbrev arrivals : List Arrival
arrivals = from_network 9 (received (puback acked)) ∷ from_store (publish message) ∷ []

acked_ends :
    IsEnded memory_ops memory_view memory_ops-StoreLaws 1 busy
      (handle_network memory_ops 9 (received (puback acked)) busy)
acked_ends =
    handle_network-ending memory_ops memory_view memory_ops-StoreLaws ends_publish acked 9 busy refl
      (omega arith) refl

start_incoming_comms-arrivals :
    start_incoming_comms memory_ops arrivals busy ≡ some (acked_ends.0, incoming_pub message ∷ [])
unfolding start_incoming_comms handle_arrival handle_message
start_incoming_comms-arrivals = rw (start_incoming_comms, handle_arrival, acked_ends.1) refl

start_incoming_comms-Evolves_example : Evolves busy.ids acked_ends.0.ids
start_incoming_comms-Evolves_example =
    start_incoming_comms-Evolves memory_ops arrivals busy acked_ends.0 (incoming_pub message ∷ [])
      start_incoming_comms-arrivals
