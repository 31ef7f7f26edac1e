-- ===== src/Net/Outgoing.antt =====
-- net.go, startOutgoingComms and ackFunc: what is written to the connection, and what completes.
pub mod Wire
use paho_mqtt_golang.Base.{
  ℕ, List, [], ◌∷◌, ◌++◌, Bytes, Bool, true, false, Option, none, some, if◌then◌else◌, ◌==◌, take,
}
use paho_mqtt_golang.Packets.Result.{Result, ok, err, panic}
use paho_mqtt_golang.Packets.Packet.{
  ControlPacket, PublishPacket, publish, puback, pubrec, disconnect,
}
use paho_mqtt_golang.Packets.Write.{write}
use paho_mqtt_golang.Token.{
  Token, TokenKind, TokenError, disconnect_token, packet_error, closed_network_connection,
  flow_complete, set_error,
}
use paho_mqtt_golang.MessageIds.{MessageIds}
use paho_mqtt_golang.Store.{StoreOps}
use paho_mqtt_golang.Net.{
  Comms, PacketAndToken, new_ack, on_token, on_some, update_last_sent, comms_outbound,
}

-- An error of the connection's Write, and how many of the bytes it has taken all the same.
pub record Fault : Type 0 where
  pub error : TokenError
  pub taken : ℕ

-- How `p.Write(conn)` ends: the connection took the bytes, or there is an error and it took a part of
-- them, or a panic.
pub data Sent : Type 0 where
  sent : Bytes → Sent
  not_sent : TokenError → Bytes → Sent
  panicked : Sent

-- The bytes of a packet go to the connection, whose Write has the fault `fault`, if it has one. A
-- packet that cannot be encoded does not reach the connection.
abbrev pub written : Option Fault → Result Bytes → Sent
written fault (err e) = not_sent (packet_error e) []
written fault panic = panicked
written none (ok bytes) = sent bytes
written (some f) (ok bytes) = not_sent f.error (take f.taken bytes)

unfoldable pub write_to : Option Fault → ControlPacket → Sent
write_to fault p = written fault (write p).1

-- The text of the error of a connection that has been closed on this side.
abbrev pub reported : TokenError → List TokenError
reported closed_network_connection = []
reported e = e ∷ []

abbrev zero_qos : ControlPacket → Bool
zero_qos (publish m) = m.fixed_header.qos == 0
zero_qos _ = false

abbrev pub is_disconnect : TokenKind → Bool
is_disconnect disconnect_token = true
is_disconnect _ = false

module _ {S : Type 0} where
  abbrev pub with_ids : Comms S → MessageIds → Comms S
  with_ids c mids = record c { ids = mids }

  -- The bytes reach the connection.
  abbrev pub put_on_wire : Bytes → Comms S → Comms S
  put_on_wire bytes c = record c { wire = c.wire ++ bytes }

  -- After the Write of a PUBLISH. A nil token panics where it is called.
  abbrev pub obound_result :
      ℕ → PublishPacket → Option ℕ → Comms S → Sent → Option (Comms S × List TokenError)
  obound_result now msg (some ref) c (sent bytes) =
      let c' = put_on_wire bytes c in
      let done = on_token flow_complete ref c'.ids in
      let c'' : Comms S = if msg.fixed_header.qos == 0 then record c' { ids = done } else c' in
      some (update_last_sent now c'', [])
  obound_result now msg (some ref) c (not_sent e part) =
      some (with_ids (put_on_wire part c) (on_token (set_error e) ref c.ids), reported e)
  obound_result now msg none c (sent bytes) =
      if msg.fixed_header.qos == 0
      then none
      else some (update_last_sent now (put_on_wire bytes c), [])
  obound_result now msg none c (not_sent e part) = none
  obound_result now msg t c panicked = none

  -- A packet of the channel obound, a PUBLISH with its token; another packet panics.
  unfoldable pub handle_obound :
      ℕ → Option Fault → PacketAndToken → Comms S → Option (Comms S × List TokenError)
  handle_obound now fault pub_msg c = elim pub_msg.p [
    | publish msg ↦ obound_result now msg pub_msg.t c (write_to fault (publish msg))
    | _ ↦ none
  ]

  -- `msg.t.(*DisconnectToken).flowComplete()` and `conn.Close()`.
  abbrev pub close_conn : Option ℕ → Comms S → Option (Comms S)
  close_conn none c = none
  close_conn (some ref) c =
      if is_disconnect (c.ids.tokens ref).kind
      then some (record c { ids = on_token flow_complete ref c.ids; conn_closed = true })
      else none

  abbrev pub after_write : ControlPacket → Option ℕ → Comms S → Option (Comms S)
  after_write (disconnect m) t c = close_conn t c
  after_write _ t c = some c

  abbrev pub sent_at : ℕ → Option (Comms S) → Option (Comms S × List TokenError)
  sent_at now none = none
  sent_at now (some c) = some (update_last_sent now c, [])

  -- A packet of the priority channel oboundp, with its token or nil.
  unfoldable pub handle_oboundp :
      ℕ → Option Fault → PacketAndToken → Comms S → Option (Comms S × List TokenError)
  handle_oboundp now fault msg c = elim (write_to fault msg.p) [
    | sent bytes ↦ sent_at now (after_write msg.p msg.t (put_on_wire bytes c))
    | not_sent e part ↦
        some (with_ids (put_on_wire part c) (on_some (set_error e) msg.t c.ids), e ∷ [])
    | panicked ↦ none
  ]

  -- A packet that an incoming message asked for.
  unfoldable pub handle_from_incoming :
      ℕ → Option Fault → PacketAndToken → Comms S → Option (Comms S × List TokenError)
  handle_from_incoming now fault msg c = elim (write_to fault msg.p) [
    | sent bytes ↦ some (update_last_sent now (put_on_wire bytes c), [])
    | not_sent e part ↦
        some (with_ids (put_on_wire part c) (on_some (set_error e) msg.t c.ids), e ∷ [])
    | panicked ↦ none
  ]

-- A branch of the select, with the time and how the connection's Write ends.
pub data Departure : Type 0 where
  obound oboundp from_incoming : ℕ → Option Fault → PacketAndToken → Departure

module _ {S : Type 0} where
  unfoldable pub handle_departure : Departure → Comms S → Option (Comms S × List TokenError)
  handle_departure (obound now fault m) c = handle_obound now fault m c
  handle_departure (oboundp now fault m) c = handle_oboundp now fault m c
  handle_departure (from_incoming now fault m) c = handle_from_incoming now fault m c

  abbrev pub and_then :
      List TokenError → Option (Comms S × List TokenError) → Option (Comms S × List TokenError)
  and_then errors none = none
  and_then errors (some (c, more)) = some (c, errors ++ more)

  -- The loop of startOutgoingComms, in the order in which the select takes the packets.
  unfoldable pub start_outgoing_comms :
      List Departure → Comms S → Option (Comms S × List TokenError)
  start_outgoing_comms [] c = some (c, [])
  start_outgoing_comms (d ∷ rest) c = elim (handle_departure d c) [
    | none ↦ none
    | some (c', errors) ↦ and_then errors (start_outgoing_comms rest c')
  ]

  abbrev acknowledged : PacketAndToken → Option (Comms S) → Option (Comms S × List PacketAndToken)
  acknowledged m none = none
  acknowledged m (some c) = some (c, m ∷ [])

  -- The function that ackFunc returns, with what it gives to sendAck.
  unfoldable pub ack_func :
      StoreOps S → PublishPacket → Comms S → Option (Comms S × List PacketAndToken)
  ack_func s packet c =
      let pr = pubrec (new_ack 5 packet.message_id) in
      let pa = puback (new_ack 4 packet.message_id) in
      if packet.fixed_header.qos == 2
      then some (c, record { p = pr; t = none } ∷ [])
      else if packet.fixed_header.qos == 1
      then acknowledged (record { p = pa; t = none }) (comms_outbound s pa c)
      else some (c, [])
