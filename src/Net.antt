-- ===== src/Net.antt =====
-- net.go: what the goroutines of a connection share. They reach the client through commsFns, which is
-- here the state `Comms`: the message ids with their tokens, the store, the flags and times of the
-- keepalive, and what has been handed to the connection.
pub mod Handshake
pub mod Incoming
pub mod Outgoing
pub mod Stream
pub mod Exchange
pub mod Suback
pub mod Invariant
mod Tests
use paho_mqtt_golang.Base.{ℕ, Bytes, Bool, false, Option, none, some, if◌then◌else◌, ◌==◌}
use paho_mqtt_golang.Packets.Packet.{ControlPacket, AckPacket, plain_header}
use paho_mqtt_golang.Token.{Token, flow_complete}
use paho_mqtt_golang.MessageIds.{MessageIds, Found, token_ref, dummy, get_token, free_id, update}
use paho_mqtt_golang.Store.{StoreOps, persist_outbound, persist_inbound}

-- A packet to send, with a reference to its token or nil.
pub record PacketAndToken : Type 0 where
  pub p : ControlPacket
  pub t : Option ℕ

-- `keep_alive` is the option KeepAlive; a time is a number.
pub record Comms (S : Type 0) : Type 0 where
  pub ids : MessageIds
  pub persist : S
  pub keep_alive : ℕ
  pub ping_outstanding : Bool
  pub last_received : ℕ
  pub last_sent : ℕ
  pub wire : Bytes
  pub conn_closed : Bool

-- A PUBACK, PUBREC, PUBREL or PUBCOMP as NewControlPacket makes it, with a message id.
abbrev pub new_ack : ℕ → ℕ → AckPacket
new_ack t id = record { fixed_header = plain_header t (if t == 6 then 1 else 0); message_id = id }

-- A call on the token behind a reference.
unfoldable pub on_token : (Token → Token) → ℕ → MessageIds → MessageIds
on_token f ref mids = record mids { tokens = update f ref mids.tokens }

-- `c.getToken(id)` with a call on the token; a DummyToken has nothing that changes.
abbrev pub on_found : (Token → Token) → Found → MessageIds → MessageIds
on_found f (token_ref ref) mids = on_token f ref mids
on_found f (dummy id) mids = mids

-- A call on a token of PacketAndToken, where it is not nil.
abbrev pub on_some : (Token → Token) → Option ℕ → MessageIds → MessageIds
on_some f (some ref) mids = on_token f ref mids
on_some f none mids = mids

module _ {S : Type 0} where
  unfoldable pub update_last_received : ℕ → Comms S → Comms S
  update_last_received now c = record c {
    last_received = if c.keep_alive == 0 then c.last_received else now;
  }

  unfoldable pub update_last_sent : ℕ → Comms S → Comms S
  update_last_sent now c = record c { last_sent = if c.keep_alive == 0 then c.last_sent else now }

  unfoldable pub ping_resp_received : Comms S → Comms S
  ping_resp_received c = record c { ping_outstanding = false }

  -- `c.getToken(id).flowComplete()` and `c.freeID(id)`.
  unfoldable pub complete_and_free : ℕ → Comms S → Comms S
  complete_and_free id c = record c {
    ids = free_id id (on_found flow_complete (get_token id c.ids) c.ids);
  }

  abbrev pub with_persist : Comms S → Option S → Option (Comms S)
  with_persist c none = none
  with_persist c (some st) = some (record c { persist = st })

  module _ (s : StoreOps S) where
    abbrev pub comms_outbound : ControlPacket → Comms S → Option (Comms S)
    comms_outbound m c = with_persist c (persist_outbound s m c.persist)

    abbrev pub comms_inbound : ControlPacket → Comms S → Option (Comms S)
    comms_inbound m c = with_persist c (persist_inbound s m c.persist)
