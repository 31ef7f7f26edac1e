-- ===== src/Client.antt =====
-- client.go: the state of a client, its queries, and what its operations have in common.
pub mod Publish
pub mod Subscribe
pub mod Resume
pub mod Connect
pub mod Delivery
mod Tests
use paho_mqtt_golang.Base.{
  ℕ, ◌+◌, List, Bool, true, false, ◌&&◌, Option, none, some, if◌then◌else◌, ◌==◌,
}
use paho_mqtt_golang.Packets.Packet.{ControlPacket}
use paho_mqtt_golang.Token.{Token, TokenKind, TokenError, no_message_ids, fresh, set_error}
use paho_mqtt_golang.MessageIds.{get_id}
use paho_mqtt_golang.Router.{Router}
use paho_mqtt_golang.Store.{StoreOps}
use paho_mqtt_golang.Status.{
  Status, disconnected, disconnecting, connecting, reconnecting, connected, ConnectionStatus,
}
use paho_mqtt_golang.Options.{ClientOptions}
use paho_mqtt_golang.Net.{Comms, PacketAndToken, on_token, comms_outbound}

-- `obound` and `obound_p` are what the two channels of outgoing packets have taken. `next_token` is a
-- reference above those of all tokens that were made.
pub record Client (S : Type 0) : Type 0 where
  pub options : ClientOptions
  pub comms : Comms S
  pub msg_router : Router
  pub obound : List PacketAndToken
  pub obound_p : List PacketAndToken
  pub next_token : ℕ

unfoldable pub is_connected : ClientOptions → ConnectionStatus → Bool
is_connected o c = elim c.status [
  | connected ↦ true
  | connecting ↦ o.connect_retry
  | reconnecting ↦ o.auto_reconnect
  | disconnecting ↦ o.auto_reconnect && c.will_reconnect
  | disconnected ↦ false
]

abbrev pub is_reconnecting : Status → Bool
is_reconnecting reconnecting = true
is_reconnecting _ = false

unfoldable pub is_connection_open : ConnectionStatus → Bool
is_connection_open c = elim c.status [ connected ↦ true | _ ↦ false ]

-- The status can change while an operation runs: what it is each time the operation looks.
pub record Looks : Type 0 where
  pub at_entry : ConnectionStatus
  pub at_gate : ConnectionStatus
  pub at_filter : ConnectionStatus
  pub at_send : ConnectionStatus

-- An operation returns its token; `none` is a panic.
abbrev pub Returns : Type 0 → Type 0
Returns S = Option (ℕ × Client S)

abbrev pub set_message_id : ℕ → Token → Token
set_message_id id t = record t { message_id = id }

-- Whether a packet waits in the store for a connection.
unfoldable pub only_stored : Status → Bool
only_stored connecting = true
only_stored reconnecting = true
only_stored disconnecting = true
only_stored _ = false

module _ {S : Type 0} where
  abbrev pub with_token : (Token → Token) → ℕ → Client S → Client S
  with_token f token c = record c { comms = record c.comms { ids = on_token f token c.comms.ids } }

  -- `newToken` of a kind, behind a reference of its own.
  abbrev pub make_token : TokenKind → Client S → ℕ × Client S
  make_token kind c = (
    c.next_token,
    with_token (λ old. fresh kind) c.next_token (record c { next_token = c.next_token + 1 }),
  )

  -- `token.setError(e)` or `token.flowComplete()`, and return.
  abbrev pub give_up : TokenError → ℕ → Client S → Returns S
  give_up e token c = some (token, with_token (set_error e) token c)

  -- `c.getID(token)`, with what goes on with the id; 0 is none.
  abbrev pub with_id : ℕ → Client S → (ℕ → Client S → Returns S) → Returns S
  with_id token c go_on =
      let (m_id, ids) = get_id token c.comms.ids in
      let c' = record c { comms = record c.comms { ids = ids } } in
      if m_id == 0
      then give_up no_message_ids token c'
      else go_on m_id (with_token (set_message_id m_id) token c')

  abbrev pub with_comms : Client S → Option (Comms S) → Option (Client S)
  with_comms c none = none
  with_comms c (some comms) = some (record c { comms = comms })

  abbrev pub persist_if : StoreOps S → Bool → ControlPacket → Client S → Option (Client S)
  persist_if s yes_do m c = if yes_do then with_comms c (comms_outbound s m c.comms) else some c
