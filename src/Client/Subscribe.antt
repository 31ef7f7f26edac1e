-- ===== src/Client/Subscribe.antt =====
-- client.go, Subscribe, SubscribeMultiple and Unsubscribe.
pub mod Laws
pub mod Barred
pub mod Allowed
pub mod Refused
use paho_mqtt_golang.Base.{
  ℕ, ◌+◌, List, [], ◌∷◌, ◌++◌, Bytes, codes, Bool, not, ◌&&◌, Option, none, some, if◌then◌else◌,
  drop, length,
}
use paho_mqtt_golang.Packets.Packet.{
  ControlPacket, SubscribePacket, subscribe, unsubscribe, plain_header,
}
use paho_mqtt_golang.Token.{
  Token, TokenError, subscribe_token, unsubscribe_token, not_connected, no_resume_subs,
  reconnecting_clean_session, broken_by_timeout, topic_error,
}
use paho_mqtt_golang.Topic.{split, validate_topic_and_qos, valid, invalid, validate_subscribe_map}
use paho_mqtt_golang.Router.{Router, has_prefix, add_route, delete_route}
use paho_mqtt_golang.Store.{StoreOps}
use paho_mqtt_golang.Status.{Status}
use paho_mqtt_golang.Options.{ClientOptions}
use paho_mqtt_golang.Client.{
  Client, Looks, Returns, is_connected, is_connection_open, is_reconnecting, with_token, make_token,
  give_up, with_id, only_stored, persist_if,
}

-- Why a subscription cannot begin, where it cannot.
unfoldable pub refuses : ClientOptions → Looks → Option TokenError
refuses o looks =
    if not (is_connected o looks.at_entry)
    then some not_connected
    else if is_connection_open looks.at_gate
    then none
    else if not o.resume_subs
    then some no_resume_subs
    else if o.clean_session && is_reconnecting looks.at_filter.status
    then some reconnecting_clean_session
    else none

-- `strings.Join(levels, "/")`.
unfoldable pub join : List Bytes → Bytes
join [] = []
join (level ∷ []) = level
join (level ∷ more ∷ levels) = level ++ (47 ∷ join (more ∷ levels))

abbrev pub share_slash : Bytes
share_slash = codes "$share/"

abbrev pub queue_slash : Bytes
queue_slash = codes "$queue/"

-- The slice is in range: what is split holds a slash.
unfoldable pub without_share : Bytes → Bytes
without_share topic = if has_prefix topic share_slash then join (drop 2 (split topic)) else topic

unfoldable pub trim_prefix : Bytes → Bytes → Bytes
trim_prefix s prefix = if has_prefix s prefix then drop (length prefix) s else s

-- The topic that a callback of Subscribe is for.
unfoldable pub route_topic : Bytes → Bytes
route_topic topic = trim_prefix (without_share topic) queue_slash

abbrev pub set_subs : List Bytes → Token → Token
set_subs topics t = record t { subs = topics }

abbrev pub add_callback : Option ℕ → Bytes → Router → Router
add_callback none topic r = r
add_callback (some callback) topic r = add_route topic callback r

unfoldable pub add_callbacks : Option ℕ → List (Bytes × ℕ) → Router → Router
add_callbacks callback [] r = r
add_callbacks callback ((topic, qos) ∷ filters) r =
    add_callbacks callback filters (add_callback callback topic r)

unfoldable pub delete_routes : List Bytes → Router → Router
delete_routes [] r = r
delete_routes (topic ∷ topics) r = delete_routes topics (delete_route topic r)

module _ {S : Type 0} where
  abbrev pub with_router : (Router → Router) → Client S → Client S
  with_router f c = record c { msg_router = f c.msg_router }

  -- The select on the channel oboundP and the timer; `taken` says which it was.
  unfoldable pub send_priority :
      Status → Bool → ControlPacket → (Client S → Client S) → ℕ → Client S → Returns S
  send_priority status taken m when_taken token c =
      if only_stored status
      then some (token, c)
      else if taken
      then some (
        token,
        when_taken (record c { obound_p = c.obound_p ++ (record { p = m; t = some token } ∷ []) }),
      )
      else give_up broken_by_timeout token c

  abbrev pub and_send_priority :
      Status → Bool → ControlPacket → (Client S → Client S) → ℕ → Option (Client S) → Returns S
  and_send_priority status taken m when_taken token none = none
  and_send_priority status taken m when_taken token (some c) =
      send_priority status taken m when_taken token c

  abbrev same_client : Client S → Client S
  same_client c = c

  module _ (s : StoreOps S) where
    -- A message is stored only if it must be sent again on the next connection.
    unfoldable pub subscribe_packet : Looks → Bool → SubscribePacket → ℕ → Client S → Returns S
    subscribe_packet looks taken sub token c = with_id token c (λ m_id c'.
        let m = subscribe (record sub { message_id = m_id }) in
        and_send_priority looks.at_send.status taken m same_client token
          (persist_if s c'.options.resume_subs m c'))

    -- A callback is a number, or nil.
    unfoldable pub subscribe_topic : Looks → Bool → Bytes → ℕ → Option ℕ → Client S → Returns S
    subscribe_topic looks taken topic qos callback c =
        let (token, c') = make_token subscribe_token c in
        elim (refuses c.options looks) [
          | some e ↦ give_up e token c'
          | none ↦ elim (validate_topic_and_qos topic qos) [
            | some e ↦ give_up (topic_error e) token c'
            | none ↦
                let sub : SubscribePacket = record {
                  fixed_header = plain_header 8 1;
                  message_id = 0;
                  topics = topic ∷ [];
                  qoss = qos ∷ [];
                } in
                let routed = with_router (add_callback callback (route_topic topic)) c' in
                subscribe_packet looks taken sub token
                  (with_token (set_subs (route_topic topic ∷ [])) token routed)
          ]
        ]

    unfoldable pub subscribe_multiple :
        Looks → Bool → List (Bytes × ℕ) → Option ℕ → Client S → Returns S
    subscribe_multiple looks taken filters callback c =
        let (token, c') = make_token subscribe_token c in
        elim (refuses c.options looks) [
          | some e ↦ give_up e token c'
          | none ↦ elim (validate_subscribe_map filters) [
            | invalid e ↦ give_up (topic_error e) token c'
            | valid topics qoss ↦
                let sub : SubscribePacket = record {
                  fixed_header = plain_header 8 1;
                  message_id = 0;
                  topics = topics;
                  qoss = qoss;
                } in
                let routed = with_router (add_callbacks callback filters) c' in
                subscribe_packet looks taken sub token (with_token (set_subs topics) token routed)
          ]
        ]

    -- The routes go once the packet is taken.
    unfoldable pub unsubscribe_from : Looks → Bool → List Bytes → Client S → Returns S
    unsubscribe_from looks taken topics c =
        let (token, c') = make_token unsubscribe_token c in
        elim (refuses c.options looks) [
          | some e ↦ give_up e token c'
          | none ↦ with_id token c' (λ m_id c''.
              let m =
                unsubscribe (record {
                  fixed_header = plain_header 10 1;
                  message_id = m_id;
                  topics = topics;
                }) in
              and_send_priority looks.at_send.status taken m (with_router (delete_routes topics))
                token (persist_if s c''.options.resume_subs m c''))
        ]
