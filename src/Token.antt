-- ===== src/Token.antt =====
-- token.go: tokens, which tell a caller that an operation has completed, and how. A token of the
-- program is an object; here it is a value, and the maps that hold tokens hold references to them.
use paho_mqtt_golang.Base.{
  ℕ, List, [], Bytes, Bool, true, false, Option, none, some, if◌then◌else◌, ◌==◌,
}
use paho_mqtt_golang.Packets.Result.{Error}
use paho_mqtt_golang.Topic.{TopicError}

pub data TokenKind : Type 0 where
  connect_token subscribe_token publish_token unsubscribe_token disconnect_token : TokenKind
  place_holder_token dummy_token : TokenKind

pub data TokenError : Type 0 where
  lost_before_publish lost_before_subscribe lost_before_unsubscribe : TokenError
  not_connected no_resume_subs reconnecting_clean_session unknown_payload_type : TokenError
  no_message_ids broken_by_timeout : TokenError
  topic_error : TopicError → TokenError
  packet_error : Error → TokenError
  closed_network_connection : TokenError
  other_error : ℕ → TokenError

-- `complete` is the closed channel; PlaceHolderToken and DummyToken have neither it nor an error.
-- `message_id` is in use in the tokens of SUBSCRIBE, PUBLISH and UNSUBSCRIBE, `subs` and `sub_result`
-- in the token of SUBSCRIBE.
pub record Token : Type 0 where
  pub kind : TokenKind
  pub complete : Bool
  pub error : Option TokenError
  pub message_id : ℕ
  pub subs : List Bytes
  pub sub_result : List (Bytes × ℕ)

abbrev pub fresh : TokenKind → Token
fresh k = record {
  kind = k;
  complete = false;
  error = none;
  message_id = 0;
  subs = [];
  sub_result = [];
}

-- The kinds that embed baseToken.
unfoldable pub has_base : TokenKind → Bool
has_base place_holder_token = false
has_base dummy_token = false
has_base _ = true

-- Closing the channel twice would panic; a second call finds it closed and does nothing.
unfoldable pub flow_complete : Token → Token
unfolding has_base
flow_complete t = if has_base t.kind then record t { complete = true } else t

unfoldable pub set_error : TokenError → Token → Token
unfolding has_base
set_error e t = if has_base t.kind then record t { error = some e; complete = true } else t

-- nil for the packet types that have no token.
unfoldable pub new_token : ℕ → Option Token
new_token t =
    if t == 1
    then some (fresh connect_token)
    else if t == 8
    then some (fresh subscribe_token)
    else if t == 3
    then some (fresh publish_token)
    else if t == 10
    then some (fresh unsubscribe_token)
    else if t == 14
    then some (fresh disconnect_token)
    else none
