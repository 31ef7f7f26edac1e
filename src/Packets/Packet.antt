-- ===== src/Packets/Packet.antt =====
-- packets/: the packet structs, `Details` and the constructors of empty packets.
use paho_mqtt_golang.Base.{ℕ, List, [], Bytes, Bool, false, Option, none, some, if◌then◌else◌, ◌==◌}
use paho_mqtt_golang.Packets.Header.{FixedHeader}

pub record ConnectPacket : Type 0 where
  pub fixed_header : FixedHeader
  pub protocol_name : Bytes
  pub protocol_version : ℕ
  pub clean_session : Bool
  pub will_flag : Bool
  pub will_qos : ℕ
  pub will_retain : Bool
  pub username_flag : Bool
  pub password_flag : Bool
  pub reserved_bit : ℕ
  pub keepalive : ℕ
  pub client_identifier : Bytes
  pub will_topic : Bytes
  pub will_message : Bytes
  pub username : Bytes
  pub password : Bytes

pub record ConnackPacket : Type 0 where
  pub fixed_header : FixedHeader
  pub session_present : Bool
  pub return_code : ℕ

pub record PublishPacket : Type 0 where
  pub fixed_header : FixedHeader
  pub topic_name : Bytes
  pub message_id : ℕ
  pub payload : Bytes

-- PubackPacket, PubrecPacket, PubrelPacket, PubcompPacket and UnsubackPacket have the same fields.
pub record AckPacket : Type 0 where
  pub fixed_header : FixedHeader
  pub message_id : ℕ

pub record SubscribePacket : Type 0 where
  pub fixed_header : FixedHeader
  pub message_id : ℕ
  pub topics : List Bytes
  pub qoss : Bytes

pub record SubackPacket : Type 0 where
  pub fixed_header : FixedHeader
  pub message_id : ℕ
  pub return_codes : Bytes

pub record UnsubscribePacket : Type 0 where
  pub fixed_header : FixedHeader
  pub message_id : ℕ
  pub topics : List Bytes

-- PingreqPacket, PingrespPacket and DisconnectPacket are a fixed header alone.
pub record HeaderPacket : Type 0 where
  pub fixed_header : FixedHeader

-- The implementations of the interface ControlPacket.
pub data ControlPacket : Type 0 where
  connect : ConnectPacket → ControlPacket
  connack : ConnackPacket → ControlPacket
  publish : PublishPacket → ControlPacket
  puback : AckPacket → ControlPacket
  pubrec : AckPacket → ControlPacket
  pubrel : AckPacket → ControlPacket
  pubcomp : AckPacket → ControlPacket
  subscribe : SubscribePacket → ControlPacket
  suback : SubackPacket → ControlPacket
  unsubscribe : UnsubscribePacket → ControlPacket
  unsuback : AckPacket → ControlPacket
  pingreq : HeaderPacket → ControlPacket
  pingresp : HeaderPacket → ControlPacket
  disconnect : HeaderPacket → ControlPacket

-- The packet types on the wire are the constants Connect = 1 to Disconnect = 14.
unfoldable pub empty_connect : FixedHeader → ConnectPacket
empty_connect fh = record {
  fixed_header = fh;
  protocol_name = [];
  protocol_version = 0;
  clean_session = false;
  will_flag = false;
  will_qos = 0;
  will_retain = false;
  username_flag = false;
  password_flag = false;
  reserved_bit = 0;
  keepalive = 0;
  client_identifier = [];
  will_topic = [];
  will_message = [];
  username = [];
  password = [];
}

abbrev pub empty_ack : FixedHeader → AckPacket
empty_ack fh = record { fixed_header = fh; message_id = 0 }

-- `none` is the error of an unsupported type, its only error.
unfoldable pub new_control_packet_with_header : FixedHeader → Option ControlPacket
unfolding empty_connect
new_control_packet_with_header fh =
    let t = fh.message_type in
    if t == 1
    then some (connect (empty_connect fh))
    else if t == 2
    then some (connack (record { fixed_header = fh; session_present = false; return_code = 0 }))
    else if t == 14
    then some (disconnect (record { fixed_header = fh }))
    else if t == 3
    then some
        (publish (record { fixed_header = fh; topic_name = []; message_id = 0; payload = [] }))
    else if t == 4
    then some (puback (empty_ack fh))
    else if t == 5
    then some (pubrec (empty_ack fh))
    else if t == 6
    then some (pubrel (empty_ack fh))
    else if t == 7
    then some (pubcomp (empty_ack fh))
    else if t == 8
    then some (subscribe (record { fixed_header = fh; message_id = 0; topics = []; qoss = [] }))
    else if t == 9
    then some (suback (record { fixed_header = fh; message_id = 0; return_codes = [] }))
    else if t == 10
    then some (unsubscribe (record { fixed_header = fh; message_id = 0; topics = [] }))
    else if t == 11
    then some (unsuback (empty_ack fh))
    else if t == 12
    then some (pingreq (record { fixed_header = fh }))
    else if t == 13
    then some (pingresp (record { fixed_header = fh }))
    else none

-- The header of an empty packet of type `t`.
abbrev pub plain_header : ℕ → ℕ → FixedHeader
plain_header t q = record {
  message_type = t;
  dup = false;
  qos = q;
  retain = false;
  remaining_length = 0;
}

-- A nil packet for an unknown type. PUBREL, SUBSCRIBE and UNSUBSCRIBE have QoS 1 in their headers.
unfoldable pub new_control_packet : ℕ → Option ControlPacket
unfolding new_control_packet_with_header
new_control_packet t =
    let q : ℕ = if t == 6 then 1 else if t == 8 then 1 else if t == 10 then 1 else 0 in
    new_control_packet_with_header (plain_header t q)

pub record Details : Type 0 where
  pub qos : ℕ
  pub message_id : ℕ

abbrev no_details : Details
no_details = record { qos = 0; message_id = 0 }

-- The methods `Details` of the packet types.
abbrev details_connect : ConnectPacket → Details
details_connect p = no_details

abbrev details_connack : ConnackPacket → Details
details_connack p = no_details

abbrev details_publish : PublishPacket → Details
details_publish p = record { qos = p.fixed_header.qos; message_id = p.message_id }

abbrev details_puback : AckPacket → Details
details_puback p = record { qos = p.fixed_header.qos; message_id = p.message_id }

abbrev details_pubrec : AckPacket → Details
details_pubrec p = record { qos = p.fixed_header.qos; message_id = p.message_id }

abbrev details_pubrel : AckPacket → Details
details_pubrel p = record { qos = p.fixed_header.qos; message_id = p.message_id }

abbrev details_pubcomp : AckPacket → Details
details_pubcomp p = record { qos = p.fixed_header.qos; message_id = p.message_id }

abbrev details_subscribe : SubscribePacket → Details
details_subscribe p = record { qos = 1; message_id = p.message_id }

abbrev details_suback : SubackPacket → Details
details_suback p = record { qos = 0; message_id = p.message_id }

abbrev details_unsubscribe : UnsubscribePacket → Details
details_unsubscribe p = record { qos = 1; message_id = p.message_id }

abbrev details_unsuback : AckPacket → Details
details_unsuback p = record { qos = 0; message_id = p.message_id }

abbrev details_pingreq : HeaderPacket → Details
details_pingreq p = no_details

abbrev details_pingresp : HeaderPacket → Details
details_pingresp p = no_details

abbrev details_disconnect : HeaderPacket → Details
details_disconnect p = no_details

unfoldable pub details : ControlPacket → Details
details (connect p) = details_connect p
details (connack p) = details_connack p
details (publish p) = details_publish p
details (puback p) = details_puback p
details (pubrec p) = details_pubrec p
details (pubrel p) = details_pubrel p
details (pubcomp p) = details_pubcomp p
details (subscribe p) = details_subscribe p
details (suback p) = details_suback p
details (unsubscribe p) = details_unsubscribe p
details (unsuback p) = details_unsuback p
details (pingreq p) = details_pingreq p
details (pingresp p) = details_pingresp p
details (disconnect p) = details_disconnect p

-- The type that the program switches on, by the Go type of a packet.
unfoldable pub packet_type : ControlPacket → ℕ
packet_type (connect p) = 1
packet_type (connack p) = 2
packet_type (publish p) = 3
packet_type (puback p) = 4
packet_type (pubrec p) = 5
packet_type (pubrel p) = 6
packet_type (pubcomp p) = 7
packet_type (subscribe p) = 8
packet_type (suback p) = 9
packet_type (unsubscribe p) = 10
packet_type (unsuback p) = 11
packet_type (pingreq p) = 12
packet_type (pingresp p) = 13
packet_type (disconnect p) = 14

unfoldable pub header_of : ControlPacket → FixedHeader
header_of (connect p) = p.fixed_header
header_of (connack p) = p.fixed_header
header_of (publish p) = p.fixed_header
header_of (puback p) = p.fixed_header
header_of (pubrec p) = p.fixed_header
header_of (pubrel p) = p.fixed_header
header_of (pubcomp p) = p.fixed_header
header_of (subscribe p) = p.fixed_header
header_of (suback p) = p.fixed_header
header_of (unsubscribe p) = p.fixed_header
header_of (unsuback p) = p.fixed_header
header_of (pingreq p) = p.fixed_header
header_of (pingresp p) = p.fixed_header
header_of (disconnect p) = p.fixed_header
