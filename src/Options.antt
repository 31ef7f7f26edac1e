-- ===== src/Options.antt =====
-- options.go: the options of a client that decide what it does, their defaults and setters, and the
-- CONNECT that message.go makes of them. Handlers, sockets and loggers are left out.
pub mod Laws
mod Tests
use paho_mqtt_golang.Base.{
  ℕ, ◌*◌, ◌/◌, ◌%◌, ◌^◌, List, [], ◌∷◌, ◌++◌, Bytes, Bool, true, false, not, ◌&&◌, ◌||◌, Option,
  none, some, if◌then◌else◌, ltb, leb, str_eq,
}
use paho_mqtt_golang.Packets.Packet.{ConnectPacket, empty_connect, plain_header}

-- The user of a broker's URL, and the password if there is one.
pub record UserInfo : Type 0 where
  pub username : Bytes
  pub password : Option Bytes

-- A time span is a number of nanoseconds, `keep_alive` a number of seconds; none is
-- negative. `dialer_timeout` is the one of the default dialer. `servers` holds the users
-- of the brokers' URLs, `credentials_provider` what the provider returns.
pub record ClientOptions : Type 0 where
  pub servers : List (Option UserInfo)
  pub client_id : Bytes
  pub username : Bytes
  pub password : Bytes
  pub credentials_provider : Option (Bytes × Bytes)
  pub clean_session : Bool
  pub order : Bool
  pub will_enabled : Bool
  pub will_topic : Bytes
  pub will_payload : Bytes
  pub will_qos : ℕ
  pub will_retained : Bool
  pub protocol_version : ℕ
  pub protocol_version_explicit : Bool
  pub keep_alive : ℕ
  pub ping_timeout : ℕ
  pub connect_timeout : ℕ
  pub dialer_timeout : ℕ
  pub max_reconnect_interval : ℕ
  pub auto_reconnect : Bool
  pub connect_retry_interval : ℕ
  pub connect_retry : Bool
  pub write_timeout : ℕ
  pub message_channel_depth : ℕ
  pub resume_subs : Bool
  pub max_resume_pub_in_flight : ℕ
  pub auto_ack_disabled : Bool

abbrev pub second : ℕ
second = 1000000000

unfoldable pub new_client_options : ClientOptions
new_client_options = record {
  servers = [];
  client_id = [];
  username = [];
  password = [];
  credentials_provider = none;
  clean_session = true;
  order = true;
  will_enabled = false;
  will_topic = [];
  will_payload = [];
  will_qos = 0;
  will_retained = false;
  protocol_version = 0;
  protocol_version_explicit = false;
  keep_alive = 30;
  ping_timeout = 10 * second;
  connect_timeout = 30 * second;
  dialer_timeout = 30 * second;
  max_reconnect_interval = 600 * second;
  auto_reconnect = true;
  connect_retry_interval = 30 * second;
  connect_retry = false;
  write_timeout = 0;
  message_channel_depth = 0;
  resume_subs = false;
  max_resume_pub_in_flight = 0;
  auto_ack_disabled = false;
}

-- A broker whose URL parses, with the user in it; parsing is net/url's.
unfoldable pub add_broker : Option UserInfo → ClientOptions → ClientOptions
add_broker user o = record o { servers = o.servers ++ (user ∷ []) }

unfoldable pub set_resume_subs : Bool → ClientOptions → ClientOptions
set_resume_subs resume o = record o { resume_subs = resume }

unfoldable pub set_client_id : Bytes → ClientOptions → ClientOptions
set_client_id id o = record o { client_id = id }

unfoldable pub set_username : Bytes → ClientOptions → ClientOptions
set_username u o = record o { username = u }

unfoldable pub set_password : Bytes → ClientOptions → ClientOptions
set_password p o = record o { password = p }

unfoldable pub set_credentials_provider : Option (Bytes × Bytes) → ClientOptions → ClientOptions
set_credentials_provider p o = record o { credentials_provider = p }

unfoldable pub set_clean_session : Bool → ClientOptions → ClientOptions
set_clean_session clean o = record o { clean_session = clean }

unfoldable pub set_order_matters : Bool → ClientOptions → ClientOptions
set_order_matters order o = record o { order = order }

-- `int64(k / time.Second)`.
unfoldable pub set_keep_alive : ℕ → ClientOptions → ClientOptions
set_keep_alive k o = record o { keep_alive = k / second }

unfoldable pub set_ping_timeout : ℕ → ClientOptions → ClientOptions
set_ping_timeout k o = record o { ping_timeout = k }

unfoldable pub set_protocol_version : ℕ → ClientOptions → ClientOptions
set_protocol_version pv o =
    if (leb 3 pv && leb pv 4) || ltb 128 pv
    then record o { protocol_version = pv; protocol_version_explicit = true }
    else o

unfoldable pub unset_will : ClientOptions → ClientOptions
unset_will o = record o { will_enabled = false }

unfoldable pub set_binary_will : Bytes → Bytes → ℕ → Bool → ClientOptions → ClientOptions
set_binary_will topic payload qos retained o = record o {
  will_enabled = true;
  will_topic = topic;
  will_payload = payload;
  will_qos = qos;
  will_retained = retained;
}

unfoldable pub set_will : Bytes → Bytes → ℕ → Bool → ClientOptions → ClientOptions
unfolding set_binary_will
set_will topic payload qos retained o = set_binary_will topic payload qos retained o

unfoldable pub set_write_timeout : ℕ → ClientOptions → ClientOptions
set_write_timeout t o = record o { write_timeout = t }

unfoldable pub set_connect_timeout : ℕ → ClientOptions → ClientOptions
set_connect_timeout t o = record o { connect_timeout = t; dialer_timeout = t }

unfoldable pub set_max_reconnect_interval : ℕ → ClientOptions → ClientOptions
set_max_reconnect_interval t o = record o { max_reconnect_interval = t }

unfoldable pub set_auto_reconnect : Bool → ClientOptions → ClientOptions
set_auto_reconnect a o = record o { auto_reconnect = a }

unfoldable pub set_connect_retry_interval : ℕ → ClientOptions → ClientOptions
set_connect_retry_interval t o = record o { connect_retry_interval = t }

unfoldable pub set_connect_retry : Bool → ClientOptions → ClientOptions
set_connect_retry a o = record o { connect_retry = a }

unfoldable pub set_message_channel_depth : ℕ → ClientOptions → ClientOptions
set_message_channel_depth s o = record o { message_channel_depth = s }

unfoldable pub set_max_resume_pub_in_flight : ℕ → ClientOptions → ClientOptions
set_max_resume_pub_in_flight n o = record o { max_resume_pub_in_flight = n }

unfoldable pub set_auto_ack_disabled : Bool → ClientOptions → ClientOptions
set_auto_ack_disabled b o = record o { auto_ack_disabled = b }

-- The name and the password of the options, of the URL, and of the provider, each over the last.
abbrev pub url_user : Option UserInfo → Bytes × Bytes → Bytes × Bytes
url_user none (username, password) = (username, password)
url_user (some user) (username, password) =
    (user.username, elim user.password [ some pwd ↦ pwd | none ↦ password ])

abbrev pub provided : Option (Bytes × Bytes) → Bytes × Bytes → Bytes × Bytes
provided none credentials = credentials
provided (some credentials) _ = credentials

unfoldable pub credentials : ClientOptions → Option UserInfo → Bytes × Bytes
credentials o user = provided o.credentials_provider (url_user user (o.username, o.password))

abbrev is_empty : Bytes → Bool
is_empty s = str_eq s []

-- A password goes with a name only.
abbrev pub with_credentials : Bytes × Bytes → ConnectPacket → ConnectPacket
with_credentials (username, password) m =
    let named = not (is_empty username) in
    let locked = named && not (is_empty password) in
    record m {
      username_flag = if named then true else m.username_flag;
      username = if named then username else m.username;
      password_flag = if locked then true else m.password_flag;
      password = if locked then password else m.password;
    }

unfoldable pub new_connect_msg_from_options : ClientOptions → Option UserInfo → ConnectPacket
unfolding empty_connect
new_connect_msg_from_options o user =
    let m = record (empty_connect (plain_header 1 0)) {
      clean_session = o.clean_session;
      will_flag = o.will_enabled;
      will_retain = o.will_retained;
      client_identifier = o.client_id;
      will_qos = if o.will_enabled then o.will_qos else 0;
      will_topic = if o.will_enabled then o.will_topic else [];
      will_message = if o.will_enabled then o.will_payload else [];
      keepalive = o.keep_alive % 2 ^ 16;
    } in
    with_credentials (credentials o user) m
