-- ===== src/Client/Connect.antt =====
-- client.go: NewClient, attemptConnection, and what happens to the ids and the store when a connection
-- begins and ends.
pub mod Laws
mod Tests
use paho_mqtt_golang.Base.{
  ℕ, List, [], ◌∷◌, Bool, true, false, not, ◌&&◌, ◌||◌, Option, none, some, if◌then◌else◌, leb,
  ◌==◌,
}
use paho_mqtt_golang.Token.{Token}
use paho_mqtt_golang.MessageIds.{MessageIds, clean_up, clean_up_subscribe}
use paho_mqtt_golang.Router.{new_router}
use paho_mqtt_golang.Store.{StoreOps}
use paho_mqtt_golang.Options.{ClientOptions}
use paho_mqtt_golang.Net.Handshake.{Trouble, none_at_all, Verdict}
use paho_mqtt_golang.Client.{Client}
use paho_mqtt_golang.Client.Resume.{Turn, goes_on, resume}

-- The protocol version that a client starts with.
unfoldable pub initial_version : ClientOptions → ClientOptions
initial_version o =
    if o.protocol_version == 3
      || (o.protocol_version == 4 || (o.protocol_version == 131 || o.protocol_version == 132))
    then record o { protocol_version_explicit = true }
    else record o { protocol_version = 4; protocol_version_explicit = false }

abbrev no_ids : (ℕ → Token) → MessageIds
no_ids tokens = record { index = []; last_issued_id = 0; tokens = tokens }

-- The store of the options, in the state `persist`; no token is reachable.
unfoldable pub new_client : {S : Type 0} → ClientOptions → S → (ℕ → Token) → Client S
unfolding initial_version
new_client o persist tokens = record {
  options = initial_version o;
  comms = record {
    ids = no_ids tokens;
    persist = persist;
    keep_alive = o.keep_alive;
    ping_outstanding = false;
    last_received = 0;
    last_sent = 0;
    wire = [];
    conn_closed = false;
  };
  msg_router = new_router;
  obound = [];
  obound_p = [];
  next_token = 0;
}

-- How a broker answers: no network connection, or the handshake of connectMQTT.
pub data Dial : Type 0 where
  unreachable : Dial
  shaken : Verdict → Dial

-- What `conn` is: nil, or a connection, open or closed again.
pub data Conn : Type 0 where
  no_conn open_conn closed_conn : Conn

pub data ConnectError : Type 0 where
  dial_failed : ConnectError
  handshake_failed : Trouble → ConnectError
  refused : ℕ → ConnectError
  network_failed : ConnectError

-- The variables of attemptConnection.
pub record Attempt : Type 0 where
  pub conn : Conn
  pub code : ℕ
  pub session_present : Bool
  pub error : Option ConnectError
  pub version : ℕ

abbrev trouble_error : Trouble → Option ConnectError
trouble_error none_at_all = none
trouble_error t = some (handshake_failed t)

-- The body of the loop from the label CONN to the test of the return code.
unfoldable pub try_once : Dial → ℕ → Attempt → Attempt
try_once unreachable version a = record a {
  conn = no_conn;
  code = 254;
  error = some dial_failed;
  version = version;
}
try_once (shaken v) version a = record {
  conn = if v.code == 0 then open_conn else closed_conn;
  code = v.code;
  session_present = v.session_present;
  error = trouble_error v.trouble;
  version = version;
}

-- A broker that refuses version 4 is asked again with version 3, unless the version is explicit.
abbrev pub falls_back : Bool → ℕ → Dial → Bool
falls_back explicit version unreachable = false
falls_back explicit version (shaken v) = not (v.code == 0) && (not explicit && version == 4)

unfoldable pub try_broker : Bool → (ℕ → Dial) → Attempt → Attempt
try_broker explicit broker a =
    let first = try_once (broker a.version) a.version a in
    if falls_back explicit a.version (broker a.version) then try_once (broker 3) 3 first else first

-- A broker answers a version.
unfoldable pub try_brokers : Bool → List (ℕ → Dial) → Attempt → Attempt
try_brokers explicit [] a = a
try_brokers explicit (broker ∷ brokers) a =
    let a' = try_broker explicit broker a in
    let later = try_brokers explicit brokers a' in if a'.code == 0 then a' else later

-- `packets.ConnErrors[rc]`, which is nil for a code that is no key of the map, and for Accepted.
unfoldable pub conn_error : ℕ → Option ConnectError
conn_error rc =
    if (leb 1 rc && leb rc 5) || (rc == 254 || rc == 255) then some (refused rc) else none

abbrev pub first_attempt : ClientOptions → Attempt
first_attempt o = record {
  conn = no_conn;
  code = 0;
  session_present = false;
  error = none;
  version = o.protocol_version;
}

-- The error that is returned, and the options as they are left.
abbrev pub reported : ClientOptions → Attempt → Attempt × ClientOptions
reported o a =
    let locked = record o { protocol_version = a.version; protocol_version_explicit = true } in
    if a.code == 0
    then (a, locked)
    else if not (a.code == 254)
    then (record a { error = conn_error a.code }, o)
    else (record a { error = some network_failed }, o)

unfoldable pub attempt_connection : List (ℕ → Dial) → ClientOptions → Attempt × ClientOptions
attempt_connection brokers o =
    reported o (try_brokers o.protocol_version_explicit brokers (first_attempt o))

-- The tokens of a connection that is lost, once its goroutines have stopped.
unfoldable pub lost_clean_up : ClientOptions → Bool → MessageIds → MessageIds
lost_clean_up o reconnect mids =
    if o.clean_session && not reconnect
    then clean_up mids
    else if not o.resume_subs
    then clean_up_subscribe mids
    else mids

module _ {S : Type 0} (s : StoreOps S) where
  -- `disconnect`, where the goroutines ran.
  unfoldable pub disconnect : Client S → Client S
  disconnect c = record c {
    comms = record c.comms { ids = clean_up c.comms.ids; persist = s.close c.comms.persist };
  }

  -- After the first connection: the store is taken up again, or cleared.
  unfoldable pub after_connect : Option ℕ → Client S → Turn S
  after_connect stop_at c =
      let cleared = record c { comms = record c.comms { persist = s.reset c.comms.persist } } in
      if not c.options.clean_session
      then resume s c.options.resume_subs stop_at c
      else goes_on (record { client = cleared; ibound = [] })

  -- After a reconnection.
  unfoldable pub after_reconnect : Option ℕ → Client S → Turn S
  after_reconnect stop_at c = resume s c.options.resume_subs stop_at c
