-- ===== src/Net/Handshake.antt =====
-- net.go, connectMQTT and verifyCONNACK: the exchange of CONNECT and CONNACK.
mod Tests
use paho_mqtt_golang.Base.{
  ℕ, ◌==◌, ◌||◌, [], ◌++◌, Bytes, Bool, false, Option, none, some, if◌then◌else◌, ◌≡◌, ◌≢◌, refl,
  arith,
}
use paho_mqtt_golang.Packets.Result.{Result, ok, panic, Error}
use paho_mqtt_golang.Packets.Packet.{ControlPacket, ConnectPacket, ConnackPacket, connect, connack}
use paho_mqtt_golang.Packets.Write.{write, write_connack}
use paho_mqtt_golang.Packets.Read.{ReadResult, no_packet, packet, read_packet}
use paho_mqtt_golang.Packets.Validate.{mqisdp, mqtt}
use paho_mqtt_golang.Packets.RoundTrip.{IsWritable, read_packet-write}
use paho_mqtt_golang.Token.{TokenError}
use paho_mqtt_golang.Net.Outgoing.{Fault, sent, not_sent, panicked, write_to}

-- The error of a handshake, where there is one.
pub data Trouble : Type 0 where
  none_at_all non_connack : Trouble
  write_failed : TokenError → Trouble
  read_failed : Error → Trouble

pub record Verdict : Type 0 where
  pub code : ℕ
  pub session_present : Bool
  pub trouble : Trouble

-- ErrNetworkError = 254.
abbrev network_trouble : Trouble → Verdict
network_trouble e = record { code = 254; session_present = false; trouble = e }

abbrev connack_of : ControlPacket → Verdict
connack_of (connack msg) = record {
  code = msg.return_code;
  session_present = msg.session_present;
  trouble = none_at_all;
}
connack_of _ = network_trouble non_connack

abbrev judged : ReadResult → Verdict
judged (no_packet e) = network_trouble (read_failed e)
judged (packet ca (some e) rest) = network_trouble (read_failed e)
judged (packet ca none rest) = connack_of ca

-- The reply of the broker is what can be read from the connection.
unfoldable pub verify_connack : Bytes → Verdict
verify_connack reply = judged (read_packet reply)

-- The protocol name and level that a version stands for.
unfoldable pub with_protocol : ℕ → ConnectPacket → ConnectPacket
with_protocol version cm = record cm {
  protocol_name = if version == 3 || version == 131 then mqisdp else mqtt;
  protocol_version = if version == 3 || (version == 131 || version == 132) then version else 4;
}

-- The bytes that went out, and the verdict; `none` is a panic. `fault` is the fault of the
-- connection's Write.
unfoldable pub connect_mqtt : Option Fault → ConnectPacket → ℕ → Bytes → Option (Bytes × Verdict)
connect_mqtt fault cm version reply = elim (write_to fault (connect (with_protocol version cm))) [
  | sent bytes ↦ some (bytes, verify_connack reply)
  | not_sent e part ↦ some (part, network_trouble (write_failed e))
  | panicked ↦ none
]

abbrev IsTrouble : Verdict → Type 0
IsTrouble w = (w.code ≡ 254) × (w.session_present ≡ false) × (w.trouble ≢ none_at_all)

-- What verifyCONNACK reports of what is read.
abbrev pub Judges : ReadResult → Verdict → Type 0
Judges (no_packet e) w = IsTrouble w
Judges (packet cp (some e) rest) w = IsTrouble w
Judges (packet (connack p) none rest) w =
    (w.code ≡ p.return_code) × (w.session_present ≡ p.session_present) × (w.trouble ≡ none_at_all)
Judges (packet _ none rest) w = IsTrouble w

-- The code and the session flag of a reply are those of its CONNACK, if it begins with one that can
-- be read; every other reply has the code of a network error, no session, and an error.
pub verify_connack_lem : (reply : Bytes) → Judges (read_packet reply) (verify_connack reply)
unfolding verify_connack
verify_connack_lem reply = go (read_packet reply)
  where
    go : (x : ReadResult) → Judges x (judged x)
    go (no_packet e) = (refl, refl, λ h. ground arith)
    go (packet cp (some e) rest) = (refl, refl, λ h. ground arith)
    go (packet (connack p) none rest) = (refl, refl, refl)
    go (packet cp none rest) = (refl, refl, λ h. ground arith)

-- With a CONNECT that has a place on the wire under the protocol of the version, if `Write` can
-- encode it: the bytes that connectMQTT sends are read by the broker as this CONNECT, and if the
-- broker answers with the bytes of a CONNACK, connectMQTT returns its code and its session flag, and
-- no error.
pub connect_mqtt-write :
    (cm : ConnectPacket) (version : ℕ) (bytes answer more rest : Bytes) (ca : ConnackPacket)
    → IsWritable (connect (with_protocol version cm))
    → (write (connect (with_protocol version cm))).1 ≡ ok bytes
    → IsWritable (connack ca)
    → (write (connack ca)).1 ≡ ok answer
    → (connect_mqtt none cm version (answer ++ more)
        ≡ some (
          bytes,
          record {
            code = ca.return_code;
            session_present = ca.session_present;
            trouble = none_at_all;
          },
        ))
      × (read_packet (bytes ++ rest)
          ≡ packet (write (connect (with_protocol version cm))).0 none rest)
unfolding connect_mqtt write_to verify_connack write write_connack
connect_mqtt-write cm version bytes answer more rest ca w e wa ea = (
  rw (connect_mqtt, write_to, e, verify_connack, read_packet-write (connack ca) answer more wa ea)
      refl,
  read_packet-write (connect (with_protocol version cm)) bytes rest w e,
)
