-- ===== src/Options/Laws.antt =====
-- message.go, newConnectMsgFromOptions, with the protocol of net.go: the CONNECT of a client.
use paho_mqtt_golang.Base.{ℕ, ◌≤◌, ◌<◌, ◌≡◌, ◌≢◌, refl, ◌⊎◌, [], true, Option, length, arith}
use paho_mqtt_golang.Packets.Packet.{connect, empty_connect}
use paho_mqtt_golang.Packets.Validate.{validate, validate_iff}
use paho_mqtt_golang.Packets.RoundTrip.{IsWritable}
use paho_mqtt_golang.Net.Handshake.{with_protocol}
use paho_mqtt_golang.Options.{ClientOptions, UserInfo, credentials, new_connect_msg_from_options}

-- For every version but the bridges' 0x83 and 0x84: the client's own CONNECT passes `Validate` where
-- the client's id, name and password have at most 65535 bytes, and there is a client id or a clean
-- session.
pub new_connect_msg_from_options-validate :
    (o : ClientOptions) (user : Option UserInfo) (version : ℕ)
    → version ≢ 131
    → version ≢ 132
    → length o.client_id ≤ 65535
    → length (credentials o user).0 ≤ 65535
    → length (credentials o user).1 ≤ 65535
    → (o.client_id ≢ []) ⊎ (o.clean_session ≡ true)
    → validate (with_protocol version (new_connect_msg_from_options o user)) ≡ 0
unfolding with_protocol new_connect_msg_from_options empty_connect
new_connect_msg_from_options-validate o user version a b i u p c =
    (validate_iff (with_protocol version (new_connect_msg_from_options o user))).1 (record {
      password_has_user = ground (arith);
      not_reserved = refl;
      known_version = ground (arith);
      identifier_fits = i;
      username_fits = ground (arith, u);
      password_fits = ground (arith, p);
      identified = ground (arith, c);
    })

-- Where moreover the will fits its fields, with a QoS below 4, the CONNECT has a place on the wire.
pub new_connect_msg_from_options-IsWritable :
    (o : ClientOptions) (user : Option UserInfo) (version : ℕ)
    → length o.client_id ≤ 65535
    → length (credentials o user).0 ≤ 65535
    → length (credentials o user).1 ≤ 65535
    → o.will_qos < 4
    → length o.will_topic ≤ 65535
    → length o.will_payload ≤ 65535
    → IsWritable (connect (with_protocol version (new_connect_msg_from_options o user)))
unfolding with_protocol new_connect_msg_from_options empty_connect
new_connect_msg_from_options-IsWritable o user version i u p q t w = (
  record { typed = refl; two_bits = omega arith },
  record {
    name_fits = ground arith;
    will_qos_fits = ground arith;
    not_reserved = refl;
    keepalive_fits = ground arith;
    identifier_fits = i;
    will_topic_fits = ground arith;
    will_message_fits = ground arith;
    username_fits = ground (arith, u);
    password_fits = ground (arith, p);
    no_will = λ h. ground arith;
    no_username = λ h. ground arith;
    no_password = λ h. ground arith;
  },
)
