-- ===== src/Packets/Validate.antt =====
-- packets/connect.go, Validate: the return code for a CONNECT.
use paho_mqtt_golang.Base.{
  ℕ, ◌≡◌, ◌≢◌, ◌≤◌, ◌↔◌, ◌⊎◌, Bytes, codes, true, false, not, ◌&&◌, ◌||◌, if◌then◌else◌, ltb, ◌==◌,
  length, str_eq, str_eq_iff, arith,
}
use paho_mqtt_golang.Packets.Packet.{ConnectPacket}

abbrev pub mqisdp : Bytes
mqisdp = codes "MQIsdp"

abbrev pub mqtt : Bytes
mqtt = codes "MQTT"

-- Accepted = 0, ErrRefusedBadProtocolVersion = 1, ErrRefusedIDRejected = 2,
-- ErrRefusedBadUsernameOrPassword = 4, ErrProtocolViolation = 255.
unfoldable pub validate : ConnectPacket → ℕ
validate c =
    if c.password_flag && not c.username_flag
    then 4
    else if not (c.reserved_bit == 0)
    then 255
    else if (str_eq c.protocol_name mqisdp && not (c.protocol_version == 3))
        || (str_eq c.protocol_name mqtt && not (c.protocol_version == 4))
    then 1
    else if not (str_eq c.protocol_name mqisdp) && not (str_eq c.protocol_name mqtt)
    then 255
    else if ltb 65535 (length c.client_identifier)
        || (ltb 65535 (length c.username) || ltb 65535 (length c.password))
    then 255
    else if length c.client_identifier == 0 && not c.clean_session
    then 2
    else 0

-- What MQTT 3.1 and 3.1.1 ask of a CONNECT.
pub record IsAcceptable (c : ConnectPacket) : Type 0 where
  pub password_has_user : (c.password_flag ≡ false) ⊎ (c.username_flag ≡ true)
  pub not_reserved : c.reserved_bit ≡ 0
  pub known_version :
      ((c.protocol_name ≡ mqisdp) × (c.protocol_version ≡ 3))
      ⊎ ((c.protocol_name ≡ mqtt) × (c.protocol_version ≡ 4))
  pub identifier_fits : length c.client_identifier ≤ 65535
  pub username_fits : length c.username ≤ 65535
  pub password_fits : length c.password ≤ 65535
  pub identified : (length c.client_identifier ≢ 0) ⊎ (c.clean_session ≡ true)

-- `Validate` returns Accepted exactly for the CONNECT packets that name a user for a password, a
-- protocol name with its version, fields that fit, and a client or a clean session.
pub validate_iff : (c : ConnectPacket) → (validate c ≡ 0) ↔ IsAcceptable c
unfolding validate
validate_iff c = (
  λ h. record {
    password_has_user = ground arith;
    not_reserved = ground arith;
    known_version =
        ground (arith, str_eq_iff c.protocol_name mqisdp, str_eq_iff c.protocol_name mqtt);
    identifier_fits = ground arith;
    username_fits = ground arith;
    password_fits = ground arith;
    identified = ground arith;
  },
  λ a. ground (
    arith,
    str_eq_iff c.protocol_name mqisdp,
    str_eq_iff c.protocol_name mqtt,
    a.password_has_user,
    a.not_reserved,
    a.known_version,
    a.identifier_fits,
    a.username_fits,
    a.password_fits,
    a.identified,
  ),
)
