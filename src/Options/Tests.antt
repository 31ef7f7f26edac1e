-- ===== src/Options/Tests.antt =====
-- The options of a client with a name and a password.
use paho_mqtt_golang.Base.{◌*◌, ◌≡◌, refl, inr, codes, none, some, arith}
use paho_mqtt_golang.Packets.Validate.{validate}
use paho_mqtt_golang.Net.Handshake.{with_protocol}
use paho_mqtt_golang.Options.{
  ClientOptions, UserInfo, second, credentials, new_client_options, new_connect_msg_from_options,
  set_keep_alive, set_password, set_username,
}
use paho_mqtt_golang.Options.Laws.{new_connect_msg_from_options-validate}

abbrev named : ClientOptions
named =
    set_keep_alive (60 * second)
      (set_password (codes "pw") (set_username (codes "user") new_client_options))

-- The name in the URL goes before the one of the options.
abbrev in_url : UserInfo
in_url = record { username = codes "other"; password = none }

credentials-named : credentials named (some in_url) ≡ (codes "other", codes "pw")
unfolding credentials set_keep_alive set_password set_username new_client_options
credentials-named = refl

keep_alive-named : named.keep_alive ≡ 60
unfolding set_keep_alive
keep_alive-named = refl

new_connect_msg_from_options-validate_example :
    validate (with_protocol 4 (new_connect_msg_from_options named (some in_url))) ≡ 0
unfolding credentials set_keep_alive set_password set_username new_client_options
new_connect_msg_from_options-validate_example =
    new_connect_msg_from_options-validate named (some in_url) 4 (λ e. omega (arith, e))
      (λ e. omega (arith, e)) (omega arith) (omega arith) (omega arith) (inr refl)
