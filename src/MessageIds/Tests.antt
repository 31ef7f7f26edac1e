-- ===== src/MessageIds/Tests.antt =====
-- Message ids on small states: three operations in flight.
use paho_mqtt_golang.Base.{ℕ, ◌≡◌, refl, [], ◌∷◌, if◌then◌else◌, ◌==◌, arith}
use paho_mqtt_golang.Base.Assoc.{lookup, delete, nat_eq}
use paho_mqtt_golang.Token.{Token, fresh, publish_token, subscribe_token, unsubscribe_token}
use paho_mqtt_golang.MessageIds.{
  MessageIds, get_id, find_id, get_id_loop, next_id, wraps, clean_up_subscribe, clean_subs, update,
  lose, is_sub,
}
use paho_mqtt_golang.MessageIds.Laws.{Issues, get_id-Issues}

-- Token 0 publishes, token 1 subscribes, the rest unsubscribe.
abbrev tokens : ℕ → Token
tokens r =
    if r == 0
    then fresh publish_token
    else if r == 1
    then fresh subscribe_token
    else fresh unsubscribe_token

-- Ids 65535, 1 and 2 are in use, and 65535 was issued last.
abbrev three : MessageIds
three = record {
  index = (65535, 0) ∷ (1, 1) ∷ (2, 2) ∷ [];
  last_issued_id = 65535;
  tokens = tokens;
}

-- The search wraps past 0, and skips 1 and 2.
get_id-three : (get_id 7 three).0 ≡ 3
unfolding get_id find_id get_id_loop next_id wraps lookup
get_id-three = refl

clean_up_subscribe-three : (clean_up_subscribe three).index ≡ (65535, 0) ∷ []
unfolding clean_up_subscribe clean_subs is_sub update lose delete
clean_up_subscribe-three = refl

get_id-Issues_example : Issues 7 three (get_id 7 three)
get_id-Issues_example = get_id-Issues 7 three (omega arith)
