-- ===== src/Keepalive/Tests.antt =====
-- A keepalive of 30 seconds with a timeout of 10, on a connection without traffic.
use paho_mqtt_golang.Base.{List, ◌*◌, ◌≡◌, refl, [], ◌∷◌, ◌++◌, false, none, arith}
use paho_mqtt_golang.Options.{second}
use paho_mqtt_golang.Keepalive.{Keepalive, Event, look, received, check_interval, is_due, run}
use paho_mqtt_golang.Keepalive.Laws.{silent_broker_is_given_up, WasSilent, given_up-WasSilent}

abbrev idle : Keepalive
idle = record {
  last_sent = 0;
  last_received = 0;
  ping_outstanding = false;
  ping_sent = 0;
  pings = [];
}

check_interval-30 : check_interval 30 ≡ 5 * second
unfolding check_interval
check_interval-30 = refl

silent_broker_is_given_up_example :
    run 30
      (10 * second)
      (look (30 * second)
        ∷ ((received (31 * second) ∷ look (35 * second) ∷ []) ++ (look (40 * second) ∷ [])))
      idle
    ≡ none
unfolding is_due
silent_broker_is_given_up_example =
    silent_broker_is_given_up 30 (10 * second) (30 * second) (40 * second)
      (received (31 * second) ∷ look (35 * second) ∷ []) idle refl refl (refl, (refl, tt))
      (omega arith)

abbrev silence : List Event
silence = look (30 * second) ∷ received (31 * second) ∷ look (35 * second) ∷ look (40 * second) ∷ []

given_up-WasSilent_example : WasSilent 30 (10 * second) silence idle
unfolding is_due
given_up-WasSilent_example = given_up-WasSilent 30 (10 * second) silence idle (omega arith) refl (
    silent_broker_is_given_up 30 (10 * second) (30 * second) (40 * second)
      (received (31 * second) ∷ look (35 * second) ∷ []) idle refl refl (refl, (refl, tt))
      (omega arith))
