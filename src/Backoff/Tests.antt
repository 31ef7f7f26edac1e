-- ===== src/Backoff/Tests.antt =====
-- Four errors in a row, a second apart, with periods of one to five seconds.
use paho_mqtt_golang.Base.{
  str_eq, ℕ, ◌≡◌, ◌≤◌, refl, [], ◌∷◌, Bytes, codes, true, some, get_elem?, arith,
}
use paho_mqtt_golang.Base.Assoc.{lookup, bytes_eq, insert}
use paho_mqtt_golang.Backoff.{get_backoff_sleep_time}
use paho_mqtt_golang.Backoff.Bound.{IsBounded, get_backoff_sleep_time_bound}
use paho_mqtt_golang.Backoff.Schedule.{sleeps, sleeps_double}

abbrev dial : Bytes
dial = codes "dial"

abbrev second : ℕ
second = 1000000000

sleeps-four :
    sleeps dial second 5000000000 second (0 ∷ second ∷ 2000000000 ∷ 3000000000 ∷ []) []
    ≡ second ∷ 2000000000 ∷ 4000000000 ∷ 5000000000 ∷ []
unfolding sleeps get_backoff_sleep_time lookup insert str_eq
sleeps-four = refl

none-IsBounded : IsBounded 5000000000 []
unfolding lookup
none-IsBounded s status e = cc

get_backoff_sleep_time_bound_example :
    ((get_backoff_sleep_time dial second 5000000000 second true 7 []).0.0 ≤ 5000000000)
    × IsBounded 5000000000 (get_backoff_sleep_time dial second 5000000000 second true 7 []).1
get_backoff_sleep_time_bound_example =
    get_backoff_sleep_time_bound dial second 5000000000 second true 7 [] (omega arith) (omega arith)
      none-IsBounded

sleeps_double_example :
    get_elem? (sleeps dial second 5000000000 second (0 ∷ second ∷ 2000000000 ∷ []) []) 2
    ≡ some 4000000000
sleeps_double_example =
    sleeps_double dial second 5000000000 second (omega arith) (omega arith) (omega arith)
      (omega arith) 0 (second ∷ 2000000000 ∷ []) 2 [] (omega arith) (omega arith) (omega arith)
      (unfold lookup in refl)
