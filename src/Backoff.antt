-- ===== src/Backoff.antt =====
-- backoff.go: the time to sleep before the next attempt to connect.
pub mod Bound
pub mod Schedule
mod Tests
use paho_mqtt_golang.Base.{
  ℕ, ◌+◌, ◌-◌, ◌*◌, ◌%◌, ◌^◌, List, [], Bytes, Bool, true, false, not, none, some, if◌then◌else◌,
  ltb, leb, ◌==◌,
}
use paho_mqtt_golang.Base.Assoc.{lookup, insert, bytes_eq}

-- A time.Duration is an int64, here as the 64 bits of its two's complement.
abbrev pub signed_leb : ℕ → ℕ → Bool
signed_leb a b = leb ((a + 2 ^ 63) % 2 ^ 64) ((b + 2 ^ 63) % 2 ^ 64)

-- `now.Sub(old)` on times in nanoseconds, which stops at the ends of int64.
abbrev pub sub_time : ℕ → ℕ → ℕ
sub_time now old =
    if leb old now
    then (if ltb (now - old) (2 ^ 63) then now - old else 2 ^ 63 - 1)
    else (if ltb (old - now) (2 ^ 63) then 2 ^ 64 - (old - now) else 2 ^ 63)

pub record BackoffStatus : Type 0 where
  pub last_sleep_period : ℕ
  pub last_error_time : ℕ

-- The statuses by situation.
abbrev pub BackoffController : Type 0
BackoffController = List (Bytes × BackoffStatus)

abbrev pub new_backoff_controller : BackoffController
new_backoff_controller = []

-- A sleep period, whether the errors go on, and the status as it becomes.
pub record Backoff : Type 0 where
  pub sleep : ℕ
  pub continual : Bool
  pub status : BackoffStatus

unfoldable pub first_process : BackoffStatus → ℕ → Bool → Backoff
first_process status init skip =
    if skip
    then record { sleep = 0; continual = false; status = record status { last_sleep_period = 0 } }
    else record {
      sleep = init;
      continual = false;
      status = record status { last_sleep_period = init };
    }

abbrev pub at_most : ℕ → ℕ → ℕ
at_most init max = if not (signed_leb init max) then max else init

-- What follows for a situation that has a status, at the time `now`.
unfoldable pub next_sleep : BackoffStatus → ℕ → ℕ → ℕ → Bool → ℕ → Backoff
unfolding first_process
next_sleep status init max process skip now =
    let elapsed = sub_time now status.last_error_time in
    let status' : BackoffStatus = record status { last_error_time = now } in
    let doubled = status.last_sleep_period * 2 % 2 ^ 64 in
    let sleep = if signed_leb doubled max then doubled else max in
    if not (signed_leb elapsed ((process * 2 + status.last_sleep_period) % 2 ^ 64))
    then first_process status' init skip
    else if status.last_sleep_period == 0
    then record {
      sleep = init;
      continual = true;
      status = record status' { last_sleep_period = init };
    }
    else record {
      sleep = sleep;
      continual = true;
      status = record status' { last_sleep_period = sleep };
    }

-- The results, and the controller as it becomes.
unfoldable pub get_backoff_sleep_time :
    Bytes → ℕ → ℕ → ℕ → Bool → ℕ → BackoffController → (ℕ × Bool) × BackoffController
unfolding next_sleep first_process
get_backoff_sleep_time situation init max process skip now controller =
    let init' = at_most init max in
    let r : Backoff = elim (lookup situation controller) [
      | none ↦
          first_process (record { last_sleep_period = init'; last_error_time = now }) init' skip
      | some status ↦ next_sleep status init' max process skip now
    ] in
    ((r.sleep, r.continual), insert situation r.status controller)
