-- ===== src/Backoff/Bound.antt =====
-- getBackoffSleepTime: one call, and the bound on the sleep periods.
use paho_mqtt_golang.Base.{
  ℕ, ◌*◌, ◌%◌, ◌^◌, ◌≤◌, ◌<◌, ◌≡◌, refl, Bytes, Bool, Option, none, some, leb, arith,
}
use paho_mqtt_golang.Base.Assoc.{lookup, insert, bytes_eq, lookup-insert}
use paho_mqtt_golang.Backoff.{
  signed_leb, BackoffStatus, BackoffController, Backoff, first_process, at_most, next_sleep,
  get_backoff_sleep_time,
}

pub signed_leb_small : (a b : ℕ) → a < 2 ^ 63 → b < 2 ^ 63 → signed_leb a b ≡ leb a b
signed_leb_small a b ha hb = ground arith

pub at_most_lem :
    (init max : ℕ)
    → init < 2 ^ 63
    → max < 2 ^ 63
    → (at_most init max ≤ max) × (at_most init max ≤ init)
at_most_lem init max hi hm = ground arith

-- The periods of every situation are at most `max`.
abbrev pub IsBounded : ℕ → BackoffController → Type 0
IsBounded max controller =
    (s : Bytes) (status : BackoffStatus)
    → lookup s controller ≡ some status
    → status.last_sleep_period ≤ max

first_process_bound :
    (status : BackoffStatus) (init max : ℕ) (skip : Bool)
    → init ≤ max
    → ((first_process status init skip).sleep ≤ max)
      × ((first_process status init skip).status.last_sleep_period ≤ max)
unfolding first_process
first_process_bound status init max skip h = ground arith

next_sleep_bound :
    (status : BackoffStatus) (init max process : ℕ) (skip : Bool) (now : ℕ)
    → init ≤ max
    → max < 2 ^ 62
    → status.last_sleep_period ≤ max
    → ((next_sleep status init max process skip now).sleep ≤ max)
      × ((next_sleep status init max process skip now).status.last_sleep_period ≤ max)
unfolding next_sleep
next_sleep_bound status init max process skip now hi hm hl = ground (
  arith,
  first_process_bound (record status { last_error_time = now }) init max skip hi,
  signed_leb_small (status.last_sleep_period * 2 % 2 ^ 64) max,
)

-- One call, by what the controller knows of the situation.
pub sleep_of :
    (s : Bytes) (init max process : ℕ) (skip : Bool) (now : ℕ) (controller : BackoffController)
    (o : Option BackoffStatus)
    → lookup s controller ≡ o
    → (r : Backoff) × (get_backoff_sleep_time s init max process skip now controller
        ≡ ((r.sleep, r.continual), insert s r.status controller))
      × (r ≡ (elim o as (λ x. Backoff) [
        | none ↦
            first_process
              (record { last_sleep_period = at_most init max; last_error_time = now })
              (at_most init max)
              skip
        | some status ↦ next_sleep status (at_most init max) max process skip now
      ]))
unfolding get_backoff_sleep_time
sleep_of s init max process skip now controller none e = (_, rw (e, get_backoff_sleep_time), refl)
sleep_of s init max process skip now controller (some status) e =
    (_, rw (e, get_backoff_sleep_time), refl)

insert-IsBounded :
    (s : Bytes) (max : ℕ) (status : BackoffStatus) (controller : BackoffController)
    → IsBounded max controller
    → status.last_sleep_period ≤ max
    → IsBounded max (insert s status controller)
insert-IsBounded s max status controller b h t other e =
    ground (arith, lookup-insert s t status controller, b t other, h, e)

-- With initial and maximal periods below 2 ^ 62 nanoseconds, 146 years, and all remembered periods
-- at most the maximum: no sleep is longer than the maximum, whatever the clock shows, and the
-- remembered periods stay at most the maximum.
pub get_backoff_sleep_time_bound :
    (s : Bytes) (init max process : ℕ) (skip : Bool) (now : ℕ) (controller : BackoffController)
    → init < 2 ^ 62
    → max < 2 ^ 62
    → IsBounded max controller
    → ((get_backoff_sleep_time s init max process skip now controller).0.0 ≤ max)
      × IsBounded max (get_backoff_sleep_time s init max process skip now controller).1
get_backoff_sleep_time_bound s init max process skip now controller hi hm b =
    go (lookup s controller) refl
  where
    go :
        (o : Option BackoffStatus)
        → lookup s controller ≡ o
        → ((get_backoff_sleep_time s init max process skip now controller).0.0 ≤ max)
          × IsBounded max (get_backoff_sleep_time s init max process skip now controller).1
    go none e =
        let (r, at, shape) = sleep_of s init max process skip now controller none e in
        let init' = at_most init max in
        let (lo, kept) =
          first_process_bound (record { last_sleep_period = init'; last_error_time = now }) init'
            max skip (at_most_lem init max (omega arith) (omega arith)).0 in
        rw at (rw shape (lo, insert-IsBounded s max _ controller b kept))
    go (some status) e =
        let (r, at, shape) = sleep_of s init max process skip now controller (some status) e in
        let (lo, kept) =
          next_sleep_bound status (at_most init max) max process skip now
            (at_most_lem init max (omega arith) (omega arith)).0 hm (b s status e) in
        rw at (rw shape (lo, insert-IsBounded s max _ controller b kept))
