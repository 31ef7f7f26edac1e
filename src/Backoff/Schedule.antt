-- ===== src/Backoff/Schedule.antt =====
-- getBackoffSleepTime over runs of errors.
use Prim.Native.Nat.{min}
use native.Mathlib.Nat.{pow-suc}
use paho_mqtt_golang.Base.{
  length, get_elem?, ℕ, zero, suc, ◌+◌, ◌-◌, ◌*◌, ◌^◌, ◌≤◌, ◌<◌, ◌≡◌, refl, ◌∙◌, List, [], ◌∷◌,
  Bytes, true, false, none, some, arith,
}
use paho_mqtt_golang.Base.Assoc.{lookup, insert, bytes_eq, lookup-insert_self}
use paho_mqtt_golang.Backoff.{
  BackoffController, first_process, at_most, next_sleep, get_backoff_sleep_time,
}
use paho_mqtt_golang.Backoff.Bound.{signed_leb_small, sleep_of}

-- The sleeps of successive calls, at the times `nows`.
unfoldable pub sleeps : Bytes → ℕ → ℕ → ℕ → List ℕ → BackoffController → List ℕ
sleeps s init max process [] controller = []
sleeps s init max process (now ∷ nows) controller =
    let (r, controller') = get_backoff_sleep_time s init max process false now controller in
    r.0 ∷ sleeps s init max process nows controller'

-- The time between two errors is at most twice the process time, from the error at `t` on.
abbrev pub IsContinual : ℕ → ℕ → List ℕ → Type 0
IsContinual process t [] = Unit
IsContinual process t (now ∷ nows) =
    (t ≤ now) × (now ≤ t + process * 2) × IsContinual process now nows

next_sleep_doubles :
    (init max process p t now : ℕ)
    → 0 < p
    → p ≤ max
    → max < 2 ^ 61
    → process < 2 ^ 61
    → t ≤ now
    → now ≤ t + process * 2
    → next_sleep (record { last_sleep_period = p; last_error_time = t }) init max process false now
      ≡ record {
        sleep = min (p * 2) max;
        continual = true;
        status = record { last_sleep_period = min (p * 2) max; last_error_time = now };
      }
unfolding next_sleep
next_sleep_doubles init max process p t now pos le hm hp lo hi =
    ground (arith, signed_leb_small (now - t) (process * 2 + p), signed_leb_small (p * 2) max)

doubled_again : (init max k : ℕ) → min (min (init * 2 ^ k) max * 2) max ≡ min (init * 2 ^ suc k) max
doubled_again init max k =
    let twice : init * 2 ^ suc k ≡ init * 2 ^ k * 2 = rw pow-suc (omega arith) in
    rw twice (omega arith)

doubled_positive :
    (init max k : ℕ)
    → 0 < init
    → 0 < max
    → (0 < min (init * 2 ^ k) max) × (min (init * 2 ^ k) max ≤ max)
doubled_positive init max zero hi hm = omega arith
doubled_positive init max (suc k) hi hm =
    omega (arith, doubled_positive init max k hi hm, doubled_again init max k)

module _ (s : Bytes) (init max process : ℕ) (starts : 0 < init) (hm : 0 < max) (fits : max < 2 ^ 61)
    (quick : process < 2 ^ 61) where
  -- One more call, after `k` doublings.
  doubling_call :
      (k t now : ℕ) (controller : BackoffController)
      → t ≤ now
      → now ≤ t + process * 2
      → lookup s controller
        ≡ some (record { last_sleep_period = min (init * 2 ^ k) max; last_error_time = t })
      → get_backoff_sleep_time s init max process false now controller ≡ (
        (min (init * 2 ^ suc k) max, true),
        insert s
            (record { last_sleep_period = min (init * 2 ^ suc k) max; last_error_time = now })
            controller,
      )
  doubling_call k t now controller lo hi e =
      let (r, at, shape) = sleep_of s init max process false now controller _ e in
      let (pos, le) = doubled_positive init max k starts hm in
      let step =
        next_sleep_doubles (at_most init max) max process (min (init * 2 ^ k) max) t now pos le fits
          quick lo hi in
      at ∙ rw (shape, step, doubled_again init max k) refl

  sleeps_after :
      (nows : List ℕ) (i k t : ℕ) (controller : BackoffController)
      → i < length nows
      → IsContinual process t nows
      → lookup s controller
        ≡ some (record { last_sleep_period = min (init * 2 ^ k) max; last_error_time = t })
      → get_elem? (sleeps s init max process nows controller) i
        ≡ some (min (init * 2 ^ (k + i + 1)) max)
  unfolding sleeps
  sleeps_after [] i k t controller h c e = absurd (omega arith)
  sleeps_after (now ∷ nows) zero k t controller h c e =
      let index : k + 0 + 1 ≡ suc k = omega arith in
      rw (doubling_call k t now controller c.0 c.1 e, index) refl
  sleeps_after (now ∷ nows) (suc i) k t controller h c e =
      let index : k + suc i + 1 ≡ suc k + i + 1 = omega arith in
      rw (doubling_call k t now controller c.0 c.1 e, index)
        (sleeps_after nows i (suc k) now _ (omega arith) c.2 (lookup-insert_self s _ controller))

  first_call :
      (now : ℕ) (controller : BackoffController)
      → init < 2 ^ 61
      → lookup s controller ≡ none
      → get_backoff_sleep_time s init max process false now controller ≡ (
        (min (init * 2 ^ 0) max, false),
        insert s
            (record { last_sleep_period = min (init * 2 ^ 0) max; last_error_time = now })
            controller,
      )
  unfolding first_process
  first_call now controller small e =
      let (r, at, shape) = sleep_of s init max process false now controller none e in
      let start : at_most init max ≡ min (init * 2 ^ 0) max =
        ground (arith, signed_leb_small init max) in
      at ∙ rw (shape, start) refl

  -- Where the first sleep is not skipped, and with positive initial and maximal periods below 2 ^ 61
  -- nanoseconds, as the process time is: from the first error of a situation on, while each comes
  -- within twice the process time of the one before, the `i`-th sleep is the initial period doubled
  -- `i` times, or the maximum where that is less.
  pub sleeps_double :
      (now : ℕ) (nows : List ℕ) (i : ℕ) (controller : BackoffController)
      → init < 2 ^ 61
      → i ≤ length nows
      → IsContinual process now nows
      → lookup s controller ≡ none
      → get_elem? (sleeps s init max process (now ∷ nows) controller) i
        ≡ some (min (init * 2 ^ i) max)
  unfolding sleeps
  sleeps_double now nows zero controller small h c e = rw (first_call now controller small e) refl
  sleeps_double now nows (suc i) controller small h c e =
      let index : suc i ≡ 0 + i + 1 = omega arith in
      rw (first_call now controller small e, index)
        (sleeps_after nows i 0 now _ (omega arith) c (lookup-insert_self s _ controller))
