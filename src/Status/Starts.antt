-- ===== src/Status/Starts.antt =====
-- The calls of status.go that begin, in terms of the counts.
use paho_mqtt_golang.Base.{
  ℕ, ◌+◌, ◌≡◌, ◌<◌, refl, List, ◌∷◌, Bool, true, false, Option, some, arith,
}
use paho_mqtt_golang.Status.{
  Status, disconnected, disconnecting, connecting, reconnecting, connected, ConnectionStatus,
  make_action, Outcome, conn_completed, disconnect_completed, lost_handler, waits_done,
  waits_connection, waits_lost, start_connecting, start_disconnecting, start_connection_lost,
}
use paho_mqtt_golang.Status.System.{with_call}
use paho_mqtt_golang.Status.Counts.{
  connects, holds, claims, count, Counts, Waits, Inv, Waits-none, All-Waits_none, Inv-same,
}

abbrev pub Keeps : List Outcome → ConnectionStatus × Outcome → Type 0
Keeps calls r = Inv r.0 (with_call r.1 calls)

module _ (will : Bool) (a : Option ℕ) (made : ℕ) (closed : ℕ → Bool) (calls : List Outcome) where
  abbrev pub At : Status → ConnectionStatus
  At st = record {
    status = st;
    will_reconnect = will;
    action_completed = a;
    made = made;
    closed = closed;
  }

  -- A new channel for a call that gets a completion function.
  pub opened :
      (st st' : Status) (will' : Bool) (o : Outcome)
      → ((k : ℕ) → closed k ≡ true → k < made)
      → count connects calls + count holds calls ≡ 0
      → count claims calls ≡ 0
      → connects o + holds o ≡ 1
      → claims o ≡ 0
      → Counts st'
          (connects o + count connects calls)
          (holds o + count holds calls)
          (claims o + count claims calls)
      → Inv (make_action (record (At st) { status = st'; will_reconnect = will' })) (o ∷ calls)
  opened st st' will' o bounds none_open none_waits one zero_claims fits = record {
    counts = fits;
    action = ground (arith, bounds made);
    bound = λ k e. omega (arith, bounds k e);
    waiting =
        (Waits-none (some made) _ o zero_claims, All-Waits_none (some made) _ calls none_waits);
  }

  pub start_connecting-Inv :
      (st : Status) → Inv (At st) calls → Keeps calls (start_connecting (At st))
  unfolding start_connecting
  start_connecting-Inv disconnected i =
      opened disconnected connecting will conn_completed i.bound (omega (arith, i.counts))
        (omega (arith, i.counts)) refl refl (omega (arith, i.counts))
  start_connecting-Inv disconnecting i = i
  start_connecting-Inv connecting i = i
  start_connecting-Inv reconnecting i = i
  start_connecting-Inv connected i = i

  -- A disconnection is asked for while a connection process runs: the call waits for its channel.
  pub waits_begin :
      (st : Status) (will' : Bool) (o : Outcome)
      → Inv (At st) calls
      → (count connects calls ≡ 1) × (count holds calls + count claims calls ≡ 0)
      → (connects o + holds o ≡ 0) × (claims o ≡ 1)
      → Waits a (count connects calls) o
      → Inv (record (At st) { status = disconnecting; will_reconnect = will' }) (o ∷ calls)
  waits_begin st will' o i one waits w =
      let same : connects o + count connects calls ≡ count connects calls =
        omega (arith, waits.0) in
      record {
        counts = omega (arith, one, waits);
        action =
            let all_same : connects o + count connects calls + (holds o + count holds calls)
                ≡ count connects calls + count holds calls =
              omega (arith, waits.0) in
            rw all_same i.action;
        bound = i.bound;
        waiting = rw same (w, All-Waits_none a _ calls (omega (arith, one)));
      }

  pub start_disconnecting-Inv :
      (st : Status) → Inv (At st) calls → Keeps calls (start_disconnecting (At st))
  unfolding start_disconnecting
  start_disconnecting-Inv disconnected i = i
  start_disconnecting-Inv disconnecting i =
      Inv-same (record (At disconnecting) { will_reconnect = false }) calls (waits_done a ∷ calls)
        (omega arith) (omega arith) (omega arith) (tt, i.waiting)
        (record { counts = i.counts; action = i.action; bound = i.bound; waiting = i.waiting })
  start_disconnecting-Inv connecting i =
      waits_begin connecting will (waits_connection connecting a) i i.counts (refl, refl)
        (λ e. refl)
  start_disconnecting-Inv reconnecting i =
      waits_begin reconnecting will (waits_connection reconnecting a) i i.counts (refl, refl)
        (λ e. refl)
  start_disconnecting-Inv connected i =
      opened connected disconnecting will disconnect_completed i.bound (omega (arith, i.counts))
        (omega (arith, i.counts)) refl refl (omega (arith, i.counts))

  pub start_connection_lost-Inv :
      (w : Bool) (st : Status) → Inv (At st) calls → Keeps calls (start_connection_lost w (At st))
  unfolding start_connection_lost
  start_connection_lost-Inv w disconnected i = i
  start_connection_lost-Inv w disconnecting i = i
  start_connection_lost-Inv w connecting i =
      waits_begin connecting w (waits_lost w a) i i.counts (refl, refl) (λ e. refl)
  start_connection_lost-Inv w reconnecting i =
      waits_begin reconnecting w (waits_lost w a) i i.counts (refl, refl) (λ e. refl)
  start_connection_lost-Inv w connected i =
      opened connected disconnecting w (lost_handler w) i.bound (omega (arith, i.counts))
        (omega (arith, i.counts)) refl refl (omega (arith, i.counts))
