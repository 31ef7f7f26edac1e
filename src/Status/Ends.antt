-- ===== src/Status/Ends.antt =====
-- The completion functions of status.go, in terms of the counts.
use paho_mqtt_golang.Base.{
  ℕ, ◌+◌, ◌≡◌, refl, inl, inr, List, ◌∷◌, ◌++◌, Bool, true, not, ◌||◌, Bool-cases, some, arith,
}
use paho_mqtt_golang.Status.{
  Status, disconnected, disconnecting, connecting, reconnecting, connected, disconnection_requested,
  ConnectionStatus, close_action, Outcome, failed, finished, conn_completed, disconnect_completed,
  lost_handler, disconnection_completed, handle_lost,
}
use paho_mqtt_golang.Status.Counts.{
  connects, holds, claims, count, count-middle, Counts, Inv, All-Waits_none,
}
use paho_mqtt_golang.Status.Starts.{Keeps}
use paho_mqtt_golang.Status.Closing.{closing, connection_ended, Ends, Action-bound, Inv-idle}

module _ (c : ConnectionStatus) (pre post : List Outcome) where
  -- The counts behind a call that holds a completion function.
  only_holder :
      (o : Outcome)
      → connects o + holds o ≡ 1
      → claims o ≡ 0
      → Inv c (pre ++ (o ∷ post))
      → (count connects (pre ++ post) ≡ 0)
        × (count holds (pre ++ post) ≡ 0)
        × Counts c.status (connects o) (holds o) (count claims (pre ++ post))
  only_holder o one zero_claims i =
      let ec = count-middle connects pre post o in
      let eh = count-middle holds pre post o in
      let ew = count-middle claims pre post o in
      let most = Action-bound c.action_completed _ c.made c.closed i.action in
      let zc : count connects (pre ++ post) ≡ 0 = omega (arith, ec, eh, most, one) in
      let zh : count holds (pre ++ post) ≡ 0 = omega (arith, ec, eh, most, one) in
      let now_c : count connects (pre ++ (o ∷ post)) ≡ connects o = omega (arith, ec, zc) in
      let now_h : count holds (pre ++ (o ∷ post)) ≡ holds o = omega (arith, eh, zh) in
      let now_w : count claims (pre ++ (o ∷ post)) ≡ count claims (pre ++ post) =
        omega (arith, ew, zero_claims) in
      (zc, zh, rw now_c at (rw now_h at (rw now_w at i.counts)))

  holder_one :
      (o : Outcome)
      → connects o + holds o ≡ 1
      → Inv c (pre ++ (o ∷ post))
      → count connects (pre ++ (o ∷ post)) + count holds (pre ++ (o ∷ post)) ≡ 1
  holder_one o one i = omega (
    arith,
    count-middle connects pre post o,
    count-middle holds pre post o,
    Action-bound c.action_completed _ c.made c.closed i.action,
  )

  pub complete_connection-Inv :
      (success : Bool) → Inv c (pre ++ (conn_completed ∷ post)) → Ends success c (pre ++ post)
  complete_connection-Inv success i =
      let (c', closes, idle, same, will, made, bounds) =
        closing c _ (holder_one conn_completed refl i) i.action in
      let (zc, zh, n) = only_holder conn_completed refl refl i in
      connection_ended success c c' (pre ++ post) c.status refl closes idle same (bounds i.bound) zc
        zh n

  Counts-zero : (s : Status) (w : ℕ) → Counts s 0 1 w → w ≡ 0
  Counts-zero disconnected w n = omega (arith, n)
  Counts-zero disconnecting w n = omega (arith, n)
  Counts-zero connecting w n = omega (arith, n)
  Counts-zero reconnecting w n = omega (arith, n)
  Counts-zero connected w n = omega (arith, n)

  -- A call that ends a disconnection: the status is disconnected, and no other call is in progress.
  disconnected_now :
      (o : Outcome)
      → connects o ≡ 0
      → holds o ≡ 1
      → claims o ≡ 0
      → Inv c (pre ++ (o ∷ post))
      → (c' : ConnectionStatus) × (close_action (record c { status = disconnected }) ≡ some c')
        × Inv c' (pre ++ post)
  disconnected_now o ec eh ew i =
      let d : ConnectionStatus = record c { status = disconnected } in
      let (c', closes, idle, same, will, made, bounds) =
        closing d _ (holder_one o (omega (arith, ec, eh)) i) i.action in
      let (zc, zh, n) = only_holder o (omega (arith, ec, eh)) ew i in
      let w : count claims (pre ++ post) ≡ 0 = Counts-zero c.status _ (rw ec at (rw eh at n)) in
      (
        c',
        closes,
        Inv-idle c' (pre ++ post) idle zc zh (rw same (omega (arith, w))) (bounds i.bound),
      )

  pub disconnection_completed-Inv :
      Inv c (pre ++ (disconnect_completed ∷ post))
      → (c' : ConnectionStatus) × (disconnection_completed c ≡ some c') × Inv c' (pre ++ post)
  unfolding disconnection_completed
  disconnection_completed-Inv i = disconnected_now disconnect_completed refl refl refl i

  abbrev pub Handles : Bool → Bool → Type 0
  Handles requested proceed =
      (r : ConnectionStatus × Outcome) × (handle_lost requested proceed c ≡ some r)
      × Keeps (pre ++ post) r

  -- The loss is handled and a reconnection begins: the channel stays, and the call goes on with it.
  reconnects :
      (requested : Bool)
      → Inv c (pre ++ (lost_handler requested ∷ post))
      → Inv (record c { status = reconnecting }) (conn_completed ∷ (pre ++ post))
  reconnects requested i =
      let (zc, zh, n) = only_holder (lost_handler requested) refl refl i in
      let w : count claims (pre ++ post) ≡ 0 = Counts-zero c.status _ n in
      let one : 1 + count connects (pre ++ post) + (0 + count holds (pre ++ post))
          ≡ count connects (pre ++ (lost_handler requested ∷ post))
            + count holds (pre ++ (lost_handler requested ∷ post)) =
        omega (arith, holder_one (lost_handler requested) refl i, zc, zh) in
      record {
        counts = omega (arith, zc, zh, w);
        action = rw one i.action;
        bound = i.bound;
        waiting = (tt, All-Waits_none c.action_completed _ (pre ++ post) w);
      }

  pub handle_lost-Inv :
      (requested proceed : Bool)
      → Inv c (pre ++ (lost_handler requested ∷ post))
      → Handles requested proceed
  unfolding handle_lost
  handle_lost-Inv requested proceed i = elim (Bool-cases (not c.will_reconnect || not proceed)) [
    | inl ends ↦ ended (disconnected_now (lost_handler requested) refl refl refl i) ends
    | inr goes ↦
        ((record c { status = reconnecting }, conn_completed), rw goes refl, reconnects requested i)
  ]
    where
      ended :
          ((c' : ConnectionStatus) × (close_action (record c { status = disconnected }) ≡ some c')
            × Inv c' (pre ++ post))
          → (not c.will_reconnect || not proceed) ≡ true
          → Handles requested proceed
      ended (c', closes, j) ends = elim (Bool-cases (not requested || not proceed)) [
        | inl quiet ↦ ((c', finished), rw (closes, ends, quiet, handle_lost) refl, j)
        | inr loud ↦
            ((c', failed disconnection_requested), rw (closes, ends, loud, handle_lost) refl, j)
      ]
