-- ===== src/Status/Safety.antt =====
-- status.go in the states that its calls can reach.
use paho_mqtt_golang.Base.{
  ℕ, ◌≡◌, refl, List, [], ◌∷◌, ◌++◌, Bool, true, false, Option, some, arith,
}
use paho_mqtt_golang.Status.{
  Status, ConnectionStatus, initial, Outcome, failed, finished, conn_completed,
  disconnect_completed, lost_handler, waits_done, waits_connection, waits_lost, resumes,
  complete_connection, check_reconnect, resume_disconnecting, disconnection_completed,
  resume_connection_lost, handle_lost,
}
use paho_mqtt_golang.Status.System.{
  System, with_call, IsClosed, Step, connect, disconnect, lose_connection, connection_ends,
  disconnection_ends, loss_handled, done_awaited, connection_awaited, disconnecting_resumed,
  loss_awaited, Reachable, start, next,
}
use paho_mqtt_golang.Status.Counts.{
  connects, holds, claims, count, count-middle, Counts, Inv, All-middle, Waits, Inv-same,
}
use paho_mqtt_golang.Status.Starts.{
  Keeps, start_connecting-Inv, start_disconnecting-Inv, start_connection_lost-Inv,
}
use paho_mqtt_golang.Status.Ends.{
  complete_connection-Inv, disconnection_completed-Inv, handle_lost-Inv,
}
use paho_mqtt_golang.Status.Resume.{
  claim_alone, no_connection, gives_up, goes_on, takes_over, check_reconnect-Inv,
}

some_same :
    {A : Type 0} (P : A → Type 0) (o : Option A) (a b : A) → o ≡ some a → o ≡ some b → P a → P b
some_same P o a b ea eb p = let same : a ≡ b = ground (arith, ea, eb) in rw same at p

module _ (c : ConnectionStatus) (pre post : List Outcome) where
  done-Inv : (ch : Option ℕ) → Inv c (pre ++ (waits_done ch ∷ post)) → Inv c (pre ++ post)
  done-Inv ch i =
      let fc = count-middle connects pre post (waits_done ch) in
      Inv-same c (pre ++ (waits_done ch ∷ post)) (pre ++ post) (omega (arith, fc))
        (omega (arith, count-middle holds pre post (waits_done ch)))
        (omega (arith, count-middle claims pre post (waits_done ch)))
        (All-middle (Waits c.action_completed _) pre post (waits_done ch) i.waiting).1 i

  awaited-Inv :
      (prev : Status) (ch : Option ℕ)
      → IsClosed c ch
      → Inv c (pre ++ (waits_connection prev ch ∷ post))
      → Inv c (with_call (check_reconnect prev c) (pre ++ post))
  awaited-Inv prev ch e i =
      let o = waits_connection prev ch in
      let w = (All-middle (Waits c.action_completed _) pre post o i.waiting).0 in
      let (d, a, zc, zh, zw) =
        claim_alone c pre post o refl refl refl i (no_connection c pre post o ch refl w e i) in
      check_reconnect-Inv c (pre ++ post) prev (gives_up c (pre ++ post) i.bound d a zc zh zw)
        (goes_on c (pre ++ post) i.bound d a zc zh zw)

  resumed-Inv : Inv c (pre ++ (resumes ∷ post)) → Keeps (pre ++ post) (resume_disconnecting c)
  unfolding resume_disconnecting
  resumed-Inv i =
      let w = (All-middle (Waits c.action_completed _) pre post resumes i.waiting).0 in
      let (d, a, zc, zh, zw) = claim_alone c pre post resumes refl refl refl i w in
      takes_over c (pre ++ post) i.bound d a zc zh zw disconnect_completed refl refl refl

  lost-Inv :
      (will : Bool) (ch : Option ℕ)
      → IsClosed c ch
      → Inv c (pre ++ (waits_lost will ch ∷ post))
      → Keeps (pre ++ post) (resume_connection_lost will c)
  unfolding resume_connection_lost
  lost-Inv true ch e i =
      let o = waits_lost true ch in
      let w = (All-middle (Waits c.action_completed _) pre post o i.waiting).0 in
      let (d, a, zc, zh, zw) =
        claim_alone c pre post o refl refl refl i (no_connection c pre post o ch refl w e i) in
      takes_over c (pre ++ post) i.bound d a zc zh zw (lost_handler true) refl refl refl
  lost-Inv false ch e i =
      let o = waits_lost false ch in
      let w = (All-middle (Waits c.action_completed _) pre post o i.waiting).0 in
      let (d, a, zc, zh, zw) =
        claim_alone c pre post o refl refl refl i (no_connection c pre post o ch refl w e i) in
      gives_up c (pre ++ post) i.bound d a zc zh zw

abbrev InvOf : System → Type 0
InvOf s = Inv s.conn s.calls

Step-Inv : {s t : System} → Step s t → InvOf s → InvOf t
Step-Inv (connect c calls) i =
    start_connecting-Inv c.will_reconnect c.action_completed c.made c.closed calls c.status i
Step-Inv (disconnect c calls) i =
    start_disconnecting-Inv c.will_reconnect c.action_completed c.made c.closed calls c.status i
Step-Inv (lose_connection will c calls) i =
    start_connection_lost-Inv c.will_reconnect c.action_completed c.made c.closed calls will
      c.status i
Step-Inv (connection_ends success c pre post r e) i =
    let (r', e', k) = complete_connection-Inv c pre post success i in
    some_same (Keeps (pre ++ post)) (complete_connection success c) r' r e' e k
Step-Inv (disconnection_ends c pre post c' e) i =
    let (d, e', k) = disconnection_completed-Inv c pre post i in
    some_same (λ x. Inv x (pre ++ post)) (disconnection_completed c) d c' e' e k
Step-Inv (loss_handled requested proceed c pre post r e) i =
    let (r', e', k) = handle_lost-Inv c pre post requested proceed i in
    some_same (Keeps (pre ++ post)) (handle_lost requested proceed c) r' r e' e k
Step-Inv (done_awaited ch c pre post e) i = done-Inv c pre post ch i
Step-Inv (connection_awaited prev ch c pre post e) i = awaited-Inv c pre post prev ch e i
Step-Inv (disconnecting_resumed c pre post) i = resumed-Inv c pre post i
Step-Inv (loss_awaited will ch c pre post e) i = lost-Inv c pre post will ch e i

initial-Inv : Inv initial []
initial-Inv = record { counts = refl; action = refl; bound = λ k e. cc; waiting = tt }

pub Reachable-Inv : {s : System} → Reachable s → InvOf s
Reachable-Inv start = initial-Inv
Reachable-Inv (next r step) = Step-Inv step (Reachable-Inv r)

-- In every reachable state: while the status is disconnected or connected, no call holds a completion
-- function or waits to get one; while it is connecting or reconnecting, one connection process runs, and
-- no call ends a disconnection or waits to; while it is disconnecting, at most one call holds a
-- completion function, at most one ends the disconnection or waits to, and a connection process runs
-- only if a call waits for it.
pub Reachable-Counts :
    (s : System)
    → Reachable s
    → Counts s.conn.status (count connects s.calls) (count holds s.calls) (count claims s.calls)
Reachable-Counts s r = (Reachable-Inv r).counts

-- That a completion function, called with `success`, returns.
abbrev pub Completes : Bool → ConnectionStatus → Outcome → Type 0
Completes success c conn_completed =
    (r : ConnectionStatus × Outcome) × (complete_connection success c ≡ some r)
Completes success c disconnect_completed =
    (c' : ConnectionStatus) × (disconnection_completed c ≡ some c')
Completes success c (lost_handler requested) =
    (r : ConnectionStatus × Outcome) × (handle_lost requested success c ≡ some r)
Completes success c _ = Unit

-- Whatever the calls before, the completion function that a call holds can be called, with success or
-- without: it finds an open channel to close, and so returns and does not panic.
pub Reachable-Completes :
    (success : Bool) (c : ConnectionStatus) (pre post : List Outcome) (o : Outcome)
    → Reachable (record { conn = c; calls = pre ++ (o ∷ post) })
    → Completes success c o
Reachable-Completes success c pre post conn_completed r =
    let (a, e, k) = complete_connection-Inv c pre post success (Reachable-Inv r) in (a, e)
Reachable-Completes success c pre post disconnect_completed r =
    let (a, e, k) = disconnection_completed-Inv c pre post (Reachable-Inv r) in (a, e)
Reachable-Completes success c pre post (lost_handler requested) r =
    let (a, e, k) = handle_lost-Inv c pre post requested success (Reachable-Inv r) in (a, e)
Reachable-Completes success c pre post (failed x) r = tt
Reachable-Completes success c pre post finished r = tt
Reachable-Completes success c pre post (waits_done ch) r = tt
Reachable-Completes success c pre post (waits_connection prev ch) r = tt
Reachable-Completes success c pre post (waits_lost will ch) r = tt
Reachable-Completes success c pre post resumes r = tt
