-- ===== src/Status/System.antt =====
-- The goroutines that share a connection status: what each holds or waits for, and their steps.
use paho_mqtt_golang.Base.{ℕ, ◌≡◌, List, [], ◌∷◌, ◌++◌, Bool, true, Option, none, some}
use paho_mqtt_golang.Status.{
  Status, ConnectionStatus, initial, Outcome, failed, finished, conn_completed,
  disconnect_completed, lost_handler, waits_done, waits_connection, waits_lost, resumes,
  start_connecting, complete_connection, start_disconnecting, check_reconnect, resume_disconnecting,
  disconnection_completed, start_connection_lost, resume_connection_lost, handle_lost,
}

-- The status, and the calls that have begun and not ended, each at what it last was handed.
pub record System : Type 0 where
  pub conn : ConnectionStatus
  pub calls : List Outcome

-- A call that was handed an error or nothing is over.
abbrev pub with_call : Outcome → List Outcome → List Outcome
with_call (failed e) calls = calls
with_call finished calls = calls
with_call o calls = o ∷ calls

abbrev pub IsClosed : ConnectionStatus → Option ℕ → Type 0
IsClosed c none = ⊥
IsClosed c (some ch) = c.closed ch ≡ true

abbrev pub after : ConnectionStatus × Outcome → List Outcome → System
after (c, o) calls = record { conn = c; calls = with_call o calls }

-- One step: a new call, or the next section of the call between `pre` and `post`.
pub data Step : System → System → Type 0 where
  connect :
      (c : ConnectionStatus) (calls : List Outcome)
      → Step (record { conn = c; calls = calls }) (after (start_connecting c) calls)
  disconnect :
      (c : ConnectionStatus) (calls : List Outcome)
      → Step (record { conn = c; calls = calls }) (after (start_disconnecting c) calls)
  lose_connection :
      (will : Bool) (c : ConnectionStatus) (calls : List Outcome)
      → Step (record { conn = c; calls = calls }) (after (start_connection_lost will c) calls)
  connection_ends :
      (success : Bool) (c : ConnectionStatus) (pre post : List Outcome)
      (r : ConnectionStatus × Outcome)
      → complete_connection success c ≡ some r
      → Step (record { conn = c; calls = pre ++ (conn_completed ∷ post) }) (after r (pre ++ post))
  disconnection_ends :
      (c : ConnectionStatus) (pre post : List Outcome) (c' : ConnectionStatus)
      → disconnection_completed c ≡ some c'
      → Step
          (record { conn = c; calls = pre ++ (disconnect_completed ∷ post) })
          (record { conn = c'; calls = pre ++ post })
  loss_handled :
      (requested proceed : Bool) (c : ConnectionStatus) (pre post : List Outcome)
      (r : ConnectionStatus × Outcome)
      → handle_lost requested proceed c ≡ some r
      → Step
          (record { conn = c; calls = pre ++ (lost_handler requested ∷ post) })
          (after r (pre ++ post))
  done_awaited :
      (ch : Option ℕ) (c : ConnectionStatus) (pre post : List Outcome)
      → IsClosed c ch
      → Step
          (record { conn = c; calls = pre ++ (waits_done ch ∷ post) })
          (record { conn = c; calls = pre ++ post })
  connection_awaited :
      (prev : Status) (ch : Option ℕ) (c : ConnectionStatus) (pre post : List Outcome)
      → IsClosed c ch
      → Step
          (record { conn = c; calls = pre ++ (waits_connection prev ch ∷ post) })
          (record { conn = c; calls = with_call (check_reconnect prev c) (pre ++ post) })
  disconnecting_resumed :
      (c : ConnectionStatus) (pre post : List Outcome)
      → Step
          (record { conn = c; calls = pre ++ (resumes ∷ post) })
          (after (resume_disconnecting c) (pre ++ post))
  loss_awaited :
      (will : Bool) (ch : Option ℕ) (c : ConnectionStatus) (pre post : List Outcome)
      → IsClosed c ch
      → Step
          (record { conn = c; calls = pre ++ (waits_lost will ch ∷ post) })
          (after (resume_connection_lost will c) (pre ++ post))

pub data Reachable : System → Type 0 where
  start : Reachable (record { conn = initial; calls = [] })
  next : {s t : System} → Reachable s → Step s t → Reachable t
