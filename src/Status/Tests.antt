-- ===== src/Status/Tests.antt =====
-- Runs of the status: a connection that is lost while it is being made.
use paho_mqtt_golang.Base.{◌≡◌, refl, [], ◌∷◌, true, false, ◌==◌, ◌||◌, none, some}
use paho_mqtt_golang.Status.{
  disconnecting, connecting, ConnectionStatus, Outcome, initial, conn_completed, start_connecting,
  complete_connection, start_connection_lost, resume_connection_lost, start_disconnecting,
  waits_done, waits_lost, failed, abort_connection,
}
use paho_mqtt_golang.Status.System.{
  System, connect, disconnect, lose_connection, connection_ends, loss_awaited, Reachable, start,
  next,
}
use paho_mqtt_golang.Status.Counts.{Counts}
use paho_mqtt_golang.Status.Safety.{Reachable-Counts, Reachable-Completes}
use paho_mqtt_golang.Status.Stuck.{IsStuck, IsStuck-Steps, here, more}

abbrev begun : ConnectionStatus
begun = record initial { status = connecting; action_completed = some 0; made = 1 }

begun-Reachable : Reachable (record { conn = begun; calls = conn_completed ∷ [] })
unfolding start_connecting
begun-Reachable = next start (connect initial [])

Reachable-Counts_example : Counts connecting 1 0 0
Reachable-Counts_example =
    Reachable-Counts (record { conn = begun; calls = conn_completed ∷ [] }) begun-Reachable

Reachable-Completes_example :
    (r : ConnectionStatus × Outcome) × (complete_connection true begun ≡ some r)
Reachable-Completes_example = Reachable-Completes true begun [] [] conn_completed begun-Reachable

-- The connection is lost, and not to be made again; then the attempt ends.
abbrev stuck : System
stuck = record {
  conn = record begun {
    status = disconnecting;
    action_completed = none;
    closed = λ ch. 0 == ch || false;
  };
  calls = [];
}

stuck-Reachable : Reachable stuck
unfolding start_connecting start_connection_lost complete_connection resume_connection_lost
stuck-Reachable =
    let s2 = next begun-Reachable (lose_connection false begun (conn_completed ∷ [])) in
    let c2 : ConnectionStatus = record begun { status = disconnecting } in
    let s3 = next s2 (
      connection_ends true c2 (waits_lost false (some 0) ∷ []) []
        (stuck.conn, failed abort_connection) refl) in
    next s3 (loss_awaited false (some 0) stuck.conn [] [] refl)

stuck-IsStuck : IsStuck stuck
stuck-IsStuck = record { ending = refl; no_channel = refl; nil = tt }

-- A later `Disconnect` waits for ever.
IsStuck-Steps_example :
    IsStuck
      (record { conn = record stuck.conn { will_reconnect = false }; calls = waits_done none ∷ [] })
unfolding start_disconnecting
IsStuck-Steps_example = IsStuck-Steps stuck _ stuck-IsStuck (more here (disconnect stuck.conn []))
