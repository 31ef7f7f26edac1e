-- ===== src/Status/Stuck.antt =====
-- status.go where the status is disconnecting and there is no channel.
use paho_mqtt_golang.Base.{◌≡◌, List, ◌∷◌, ◌++◌, Bool, false, none, some, All, arith}
use paho_mqtt_golang.Status.{
  disconnecting, ConnectionStatus, Outcome, failed, conn_completed, disconnect_completed,
  lost_handler, waits_done, waits_connection, waits_lost, resumes, status_must_be_disconnected,
  disconnection_in_progress, start_connecting, start_disconnecting, start_connection_lost,
}
use paho_mqtt_golang.Status.System.{
  System, Step, connect, disconnect, lose_connection, connection_ends, disconnection_ends,
  loss_handled, done_awaited, connection_awaited, disconnecting_resumed, loss_awaited,
}
use paho_mqtt_golang.Status.Counts.{All-middle}

-- A call that waits for a nil channel.
abbrev pub WaitsForNil : Outcome → Type 0
WaitsForNil (waits_done none) = Unit
WaitsForNil _ = ⊥

pub record IsStuck (s : System) : Type 0 where
  pub ending : s.conn.status ≡ disconnecting
  pub no_channel : s.conn.action_completed ≡ none
  pub nil : All WaitsForNil s.calls

not_nil :
    (pre post : List Outcome) (o : Outcome) → All WaitsForNil (pre ++ (o ∷ post)) → WaitsForNil o
not_nil pre post o h = (All-middle WaitsForNil pre post o h).0

refused_connect :
    (c : ConnectionStatus)
    → c.status ≡ disconnecting
    → start_connecting c ≡ (c, failed status_must_be_disconnected)
unfolding start_connecting
refused_connect c e = ground (arith, e)

waits_for_nil :
    (c : ConnectionStatus)
    → c.status ≡ disconnecting
    → c.action_completed ≡ none
    → start_disconnecting c ≡ (record c { will_reconnect = false }, waits_done none)
unfolding start_disconnecting
waits_for_nil c e n = ground (arith, e, n)

refused_loss :
    (will : Bool) (c : ConnectionStatus)
    → c.status ≡ disconnecting
    → start_connection_lost will c ≡ (c, failed disconnection_in_progress)
unfolding start_connection_lost
refused_loss will c e = ground (arith, e)

IsStuck-Step : {s t : System} → Step s t → IsStuck s → IsStuck t
IsStuck-Step (connect c calls) k = rw (refused_connect c k.ending) k
IsStuck-Step (disconnect c calls) k =
    rw (waits_for_nil c k.ending k.no_channel)
      (record { ending = k.ending; no_channel = k.no_channel; nil = (tt, k.nil) })
IsStuck-Step (lose_connection will c calls) k = rw (refused_loss will c k.ending) k
IsStuck-Step (connection_ends success c pre post r e) k =
    absurd (not_nil pre post conn_completed k.nil)
IsStuck-Step (disconnection_ends c pre post c' e) k =
    absurd (not_nil pre post disconnect_completed k.nil)
IsStuck-Step (loss_handled requested proceed c pre post r e) k =
    absurd (not_nil pre post (lost_handler requested) k.nil)
IsStuck-Step (done_awaited none c pre post e) k = absurd e
IsStuck-Step (done_awaited (some ch) c pre post e) k =
    absurd (not_nil pre post (waits_done (some ch)) k.nil)
IsStuck-Step (connection_awaited prev ch c pre post e) k =
    absurd (not_nil pre post (waits_connection prev ch) k.nil)
IsStuck-Step (disconnecting_resumed c pre post) k = absurd (not_nil pre post resumes k.nil)
IsStuck-Step (loss_awaited will ch c pre post e) k =
    absurd (not_nil pre post (waits_lost will ch) k.nil)

pub data Steps (s : System) : System → Type 0 where
  here : Steps s s
  more : {t u : System} → Steps s t → Step t u → Steps s u

-- From a stuck state, whatever is called, the status stays disconnecting, and every call that does not
-- fail at once waits for a nil channel, for ever.
pub IsStuck-Steps : (s t : System) → IsStuck s → Steps s t → IsStuck t
IsStuck-Steps s _ k here = k
IsStuck-Steps s _ k (more steps step) = IsStuck-Step step (IsStuck-Steps s _ k steps)
