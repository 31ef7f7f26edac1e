-- ===== src/Status.antt =====
-- status.go: the connection status. Each function here is one section of a method that runs under the
-- lock; where a method waits for a channel, it has one function before and one after.
pub mod System
pub mod Counts
pub mod Starts
pub mod Closing
pub mod Ends
pub mod Resume
pub mod Safety
pub mod Stuck
mod Tests
use paho_mqtt_golang.Base.{ℕ, ◌+◌, Bool, false, not, ◌||◌, Option, none, some, if◌then◌else◌, ◌==◌}

pub data Status : Type 0 where
  disconnected disconnecting connecting reconnecting connected : Status

pub data StatusError : Type 0 where
  abort_connection already_connected_or_reconnecting status_must_be_disconnected : StatusError
  already_disconnected disconnection_requested disconnection_in_progress : StatusError

-- A channel is a number below `made`; `closed` tells which are closed. A nil channel is `none`.
pub record ConnectionStatus : Type 0 where
  pub status : Status
  pub will_reconnect : Bool
  pub action_completed : Option ℕ
  pub made : ℕ
  pub closed : ℕ → Bool

abbrev pub initial : ConnectionStatus
initial = record {
  status = disconnected;
  will_reconnect = false;
  action_completed = none;
  made = 0;
  closed = λ ch. false;
}

-- `c.actionCompleted = make(chan struct{})`.
abbrev pub make_action : ConnectionStatus → ConnectionStatus
make_action c = record c { action_completed = some c.made; made = c.made + 1 }

-- `close(c.actionCompleted)` and nil; `none` is the panic on a nil or closed channel.
abbrev pub close_action : ConnectionStatus → Option ConnectionStatus
close_action c = elim c.action_completed [
  | none ↦ none
  | some ch ↦
      if c.closed ch
      then none
      else some (record c { action_completed = none; closed = λ k. ch == k || c.closed k })
]

-- What a method hands its caller: an error, a function that must be called, or it waits.
pub data Outcome : Type 0 where
  failed : StatusError → Outcome
  finished : Outcome
  conn_completed : Outcome
  disconnect_completed : Outcome
  lost_handler : Bool → Outcome
  waits_done : Option ℕ → Outcome
  waits_connection : Status → Option ℕ → Outcome
  waits_lost : Bool → Option ℕ → Outcome
  resumes : Outcome

unfoldable pub start_connecting : ConnectionStatus → ConnectionStatus × Outcome
start_connecting c = elim c.status [
  | connected ↦ (c, failed already_connected_or_reconnecting)
  | reconnecting ↦ (c, failed already_connected_or_reconnecting)
  | disconnected ↦ (make_action (record c { status = connecting }), conn_completed)
  | disconnecting ↦ (c, failed status_must_be_disconnected)
  | connecting ↦ (c, failed status_must_be_disconnected)
]

-- The deferred function closes the channel on either return.
unfoldable pub complete_connection : Bool → ConnectionStatus → Option (ConnectionStatus × Outcome)
complete_connection success c = elim (close_action c) [
  | none ↦ none
  | some c' ↦ elim c.status [
    | disconnecting ↦ some (c', failed abort_connection)
    | _ ↦ some (record c' { status = if success then connected else disconnected }, finished)
  ]
]

-- `Disconnecting` up to where it waits.
unfoldable pub start_disconnecting : ConnectionStatus → ConnectionStatus × Outcome
start_disconnecting c = elim c.status [
  | disconnected ↦ (c, failed already_disconnected)
  | disconnecting ↦ (record c { will_reconnect = false }, waits_done c.action_completed)
  | connecting ↦
      (record c { status = disconnecting }, waits_connection connecting c.action_completed)
  | reconnecting ↦
      (record c { status = disconnecting }, waits_connection reconnecting c.action_completed)
  | connected ↦ (make_action (record c { status = disconnecting }), disconnect_completed)
]

-- The test behind the wait for the connection process, which is not under the lock.
unfoldable pub check_reconnect : Status → ConnectionStatus → Outcome
check_reconnect prev c = elim prev [
  | reconnecting ↦ if not c.will_reconnect then failed already_disconnected else resumes
  | _ ↦ resumes
]

-- The rest of `Disconnecting`.
unfoldable pub resume_disconnecting : ConnectionStatus → ConnectionStatus × Outcome
resume_disconnecting c = (make_action c, disconnect_completed)

unfoldable pub disconnection_completed : ConnectionStatus → Option ConnectionStatus
disconnection_completed c = close_action (record c { status = disconnected })

-- `ConnectionLost` up to where it waits.
unfoldable pub start_connection_lost : Bool → ConnectionStatus → ConnectionStatus × Outcome
start_connection_lost will_reconnect c =
    let c' : ConnectionStatus = record c {
      will_reconnect = will_reconnect;
      status = disconnecting;
    } in
    elim c.status [
      | disconnected ↦ (c, failed already_disconnected)
      | disconnecting ↦ (c, failed disconnection_in_progress)
      | connecting ↦ (c', waits_lost will_reconnect c.action_completed)
      | reconnecting ↦ (c', waits_lost will_reconnect c.action_completed)
      | connected ↦ (make_action c', lost_handler will_reconnect)
    ]

-- The rest of `ConnectionLost`.
unfoldable pub resume_connection_lost : Bool → ConnectionStatus → ConnectionStatus × Outcome
resume_connection_lost will_reconnect c =
    if not will_reconnect
    then (c, failed already_disconnected)
    else (make_action c, lost_handler will_reconnect)

-- The function that `getConnectionLostHandler` returns.
unfoldable pub handle_lost : Bool → Bool → ConnectionStatus → Option (ConnectionStatus × Outcome)
handle_lost reconnect_requested proceed c =
    let answer : Outcome =
      if not reconnect_requested || not proceed then finished else failed disconnection_requested in
    let ended : Option (ConnectionStatus × Outcome) =
      elim (close_action (record c { status = disconnected })) [
        | none ↦ none
        | some c' ↦ some (c', answer)
      ] in
    if not c.will_reconnect || not proceed
    then ended
    else some (record c { status = reconnecting }, conn_completed)
