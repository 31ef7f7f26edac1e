-- ===== src/Keepalive.antt =====
-- ping.go: the goroutine that sends a PINGREQ on a quiet connection and gives up on a silent broker.
pub mod Laws
mod Tests
use paho_mqtt_golang.Base.{
  ℕ, ◌+◌, ◌-◌, ◌*◌, ◌/◌, List, [], ◌∷◌, ◌++◌, Bool, true, false, not, ◌&&◌, ◌||◌, Option, none,
  some, if◌then◌else◌, ltb, leb,
}
use paho_mqtt_golang.Options.{second}

-- A time is a number of nanoseconds; `pings` are the times at which a PINGREQ was sent.
pub record Keepalive : Type 0 where
  pub last_sent : ℕ
  pub last_received : ℕ
  pub ping_outstanding : Bool
  pub ping_sent : ℕ
  pub pings : List ℕ

-- How often the goroutine looks, for a keepalive in seconds.
unfoldable pub check_interval : ℕ → ℕ
check_interval keep_alive = if ltb 10 keep_alive then 5 * second else keep_alive * second / 4

-- `time.Since(t) >= span`.
abbrev pub elapsed : ℕ → ℕ → ℕ → Bool
elapsed now t span = leb span (now - t)

unfoldable pub is_due : ℕ → ℕ → Keepalive → Bool
is_due keep_alive now k =
    elapsed now k.last_sent (keep_alive * second)
    || elapsed now k.last_received (keep_alive * second)

-- A PINGREQ; an error of its Write is only logged.
unfoldable pub send_ping : ℕ → Keepalive → Keepalive
send_ping now k = record {
  last_sent = now;
  last_received = k.last_received;
  ping_outstanding = true;
  ping_sent = now;
  pings = k.pings ++ (now ∷ []);
}

-- One look at the time `now`. `none` says that the connection is given up.
unfoldable pub check : ℕ → ℕ → ℕ → Keepalive → Option Keepalive
check keep_alive ping_timeout now k =
    let k' : Keepalive =
      if is_due keep_alive now k && not k.ping_outstanding then send_ping now k else k in
    if k'.ping_outstanding && elapsed now k'.ping_sent ping_timeout then none else some k'

-- What happens while the goroutine runs: a look, a packet sent or received, a PINGRESP.
pub data Event : Type 0 where
  look sent received pong : ℕ → Event

-- A PINGRESP is a packet that is received.
unfoldable pub happens : ℕ → ℕ → Event → Keepalive → Option Keepalive
happens keep_alive ping_timeout (look now) k = check keep_alive ping_timeout now k
happens keep_alive ping_timeout (sent now) k = some (record k { last_sent = now })
happens keep_alive ping_timeout (received now) k = some (record k { last_received = now })
happens keep_alive ping_timeout (pong now) k =
    some (record k { last_received = now; ping_outstanding = false })

unfoldable pub run : ℕ → ℕ → List Event → Keepalive → Option Keepalive
run keep_alive ping_timeout [] k = some k
run keep_alive ping_timeout (e ∷ es) k = elim (happens keep_alive ping_timeout e k) [
  | none ↦ none
  | some k' ↦ run keep_alive ping_timeout es k'
]
