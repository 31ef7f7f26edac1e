-- ===== src/Status/Closing.antt =====
-- status.go: closing the channel that the others wait for.
use paho_mqtt_golang.Base.{
  ℕ, ◌≡◌, ◌≤◌, ◌<◌, refl, List, Bool, true, false, ◌||◌, Option, none, some, ◌==◌, arith,
}
use paho_mqtt_golang.Status.{
  Status, disconnected, disconnecting, connecting, reconnecting, connected, abort_connection,
  ConnectionStatus, close_action, Outcome, failed, finished, complete_connection,
}
use paho_mqtt_golang.Status.Counts.{
  connects, holds, claims, count, Counts, Action, Inv, All-Waits_zero,
}
use paho_mqtt_golang.Status.Starts.{Keeps}

-- The channel that a holder of a completion function closes.
pub closing :
    (c : ConnectionStatus) (n : ℕ)
    → n ≡ 1
    → Action c.action_completed n c.made c.closed
    → (c' : ConnectionStatus) × (close_action c ≡ some c')
      × (c'.action_completed ≡ none)
      × (c'.status ≡ c.status)
      × (c'.will_reconnect ≡ c.will_reconnect)
      × (c'.made ≡ c.made)
      × (((k : ℕ) → c.closed k ≡ true → k < c.made) → (k : ℕ) → c'.closed k ≡ true → k < c'.made)
closing c n one a = go c.action_completed refl
  where
    go :
        (o : Option ℕ)
        → c.action_completed ≡ o
        → (c' : ConnectionStatus) × (close_action c ≡ some c')
          × (c'.action_completed ≡ none)
          × (c'.status ≡ c.status)
          × (c'.will_reconnect ≡ c.will_reconnect)
          × (c'.made ≡ c.made)
          × (((k : ℕ) → c.closed k ≡ true → k < c.made)
              → (k : ℕ) → c'.closed k ≡ true
              → k < c'.made)
    go none e = absurd (omega (arith, rw e at a, one))
    go (some ch) e =
        let open_one = rw e at a in
        (
          record c { action_completed = none; closed = λ k. ch == k || c.closed k },
          rw e (ground (arith, open_one)),
          refl,
          refl,
          refl,
          refl,
          λ b k h. ground (arith, b k, open_one, h),
        )

pub Action-bound : (a : Option ℕ) (n made : ℕ) (closed : ℕ → Bool) → Action a n made closed → n ≤ 1
Action-bound none n made closed h = omega (arith, h)
Action-bound (some ch) n made closed h = omega (arith, h.0)

-- No call holds a completion function, and there is no channel.
pub Inv-idle :
    (c : ConnectionStatus) (calls : List Outcome)
    → c.action_completed ≡ none
    → count connects calls ≡ 0
    → count holds calls ≡ 0
    → Counts c.status 0 0 (count claims calls)
    → ((k : ℕ) → c.closed k ≡ true → k < c.made)
    → Inv c calls
Inv-idle c calls a ec eh n b = record {
  counts = rw (ec, eh) n;
  action = rw (a, ec, eh) refl;
  bound = b;
  waiting = rw ec (All-Waits_zero c.action_completed calls);
}

abbrev pub Ends : Bool → ConnectionStatus → List Outcome → Type 0
Ends success c calls =
    (r : ConnectionStatus × Outcome) × (complete_connection success c ≡ some r) × Keeps calls r

-- The end of a connection process, with the channel closed, by the status.
pub connection_ended :
    (success : Bool) (c c' : ConnectionStatus) (calls : List Outcome) (s : Status)
    → c.status ≡ s
    → close_action c ≡ some c'
    → c'.action_completed ≡ none
    → c'.status ≡ c.status
    → ((k : ℕ) → c'.closed k ≡ true → k < c'.made)
    → count connects calls ≡ 0
    → count holds calls ≡ 0
    → Counts s 1 0 (count claims calls)
    → Ends success c calls
unfolding complete_connection
connection_ended success c c' calls disconnecting e closes idle same b zc zh n = (
  (c', failed abort_connection),
  rw (closes, e, complete_connection) refl,
  Inv-idle c' calls idle zc zh (rw (same, e) (omega (arith, n))) b,
)
connection_ended true c c' calls connecting e closes idle same b zc zh n = (
  (record c' { status = connected }, finished),
  rw (closes, e, complete_connection) refl,
  Inv-idle (record c' { status = connected }) calls idle zc zh (omega (arith, n)) b,
)
connection_ended false c c' calls connecting e closes idle same b zc zh n = (
  (record c' { status = disconnected }, finished),
  rw (closes, e, complete_connection) refl,
  Inv-idle (record c' { status = disconnected }) calls idle zc zh (omega (arith, n)) b,
)
connection_ended true c c' calls reconnecting e closes idle same b zc zh n = (
  (record c' { status = connected }, finished),
  rw (closes, e, complete_connection) refl,
  Inv-idle (record c' { status = connected }) calls idle zc zh (omega (arith, n)) b,
)
connection_ended false c c' calls reconnecting e closes idle same b zc zh n = (
  (record c' { status = disconnected }, finished),
  rw (closes, e, complete_connection) refl,
  Inv-idle (record c' { status = disconnected }) calls idle zc zh (omega (arith, n)) b,
)
connection_ended success c c' calls disconnected e closes idle same b zc zh n =
    absurd (omega (arith, n))
connection_ended success c c' calls connected e closes idle same b zc zh n =
    absurd (omega (arith, n))
