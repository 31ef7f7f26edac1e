-- ===== src/Status/Counts.antt =====
-- status.go: how many calls there can be of each kind, by the status.
use paho_mqtt_golang.Base.{
  ℕ, ◌+◌, ◌≡◌, ◌≤◌, ◌<◌, refl, List, [], ◌∷◌, ◌++◌, Bool, true, false, Option, none, some, All,
  arith,
}
use paho_mqtt_golang.Status.{
  Status, disconnected, disconnecting, connecting, reconnecting, connected, ConnectionStatus,
  Outcome, failed, finished, conn_completed, disconnect_completed, lost_handler, waits_done,
  waits_connection, waits_lost, resumes,
}

-- The calls in a connection process; those that hold the end of a disconnection; those that will.
abbrev pub connects : Outcome → ℕ
connects conn_completed = 1
connects _ = 0

abbrev pub holds : Outcome → ℕ
holds disconnect_completed = 1
holds (lost_handler r) = 1
holds _ = 0

abbrev pub claims : Outcome → ℕ
claims (waits_connection prev ch) = 1
claims (waits_lost will ch) = 1
claims resumes = 1
claims _ = 0

abbrev pub count : (Outcome → ℕ) → List Outcome → ℕ
count f [] = 0
count f (o ∷ calls) = f o + count f calls

pub count-append :
    (f : Outcome → ℕ) (pre post : List Outcome) → count f (pre ++ post) ≡ count f pre + count f post
count-append f [] post = omega arith
count-append f (o ∷ pre) post = omega (arith, count-append f pre post)

pub count-middle :
    (f : Outcome → ℕ) (pre post : List Outcome) (o : Outcome)
    → count f (pre ++ (o ∷ post)) ≡ f o + count f (pre ++ post)
count-middle f pre post o = omega (arith, count-append f pre (o ∷ post), count-append f pre post)

-- What the counts can be in each status.
abbrev pub Counts : Status → ℕ → ℕ → ℕ → Type 0
Counts disconnected c h w = c + h + w ≡ 0
Counts connected c h w = c + h + w ≡ 0
Counts connecting c h w = (c ≡ 1) × (h + w ≡ 0)
Counts reconnecting c h w = (c ≡ 1) × (h + w ≡ 0)
Counts disconnecting c h w = (c + h ≤ 1) × (h + w ≤ 1) × (c ≤ w)

-- There is an open channel exactly while a call holds a completion function.
abbrev pub Action : Option ℕ → ℕ → ℕ → (ℕ → Bool) → Type 0
Action none n made closed = n ≡ 0
Action (some ch) n made closed = (n ≡ 1) × (closed ch ≡ false) × (ch < made)

-- A call that waits for a connection process waits for the channel that this process will close.
abbrev pub Waits : Option ℕ → ℕ → Outcome → Type 0
Waits a n (waits_connection prev ch) = n ≡ 1 → ch ≡ a
Waits a n (waits_lost will ch) = n ≡ 1 → ch ≡ a
Waits a n resumes = n ≡ 0
Waits a n _ = Unit

pub record Inv (c : ConnectionStatus) (calls : List Outcome) : Type 0 where
  pub counts : Counts c.status (count connects calls) (count holds calls) (count claims calls)
  pub action : Action c.action_completed (count connects calls + count holds calls) c.made c.closed
  pub bound : (k : ℕ) → c.closed k ≡ true → k < c.made
  pub waiting : All (Waits c.action_completed (count connects calls)) calls

pub Waits-zero : (a : Option ℕ) (o : Outcome) → Waits a 0 o
Waits-zero a (failed e) = tt
Waits-zero a finished = tt
Waits-zero a conn_completed = tt
Waits-zero a disconnect_completed = tt
Waits-zero a (lost_handler r) = tt
Waits-zero a (waits_done ch) = tt
Waits-zero a (waits_connection prev ch) = λ e. absurd (omega (arith, e))
Waits-zero a (waits_lost will ch) = λ e. absurd (omega (arith, e))
Waits-zero a resumes = refl

pub All-Waits_zero : (a : Option ℕ) (calls : List Outcome) → All (Waits a 0) calls
All-Waits_zero a [] = tt
All-Waits_zero a (o ∷ calls) = (Waits-zero a o, All-Waits_zero a calls)

pub Waits-none : (a : Option ℕ) (n : ℕ) (o : Outcome) → claims o ≡ 0 → Waits a n o
Waits-none a n (failed e) h = tt
Waits-none a n finished h = tt
Waits-none a n conn_completed h = tt
Waits-none a n disconnect_completed h = tt
Waits-none a n (lost_handler r) h = tt
Waits-none a n (waits_done ch) h = tt
Waits-none a n (waits_connection prev ch) h = absurd (omega (arith, h))
Waits-none a n (waits_lost will ch) h = absurd (omega (arith, h))
Waits-none a n resumes h = absurd (omega (arith, h))

pub All-Waits_none :
    (a : Option ℕ) (n : ℕ) (calls : List Outcome) → count claims calls ≡ 0 → All (Waits a n) calls
All-Waits_none a n [] h = tt
All-Waits_none a n (o ∷ calls) h =
    (Waits-none a n o (omega arith), All-Waits_none a n calls (omega arith))

pub All-middle :
    (P : Outcome → Type 0) (pre post : List Outcome) (o : Outcome)
    → All P (pre ++ (o ∷ post))
    → P o × All P (pre ++ post)
All-middle P [] post o h = h
All-middle P (x ∷ pre) post o h = let (at, rest) = All-middle P pre post o h.1 in (at, (h.0, rest))

-- Other calls with the same counts.
pub Inv-same :
    (c : ConnectionStatus) (calls calls' : List Outcome)
    → count connects calls' ≡ count connects calls
    → count holds calls' ≡ count holds calls
    → count claims calls' ≡ count claims calls
    → All (Waits c.action_completed (count connects calls)) calls'
    → Inv c calls
    → Inv c calls'
Inv-same c calls calls' ec eh ew w i = record {
  counts = rw (ec, eh, ew) i.counts;
  action = rw (ec, eh) i.action;
  bound = i.bound;
  waiting = rw ec w;
}
