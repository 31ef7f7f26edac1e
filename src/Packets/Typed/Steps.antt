-- ===== src/Packets/Typed/Steps.antt =====
-- packets/: what an `Unpack` keeps, from one reader to the next.
use paho_mqtt_golang.Base.{Bytes, Bool, true, false, if◌then◌else◌}
use paho_mqtt_golang.Packets.Result.{Reader, Decoded, got, failed}
use paho_mqtt_golang.Packets.Unpack.{Outcome, unpacked, stopped, attempt, assign, ◌>>=◌}

-- What holds of the packet that an `Unpack` leaves, with an error or without.
abbrev pub Keeps : {P : Type 0} → (P → Type 0) → Outcome P → Type 0
Keeps q (unpacked (p, b)) = q p
Keeps q (stopped e p) = q p

module _ {P : Type 0} (q : P → Type 0) where
  pub Keeps-bind :
      (m : Outcome P) (k : P × Bytes → Outcome P)
      → Keeps q m
      → ((s : P × Bytes) → q s.0 → Keeps q (k s))
      → Keeps q (m >>= k)
  Keeps-bind (unpacked s) k h next = next s h
  Keeps-bind (stopped e p) k h next = h

  pub Keeps-attempt :
      {A : Type 0} (d : Reader A) (s : P × Bytes) (k : A → Bytes → Outcome P)
      → q s.0
      → ((a : A) (r : Bytes) → Keeps q (k a r))
      → Keeps q (attempt d s k)
  Keeps-attempt {A} d s k h next = go (d s.1)
    where
      go : (x : Decoded A) → Keeps q (elim x [ got v r ↦ k v r | failed e ↦ stopped e s.0 ])
      go (got v r) = next v r
      go (failed e) = h

  pub Keeps-assign :
      {A : Type 0} (z : A) (d : Reader A) (set : P → A → P) (s : P × Bytes)
      → ((p : P) (a : A) → q p → q (set p a))
      → q s.0
      → Keeps q (assign z d set s)
  Keeps-assign {A} z d set s keeps h = go (d s.1)
    where
      go :
          (x : Decoded A)
          → Keeps q
              (elim x [ got v r ↦ unpacked (set s.0 v, r) | failed e ↦ stopped e (set s.0 z) ])
      go (got v r) = keeps s.0 v h
      go (failed e) = keeps s.0 z h

  pub Keeps-if : (b : Bool) (x y : Outcome P) → Keeps q x → Keeps q y → Keeps q (if b then x else y)
  Keeps-if true x y h k = h
  Keeps-if false x y h k = k
