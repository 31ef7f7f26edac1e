-- ===== src/Packets/Unpack/Steps.antt =====
-- How an `Unpack` ends, and its steps.
use paho_mqtt_golang.Base.{Bytes}
use paho_mqtt_golang.Packets.Result.{Error, got, failed, Reader}

-- `stopped` is an error with the packet as it was filled so far.
pub data Outcome {ℓ} (P : Type ℓ) : Type ℓ where
  unpacked : P × Bytes → Outcome P
  stopped : Error → P → Outcome P

infixl 5 ◌>>=◌
abbrev pub ◌>>=◌ {ℓ} : {P : Type ℓ} → Outcome P → (P × Bytes → Outcome P) → Outcome P
unpacked s >>= f = f s
stopped e p >>= f = stopped e p

-- `v, err := decode(b)` with a return on the error.
abbrev pub attempt {ℓ κ} :
    {P : Type ℓ} {A : Type κ} → Reader A → P × Bytes → (A → Bytes → Outcome P) → Outcome P
attempt decode (p, b) k = elim (decode b) [ got v r ↦ k v r | failed e ↦ stopped e p ]

-- `p.field, err = decode(b)`: on an error the field gets the value that `decode` returns beside it.
abbrev pub assign {ℓ κ} :
    {P : Type ℓ} {A : Type κ} → A → Reader A → (P → A → P) → P × Bytes → Outcome P
assign z decode set (p, b) = elim (decode b) [
  | got v r ↦ unpacked (set p v, r)
  | failed e ↦ stopped e (set p z)
]
