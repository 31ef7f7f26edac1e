-- ===== src/Packets/Result.antt =====
-- How the functions of packets/ end: with a value, with a Go error, or by a panic.
use paho_mqtt_golang.Base.{ℕ, Bytes}

pub data Error : Type 0 where
  eof : Error
  unexpected_eof : Error
  invalid_packet_length : Error
  malformed_remaining_length : Error
  unsupported_packet_type : ℕ → Error
  payload_length_negative : Error
  failed_to_read_expected_data : Error

-- What a function that only computes returns. `panic` is an index out of range.
pub data Result {ℓ} (A : Type ℓ) : Type ℓ where
  ok : A → Result A
  err : Error → Result A
  panic : Result A

-- What a function that reads returns: a value and the bytes left in the reader, or an error.
pub data Decoded {ℓ} (A : Type ℓ) : Type ℓ where
  got : A → Bytes → Decoded A
  failed : Error → Decoded A

-- A reader holds the bytes that it will yield before it reports the end of the input.
abbrev pub Reader {ℓ} : Type ℓ → Type ℓ
Reader A = Bytes → Decoded A

infixl 5 ◌>>=◌
abbrev pub ◌>>=◌ {ℓ κ} : {A : Type ℓ} {B : Type κ} → Reader A → (A → Reader B) → Reader B
◌>>=◌ m f r = elim (m r) [ got a r' ↦ f a r' | failed e ↦ failed e ]

abbrev pub return {ℓ} : {A : Type ℓ} → A → Reader A
return a r = got a r
