-- ===== src/Packets/Codec.antt =====
-- packets/packets.go, the encoding of single fields: bytes, 16-bit numbers, length-prefixed
-- strings and the variable-length "remaining length" of a fixed header.
pub mod Length
pub mod Fields
use mathlib.Core.Logic.{dite}
use mathlib.Core.WellFounded.{Acc}
use native.Mathlib.Decide.{dec_lt}
use paho_mqtt_golang.Base.{
  ℕ, zero, suc, ◌+◌, ◌*◌, ◌/◌, ◌%◌, ◌^◌, ◌<◌, bit_and, bit_or, [], ◌∷◌, ◌++◌, Bytes, Bool, true,
  false, if◌then◌else◌, ltb, leb, ◌==◌, length, take, drop, lt_wf, arith,
}
use paho_mqtt_golang.Packets.Result.{
  Result, ok, err, Decoded, got, failed, Reader, ◌>>=◌, return, eof, unexpected_eof,
  invalid_packet_length, malformed_remaining_length,
}

-- The first `n` bytes, with zeros where the input is shorter.
unfoldable pub fill : ℕ → Bytes → Bytes
fill zero b = []
fill (suc n) [] = 0 ∷ fill n []
fill (suc n) (x ∷ b) = x ∷ fill n b

-- `b.Read(make([]byte, n))` of a bytes.Buffer: a short read is no error, the rest of the slice
-- keeps its zeros, and only an empty buffer under a request for bytes is the end of the input.
unfoldable pub read : ℕ → Reader Bytes
unfolding fill
read zero b = got [] b
read (suc n) [] = failed eof
read (suc n) (x ∷ b) = got (fill (suc n) (x ∷ b)) (drop (suc n) (x ∷ b))

abbrev short_read : Bytes → Decoded Bytes
short_read [] = failed eof
short_read (_ ∷ _) = failed unexpected_eof

-- `io.ReadFull(r, make([]byte, n))`.
unfoldable pub read_full : ℕ → Reader Bytes
read_full n r = if leb n (length r) then got (take n r) (drop n r) else short_read r

abbrev first_byte : Bytes → ℕ
first_byte [] = 0
first_byte (x ∷ _) = x

-- `binary.BigEndian.Uint16` on a slice of two bytes.
abbrev big_endian : Bytes → ℕ
big_endian [] = 0
big_endian (x ∷ []) = x * 256
big_endian (x ∷ y ∷ _) = x * 256 + y

unfoldable pub bool_to_byte : Bool → ℕ
bool_to_byte true = 1
bool_to_byte false = 0

unfoldable pub decode_byte : Reader ℕ
decode_byte = do num ← read 1; return (first_byte num)

unfoldable pub decode_uint16 : Reader ℕ
decode_uint16 = do num ← read 2; return (big_endian num)

-- The argument is a uint16.
unfoldable pub encode_uint16 : ℕ → Bytes
encode_uint16 num = num / 256 % 256 ∷ num % 256 ∷ []

unfoldable pub decode_bytes : Reader Bytes
decode_bytes = do field_length ← decode_uint16; read field_length

-- `field[0:n]` where the field is longer.
unfoldable pub truncate : ℕ → Bytes → Bytes
truncate n field = if ltb n (length field) then take n field else field

unfoldable pub encode_bytes : Bytes → Bytes
encode_bytes field =
    let field' = truncate 65535 field in encode_uint16 (length field' % 2 ^ 16) ++ field'

-- A Go string is its bytes, so the string versions differ in the type only.
unfoldable pub decode_string : Reader Bytes
decode_string = decode_bytes

unfoldable pub encode_string : Bytes → Bytes
encode_string field = encode_bytes field

pub shrinks : (n : ℕ) → 0 < n / 128 → n / 128 < n
shrinks n h = omega arith

-- The `for` loop of `encodeLength`; it goes on while the quotient is positive.
unfoldable pub encode_length_loop : Bytes → (n : ℕ) → Acc ◌<◌ n → Bytes
encode_length_loop enc n (Acc.intro _ smaller) =
    let digit = n % 128 in
    dite (dec_lt 0 (n / 128))
      (λ more.
        encode_length_loop (enc ++ (bit_or digit 0x80 ∷ [])) (n / 128) (smaller _ (shrinks n more)))
      (λ _. enc ++ (digit ∷ []))

-- `length < 0` cannot be: the callers pass the length of a buffer.
unfoldable pub encode_length : ℕ → Result Bytes
encode_length n =
    if ltb 268435455 n
    then err invalid_packet_length
    else ok (encode_length_loop [] n (lt_wf.apply n))

-- The `for` loop of `decodeLength` over the bytes of the reader; both variables are uint32.
unfoldable pub decode_length_loop : ℕ → ℕ → Reader ℕ
decode_length_loop r_length multiplier [] = failed eof
decode_length_loop r_length multiplier (digit ∷ r) =
    let r_length' = bit_or r_length (bit_and digit 127 * 2 ^ multiplier % 2 ^ 32) in
    let more = decode_length_loop r_length' (multiplier + 7) r in
    if bit_and digit 128 == 0
    then got r_length' r
    else if leb 27 (multiplier + 7)
    then failed malformed_remaining_length
    else more

unfoldable pub decode_length : Reader ℕ
decode_length = decode_length_loop 0 0
