-- ===== src/Packets/Codec/Length.antt =====
-- encodeLength and decodeLength: both directions, bounds and errors.
use mathlib.Core.WellFounded.{Acc}
use native.Mathlib.Nat.{div-add-mod}
use native.Mathlib.Numerals.{towards_suc}
use paho_mqtt_golang.Base.{
  ℕ, zero, suc, ◌+◌, ◌*◌, ◌/◌, ◌%◌, ◌^◌, ◌≤◌, ◌<◌, ◌≡◌, ap, [], ◌∷◌, ◌++◌, append_assoc, Bytes,
  if◌then◌else◌, ltb, length, arith, lt_wf, All, IsByte, bit_or, bit_and,
}
use paho_mqtt_golang.Base.Bits.{low_bits, top_bit, set_top_bit, bit_or_disjoint}
use paho_mqtt_golang.Packets.Result.{
  ok, err, got, failed, invalid_packet_length, malformed_remaining_length,
}
use paho_mqtt_golang.Packets.Codec.{
  encode_length_loop, encode_length, decode_length_loop, decode_length,
}

-- The groups of seven bits of `v`, lowest first, for `v` below 128 ^ (k + 1).
unfoldable pub digits : ℕ → ℕ → Bytes
digits zero v = v ∷ []
digits (suc k) v =
    let rest = digits k (v / 128) in if ltb v 128 then v ∷ [] else (v % 128 + 128) ∷ rest

encode_length_loop-digits :
    (k : ℕ) (enc : Bytes) (v : ℕ) (w : Acc ◌<◌ v)
    → v < 128 ^ suc k
    → encode_length_loop enc v w ≡ enc ++ digits k v
unfolding encode_length_loop digits
encode_length_loop-digits zero enc v (Acc.intro _ smaller) h = ground arith
encode_length_loop-digits (suc k) enc v (Acc.intro _ smaller) h =
    let head : Bytes = (v % 128 + 128) ∷ [] in
    grind (
      arith,
      set_top_bit (v % 128),
      λ (w : Acc ◌<◌ (v / 128)).
          encode_length_loop-digits k (enc ++ head) (v / 128) w (omega arith),
      append_assoc enc head (digits k (v / 128)),
    )

pub encode_length_bound : (v : ℕ) (enc : Bytes) → encode_length v ≡ ok enc → v < 2 ^ 28
unfolding encode_length
encode_length_bound v enc h = ground arith

pub encode_length-digits : (v : ℕ) → v < 2 ^ 28 → encode_length v ≡ ok (digits 3 v)
unfolding encode_length
encode_length-digits v h = ground (arith, encode_length_loop-digits 3 [] v (lt_wf.apply v) h)

pub length-digits : (k v : ℕ) → (1 ≤ length (digits k v)) × (length (digits k v) ≤ k + 1)
unfolding digits
length-digits zero v = omega arith
length-digits (suc k) v = ground (arith, length-digits k (v / 128))

-- One round of the decoding loop on a last byte, and on a byte with the top bit set.
last_digit :
    (v acc : ℕ) (k : ℕ) (rest : Bytes)
    → v < 128
    → acc < 2 ^ k
    → v * 2 ^ k < 2 ^ 28
    → decode_length_loop acc k (v ∷ rest) ≡ got (acc + v * 2 ^ k) rest
unfolding decode_length_loop
last_digit v acc k rest hv ha hs = ground (arith, low_bits v, top_bit v, bit_or_disjoint k acc v)

inner_digit :
    (g acc : ℕ) (k : ℕ) (rest : Bytes)
    → g < 128
    → acc < 2 ^ k
    → g * 2 ^ k < 2 ^ 28
    → k < 20
    → decode_length_loop acc k ((g + 128) ∷ rest)
      ≡ decode_length_loop (acc + g * 2 ^ k) (k + 7) rest
unfolding decode_length_loop
inner_digit g acc k rest hg ha hs hk =
    ground (arith, low_bits (g + 128), top_bit (g + 128), bit_or_disjoint k acc g)

shift_seven : (s : ℕ) → 2 ^ (s + 7) ≡ 128 * 2 ^ s
shift_seven s = simp towards_suc (omega arith)

-- The lowest group of `v` and the rest, both shifted by `s`.
split_group : (v s : ℕ) → v * 2 ^ s ≡ v % 128 * 2 ^ s + v / 128 * 2 ^ (s + 7)
split_group v s = omega (
  arith,
  ap (λ (t : ℕ). t * 2 ^ s) (div-add-mod v 128),
  ap (λ (t : ℕ). v / 128 * t) (shift_seven s),
)

group_fits : (g a p : ℕ) → g < 128 → a < p → a + g * p < 128 * p
group_fits g a p hg ha = grind arith

-- `v` is what is still to be read, and it counts from bit `k` on.
decode_length_loop-digits :
    (n v acc k : ℕ) (rest : Bytes)
    → k + 7 * n ≡ 21
    → v < 128 ^ suc n
    → acc < 2 ^ k
    → v * 2 ^ k < 2 ^ 28
    → decode_length_loop acc k (digits n v ++ rest) ≡ got (acc + v * 2 ^ k) rest
unfolding digits
decode_length_loop-digits zero v acc k rest e hv ha hs = last_digit v acc k rest hv ha hs
decode_length_loop-digits (suc n) v acc k rest e hv ha hs = ground (
  arith,
  last_digit v acc k rest,
  split_group v k,
  shift_seven k,
  group_fits (v % 128) acc (2 ^ k) (omega arith) ha,
  inner_digit (v % 128) acc k (digits n (v / 128) ++ rest),
  decode_length_loop-digits n (v / 128) (acc + v % 128 * 2 ^ k) (k + 7) rest (omega arith)
      (omega arith),
)

-- `decodeLength` reads back every length that `encodeLength` accepts, and leaves what follows.
pub decode_length-encode_length :
    (v : ℕ) (enc rest : Bytes) → encode_length v ≡ ok enc → decode_length (enc ++ rest) ≡ got v rest
decode_length-encode_length v enc rest h =
    let small : v < 2 ^ 28 = encode_length_bound v enc h in
    let shape : enc ≡ digits 3 v = cc (h, encode_length-digits v small) in
    rw shape (
      unfold decode_length in
      ground (
        arith,
        decode_length_loop-digits 3 v 0 0 rest (omega arith) (omega arith) (omega arith)
            (omega arith),
      ))

pow_bound : (n k : ℕ) → k + 7 * n ≡ 21 → 2 ^ (k + 7) ≤ 2 ^ 28
pow_bound zero k e = let at : k ≡ 21 = omega arith in rw at (omega arith)
pow_bound (suc zero) k e = let at : k ≡ 14 = omega arith in rw at (omega arith)
pow_bound (suc (suc zero)) k e = let at : k ≡ 7 = omega arith in rw at (omega arith)
pow_bound (suc (suc (suc zero))) k e = let at : k ≡ 0 = omega arith in rw at (omega arith)
pow_bound (suc (suc (suc (suc n)))) k e = absurd (omega arith)

-- The new value of `rLength` after the digit `d`.
add_digit :
    (d acc k n : ℕ)
    → d < 256
    → acc < 2 ^ k
    → k + 7 * n ≡ 21
    → (bit_or acc (bit_and d 127 * 2 ^ k % 2 ^ 32) < 2 ^ (k + 7)) × (2 ^ (k + 7) ≤ 2 ^ 28)
add_digit d acc k n hd ha e = ground (
  arith,
  low_bits d,
  shift_seven k,
  pow_bound n k,
  group_fits (d % 128) acc (2 ^ k) (omega arith) ha,
  bit_or_disjoint k acc (d % 128),
)

-- From `multiplier` on, with 7 bits for each digit still allowed, the value stays in range.
decode_length_loop_takes :
    (r : Bytes) (acc k : ℕ) (n v : ℕ) (rest : Bytes)
    → All IsByte r
    → k + 7 * n ≡ 21
    → acc < 2 ^ k
    → decode_length_loop acc k r ≡ got v rest
    → (v < 2 ^ 28) × (length rest < length r) × (length r ≤ length rest + n + 1)
unfolding decode_length_loop
decode_length_loop_takes [] acc k n v rest bytes e ha h = cc
decode_length_loop_takes (d ∷ r) acc k zero v rest bytes e ha h =
    ground (arith, add_digit d acc k 0 bytes.0 ha e)
decode_length_loop_takes (d ∷ r) acc k (suc n) v rest bytes e ha h = ground (
  arith,
  add_digit d acc k (suc n) bytes.0 ha e,
  decode_length_loop_takes r (bit_or acc (bit_and d 127 * 2 ^ k % 2 ^ 32)) (k + 7) n v rest,
)

-- Where `decodeLength` succeeds on bytes, it took one to four of them, and its value is one that
-- `encodeLength` accepts.
pub decode_length_takes :
    (r : Bytes) (v : ℕ) (rest : Bytes)
    → All IsByte r
    → decode_length r ≡ got v rest
    → (v ≤ 268435455) × (length rest < length r) × (length r ≤ length rest + 4)
unfolding decode_length
decode_length_takes r v rest bytes h =
    omega (arith, decode_length_loop_takes r 0 0 3 v rest bytes (omega arith) (omega arith) h)

-- `encodeLength` succeeds exactly up to the largest length of the protocol, with at most four bytes.
pub encode_length_total :
    (v : ℕ)
    → v ≤ 268435455
    → (enc : Bytes) × (encode_length v ≡ ok enc) × (1 ≤ length enc) × (length enc ≤ 4)
encode_length_total v h =
    let (lo, hi) = length-digits 3 v in
    (digits 3 v, encode_length-digits v (omega arith), lo, omega (arith, hi))

pub encode_length_refuses : (v : ℕ) → 268435455 < v → encode_length v ≡ err invalid_packet_length
unfolding encode_length
encode_length_refuses v h = ground arith

-- Four bytes that all announce another one are refused, whatever follows.
pub decode_length_malformed :
    (a b c d : ℕ) (rest : Bytes)
    → All (λ x. (128 ≤ x) × (x < 256)) (a ∷ b ∷ c ∷ d ∷ [])
    → decode_length (a ∷ b ∷ c ∷ d ∷ rest) ≡ failed malformed_remaining_length
unfolding decode_length decode_length_loop
decode_length_malformed a b c d rest h = ground (arith, top_bit a, top_bit b, top_bit c, top_bit d)
