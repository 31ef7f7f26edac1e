-- ===== src/Packets/Codec/Fields.antt =====
-- decodeUint16, decodeBytes and decodeString on what their encoders write, and on short input.
use paho_mqtt_golang.Base.{
  ℕ, zero, suc, ◌+◌, ◌%◌, ◌^◌, ◌-◌, ◌≤◌, ◌<◌, ◌≡◌, refl, ap, [], ◌∷◌, ◌++◌, append_assoc, Bytes,
  length, replicate, length-take, drop, arith,
}
use native.Mathlib.Nat.{sub-zero, suc-sub-suc}
use paho_mqtt_golang.Packets.Result.{got, failed, eof, ◌>>=◌}
use paho_mqtt_golang.Packets.Codec.{
  truncate, fill, read, decode_byte, decode_uint16, encode_uint16, decode_bytes, encode_bytes,
  decode_string, encode_string,
}

fill-length_append : (xs r : Bytes) → fill (length xs) (xs ++ r) ≡ xs
unfolding fill
fill-length_append [] r = refl
fill-length_append (x ∷ xs) r = ap (λ l. x ∷ l) (fill-length_append xs r)

drop-length_append : (xs r : Bytes) → drop (length xs) (xs ++ r) ≡ r
drop-length_append [] r = refl
drop-length_append (x ∷ xs) r = drop-length_append xs r

-- A read of exactly what stands in front returns it and leaves the rest.
pub read-append : (xs r : Bytes) → read (length xs) (xs ++ r) ≡ got xs r
unfolding read
read-append [] r = refl
read-append (x ∷ xs) r = rw (fill-length_append xs r, drop-length_append xs r)

pub decode_uint16-encode_uint16 :
    (n : ℕ) (r : Bytes) → n < 65536 → decode_uint16 (encode_uint16 n ++ r) ≡ got n r
unfolding decode_uint16 encode_uint16 read fill
decode_uint16-encode_uint16 n r h = ground arith

pub length-encode_uint16 : (n : ℕ) → length (encode_uint16 n) ≡ 2
unfolding encode_uint16
length-encode_uint16 n = refl

pub decode_uint16_all : (n : ℕ) → n < 65536 → decode_uint16 (encode_uint16 n) ≡ got n []
unfolding decode_uint16 encode_uint16 read fill
decode_uint16_all n h = ground arith

pub decode_byte-cons : (x : ℕ) (r : Bytes) → decode_byte (x ∷ r) ≡ got x r
unfolding decode_byte read fill
decode_byte-cons x r = refl

-- At the end of the input every decoder reports it.
pub decode_string-nil : decode_string [] ≡ failed eof
unfolding decode_string decode_bytes decode_uint16 read
decode_string-nil = refl

-- The two bytes of length in front of a field.
decode_bytes-prefix :
    (n : ℕ) (r : Bytes) → n < 65536 → decode_bytes (encode_uint16 n ++ r) ≡ read n r
unfolding decode_bytes
decode_bytes-prefix n r h = rw (decode_uint16-encode_uint16 n r h, ◌>>=◌)

truncate_short : (n : ℕ) (f : Bytes) → length f ≤ n → truncate n f ≡ f
unfolding truncate
truncate_short n f h = ground arith

length-truncate : (n : ℕ) (f : Bytes) → length (truncate n f) ≤ n
unfolding truncate
length-truncate n f = ground (arith, length-take n f)

-- What `encodeBytes` writes: the length of the field as cut, and the field as cut.
encode_bytes_lem :
    (f : Bytes) → encode_bytes f ≡ encode_uint16 (length (truncate 65535 f)) ++ truncate 65535 f
unfolding encode_bytes
encode_bytes_lem f =
    let small : length (truncate 65535 f) % 2 ^ 16 ≡ length (truncate 65535 f) =
      omega (arith, length-truncate 65535 f) in
    rw small

-- `decodeBytes` reads back the first 65535 bytes of any field, and leaves what follows.
pub decode_bytes-encode_bytes :
    (f r : Bytes) → decode_bytes (encode_bytes f ++ r) ≡ got (truncate 65535 f) r
decode_bytes-encode_bytes f r =
    let cut = truncate 65535 f in
    rw (encode_bytes_lem f, append_assoc (encode_uint16 (length cut)) cut r)
      (rw (decode_bytes-prefix (length cut) (cut ++ r) (omega (arith, length-truncate 65535 f)))
        (read-append cut r))

-- The same for a field that fits.
pub decode_bytes_short :
    (f r : Bytes) → length f ≤ 65535 → decode_bytes (encode_bytes f ++ r) ≡ got f r
decode_bytes_short f r h = rw (decode_bytes-encode_bytes f r, truncate_short 65535 f h)

pub decode_string_short :
    (f r : Bytes) → length f ≤ 65535 → decode_string (encode_string f ++ r) ≡ got f r
unfolding decode_string encode_string
decode_string_short f r h = decode_bytes_short f r h

pub length-encode_bytes : (f : Bytes) → length f ≤ 65535 → length (encode_bytes f) ≡ length f + 2
length-encode_bytes f h =
    rw (encode_bytes_lem f, truncate_short 65535 f h) (unfold encode_uint16 in omega arith)

fill-nil : (n : ℕ) → fill n [] ≡ replicate n 0
unfolding fill
fill-nil zero = refl
fill-nil (suc n) = ap (λ l. 0 ∷ l) (fill-nil n)

fill_short : (n : ℕ) (xs : Bytes) → length xs ≤ n → fill n xs ≡ xs ++ replicate (n - length xs) 0
unfolding fill
fill_short n [] h = rw (sub-zero n) (fill-nil n)
fill_short zero (x ∷ xs) h = absurd (omega arith)
fill_short (suc n) (x ∷ xs) h = rw suc-sub-suc (ap (λ l. x ∷ l) (fill_short n xs (omega arith)))

drop_all : (n : ℕ) (xs : Bytes) → length xs ≤ n → drop n xs ≡ []
drop_all zero [] h = refl
drop_all zero (x ∷ xs) h = absurd (omega arith)
drop_all (suc n) [] h = refl
drop_all (suc n) (x ∷ xs) h = drop_all n xs (omega arith)

read_short :
    (n x : ℕ) (xs : Bytes)
    → length (x ∷ xs) ≤ n
    → read n (x ∷ xs) ≡ got ((x ∷ xs) ++ replicate (n - length (x ∷ xs)) 0) []
unfolding read
read_short zero x xs h = absurd (omega arith)
read_short (suc n) x xs h = rw (fill_short (suc n) (x ∷ xs) h, drop_all (suc n) (x ∷ xs) h)

-- Where a field announces `n` bytes and at least one but not all of them are left, `decodeBytes`
-- reports no error: the field is what is left, with zeros up to the announced length.
pub decode_bytes_pads :
    (n x : ℕ) (xs : Bytes)
    → n < 65536
    → length (x ∷ xs) ≤ n
    → decode_bytes (encode_uint16 n ++ (x ∷ xs))
      ≡ got ((x ∷ xs) ++ replicate (n - length (x ∷ xs)) 0) []
decode_bytes_pads n x xs h short = rw (decode_bytes-prefix n (x ∷ xs) h) (read_short n x xs short)
