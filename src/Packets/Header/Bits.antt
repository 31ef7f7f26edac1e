-- ===== src/Packets/Header/Bits.antt =====
-- The first byte of a fixed header: its fields, by a table.
use paho_mqtt_golang.Base.{
  ℕ, ◌/◌, ◌<◌, ◌≡◌, refl, bit_and, Bool, true, false, ◌&&◌, ltb, ◌==◌, ==_iff, arith,
}
use paho_mqtt_golang.Base.Bits.{all_below, all_below_sound}
use paho_mqtt_golang.Packets.Header.{type_and_flags, split_flags}

abbrev same : Bool → Bool → Bool
same true b = b
same false true = false
same false false = true

-- The four fields are read back from the byte.
abbrev fields_kept : Bool → Bool → ℕ → ℕ → Bool
fields_kept dup retain t q =
    let byte = type_and_flags t dup q retain in
    let fh = split_flags byte 0 in
    fh.message_type == t
    && (same fh.dup dup && (fh.qos == q && (same fh.retain retain && ltb byte 256)))

fields_table :
    (dup retain : Bool) → all_below 16 (λ t. all_below 4 (fields_kept dup retain t)) ≡ true
unfolding all_below type_and_flags split_flags
fields_table true true = refl
fields_table true false = refl
fields_table false true = refl
fields_table false false = refl

fields_fact : (dup retain : Bool) (t q : ℕ) → t < 16 → q < 4 → fields_kept dup retain t q ≡ true
fields_fact dup retain t q ht hq =
    all_below_sound 4 (fields_kept dup retain t) q
      (all_below_sound 16 (λ t. all_below 4 (fields_kept dup retain t)) t (fields_table dup retain)
        ht)
      hq

-- The fields of the byte are those that it was built from.
pub split_flags-type_and_flags :
    (t q l : ℕ) (dup retain : Bool)
    → t < 16
    → q < 4
    → split_flags (type_and_flags t dup q retain) l
      ≡ record { message_type = t; dup = dup; qos = q; retain = retain; remaining_length = l }
unfolding split_flags
split_flags-type_and_flags t q l dup retain ht hq = ground (arith, fields_fact dup retain t q ht hq)

pub type_and_flags-IsByte :
    (t q : ℕ) (dup retain : Bool) → t < 16 → q < 4 → type_and_flags t dup q retain < 256
unfolding split_flags
type_and_flags-IsByte t q dup retain ht hq = ground (arith, fields_fact dup retain t q ht hq)

rebuilt_table :
    all_below 256
      (λ b. let fh = split_flags b 0 in type_and_flags fh.message_type fh.dup fh.qos fh.retain == b)
    ≡ true
unfolding all_below type_and_flags split_flags
rebuilt_table = refl

-- Every byte is the first byte of the fields that are read from it.
pub type_and_flags-split_flags :
    (b l : ℕ)
    → b < 256
    → type_and_flags
        (split_flags b l).message_type
        (split_flags b l).dup
        (split_flags b l).qos
        (split_flags b l).retain
      ≡ b
unfolding split_flags
type_and_flags-split_flags b l h = (==_iff _ b).0 (all_below_sound 256 _ b rebuilt_table h)

ranges_table : all_below 256 (λ b. ltb (b / 16) 16 && ltb (bit_and (b / 2) 3) 4) ≡ true
unfolding all_below
ranges_table = refl

pub split_flags_ranges :
    (b l : ℕ) → b < 256 → ((split_flags b l).message_type < 16) × ((split_flags b l).qos < 4)
unfolding split_flags
split_flags_ranges b l h = ground (
  arith,
  all_below_sound 256 (λ b. ltb (b / 16) 16 && ltb (bit_and (b / 2) 3) 4) b ranges_table h,
)
