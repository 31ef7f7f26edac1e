-- ===== src/Store/Keys.antt =====
-- store.go: the keys, and the message ids in them.
use paho_mqtt_golang.Base.{
  ℕ, zero, suc, ◌+◌, ◌-◌, ◌*◌, ◌/◌, ◌%◌, ◌^◌, ◌≤◌, ◌<◌, ◌≡◌, ◌≢◌, refl, sym, ap, ◌∙◌, [], ◌∷◌, ◌++◌,
  Bytes, true, false, some, arith, str_eq,
}
use paho_mqtt_golang.Store.{
  decimal, inbound_key_from_mid, outbound_key_from_mid, parse_digits, parse_uint, mid_from_key,
  is_key_outbound, is_key_inbound,
}

-- One more digit behind digits that were read.
parse_digits-append :
    (s : Bytes) (n v d : ℕ)
    → parse_digits n s ≡ some v
    → d < 10
    → v * 10 + d ≤ 65535
    → parse_digits n (s ++ ((48 + d) ∷ [])) ≡ some (v * 10 + d)
unfolding parse_digits
parse_digits-append [] n v d h small fits = ground arith
parse_digits-append (c ∷ s) n v d h small fits =
    ground (arith, parse_digits-append s (n * 10 + (c - 48)) v d)

parse_digits-decimal :
    (fuel n : ℕ) → n < 10 ^ suc fuel → n ≤ 65535 → parse_digits 0 (decimal fuel n) ≡ some n
unfolding decimal parse_digits
parse_digits-decimal zero n h fits = ground arith
parse_digits-decimal (suc fuel) n h fits = ground (
  arith,
  pow_ten fuel,
  parse_digits-decimal fuel (n / 10),
  parse_digits-append (decimal fuel (n / 10)) 0 (n / 10) (n % 10),
)
  where
    pow_ten : (k : ℕ) → 10 ^ suc (suc k) ≡ 10 * 10 ^ suc k
    pow_ten k = omega arith

parse_uint_lem : (s t : Bytes) (c : ℕ) → parse_uint (s ++ (c ∷ t)) ≡ parse_digits 0 (s ++ (c ∷ t))
parse_uint_lem [] t c = refl
parse_uint_lem (d ∷ s) t c = refl

parse_uint-decimal : (fuel n : ℕ) → parse_uint (decimal fuel n) ≡ parse_digits 0 (decimal fuel n)
unfolding decimal
parse_uint-decimal zero n = refl
parse_uint-decimal (suc fuel) n =
    ground (arith, parse_uint_lem (decimal fuel (n / 10)) [] (48 + n % 10))

number_read : (id : ℕ) → id ≤ 65535 → parse_uint (decimal 4 id) ≡ some id
number_read id h = parse_uint-decimal 4 id ∙ parse_digits-decimal 4 id (omega arith) h

-- For every 16-bit id, the inbound and the outbound key lead back to the id, and each is told apart
-- from the other by its prefix.
pub mid_from_key_lem :
    (id : ℕ)
    → id ≤ 65535
    → (mid_from_key (inbound_key_from_mid id) ≡ some id)
      × (mid_from_key (outbound_key_from_mid id) ≡ some id)
      × (is_key_inbound (inbound_key_from_mid id) ≡ some true)
      × (is_key_outbound (inbound_key_from_mid id) ≡ some false)
      × (is_key_outbound (outbound_key_from_mid id) ≡ some true)
      × (is_key_inbound (outbound_key_from_mid id) ≡ some false)
unfolding mid_from_key inbound_key_from_mid outbound_key_from_mid is_key_inbound is_key_outbound
    str_eq
mid_from_key_lem id h = (number_read id h, number_read id h, refl, refl, refl, refl)

directions_distinct : (a b : ℕ) → inbound_key_from_mid a ≢ outbound_key_from_mid b
unfolding inbound_key_from_mid outbound_key_from_mid
directions_distinct a b e = ground arith

-- The keys of different 16-bit ids differ in each direction, and no inbound key is an outbound key.
pub keys_distinct :
    (a b : ℕ)
    → a ≤ 65535
    → b ≤ 65535
    → a ≢ b
    → (inbound_key_from_mid a ≢ inbound_key_from_mid b)
      × (outbound_key_from_mid a ≢ outbound_key_from_mid b)
      × (inbound_key_from_mid a ≢ outbound_key_from_mid a)
      × (inbound_key_from_mid a ≢ outbound_key_from_mid b)
keys_distinct a b ha hb ne = (
  λ e.
      let same : some a ≡ some b =
        sym (mid_from_key_lem a ha).0 ∙ (ap mid_from_key e ∙ (mid_from_key_lem b hb).0) in
      ne (ground (arith, same)),
  λ e.
      let same : some a ≡ some b =
        sym (mid_from_key_lem a ha).1 ∙ (ap mid_from_key e ∙ (mid_from_key_lem b hb).1) in
      ne (ground (arith, same)),
  directions_distinct a a,
  directions_distinct a b,
)
