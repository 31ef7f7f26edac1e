-- ===== src/Base/Bits.antt =====
-- Facts on `bit_and` and `bit_or`: tables over one byte, and disjoint bits at any width.
use Prim.Native.Nat.{ℕ, zero, suc, ◌+◌, ◌*◌, ◌/◌, ◌%◌, ◌^◌, ◌≤◌, ◌<◌, max, bit_and, bit_or}
use Prim.Native.Nat.{digits, bit_or-bitwise}
use mathlib.Core.Path.{◌≡◌, refl}
use mathlib.Core.Bool.{Bool, true, false, ◌&&◌}
use native.Mathlib.Omega.{arith}
use native.Mathlib.Nat.{pow-suc}
use paho_mqtt_golang.Base.Tests.{◌==◌, ==_iff}

-- A check of every value below a bound, by evaluation.
unfoldable pub all_below : ℕ → (ℕ → Bool) → Bool
all_below (suc bound) good = good bound && all_below bound good
all_below zero good = true

pub all_below_sound :
    (bound : ℕ) (good : ℕ → Bool) (i : ℕ) → all_below bound good ≡ true → i < bound → good i ≡ true
unfolding all_below
all_below_sound (suc bound) good i table less = ground (arith, all_below_sound bound good i)
all_below_sound zero good i table less = absurd (omega arith)

-- The same over the two truth values.
unfoldable pub both : (Bool → Bool) → Bool
both p = p true && p false

pub both_sound : (p : Bool → Bool) (b : Bool) → both p ≡ true → p b ≡ true
unfolding both
both_sound p true h = ground arith
both_sound p false h = ground arith

module _ (f g : ℕ → ℕ) where
  pub agree_below : (n : ℕ) → all_below n (λ x. f x == g x) ≡ true → (x : ℕ) → x < n → f x ≡ g x
  agree_below n table x h = (==_iff _ _).0 (all_below_sound n (λ x. f x == g x) x table h)

pub low_bits : (b : ℕ) → b < 256 → bit_and b 127 ≡ b % 128
unfolding all_below
low_bits = agree_below _ _ 256 refl

pub top_bit : (b : ℕ) → b < 256 → bit_and b 128 ≡ b / 128 * 128
unfolding all_below
top_bit = agree_below _ _ 256 refl

pub set_top_bit : (b : ℕ) → b < 128 → bit_or b 128 ≡ b + 128
unfolding all_below
set_top_bit = agree_below _ _ 128 refl

-- The lowest digit of `bit_or`, from the definition that the native operation stands for.
abbrev or_digits : ℕ → ℕ → ℕ → ℕ
or_digits n a b = digits (λ b. b) max n a b

or_digits_zero : (fuel b : ℕ) → or_digits fuel 0 b ≡ b
or_digits_zero (suc fuel) b = refl
or_digits_zero zero b = refl

-- Any fuel that is at least the first number gives the same.
or_digits_fuel : (a b n m : ℕ) → a ≤ n → a ≤ m → or_digits n a b ≡ or_digits m a b
or_digits_fuel zero b n m lo lo' = omega (arith, or_digits_zero n b, or_digits_zero m b)
or_digits_fuel (suc a) b (suc n) (suc m) lo lo' =
    omega (arith, or_digits_fuel (suc a / 2) (b / 2) n m (omega arith) (omega arith))
or_digits_fuel (suc a) b (suc n) zero lo lo' = absurd (omega arith)
or_digits_fuel (suc a) b zero m lo lo' = absurd (omega arith)

pub zero-bit_or : (b : ℕ) → bit_or 0 b ≡ b
zero-bit_or b = bit_or-bitwise 0 b

bit_or_step : (a b : ℕ) → bit_or a b ≡ bit_or (a / 2) (b / 2) * 2 + max (a % 2) (b % 2)
bit_or_step zero b = omega (arith, zero-bit_or b, zero-bit_or (b / 2))
bit_or_step (suc a) b = omega (
  arith,
  bit_or-bitwise (suc a) b,
  bit_or-bitwise (suc a / 2) (b / 2),
  or_digits_fuel (suc a / 2) (b / 2) a (suc a / 2) (omega arith) (omega arith),
)

bit_or_double : (a b c : ℕ) → bit_or (a / 2) b ≡ c → bit_or a (b * 2) ≡ c * 2 + a % 2
bit_or_double a b c h =
    let half : b * 2 / 2 ≡ b = omega arith in
    let first : bit_or (a / 2) (b * 2 / 2) ≡ c = rw half h in
    omega (arith, bit_or_step a (b * 2), first)

-- `a | d << k` is a sum where `a` has no bit from `k` on.
pub bit_or_disjoint : (k a d : ℕ) → a < 2 ^ k → bit_or a (d * 2 ^ k) ≡ a + d * 2 ^ k
bit_or_disjoint zero a d h =
    let none_set : a ≡ 0 = omega arith in rw none_set (omega (arith, zero-bit_or (d * 2 ^ 0)))
bit_or_disjoint (suc k) a d h =
    let twice : d * 2 ^ suc k ≡ d * 2 ^ k * 2 = rw pow-suc (omega arith) in
    let less : a / 2 < 2 ^ k = omega (arith, pow-suc 2 k) in
    rw twice (omega (arith, bit_or_double a (d * 2 ^ k) _ (bit_or_disjoint k (a / 2) d less)))
